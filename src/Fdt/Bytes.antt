-- ===== src/Fdt/Bytes.antt =====
-- What the memory holds after the writes of src/device/fdt.c.
use riscvemu.Base.{
  ℕ, zero, suc, ◌+◌, ◌≤◌, ◌<◌, ◌≡◌, ◌∙◌, ◌⊎◌, inl, refl, sym, List, [], ◌∷◌, ◌++◌, length, update,
  arith,
}
use riscvemu.Fdt.{write_bytes}

-- The `n` bytes from `a` on.
abbrev pub read : ℕ → ℕ → (ℕ → ℕ) → List ℕ
read a zero memory = []
read a (suc n) memory = memory a ∷ read (suc a) n memory

pub length-append {ℓ} : {A : Type ℓ} (xs ys : List A) → length (xs ++ ys) ≡ length xs + length ys
length-append [] ys = omega arith
length-append (x ∷ xs) ys = let rest = length-append xs ys in omega arith

pub read_congr :
    (a n : ℕ) (memory next : ℕ → ℕ)
    → ((j : ℕ) → a ≤ j → j < a + n → next j ≡ memory j)
    → read a n next ≡ read a n memory
read_congr a zero memory next same = refl
read_congr a (suc n) memory next same =
    let first = same a (omega arith) (omega arith) in
    let rest = read_congr (suc a) n memory next λ j l u. same j (omega arith) (omega arith) in
    cc (first, rest)

pub read-add :
    (a n k : ℕ) (memory : ℕ → ℕ) → read a (n + k) memory ≡ read a n memory ++ read (a + n) k memory
read-add a zero k memory =
    let nothing : 0 + k ≡ k = omega arith in
    let here : a + 0 ≡ a = omega arith in rw (nothing, here)
read-add a (suc n) k memory =
    let shift : suc a + n ≡ a + suc n = omega arith in
    let sum : suc n + k ≡ suc (n + k) = omega arith in
    rw (sum, sym shift, read-add (suc a) n k memory)

pub write_bytes_frame :
    (a : ℕ) (xs : List ℕ) (memory : ℕ → ℕ) (j : ℕ)
    → (j < a) ⊎ (a + length xs ≤ j)
    → write_bytes a xs memory j ≡ memory j
unfolding write_bytes
write_bytes_frame a [] memory j out = refl
write_bytes_frame a (x ∷ xs) memory j out =
    let rest = write_bytes_frame (suc a) xs (update memory a x) j (ground arith) in
    ground (arith, rest)

pub read-write_bytes :
    (a : ℕ) (xs : List ℕ) (memory : ℕ → ℕ) → read a (length xs) (write_bytes a xs memory) ≡ xs
unfolding write_bytes
read-write_bytes a [] memory = refl
read-write_bytes a (x ∷ xs) memory =
    let next = update memory a x in
    let first : write_bytes (suc a) xs next a ≡ x =
      write_bytes_frame (suc a) xs next a (inl (omega arith)) ∙ ground arith in
    cc (first, read-write_bytes (suc a) xs next)

-- Bytes written right after others that the memory holds make one run with them.
pub read-write_bytes_after :
    (a : ℕ) (xs ys : List ℕ) (memory : ℕ → ℕ)
    → read a (length xs) memory ≡ xs
    → read a (length (xs ++ ys)) (write_bytes (a + length xs) ys memory) ≡ xs ++ ys
read-write_bytes_after a xs ys memory held =
    let end = a + length xs in
    let next = write_bytes end ys memory in
    let kept : read a (length xs) next ≡ xs =
      read_congr a (length xs) memory next (λ j l u. write_bytes_frame end ys memory j (inl u))
      ∙ held in
    rw (
      length-append xs ys,
      read-add a (length xs) (length ys) next,
      kept,
      read-write_bytes end ys memory,
    )

-- Bytes held outside of a write stay.
pub read-write_bytes_off :
    (a n c : ℕ) (ys : List ℕ) (memory : ℕ → ℕ)
    → (a + n ≤ c) ⊎ (c + length ys ≤ a)
    → read a n (write_bytes c ys memory) ≡ read a n memory
read-write_bytes_off a n c ys memory off =
    read_congr a n memory (write_bytes c ys memory)
      λ j l u. write_bytes_frame c ys memory j (ground arith)

-- Two runs of bytes, one after the other.
pub read-join :
    (a : ℕ) (xs ys : List ℕ) (memory : ℕ → ℕ)
    → read a (length xs) memory ≡ xs
    → read (a + length xs) (length ys) memory ≡ ys
    → read a (length (xs ++ ys)) memory ≡ xs ++ ys
read-join a xs ys memory first second =
    rw (length-append xs ys, read-add a (length xs) (length ys) memory, first, second)
