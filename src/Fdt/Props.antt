-- ===== src/Fdt/Props.antt =====
-- The calls of src/device/fdt.c that write texts and properties, between two tokens.
use riscvemu.Base.{
  ℕ, ◌+◌, ◌-◌, ◌*◌, ◌%◌, ◌≤◌, ◌≡◌, refl, sym, ap, List, [], ◌∷◌, ◌++◌, some, append_assoc,
  append-nil, length, replicate, arith,
}
use riscvemu.Fdt.{
  FdtBuilder, be32, write_bytes, struct_word, struct_bytes, struct_align, struct_string,
  strings_intern, prop_begin, write_cells, fdt_struct_max, fdt_prop,
}
use riscvemu.Fdt.Bytes.{length-append}
use riscvemu.Fdt.Tokens.{padding, padded, cell_bytes}
use riscvemu.Fdt.Filled.{
  IsFilled, strings_max, struct_bytes-IsFilled, struct_word-IsFilled, strings_intern-IsFilled,
  struct_align-IsFilled,
}

pub padding_after : (n k : ℕ) → n % 4 ≡ 0 → padding (n + k) ≡ padding k
padding_after n k even =
    let same : (4 - (n + k) % 4) % 4 ≡ (4 - k % 4) % 4 = omega arith in
    ap (λ (t : ℕ). replicate t 0) same

padded_after : (S xs : List ℕ) → length S % 4 ≡ 0 → padded (S ++ xs) ≡ S ++ padded xs
padded_after S xs even =
    rw (length-append S xs, padding_after (length S) (length xs) even)
      (append_assoc S xs (padding (length xs)))

-- A length that is a multiple of 4 needs no padding.
pub padded_whole : (xs : List ℕ) → length xs % 4 ≡ 0 → padded xs ≡ xs
padded_whole xs even =
    let left : (4 - length xs % 4) % 4 ≡ 0 = omega arith in
    let nothing : padding (length xs) ≡ [] = ap (λ (t : ℕ). replicate t 0) left in
    rw nothing (append-nil xs)

struct_string-eq :
    (s : List ℕ) (b : FdtBuilder)
    → struct_string s b ≡ struct_align (struct_bytes (0 ∷ []) (struct_bytes s b))
unfolding struct_string struct_bytes write_bytes
struct_string-eq s b = refl

pub length-cell_bytes : (vals : List ℕ) → length (cell_bytes vals) ≡ length vals * 4
length-cell_bytes [] = omega arith
length-cell_bytes (v ∷ vals) = let rest = length-cell_bytes vals in omega arith

module _ (m : ℕ → ℕ) (base d : ℕ) where
  abbrev Filled : List ℕ → List ℕ → FdtBuilder → Type 0
  Filled S T b = IsFilled m base S T d b

  pub value-IsFilled :
      (S T xs : List ℕ) (b : FdtBuilder)
      → length S % 4 ≡ 0
      → length (S ++ padded xs) ≤ fdt_struct_max
      → Filled S T b
      → Filled (S ++ padded xs) T (struct_align (struct_bytes xs b))
  value-IsFilled S T xs b even fits f =
      let sum = length-append S (padded xs) in
      let size = length-append xs (padding (length xs)) in
      let part = length-append S xs in
      let c = struct_bytes-IsFilled m base S T d b f xs (omega arith) in
      rw (sym (padded_after S xs even))
        (struct_align-IsFilled m base T d (S ++ xs) (struct_bytes xs b) c)

  pub struct_string-IsFilled :
      (S T s : List ℕ) (b : FdtBuilder)
      → length S % 4 ≡ 0
      → length (S ++ padded (s ++ 0 ∷ [])) ≤ fdt_struct_max
      → Filled S T b
      → Filled (S ++ padded (s ++ 0 ∷ [])) T (struct_string s b)
  struct_string-IsFilled S T s b even fits f =
      let text = s ++ 0 ∷ [] in
      let sum = length-append S (padded text) in
      let size = length-append text (padding (length text)) in
      let whole = length-append s (0 ∷ []) in
      let part = length-append S s in
      let last = length-append (S ++ s) (0 ∷ []) in
      let c = struct_bytes-IsFilled m base S T d b f s (omega arith) in
      let e =
        struct_bytes-IsFilled m base (S ++ s) T d (struct_bytes s b) c (0 ∷ []) (omega arith) in
      rw (struct_string-eq s b, sym (padded_after S text even), sym (append_assoc S s (0 ∷ [])))
        (struct_align-IsFilled m base T d (S ++ s ++ 0 ∷ [])
          (struct_bytes (0 ∷ []) (struct_bytes s b)) e)

  pub write_cells-IsFilled :
      (S T vals : List ℕ) (b : FdtBuilder)
      → length (S ++ cell_bytes vals) ≤ fdt_struct_max
      → Filled S T b
      → Filled (S ++ cell_bytes vals) T (write_cells vals b)
  unfolding write_cells
  write_cells-IsFilled S T [] b fits f = rw (append-nil S) f
  write_cells-IsFilled S T (v ∷ vals) b fits f =
      let sum = length-append S (cell_bytes (v ∷ vals)) in
      let first = length-append S (be32 v) in
      let rest = length-append (S ++ be32 v) (cell_bytes vals) in
      let c = struct_bytes-IsFilled m base S T d b f (be32 v) (omega arith) in
      rw (sym (append_assoc S (be32 v) (cell_bytes vals)))
        (write_cells-IsFilled (S ++ be32 v) T vals (struct_bytes (be32 v) b) (omega arith) c)

  pub prop_begin-IsFilled :
      (S T name : List ℕ) (len : ℕ) (b : FdtBuilder)
      → length S + 12 ≤ fdt_struct_max
      → length (T ++ (name ++ 0 ∷ [])) ≤ strings_max
      → Filled S T b
      → (c : FdtBuilder) × (prop_begin name len b ≡ some c)
        × Filled (S ++ (be32 fdt_prop ++ be32 len ++ be32 (length T))) (T ++ (name ++ 0 ∷ [])) c
  unfolding prop_begin
  prop_begin-IsFilled S T name len b fits fit f =
      let first = length-append S (be32 fdt_prop) in
      let second = length-append (S ++ be32 fdt_prop) (be32 len) in
      let third = length-append (S ++ be32 fdt_prop ++ be32 len) (be32 (length T)) in
      let w = struct_word-IsFilled m base S T d b f fdt_prop (omega arith) in
      let b' = struct_word fdt_prop b in
      let x = struct_word-IsFilled m base (S ++ be32 fdt_prop) T d b' w len (omega arith) in
      let c = struct_word len b' in
      let (place, y) =
        strings_intern-IsFilled m base (S ++ be32 fdt_prop ++ be32 len) T d c x name fit in
      let z =
        struct_word-IsFilled m base (S ++ be32 fdt_prop ++ be32 len) (T ++ (name ++ 0 ∷ [])) d
          (strings_intern name c).1 y (length T) (omega arith) in
      (
        struct_word (length T) (strings_intern name c).1,
        rw (place, f.no_err),
        rw
            (
              sym (append_assoc S (be32 fdt_prop ++ be32 len) (be32 (length T))),
              sym (append_assoc S (be32 fdt_prop) (be32 len)),
            )
            z,
      )
