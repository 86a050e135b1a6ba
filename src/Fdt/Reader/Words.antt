-- ===== src/Fdt/Reader/Words.antt =====
-- What the reader of device trees finds in words, texts and values that were written.
use mathlib.Core.Path.{subst}
use riscvemu.Base.{
  ℕ, zero, suc, ◌-◌, ◌%◌, ◌^◌, ◌<◌, ◌≡◌, refl, ap, true, List, [], ◌∷◌, ◌++◌, some, length,
  replicate, length-replicate, ◌>>>◌, arith,
}
use riscvemu.Bits.{bit_and-ones}
use riscvemu.Fdt.{be32}
use riscvemu.Fdt.Tokens.{padding}
use riscvemu.Fdt.Reader.{read_word, read_text, take, drop, skip_words, is_text}

pub read_word-be32 :
    (v : ℕ) (rest : List ℕ) → v < 2 ^ 32 → read_word (be32 v ++ rest) ≡ some (v, rest)
unfolding read_word
read_word-be32 v rest small =
    let second = bit_and-ones 8 (v >>> 16) in
    let third = bit_and-ones 8 (v >>> 8) in
    let last = bit_and-ones 8 v in ap (λ (t : ℕ). some (t, rest)) (omega arith)

pub read_text-append :
    (s rest : List ℕ) → is_text s ≡ true → read_text (s ++ 0 ∷ rest) ≡ some (s, rest)
unfolding read_text is_text
read_text-append [] rest h = refl
read_text-append (zero ∷ s) rest h = absurd (ground (arith, h))
read_text-append (suc c ∷ s) rest h = rw (read_text-append s rest h)

module _ {ℓ} {A : Type ℓ} where
  pub take-append : (xs ys : List A) → take (length xs) (xs ++ ys) ≡ xs
  take-append [] ys = refl
  take-append (x ∷ xs) ys = ap (◌∷◌ x) (take-append xs ys)

  pub drop-append : (xs ys : List A) → drop (length xs) (xs ++ ys) ≡ ys
  drop-append [] ys = refl
  drop-append (x ∷ xs) ys = drop-append xs ys

pub skip_words-padding : (n : ℕ) (rest : List ℕ) → skip_words n (padding n ++ rest) ≡ rest
unfolding skip_words
skip_words-padding n rest =
    let pad = (4 - n % 4) % 4 in
    let size : length (replicate pad 0) ≡ pad = length-replicate {A = ℕ} pad 0 in
    let dropped = drop-append (replicate pad 0) rest in
    subst (λ (k : ℕ). drop k (replicate pad 0 ++ rest) ≡ rest) size dropped
