-- ===== src/Bits/Step.antt =====
-- The native bit operations by their lowest binary digit: one lemma for the three of them, from the
-- recursion on digits that they stand for.
use Prim.Native.Nat.{digits, bitwise, differ, bit_and-bitwise, bit_or-bitwise, bit_xor-bitwise}
use riscvemu.Base.{
  ℕ, zero, suc, ◌+◌, ◌*◌, ◌/◌, ◌%◌, ◌≤◌, min, max, bit_and, bit_or, bit_xor, ◌≡◌, refl, sym, ap,
  ◌∙◌, arith,
}

-- An operation that ends in `z` on the second word and combines digits by `f`.
module _ (z : ℕ → ℕ) (f : ℕ → ℕ → ℕ) where
  no_digits : (rounds b : ℕ) → digits z f rounds 0 b ≡ z b
  no_digits zero b = refl
  no_digits (suc rounds) b = refl

  -- Two numbers of rounds give the same when both are enough for the first word.
  spare_rounds : (k l : ℕ) (a b : ℕ) → a ≤ l → a ≤ k → digits z f k a b ≡ digits z f l a b
  spare_rounds k l zero b h i = no_digits k b ∙ sym (no_digits l b)
  spare_rounds zero l (suc a) b h i = absurd (omega arith)
  spare_rounds (suc k) zero (suc a) b h i = absurd (omega arith)
  spare_rounds (suc k) (suc l) (suc a) b h i =
      let half = suc a / 2 in
      ap (λ (t : ℕ). t * 2 + f (suc a % 2) (b % 2))
        (spare_rounds k l half (b / 2) (omega arith) (omega arith))

  module _ (op : ℕ → ℕ → ℕ) (meaning : (a b : ℕ) → op a b ≡ bitwise z f a b)
      (end : (b : ℕ) → z b ≡ z (b / 2) * 2 + f 0 (b % 2)) where
    pub lowest_digit : (a b : ℕ) → op a b ≡ op (a / 2) (b / 2) * 2 + f (a % 2) (b % 2)
    lowest_digit zero b =
        meaning 0 b ∙ end b ∙ ap (λ (t : ℕ). t * 2 + f 0 (b % 2)) (sym (meaning 0 (b / 2)))
    lowest_digit (suc a) b =
        let half = suc a / 2 in
        let same = spare_rounds a half half (b / 2) (omega arith) (omega arith) in
        meaning (suc a) b
        ∙ ap (λ (t : ℕ). t * 2 + f (suc a % 2) (b % 2)) (same ∙ sym (meaning half (b / 2)))

pub bit_and_step : (a b : ℕ) → bit_and a b ≡ bit_and (a / 2) (b / 2) * 2 + min (a % 2) (b % 2)
bit_and_step = lowest_digit (λ b. 0) min bit_and bit_and-bitwise (λ b. omega arith)

pub bit_or_step : (a b : ℕ) → bit_or a b ≡ bit_or (a / 2) (b / 2) * 2 + max (a % 2) (b % 2)
bit_or_step = lowest_digit (λ b. b) max bit_or bit_or-bitwise (λ b. omega arith)

pub bit_xor_step : (a b : ℕ) → bit_xor a b ≡ bit_xor (a / 2) (b / 2) * 2 + differ (a % 2) (b % 2)
bit_xor_step = lowest_digit (λ b. b) differ bit_xor bit_xor-bitwise (λ b. ground arith)
