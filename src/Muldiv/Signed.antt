-- ===== src/Muldiv/Signed.antt =====
-- The signed quotient and remainder of one division.
use native.Mathlib.Nat.{div-add-mod', add-mul, mul-add, mod-le, div-le_self}
use native.Mathlib.Decide.{dec_lt}
use riscvemu.Base.{
  ℕ, suc, ◌+◌, ◌-◌, ◌*◌, ◌/◌, ◌%◌, ◌^◌, ◌≤◌, ◌<◌, ◌≡◌, ◌∙◌, refl, sym, ap, u32, arith,
}
use riscvemu.Base.Int.{ℤ, pos, negsuc, sub_ℕ, pos_part, neg_part, uint32}
use riscvemu.Muldiv.{div_ℤ, mod_ℤ}

wrap_mul : (p w r : ℕ) → p ≤ 2 ^ 32 → u32 (p % 2 ^ 32 * w + r) ≡ u32 (p * w + r)
wrap_mul p w r h = elim (dec_lt p (2 ^ 32)) [
  | yes l ↦ let e : p % 2 ^ 32 ≡ p = omega arith in rw e refl
  | no l ↦ let e : p ≡ 2 ^ 32 = omega arith in rw e (omega arith)
]

-- The products of a word and of a negated word.
mul_negated : (p q b : ℕ) → p + q ≡ 2 ^ 32 → p * b + q * b ≡ 2 ^ 32 * b
mul_negated p q b h = sym (add-mul p q b) ∙ ap (λ (t : ℕ). t * b) h

negated_mul : (q w b : ℕ) → w + b ≡ 2 ^ 32 → q * w + q * b ≡ q * 2 ^ 32
negated_mul q w b h = sym (mul-add q w b) ∙ ap (λ (t : ℕ). q * t) h

wrapped_eq : (x y z w q r : ℕ) → x + y ≡ 2 ^ 32 * w → y + z ≡ q * 2 ^ 32 → u32 (x + r) ≡ u32 (z + r)
wrapped_eq x y z w q r h k = omega arith

negated_sum :
    (x y k r a : ℕ)
    → x + y ≡ 2 ^ 32 * k
    → y + r ≡ a
    → a ≤ 2 ^ 32
    → u32 (x + (2 ^ 32 - r) % 2 ^ 32) ≡ (2 ^ 32 - a) % 2 ^ 32
negated_sum x y k r a h e l = omega arith

module _ (q b r a : ℕ) (hq : q ≤ 2 ^ 32) (hb : b ≤ 2 ^ 32) (ha : a ≤ 2 ^ 32)
    (e : q * b + r ≡ a) where
  both_negated : u32 ((2 ^ 32 - q) % 2 ^ 32 * (2 ^ 32 - b) + r) ≡ u32 a
  both_negated =
      wrap_mul (2 ^ 32 - q) (2 ^ 32 - b) r (omega arith)
      ∙ wrapped_eq ((2 ^ 32 - q) * (2 ^ 32 - b)) (q * (2 ^ 32 - b)) (q * b) (2 ^ 32 - b) q r
          (mul_negated (2 ^ 32 - q) q (2 ^ 32 - b) (omega arith))
          (negated_mul q (2 ^ 32 - b) b (omega arith))
      ∙ ap u32 e

  quotient_negated : u32 ((2 ^ 32 - q) % 2 ^ 32 * b + (2 ^ 32 - r) % 2 ^ 32) ≡ (2 ^ 32 - a) % 2 ^ 32
  quotient_negated =
      wrap_mul (2 ^ 32 - q) b ((2 ^ 32 - r) % 2 ^ 32) (omega arith)
      ∙ negated_sum ((2 ^ 32 - q) * b) (q * b) b r a (mul_negated (2 ^ 32 - q) q b (omega arith)) e
          ha

  divisor_negated : u32 (q * (2 ^ 32 - b) + (2 ^ 32 - r) % 2 ^ 32) ≡ (2 ^ 32 - a) % 2 ^ 32
  divisor_negated =
      negated_sum (q * (2 ^ 32 - b)) (q * b) q r a
        (negated_mul q (2 ^ 32 - b) b (omega arith) ∙ omega arith) e ha

-- The patterns of an integer and of a negated word.
uint32-pos : (n : ℕ) → n < 2 ^ 32 → uint32 (pos n) ≡ n
uint32-pos n h = omega arith

uint32-negsuc : (n : ℕ) → suc n < 2 ^ 32 → uint32 (negsuc n) ≡ 2 ^ 32 - suc n
uint32-negsuc n h = omega arith

uint32-sub_ℕ : (n : ℕ) → n ≤ 2 ^ 32 → uint32 (sub_ℕ 0 n) ≡ (2 ^ 32 - n) % 2 ^ 32
uint32-sub_ℕ n h = ground arith

abbrev pub magnitude : ℤ → ℕ
magnitude z = pos_part z + neg_part z

module _ (a b : ℕ) (h : a < 2 ^ 32) where
  quotient_small : a / b < 2 ^ 32
  quotient_small = let l = div-le_self a b in omega arith

  remainder_small : a % b < 2 ^ 32
  remainder_small = let l = mod-le a b in omega arith

module _ (a d : ℕ) (y : ℤ) (e : magnitude y ≡ d) where
  pub mod_ℤ-pos : a < 2 ^ 32 → uint32 (mod_ℤ (pos a) y) ≡ a % d
  mod_ℤ-pos h = rw e (uint32-pos (a % d) (remainder_small a d h))

  pub mod_ℤ-negsuc : suc a < 2 ^ 32 → uint32 (mod_ℤ (negsuc a) y) ≡ (2 ^ 32 - suc a % d) % 2 ^ 32
  mod_ℤ-negsuc h =
      let r = remainder_small (suc a) d h in rw e (uint32-sub_ℕ (suc a % d) (omega arith))

-- Quotient times divisor plus remainder is the dividend, as words.
pub div_ℤ-mod_ℤ :
    (x y : ℤ)
    → magnitude x < 2 ^ 32
    → magnitude y < 2 ^ 32
    → u32 (uint32 (div_ℤ x y) * uint32 y + uint32 (mod_ℤ x y)) ≡ uint32 x
div_ℤ-mod_ℤ (pos a) (pos b) h k =
    let q = quotient_small a b (omega arith) in
    rw
      (
        uint32-pos (a / b) q,
        uint32-pos b (omega arith),
        mod_ℤ-pos a b (pos b) (omega arith) (omega arith),
      )
      (ap u32 (div-add-mod' a b))
div_ℤ-mod_ℤ (pos a) (negsuc b) h k =
    let q = quotient_small a (suc b) (omega arith) in
    rw
      (
        uint32-sub_ℕ (a / suc b) (omega arith),
        uint32-negsuc b (omega arith),
        mod_ℤ-pos a (suc b) (negsuc b) (omega arith) (omega arith),
      )
      (both_negated (a / suc b) (suc b) (a % suc b) a (omega arith) (omega arith) (omega arith)
        (div-add-mod' a (suc b)))
div_ℤ-mod_ℤ (negsuc a) (pos b) h k =
    let q = quotient_small (suc a) b (omega arith) in
    rw
      (
        uint32-sub_ℕ (suc a / b) (omega arith),
        uint32-pos b (omega arith),
        mod_ℤ-negsuc a b (pos b) (omega arith) (omega arith),
      )
      (quotient_negated (suc a / b) b (suc a % b) (suc a) (omega arith) (omega arith) (omega arith)
          (div-add-mod' (suc a) b)
        ∙ omega arith)
div_ℤ-mod_ℤ (negsuc a) (negsuc b) h k =
    let q = quotient_small (suc a) (suc b) (omega arith) in
    rw
      (
        uint32-pos (suc a / suc b) q,
        uint32-negsuc b (omega arith),
        mod_ℤ-negsuc a (suc b) (negsuc b) (omega arith) (omega arith),
      )
      (divisor_negated (suc a / suc b) (suc b) (suc a % suc b) (suc a) (omega arith) (omega arith)
          (omega arith) (div-add-mod' (suc a) (suc b))
        ∙ omega arith)
