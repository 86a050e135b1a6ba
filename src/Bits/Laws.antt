-- ===== src/Bits/Laws.antt =====
-- Shifts, fields, single bits and bounds of `&`, `|` and `^`, and equality bit by bit.
use Prim.Native.Nat.{differ, bit_or-bitwise, bit_and-bitwise}
use native.Mathlib.Nat.{
  zero-div, pow-le-pow_right, le_trans, mod-eq_of_lt, two-pow-succ, div-add-mod', mul-div_left,
  div-eq_of_lt, mul-mod_left,
}
use mathlib.Core.Path.{ap₂}
use riscvemu.Base.{
  sym, ◌==◌, if◌then◌else◌, ℕ, zero, suc, ◌+◌, ◌-◌, ◌*◌, ◌/◌, ◌%◌, ◌^◌, ◌≤◌, ◌<◌, ◌≡◌, refl, ap,
  ◌∙◌, arith, min, max, bit_and, bit_or, bit_xor,
}
use riscvemu.Bits.Step.{bit_and_step, bit_or_step, bit_xor_step}
use riscvemu.Bits.Digit.{
  bit, op-shr, op-bit, op-mod, op-lt, div-two-pow-suc, mod-two-pow-suc, two_pow_pos,
}

min-digit : (a b : ℕ) → min (a % 2) (b % 2) < 2
min-digit a b = omega arith

max-digit : (a b : ℕ) → max (a % 2) (b % 2) < 2
max-digit a b = omega arith

differ-lt : (x y : ℕ) → x < 2 → y < 2 → differ x y < 2
differ-lt zero y h l = l
differ-lt (suc x) zero h l = h
differ-lt (suc zero) (suc y) h l = omega arith
differ-lt (suc (suc x)) (suc y) h l = absurd (omega arith)

differ-digit : (a b : ℕ) → differ (a % 2) (b % 2) < 2
differ-digit a b = differ-lt (a % 2) (b % 2) (omega arith) (omega arith)

pub bit_and-shr : (k a b : ℕ) → bit_and a b / 2 ^ k ≡ bit_and (a / 2 ^ k) (b / 2 ^ k)
bit_and-shr = op-shr bit_and min bit_and_step min-digit refl

pub bit_or-shr : (k a b : ℕ) → bit_or a b / 2 ^ k ≡ bit_or (a / 2 ^ k) (b / 2 ^ k)
bit_or-shr = op-shr bit_or max bit_or_step max-digit refl

pub bit_and-mod : (k a b : ℕ) → bit_and a b % 2 ^ k ≡ bit_and (a % 2 ^ k) (b % 2 ^ k)
bit_and-mod = op-mod bit_and min bit_and_step min-digit refl

pub bit_or-mod : (k a b : ℕ) → bit_or a b % 2 ^ k ≡ bit_or (a % 2 ^ k) (b % 2 ^ k)
bit_or-mod = op-mod bit_or max bit_or_step max-digit refl

pub bit-bit_and : (k a b : ℕ) → bit (bit_and a b) k ≡ min (bit a k) (bit b k)
bit-bit_and = op-bit bit_and min bit_and_step min-digit refl

pub bit-bit_or : (k a b : ℕ) → bit (bit_or a b) k ≡ max (bit a k) (bit b k)
bit-bit_or = op-bit bit_or max bit_or_step max-digit refl

pub bit-bit_xor : (k a b : ℕ) → bit (bit_xor a b) k ≡ differ (bit a k) (bit b k)
bit-bit_xor = op-bit bit_xor differ bit_xor_step differ-digit refl

pub bit_or-lt : (k a b : ℕ) → a < 2 ^ k → b < 2 ^ k → bit_or a b < 2 ^ k
bit_or-lt = op-lt bit_or max bit_or_step max-digit refl

pub bit_xor-lt : (k a b : ℕ) → a < 2 ^ k → b < 2 ^ k → bit_xor a b < 2 ^ k
bit_xor-lt = op-lt bit_xor differ bit_xor_step differ-digit refl

bit_and-zero_below : (n a : ℕ) → a ≤ n → bit_and a 0 ≡ 0
bit_and-zero_below n zero h = refl
bit_and-zero_below zero (suc a) h = absurd (omega arith)
bit_and-zero_below (suc n) (suc a) h =
    omega (arith, bit_and_step (suc a) 0, bit_and-zero_below n (suc a / 2) (omega arith))

pub bit_and-zero : (a : ℕ) → bit_and a 0 ≡ 0
bit_and-zero a = bit_and-zero_below a a (omega arith)

bit_or-zero_below : (n a : ℕ) → a ≤ n → bit_or a 0 ≡ a
bit_or-zero_below n zero h = refl
bit_or-zero_below zero (suc a) h = absurd (omega arith)
bit_or-zero_below (suc n) (suc a) h =
    omega (arith, bit_or_step (suc a) 0, bit_or-zero_below n (suc a / 2) (omega arith))

pub zero-bit_or : (a : ℕ) → bit_or 0 a ≡ a
zero-bit_or a = bit_or-bitwise 0 a

pub zero-bit_and : (a : ℕ) → bit_and 0 a ≡ 0
zero-bit_and a = bit_and-bitwise 0 a

pub bit_or-zero : (a : ℕ) → bit_or a 0 ≡ a
bit_or-zero a = bit_or-zero_below a a (omega arith)

bit_and-le_below : (n a b : ℕ) → b ≤ n → bit_and a b ≤ b
bit_and-le_below n a zero h = omega (arith, bit_and-zero a)
bit_and-le_below zero a (suc b) h = absurd (omega arith)
bit_and-le_below (suc n) a (suc b) h =
    omega (arith, bit_and_step a (suc b), bit_and-le_below n (a / 2) (suc b / 2) (omega arith))

pub bit_and-le_right : (a b : ℕ) → bit_and a b ≤ b
bit_and-le_right a b = bit_and-le_below b a b (omega arith)

bit_and-le_left_below : (n a b : ℕ) → a ≤ n → bit_and a b ≤ a
bit_and-le_left_below n zero b h = omega (arith, zero-bit_and b)
bit_and-le_left_below zero (suc a) b h = absurd (omega arith)
bit_and-le_left_below (suc n) (suc a) b h =
    omega (arith, bit_and_step (suc a) b, bit_and-le_left_below n (suc a / 2) (b / 2) (omega arith))

pub bit_and-le_left : (a b : ℕ) → bit_and a b ≤ a
bit_and-le_left a b = bit_and-le_left_below a a b (omega arith)

-- Two words of `n` bits are equal when they agree at every bit.
pub bits_ext : (n x y : ℕ) → x < 2 ^ n → y < 2 ^ n → ((k : ℕ) → k < n → bit x k ≡ bit y k) → x ≡ y
bits_ext zero x y h l e = omega arith
bits_ext (suc n) x y h l e =
    let half : x / 2 ≡ y / 2 =
      bits_ext n (x / 2) (y / 2) (omega (arith, two-pow-succ n)) (omega (arith, two-pow-succ n))
        λ k below.
          omega (arith, e (suc k) (omega arith), div-two-pow-suc x k, div-two-pow-suc y k) in
    omega (arith, half, e 0 (omega arith))

-- `m & (1 << k)` is bit `k` in its place.
pub bit_and-two-pow : (k m : ℕ) → bit_and m (2 ^ k) ≡ bit m k * 2 ^ k
bit_and-two-pow zero m = omega (arith, bit_and_step m 1, bit_and-zero (m / 2))
bit_and-two-pow (suc k) m =
    let e : 2 ^ suc k / 2 ≡ 2 ^ k = omega (arith, two-pow-succ k) in
    omega (
      arith,
      bit_and_step m (2 ^ suc k),
      ap (bit_and (m / 2)) e,
      bit_and-two-pow k (m / 2),
      two-pow-succ k,
      div-two-pow-suc m k,
      ap (λ (t : ℕ). t % 2 * 2 ^ suc k) (div-two-pow-suc m k),
      ap (λ (t : ℕ). m / 2 / 2 ^ k % 2 * t) (two-pow-succ k),
    )

-- `(q << k) | r` is a sum when `r` fits `k` bits.
pub bit_or_fields : (k q r : ℕ) → r < 2 ^ k → bit_or (q * 2 ^ k) r ≡ q * 2 ^ k + r
bit_or_fields k q r h =
    let w = bit_or (q * 2 ^ k) r in
    let high : w / 2 ^ k ≡ q =
      bit_or-shr k (q * 2 ^ k) r
      ∙ ap₂ bit_or (mul-div_left q (two_pow_pos k)) (div-eq_of_lt h)
      ∙ bit_or-zero q in
    let low : w % 2 ^ k ≡ r =
      bit_or-mod k (q * 2 ^ k) r
      ∙ ap₂ bit_or (mul-mod_left q (2 ^ k)) (mod-eq_of_lt h)
      ∙ zero-bit_or r in
    omega (arith, div-add-mod' w (2 ^ k), ap (λ (t : ℕ). t * 2 ^ k) high, low)

-- A mask of `k` low bits cuts to `k` bits.
pub bit_and-ones : (k a : ℕ) → bit_and a (2 ^ k - 1) ≡ a % 2 ^ k
bit_and-ones zero a = omega (arith, bit_and-zero a)
bit_and-ones (suc k) a =
    let e : (2 ^ suc k - 1) / 2 ≡ 2 ^ k - 1 = omega (arith, two-pow-succ k, two_pow_pos k) in
    omega (
      arith,
      bit_and_step a (2 ^ suc k - 1),
      ap (bit_and (a / 2)) e,
      bit_and-ones k (a / 2),
      two-pow-succ k,
      two_pow_pos k,
      mod-two-pow-suc a k,
    )

-- The bits of a single-bit mask.
pub bit-two-pow : (k j : ℕ) → bit (2 ^ k) j ≡ (if j == k then 1 else 0)
bit-two-pow zero zero = refl
bit-two-pow zero (suc j) =
    ground (arith, ap (λ (t : ℕ). t % 2) (div-two-pow-suc 1 j ∙ zero-div (2 ^ j)))
bit-two-pow (suc k) zero = ground (arith, two-pow-succ k)
bit-two-pow (suc k) (suc j) =
    let e : 2 ^ suc k / 2 ≡ 2 ^ k = omega (arith, two-pow-succ k) in
    ap (λ (t : ℕ). t % 2) (div-two-pow-suc (2 ^ suc k) j ∙ ap (λ (t : ℕ). t / 2 ^ j) e)
    ∙ bit-two-pow k j
    ∙ ground arith

-- The bits of a complement.
pub bit-complement : (n x j : ℕ) → x < 2 ^ n → j < n → bit (2 ^ n - 1 - x) j ≡ 1 - bit x j
bit-complement zero x j h l = absurd (omega arith)
bit-complement (suc n) x zero h l = omega (arith, two-pow-succ n, two_pow_pos n)
bit-complement (suc n) x (suc j) h l =
    let y = 2 ^ suc n - 1 - x in
    let half : y / 2 ≡ 2 ^ n - 1 - x / 2 = omega (arith, two-pow-succ n, two_pow_pos n) in
    ap (λ (t : ℕ). t % 2) (div-two-pow-suc y j ∙ ap (λ (t : ℕ). t / 2 ^ j) half)
    ∙ bit-complement n (x / 2) j (omega (arith, two-pow-succ n)) (omega arith)
    ∙ ap (λ (t : ℕ). 1 - t % 2) (sym (div-two-pow-suc x j))

-- A word has no bits past its width.
pub bit_past : (n x j : ℕ) → x < 2 ^ n → n ≤ j → bit x j ≡ 0
bit_past n x j h l =
    ap (λ (t : ℕ). t % 2) (div-eq_of_lt (le_trans h (pow-le-pow_right (omega arith) l)))
