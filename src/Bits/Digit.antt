-- ===== src/Bits/Digit.antt =====
-- What every digitwise operation shares: it commutes with shifts and with cutting low bits off.
use native.Mathlib.Nat.{pow-suc, one-le-pow, div-div-eq-div-mul, div-add-mod, mod-eq_of_lt, mod-lt}
use mathlib.Core.Path.{ap₂}
use riscvemu.Base.{ℕ, zero, suc, ◌+◌, ◌*◌, ◌/◌, ◌%◌, ◌^◌, ◌≤◌, ◌<◌, ◌≡◌, sym, ap, ◌∙◌, arith}

-- Bit `k` of a word, 0 or 1.
abbrev pub bit : ℕ → ℕ → ℕ
bit x k = x / 2 ^ k % 2

pub two_pow_pos : (k : ℕ) → 1 ≤ 2 ^ k
two_pow_pos k = one-le-pow k 2 (omega arith)

pub div-two-pow-suc : (a k : ℕ) → a / 2 ^ suc k ≡ a / 2 / 2 ^ k
div-two-pow-suc a k =
    rw (div-div-eq-div-mul a 2 (2 ^ k)) (ap (λ (t : ℕ). a / t) (omega (arith, pow-suc 2 k)))

-- The low `suc k` bits are the low bit and the low `k` bits of the half.
pub mod-two-pow-suc : (a k : ℕ) → a % 2 ^ suc k ≡ a / 2 % 2 ^ k * 2 + a % 2
mod-two-pow-suc a k =
    let e = pow-suc 2 k in
    let q = a / 2 / 2 ^ k in
    omega (
      arith,
      e,
      div-two-pow-suc a k,
      div-add-mod a (2 ^ suc k),
      div-add-mod (a / 2) (2 ^ k),
      ap (λ (t : ℕ). t * q) e,
      ap (λ (t : ℕ). 2 ^ suc k * t) (div-two-pow-suc a k),
    )

half-mod : (a k : ℕ) → a % 2 ^ suc k / 2 ≡ a / 2 % 2 ^ k
half-mod a k = omega (arith, mod-two-pow-suc a k)

parity-mod : (a k : ℕ) → a % 2 ^ suc k % 2 ≡ a % 2
parity-mod a k = omega (arith, mod-two-pow-suc a k)

div-one : (a : ℕ) → a / 2 ^ 0 ≡ a
div-one a = omega arith

mod-one : (a : ℕ) → a % 2 ^ 0 ≡ 0
mod-one a = omega arith

module _ (op f : ℕ → ℕ → ℕ) (step : (a b : ℕ) → op a b ≡ op (a / 2) (b / 2) * 2 + f (a % 2) (b % 2))
    (digit : (a b : ℕ) → f (a % 2) (b % 2) < 2) (op-zeros : op 0 0 ≡ 0) where
  op-half : (a b : ℕ) → op a b / 2 ≡ op (a / 2) (b / 2)
  op-half a b = omega (arith, step a b, digit a b)

  pub op-shr : (k a b : ℕ) → op a b / 2 ^ k ≡ op (a / 2 ^ k) (b / 2 ^ k)
  op-shr zero a b = div-one (op a b) ∙ sym (ap₂ op (div-one a) (div-one b))
  op-shr (suc k) a b =
      rw (div-two-pow-suc (op a b) k, div-two-pow-suc a k, div-two-pow-suc b k, op-half a b)
        (op-shr k (a / 2) (b / 2))

  pub op-bit : (k a b : ℕ) → bit (op a b) k ≡ f (bit a k) (bit b k)
  op-bit k a b =
      rw (op-shr k a b) (omega (arith, step (a / 2 ^ k) (b / 2 ^ k), digit (a / 2 ^ k) (b / 2 ^ k)))

  pub op-mod : (k a b : ℕ) → op a b % 2 ^ k ≡ op (a % 2 ^ k) (b % 2 ^ k)
  op-mod zero a b = mod-one (op a b) ∙ sym (ap₂ op (mod-one a) (mod-one b) ∙ op-zeros)
  op-mod (suc k) a b =
      let x = a % 2 ^ suc k in
      let y = b % 2 ^ suc k in
      omega (
        arith,
        mod-two-pow-suc (op a b) k,
        ap (λ (t : ℕ). t % 2 ^ k) (op-half a b),
        op-mod k (a / 2) (b / 2),
        step a b,
        digit a b,
        step x y,
        ap₂ op (half-mod a k) (half-mod b k),
        ap₂ f (parity-mod a k) (parity-mod b k),
      )

  pub op-lt : (k a b : ℕ) → a < 2 ^ k → b < 2 ^ k → op a b < 2 ^ k
  op-lt k a b h l =
      let e : op a b % 2 ^ k ≡ op a b = op-mod k a b ∙ ap₂ op (mod-eq_of_lt h) (mod-eq_of_lt l) in
      omega (arith, e, mod-lt (op a b) (two_pow_pos k))
