-- ===== src/Bits/Algebra.antt =====
-- `&` and `|` as an algebra: the laws hold at every bit, and so of the words.
use riscvemu.Base.{ℕ, zero, suc, ◌+◌, ◌^◌, ◌≤◌, ◌<◌, bit_and, bit_or, ◌≡◌, arith}
use riscvemu.Bits.Digit.{bit}
use riscvemu.Bits.Laws.{bits_ext, bit-bit_and, bit-bit_or}
use native.Mathlib.Nat.{two-pow-succ, le_trans, pow-le-pow_right}

lt_two_pow : (n : ℕ) → n < 2 ^ n
lt_two_pow zero = omega arith
lt_two_pow (suc n) = omega (arith, lt_two_pow n, two-pow-succ n)

lt_two_pow_of_le : (n m : ℕ) → n ≤ m → n < 2 ^ m
lt_two_pow_of_le n m h = le_trans (lt_two_pow n) (pow-le-pow_right (omega arith) h)

-- Two words are equal when they agree at every bit.
pub every_bit : (x y : ℕ) → ((k : ℕ) → bit x k ≡ bit y k) → x ≡ y
every_bit x y e =
    bits_ext (x + y) x y (lt_two_pow_of_le x (x + y) (omega arith))
      (lt_two_pow_of_le y (x + y) (omega arith)) (λ k h. e k)

-- `x & a | x & b` is `x & (a | b)`.
pub bit_or-bit_and : (x a b : ℕ) → bit_or (bit_and x a) (bit_and x b) ≡ bit_and x (bit_or a b)
bit_or-bit_and x a b = every_bit _ _ (λ k. omega (
  arith,
  bit-bit_or k (bit_and x a) (bit_and x b),
  bit-bit_and k x a,
  bit-bit_and k x b,
  bit-bit_and k x (bit_or a b),
  bit-bit_or k a b,
))

-- `(x | y) & a` is `x & a | y & a`.
pub bit_and-bit_or : (x y a : ℕ) → bit_and (bit_or x y) a ≡ bit_or (bit_and x a) (bit_and y a)
bit_and-bit_or x y a = every_bit _ _ (λ k. omega (
  arith,
  bit-bit_or k (bit_and x a) (bit_and y a),
  bit-bit_and k x a,
  bit-bit_and k y a,
  bit-bit_and k (bit_or x y) a,
  bit-bit_or k x y,
))

-- `x & a & b` is `x & (a & b)`.
pub bit_and-bit_and : (x a b : ℕ) → bit_and (bit_and x a) b ≡ bit_and x (bit_and a b)
bit_and-bit_and x a b = every_bit _ _ (λ k. omega (
  arith,
  bit-bit_and k (bit_and x a) b,
  bit-bit_and k x a,
  bit-bit_and k x (bit_and a b),
  bit-bit_and k a b,
))

pub bit_or-bit_or : (x a b : ℕ) → bit_or (bit_or x a) b ≡ bit_or x (bit_or a b)
bit_or-bit_or x a b = every_bit _ _ (λ k. omega (
  arith,
  bit-bit_or k (bit_or x a) b,
  bit-bit_or k x a,
  bit-bit_or k x (bit_or a b),
  bit-bit_or k a b,
))
