-- ===== src/Bits/Arith.antt =====
-- Bit operations as sums, in the form that linear arithmetic reads.
use native.Mathlib.Nat.{mod-eq_of_lt, two-pow-succ, div-add-mod', mul-div_left, mul-mod_left}
use mathlib.Core.Path.{ap₂}
use riscvemu.Base.{
  refl, ◌<<<◌, nonzero, ◌↔◌, true, ℕ, zero, suc, ◌+◌, ◌-◌, ◌*◌, ◌/◌, ◌%◌, ◌^◌, ◌≤◌, ◌<◌, ◌≡◌, refl,
  ap, sym, ◌∙◌, arith, bit_and, bit_or,
}
use riscvemu.Bits.Digit.{bit, two_pow_pos, mod-two-pow-suc, div-two-pow-suc}
use riscvemu.Bits.Laws.{
  bit_and-two-pow, bit_and-zero, zero-bit_and, zero-bit_or, bit_or-zero, bit_and-ones,
  bit_or_fields, bit_or-shr, bit_or-mod,
}
use riscvemu.Bits.Step.{bit_and_step, bit_or_step}

bit_or_sum_below : (n a b : ℕ) → a ≤ n → bit_or a b + bit_and a b ≡ a + b
bit_or_sum_below n zero b h = omega (arith, zero-bit_or b, zero-bit_and b)
bit_or_sum_below zero (suc a) b h = absurd (omega arith)
bit_or_sum_below (suc n) (suc a) b h = omega (
  arith,
  bit_or_step (suc a) b,
  bit_and_step (suc a) b,
  bit_or_sum_below n (suc a / 2) (b / 2) (omega arith),
)

-- `|` is the sum less what both words share.
pub bit_or_sum : (a b : ℕ) → bit_or a b + bit_and a b ≡ a + b
bit_or_sum a b = bit_or_sum_below a a b (omega arith)

-- What a mask keeps and what its complement keeps add up to the word.
bit_and_split : (n m x : ℕ) → x < 2 ^ n → bit_and m x + bit_and m (2 ^ n - 1 - x) ≡ m % 2 ^ n
bit_and_split zero m x h = let e : x ≡ 0 = omega arith in rw e (omega (arith, bit_and-zero m))
bit_and_split (suc n) m x h =
    let y = 2 ^ suc n - 1 - x in
    let half : y / 2 ≡ 2 ^ n - 1 - x / 2 = omega (arith, two-pow-succ n, two_pow_pos n) in
    omega (
      arith,
      bit_and_step m x,
      bit_and_step m y,
      ap (bit_and (m / 2)) half,
      bit_and_split n (m / 2) (x / 2) (omega (arith, two-pow-succ n)),
      two-pow-succ n,
      two_pow_pos n,
      mod-two-pow-suc m n,
    )

-- `m & ~x` takes away what `m & x` keeps.
pub bit_and_clear :
    (n m x : ℕ) → m < 2 ^ n → x < 2 ^ n → bit_and m (2 ^ n - 1 - x) ≡ m - bit_and m x
bit_and_clear n m x h l = omega (arith, bit_and_split n m x l, mod-eq_of_lt h)

shift_half : (c s : ℕ) → (c * 2 ^ suc s / 2 ≡ c * 2 ^ s) × (c * 2 ^ suc s % 2 ≡ 0)
shift_half c s =
    let e = ap (λ (t : ℕ). c * t) (two-pow-succ s) in (omega (arith, e), omega (arith, e))

-- `m & (c << s)` looks at `m >> s`.
pub bit_and_shift : (s m c : ℕ) → bit_and m (c * 2 ^ s) ≡ bit_and (m / 2 ^ s) c * 2 ^ s
bit_and_shift zero m c = ap₂ bit_and (sym (one m)) (times_one c) ∙ sym (times_one _)
  where
    one : (t : ℕ) → t / 2 ^ 0 ≡ t
    one t = omega arith

    times_one : (t : ℕ) → t * 2 ^ 0 ≡ t
    times_one t = omega arith
bit_and_shift (suc s) m c =
    let x = bit_and (m / 2 ^ suc s) c in
    omega (
      arith,
      bit_and_step m (c * 2 ^ suc s),
      ap (bit_and (m / 2)) (shift_half c s).0,
      (shift_half c s).1,
      bit_and_shift s (m / 2) c,
      ap (λ (t : ℕ). bit_and t c * 2 ^ s) (div-two-pow-suc m s),
      ap (λ (t : ℕ). x * t) (two-pow-succ s),
    )

-- `m & (ones << s)` is a field of `m` in its place.
pub bit_and_field : (s w m : ℕ) → bit_and m ((2 ^ w - 1) * 2 ^ s) ≡ m / 2 ^ s % 2 ^ w * 2 ^ s
bit_and_field s w m =
    bit_and_shift s m (2 ^ w - 1) ∙ ap (λ (t : ℕ). t * 2 ^ s) (bit_and-ones w (m / 2 ^ s))

-- `a | (v << s)` is a sum when the field of `a` is clear and `v` fits it.
pub bit_or_insert :
    (s w a v : ℕ) → v < 2 ^ w → a / 2 ^ s % 2 ^ w ≡ 0 → bit_or a (v * 2 ^ s) ≡ a + v * 2 ^ s
bit_or_insert s w a v h clear =
    let t = 2 ^ s in
    let x = bit_or a (v * t) in
    let whole : a / t ≡ a / t / 2 ^ w * 2 ^ w = omega (arith, div-add-mod' (a / t) (2 ^ w)) in
    let high : x / t ≡ a / t + v =
      bit_or-shr s a (v * t)
      ∙ ap₂ bit_or whole (mul-div_left v (two_pow_pos s))
      ∙ bit_or_fields w (a / t / 2 ^ w) v h
      ∙ ap (λ (u : ℕ). u + v) (sym whole) in
    let low : x % t ≡ a % t =
      bit_or-mod s a (v * t) ∙ ap (bit_or (a % t)) (mul-mod_left v t) ∙ bit_or-zero (a % t) in
    omega (arith, div-add-mod' x t, div-add-mod' a t, ap (λ (u : ℕ). u * t) high, low)

nonzero_digit : (b t : ℕ) → b < 2 → 1 ≤ t → (nonzero (b * t) ≡ true) ↔ (b ≡ 1)
nonzero_digit zero t h l = (λ e. ground arith, λ e. absurd (omega arith))
nonzero_digit (suc zero) t h l = (λ e. refl, λ e. ground arith)
nonzero_digit (suc (suc b)) t h l = absurd (omega arith)

-- `w & (1 << k)` as a condition is bit `k`.
pub nonzero-bit : (w k : ℕ) → (nonzero (bit_and w (1 <<< k)) ≡ true) ↔ (bit w k ≡ 1)
nonzero-bit w k =
    let e : bit_and w (1 <<< k) ≡ bit w k * 2 ^ k =
      ap (bit_and w) (omega arith) ∙ bit_and-two-pow k w in
    rw e (nonzero_digit (bit w k) (2 ^ k) (omega arith) (two_pow_pos k))
