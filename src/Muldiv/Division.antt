-- ===== src/Muldiv/Division.antt =====
-- DIV and REM of the same registers.
use native.Mathlib.Nat.{mod-lt}
use mathlib.Core.Path.{subst}
use native.Mathlib.Decide.{dec_lt}
use riscvemu.Base.{
  ℕ, suc, ◌+◌, ◌-◌, ◌*◌, ◌%◌, ◌^◌, ◌≤◌, ◌<◌, ◌≡◌, ◌≢◌, ◌∙◌, ◌⊎◌, inl, inr, refl, sym, ap, false,
  ltb, ◌==◌, ◌&&◌, if◌then◌else◌, u32, arith, Bool-cases,
}
use riscvemu.Base.Int.{ℤ, pos, negsuc, pos_part, neg_part, int32, uint32}
use riscvemu.Machine.{Machine, reg_read, reg_write}
use riscvemu.Muldiv.{div_ℤ, mod_ℤ, int32_min, minus_one, insm_r_div, insm_r_rem}
use riscvemu.Muldiv.Signed.{magnitude, mod_ℤ-pos, mod_ℤ-negsuc, div_ℤ-mod_ℤ}

-- A remainder is smaller than the divisor, and it is 0 or has the sign of the dividend.
abbrev pub IsRemainder : ℕ → ℕ → ℕ → Type 0
IsRemainder v1 v2 r =
    (magnitude (int32 r) < magnitude (int32 v2)) × ((r ≡ 0) ⊎ (ltb r (2 ^ 31) ≡ ltb v1 (2 ^ 31)))

module _ (t d v : ℕ) (below : t < d) (small : d ≤ 2 ^ 31) where
  positive_word :
      v < 2 ^ 31 → (magnitude (int32 t) < d) × ((t ≡ 0) ⊎ (ltb t (2 ^ 31) ≡ ltb v (2 ^ 31)))
  positive_word h = (ground arith, inr (ground arith))

  negative_word :
      2 ^ 31 ≤ v
      → let r = (2 ^ 32 - t) % 2 ^ 32 in
        (magnitude (int32 r) < d) × ((r ≡ 0) ⊎ (ltb r (2 ^ 31) ≡ ltb v (2 ^ 31)))
  negative_word h =
      (ground arith, elim (dec_lt 0 t) [ yes p ↦ inr (ground arith) | no z ↦ inl (omega arith) ])

remainder_word :
    (x y : ℤ)
    → pos_part x < 2 ^ 31
    → neg_part x ≤ 2 ^ 31
    → 0 < magnitude y
    → magnitude y ≤ 2 ^ 31
    → let r = uint32 (mod_ℤ x y) in
      (magnitude (int32 r) < magnitude y) × ((r ≡ 0) ⊎ (ltb r (2 ^ 31) ≡ ltb (uint32 x) (2 ^ 31)))
remainder_word (pos a) y p n d l =
    rw (mod_ℤ-pos a (magnitude y) y refl (omega arith))
      (positive_word (a % magnitude y) (magnitude y) (uint32 (pos a)) (mod-lt a d) l (omega arith))
remainder_word (negsuc a) y p n d l = rw (mod_ℤ-negsuc a (magnitude y) y refl (omega arith)) (
    negative_word (suc a % magnitude y) (magnitude y) (uint32 (negsuc a)) (mod-lt (suc a) d) l
      (omega arith))

uint32-int32 : (v : ℕ) → v < 2 ^ 32 → uint32 (int32 v) ≡ v
uint32-int32 v h = ground arith

quotient : ℕ → ℕ → ℕ
quotient v1 v2 =
    if v2 == 0
    then 0xFFFFFFFF
    else if (v1 == int32_min && v2 == minus_one)
    then int32_min
    else uint32 (div_ℤ (int32 v1) (int32 v2))

remainder : ℕ → ℕ → ℕ
remainder v1 v2 =
    if v2 == 0
    then v1
    else if (v1 == int32_min && v2 == minus_one)
    then 0
    else uint32 (mod_ℤ (int32 v1) (int32 v2))

-- The two on words, in each of the three cases of the source.
module _ (v1 v2 : ℕ) (h : v1 < 2 ^ 32) (k : v2 < 2 ^ 32) where
  dividend : u32 (quotient v1 v2 * v2 + remainder v1 v2) ≡ v1
  unfolding quotient remainder
  dividend =
      let x : magnitude (int32 v1) < 2 ^ 32 = ground arith in
      let y : magnitude (int32 v2) < 2 ^ 32 = ground arith in
      let e = div_ℤ-mod_ℤ (int32 v1) (int32 v2) x y in
      elim (Bool-cases (v2 == 0)) [
        | inl z ↦ let v : v2 ≡ 0 = ground (arith, z) in rw (z, v) (omega arith)
        | inr z ↦ elim (Bool-cases (v1 == int32_min && v2 == minus_one)) [
          | inl o ↦
              let a : v1 ≡ int32_min = ground (arith, o) in
              let b : v2 ≡ minus_one = ground (arith, o) in rw (z, o) (omega arith)
          | inr o ↦
              rw (z, o)
                (ap
                    (λ (t : ℕ). u32 (
                      uint32 (div_ℤ (int32 v1) (int32 v2)) * t
                      + uint32 (mod_ℤ (int32 v1) (int32 v2))))
                    (sym (uint32-int32 v2 k))
                  ∙ e
                  ∙ uint32-int32 v1 h)
        ]
      ]

  remainder-IsRemainder : 0 < v2 → IsRemainder v1 v2 (remainder v1 v2)
  unfolding remainder
  remainder-IsRemainder p =
      let z : (v2 == 0) ≡ false = ground arith in
      let some_divisor : 0 < magnitude (int32 v2) = ground arith in
      elim (Bool-cases (v1 == int32_min && v2 == minus_one)) [
        | inl o ↦ rw (z, o) (some_divisor, inl refl)
        | inr o ↦
            rw (z, o)
              (subst
                (λ (t : ℕ).
                  (magnitude (int32 (uint32 (mod_ℤ (int32 v1) (int32 v2)))) < magnitude (int32 v2))
                  × ((uint32 (mod_ℤ (int32 v1) (int32 v2)) ≡ 0)
                      ⊎ (ltb (uint32 (mod_ℤ (int32 v1) (int32 v2))) (2 ^ 31) ≡ ltb t (2 ^ 31))))
                (uint32-int32 v1 h)
                (remainder_word (int32 v1) (int32 v2) (ground arith) (ground arith) some_divisor
                  (ground arith)))
      ]

div_lem :
    (rs2 rs1 rd : ℕ) (m : Machine)
    → rd ≢ 0
    → reg_read rd (insm_r_div rs2 rs1 rd m) ≡ quotient (reg_read rs1 m) (reg_read rs2 m)
unfolding insm_r_div quotient reg_read reg_write
div_lem rs2 rs1 rd m h = ground (arith, h)

rem_lem :
    (rs2 rs1 rd : ℕ) (m : Machine)
    → rd ≢ 0
    → reg_read rd (insm_r_rem rs2 rs1 rd m) ≡ remainder (reg_read rs1 m) (reg_read rs2 m)
unfolding insm_r_rem remainder reg_read reg_write
rem_lem rs2 rs1 rd m h = ground (arith, h)

-- DIV and REM of the same registers, which hold 32-bit words, into a register other than x0 give a
-- quotient and a remainder that make up the dividend again modulo 2 ^ 32, also for the divisor 0
-- and when the quotient overflows; the divisor is 0, or the remainder, as a signed value, is
-- smaller in magnitude than the divisor and is 0 or has the sign of the dividend.
pub insm_r_div-rem :
    (rs2 rs1 rd : ℕ) (m : Machine)
    → rd ≢ 0
    → reg_read rs1 m < 2 ^ 32
    → reg_read rs2 m < 2 ^ 32
    → let q = reg_read rd (insm_r_div rs2 rs1 rd m) in
      let r = reg_read rd (insm_r_rem rs2 rs1 rd m) in
      (u32 (q * reg_read rs2 m + r) ≡ reg_read rs1 m)
      × ((reg_read rs2 m ≡ 0) ⊎ IsRemainder (reg_read rs1 m) (reg_read rs2 m) r)
insm_r_div-rem rs2 rs1 rd m h a b =
    let v1 = reg_read rs1 m in
    let v2 = reg_read rs2 m in
    let kind : (v2 ≡ 0) ⊎ IsRemainder v1 v2 (remainder v1 v2) = elim (dec_lt 0 v2) [
      | yes p ↦ inr (remainder-IsRemainder v1 v2 a b p)
      | no z ↦ inl (omega arith)
    ] in
    rw (div_lem rs2 rs1 rd m h, rem_lem rs2 rs1 rd m h) (dividend v1 v2 a b, kind)
