-- ===== src/Float/Convert.antt =====
-- The conversions of src/extension/f_extension.c over those of the float library. Integers are their bit
-- patterns; the kinds are 0 for a word, 1 for an unsigned one, 2 and 3 for 64-bit integers.
use riscvemu.Base.{
  ℕ, ◌+◌, Bool, false, ◌&&◌, ◌||◌, ◌==◌, nonzero, if◌then◌else◌, bit_and, bit_or, ◌>>>◌, u32,
  Option, some, none,
}
use riscvemu.Outcome.{Outcome, running}
use riscvemu.Machine.{Machine, reg_read}
use riscvemu.LoadStore.{
  fpr_read_s, fpr_read_d, fpr_read_h, fpr_read_q, fpr_write_s, fpr_write_d, fpr_write_h,
  fpr_write_q,
}
use riscvemu.Float.{is_nan_s, is_nan_d, is_nan_h, is_nan_q}
use riscvemu.Float.Arith.{Rounding, sf_rm, by_format}

-- The library's conversions of one format to integers of a rounding mode and from integers.
pub record Integers {ℓ} (A : Type ℓ) : Type ℓ where
  pub to_i32 : Rounding → A → ℕ × ℕ
  pub to_ui32 : Rounding → A → ℕ × ℕ
  pub to_i64 : Rounding → A → ℕ × ℕ
  pub to_ui64 : Rounding → A → ℕ × ℕ
  pub i32_to : Rounding → ℕ → A × ℕ
  pub ui32_to : Rounding → ℕ → A × ℕ
  pub i64_to : Rounding → ℕ → A × ℕ
  pub ui64_to : Rounding → ℕ → A × ℕ

-- `sf_end()`.
abbrev pub sf_end : ℕ → Machine → Machine
sf_end flags m = record m { fcsr = bit_or m.fcsr flags }

unfoldable pub fcvt_int_sat : ℕ → Bool → ℕ
fcvt_int_sat kind sign =
    if (kind == 1) || (kind == 3)
    then if sign then 0 else 0xFFFFFFFF
    else if sign
    then 0x80000000
    else 0x7FFFFFFF

-- `(int64_t)v`.
abbrev pub widen : ℕ → ℕ
widen v = if nonzero (bit_and (v >>> 31) 1) then v + 0xFFFFFFFF00000000 else v

module _ {ℓ} {A : Type ℓ} (lib : Integers A) where
  -- The conversion of the kind, cut to 32 bits, with its flags.
  abbrev pub to_kind : ℕ → Rounding → A → ℕ × ℕ
  to_kind kind mode a =
      let (r, flags) =
        if kind == 0
        then lib.to_i32 mode a
        else if kind == 1
        then lib.to_ui32 mode a
        else if kind == 2
        then lib.to_i64 mode a
        else lib.to_ui64 mode a in
      (u32 r, flags)

  abbrev pub from_kind : ℕ → Rounding → ℕ → A × ℕ
  from_kind kind mode v =
      if kind == 0
      then lib.i32_to mode v
      else if kind == 1
      then lib.ui32_to mode v
      else if kind == 2
      then lib.i64_to mode (widen v)
      else lib.ui64_to mode v

  -- One case of `fcvt_fp_int`, with what its tests find in the operand: the result and the flags.
  abbrev pub saturating : ℕ → Rounding → Bool → Bool → Bool → A → ℕ × ℕ
  saturating kind mode sign nan inf a =
      let (r, flags) = to_kind kind mode a in
      if nan || inf
      then (fcvt_int_sat kind (if nan then false else sign), 0b10000)
      else if nonzero (bit_and flags 0b10000)
      then (fcvt_int_sat kind sign, flags)
      else (r, flags)

-- `sf_end()` and the result.
abbrev pub ended : Machine → ℕ × ℕ → Option (ℕ × Machine)
ended m (r, flags) = some (r, sf_end flags m)

abbrev pub inf_by : ℕ → ℕ → ℕ → Bool
inf_by exp frac x = (bit_and x exp == exp) && (bit_and x frac == 0)

module _ (f32 f64 f16 : Integers ℕ) (f128 : Integers (ℕ × ℕ)) where
  unfoldable pub fcvt_fp_int : ℕ → ℕ → ℕ → ℕ → Machine → Option (ℕ × Machine)
  fcvt_fp_int fmt kind rs1 rm m =
      let mode = sf_rm rm m in
      let s = fpr_read_s rs1 m in
      let d = fpr_read_d rs1 m in
      let h = fpr_read_h rs1 m in
      let q = fpr_read_q rs1 m in
      if fmt == 0b00
      then ended m (
          saturating f32 kind mode (nonzero (bit_and (s >>> 31) 1)) (is_nan_s s)
            (inf_by 0x7F800000 0x007FFFFF s) s)
      else if fmt == 0b10
      then ended m (
          saturating f16 kind mode (nonzero (bit_and (h >>> 15) 1)) (is_nan_h h)
            (inf_by 0x7C00 0x03FF h) h)
      else if fmt == 0b01
      then ended m (
          saturating f64 kind mode (nonzero (bit_and (d >>> 63) 1)) (is_nan_d d)
            (inf_by 0x7FF0000000000000 0x000FFFFFFFFFFFFF d) d)
      else if fmt == 0b11
      then ended m (
          saturating f128 kind mode (nonzero (bit_and (q.1 >>> 63) 1)) (is_nan_q q)
            (inf_by 0x7FFF000000000000 0x0000FFFFFFFFFFFF q.1 && (q.0 == 0)) q)
      else none

  unfoldable pub fcvt_int_fp : ℕ → ℕ → ℕ → ℕ → ℕ → Machine → Outcome
  fcvt_int_fp fmt kind rs1 rm rd m =
      let mode = sf_rm rm m in
      let v = reg_read rs1 m in
      let (s, s_flags) = from_kind f32 kind mode v in
      let (d, d_flags) = from_kind f64 kind mode v in
      let (h, h_flags) = from_kind f16 kind mode v in
      let (q, q_flags) = from_kind f128 kind mode v in
      by_format fmt (running (fpr_write_s rd s (sf_end s_flags m)))
        (running (fpr_write_d rd d (sf_end d_flags m)))
        (running (fpr_write_h rd h (sf_end h_flags m)))
        (running (fpr_write_q rd q (sf_end q_flags m)))
