-- ===== src/Float/Formats.antt =====
-- The conversions between the formats, the moves and the choice of the operation in
-- src/extension/f_extension.c.
use riscvemu.Base.{
  ℕ, ◌+◌, ◌%◌, ◌^◌, ◌||◌, ◌==◌, not, nonzero, if◌then◌else◌, bit_and, bit_or, ◌>>>◌, u32, Option,
  some, none,
}
use riscvemu.Outcome.{Outcome, running, fatal}
use riscvemu.Machine.{Machine, reg_read, reg_write}
use riscvemu.LoadStore.{
  fpr_read_s, fpr_read_d, fpr_read_h, fpr_read_q, fpr_write_s, fpr_write_d, fpr_write_h,
  fpr_write_q,
}
use riscvemu.Float.{is_nan_s, is_nan_d, is_nan_h}
use riscvemu.Float.Arith.{
  Rounding, Arithmetic, sf_rm, by_format, do_fadd, do_fsub, do_fmul, do_fdiv, do_fsqrt,
}
use riscvemu.Float.MinMax.{Comparisons}
use riscvemu.Float.Ops.{do_fsgnj, do_fclass, do_fminmax, do_fcmp}
use riscvemu.Float.Convert.{Integers, sf_end, fcvt_fp_int, fcvt_int_fp}

-- The library's conversions from one format to the others.
pub record Widths {ℓ} (A : Type ℓ) : Type ℓ where
  pub to_f32 : Rounding → A → ℕ × ℕ
  pub to_f64 : Rounding → A → ℕ × ℕ
  pub to_f16 : Rounding → A → ℕ × ℕ
  pub to_f128 : A → ℕ × ℕ

abbrev pub quiet_s : ℕ → ℕ
quiet_s r = if is_nan_s r then bit_or (bit_and r 0x80000000) 0x7FC00000 else r

abbrev pub quiet_d : ℕ → ℕ
quiet_d r = if is_nan_d r then bit_or (bit_and r 0x8000000000000000) 0x7FF8000000000000 else r

abbrev pub quiet_h : ℕ → ℕ
quiet_h r = if is_nan_h r then bit_or (bit_and r 0x8000) 0x7E00 else r

abbrev pub narrowed : (ℕ → ℕ) → (ℕ → ℕ → Machine → Machine) → ℕ → ℕ × ℕ → Machine → Outcome
narrowed quiet write rd (r, flags) m = running (write rd (quiet r) (sf_end flags m))

module _ (w32 w64 w16 : Widths ℕ) (w128 : Widths (ℕ × ℕ)) where
  -- A conversion to quadruple precision neither rounds nor keeps the flags.
  unfoldable pub fcvt_fp_fp : ℕ → ℕ → ℕ → ℕ → ℕ → Machine → Outcome
  fcvt_fp_fp dfmt sfmt rs1 rm rd m =
      let mode = sf_rm rm m in
      let s = fpr_read_s rs1 m in
      let d = fpr_read_d rs1 m in
      let h = fpr_read_h rs1 m in
      let q = fpr_read_q rs1 m in
      if dfmt == 0b00
      then if sfmt == 0b00
        then fatal
        else by_format sfmt fatal (narrowed quiet_s fpr_write_s rd (w64.to_f32 mode d) m)
            (narrowed quiet_s fpr_write_s rd (w16.to_f32 mode h) m)
            (narrowed quiet_s fpr_write_s rd (w128.to_f32 mode q) m)
      else if dfmt == 0b01
      then by_format sfmt (narrowed quiet_d fpr_write_d rd (w32.to_f64 mode s) m) fatal
          (narrowed quiet_d fpr_write_d rd (w16.to_f64 mode h) m)
          (narrowed quiet_d fpr_write_d rd (w128.to_f64 mode q) m)
      else if dfmt == 0b11
      then by_format sfmt (running (fpr_write_q rd (w32.to_f128 s) m))
          (running (fpr_write_q rd (w64.to_f128 d) m)) (running (fpr_write_q rd (w16.to_f128 h) m))
          fatal
      else if dfmt == 0b10
      then by_format sfmt (narrowed quiet_h fpr_write_h rd (w32.to_f16 mode s) m)
          (narrowed quiet_h fpr_write_h rd (w64.to_f16 mode d) m) fatal
          (narrowed quiet_h fpr_write_h rd (w128.to_f16 mode q) m)
      else fatal

-- `fmv.x.*`: half precision extends its sign.
unfoldable pub fmv_x : ℕ → ℕ → ℕ → Machine → Outcome
fmv_x fmt rs1 rd m =
    let h = fpr_read_h rs1 m in
    by_format fmt (running (reg_write rd (fpr_read_s rs1 m) m))
      (running (reg_write rd (u32 (fpr_read_d rs1 m)) m))
      (running (reg_write rd (if nonzero (bit_and (h >>> 15) 1) then h + 0xFFFF0000 else h) m))
      (running (reg_write rd (u32 ((fpr_read_q rs1 m).0)) m))

unfoldable pub fmv_f : ℕ → ℕ → ℕ → Machine → Outcome
fmv_f fmt rs1 rd m =
    let v = reg_read rs1 m in
    by_format fmt (running (fpr_write_s rd v m)) (running (fpr_write_d rd v m))
      (running (fpr_write_h rd (v % 2 ^ 16) m)) (running (fpr_write_q rd (v, 0) m))

abbrev pub write_converted : ℕ → Option (ℕ × Machine) → Outcome
write_converted rd (some (r, m)) = running (reg_write rd r m)
write_converted rd none = fatal

-- The float library as the instructions use it: in one format, and in the four.
pub record FormatLibrary (A : Type 0) : Type 0 where
  pub arithmetic : Arithmetic A
  pub comparisons : Comparisons A
  pub integers : Integers A
  pub widths : Widths A

pub record FloatLibrary : Type 0 where
  pub f32 : FormatLibrary ℕ
  pub f64 : FormatLibrary ℕ
  pub f16 : FormatLibrary ℕ
  pub f128 : FormatLibrary (ℕ × ℕ)

module _ (float : FloatLibrary) where
  unfoldable pub insf_r_fpop : ℕ → Machine → Outcome
  insf_r_fpop ins m =
      let op = bit_and (ins >>> 27) 0x1F in
      let fmt = bit_and (ins >>> 25) 3 in
      let rs2 = bit_and (ins >>> 20) 0x1F in
      let rs1 = bit_and (ins >>> 15) 0x1F in
      let f3 = bit_and (ins >>> 12) 7 in
      let rd = bit_and (ins >>> 7) 0x1F in
      let a32 = float.f32.arithmetic in
      let a64 = float.f64.arithmetic in
      let a16 = float.f16.arithmetic in
      let a128 = float.f128.arithmetic in
      let c32 = float.f32.comparisons in
      let c64 = float.f64.comparisons in
      let c16 = float.f16.comparisons in
      let c128 = float.f128.comparisons in
      let i32 = float.f32.integers in
      let i64 = float.f64.integers in
      let i16 = float.f16.integers in
      let i128 = float.f128.integers in
      if op == 0
      then do_fadd a32 a64 a16 a128 fmt rs2 rs1 f3 rd m
      else if op == 1
      then do_fsub a32 a64 a16 a128 fmt rs2 rs1 f3 rd m
      else if op == 2
      then do_fmul a32 a64 a16 a128 fmt rs2 rs1 f3 rd m
      else if op == 3
      then do_fdiv a32 a64 a16 a128 fmt rs2 rs1 f3 rd m
      else if op == 4
      then do_fsgnj fmt rs2 rs1 f3 rd m
      else if op == 5
      then do_fminmax c32 c64 c16 c128 fmt rs2 rs1 f3 rd m
      else if op == 11
      then do_fsqrt a32 a64 a16 a128 fmt rs1 f3 rd m
      else if op == 20
      then do_fcmp c32 c64 c16 c128 fmt rs2 rs1 f3 rd m
      else if op == 28
      then if f3 == 0 then fmv_x fmt rs1 rd m else if f3 == 1 then do_fclass fmt rs1 rd m else fatal
      else if op == 30
      then if not (f3 == 0) || not (rs2 == 0) then fatal else fmv_f fmt rs1 rd m
      else if op == 24
      then write_converted rd (fcvt_fp_int i32 i64 i16 i128 fmt rs2 rs1 f3 m)
      else if op == 26
      then fcvt_int_fp i32 i64 i16 i128 fmt rs2 rs1 f3 rd m
      else if op == 8
      then fcvt_fp_fp float.f32.widths float.f64.widths float.f16.widths float.f128.widths fmt rs2
          rs1 f3 rd m
      else fatal
