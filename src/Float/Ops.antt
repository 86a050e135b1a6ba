-- ===== src/Float/Ops.antt =====
-- The choice of a format in src/extension/f_extension.c, for the instructions that do not round.
use riscvemu.Base.{ℕ, ◌==◌, if◌then◌else◌}
use riscvemu.Outcome.{Outcome, running}
use riscvemu.Machine.{Machine}
use riscvemu.Float.Arith.{by_format}
use riscvemu.Float.Sign.{s_fsgnj, d_fsgnj, h_fsgnj, q_fsgnj, s_fclass, d_fclass, h_fclass, q_fclass}
use riscvemu.Float.MinMax.{
  Comparisons, s_fmin, s_fmax, d_fmin, d_fmax, h_fmin, h_fmax, q_fmin, q_fmax, s_fcmp, d_fcmp,
  h_fcmp, q_fcmp,
}

unfoldable pub do_fsgnj : ℕ → ℕ → ℕ → ℕ → ℕ → Machine → Outcome
do_fsgnj fmt rs2 rs1 op rd m =
    by_format fmt (running (s_fsgnj rs2 rs1 op rd m)) (running (d_fsgnj rs2 rs1 op rd m))
      (running (h_fsgnj rs2 rs1 op rd m)) (running (q_fsgnj rs2 rs1 op rd m))

unfoldable pub do_fclass : ℕ → ℕ → ℕ → Machine → Outcome
do_fclass fmt rs1 rd m =
    by_format fmt (running (s_fclass rs1 rd m)) (running (d_fclass rs1 rd m))
      (running (h_fclass rs1 rd m)) (running (q_fclass rs1 rd m))

module _ (f32 f64 f16 : Comparisons ℕ) (f128 : Comparisons (ℕ × ℕ)) where
  unfoldable pub do_fminmax : ℕ → ℕ → ℕ → ℕ → ℕ → Machine → Outcome
  do_fminmax fmt rs2 rs1 op rd m =
      if op == 0
      then by_format fmt (running (s_fmin f32 f64 f16 f128 rs2 rs1 rd m))
          (running (d_fmin f32 f64 f16 f128 rs2 rs1 rd m))
          (running (h_fmin f32 f64 f16 f128 rs2 rs1 rd m))
          (running (q_fmin f32 f64 f16 f128 rs2 rs1 rd m))
      else by_format fmt (running (s_fmax f32 f64 f16 f128 rs2 rs1 rd m))
          (running (d_fmax f32 f64 f16 f128 rs2 rs1 rd m))
          (running (h_fmax f32 f64 f16 f128 rs2 rs1 rd m))
          (running (q_fmax f32 f64 f16 f128 rs2 rs1 rd m))

  unfoldable pub do_fcmp : ℕ → ℕ → ℕ → ℕ → ℕ → Machine → Outcome
  do_fcmp fmt rs2 rs1 op rd m =
      by_format fmt (running (s_fcmp f32 f64 f16 f128 op rs2 rs1 rd m))
        (running (d_fcmp f32 f64 f16 f128 op rs2 rs1 rd m))
        (running (h_fcmp f32 f64 f16 f128 op rs2 rs1 rd m))
        (running (q_fcmp f32 f64 f16 f128 op rs2 rs1 rd m))
