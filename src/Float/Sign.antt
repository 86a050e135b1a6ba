-- ===== src/Float/Sign.antt =====
-- Sign injection and classification of src/extension/f_extension.c, and their choice of a format.
use riscvemu.Base.{ℕ, ◌==◌, if◌then◌else◌, bit_and, bit_or, bit_xor}
use riscvemu.Machine.{Machine, reg_write}
use riscvemu.LoadStore.{
  fpr_read_s, fpr_read_d, fpr_read_h, fpr_read_q, fpr_write_s, fpr_write_d, fpr_write_h,
  fpr_write_q,
}
use riscvemu.Float.{fclass_s, fclass_d, fclass_h, fclass_q}

-- The magnitude of `a` with the sign that `op` picks; `rest` and `sign` are their masks.
abbrev pub inject : ℕ → ℕ → ℕ → ℕ → ℕ → ℕ
inject rest sign op a b =
    if op == 0
    then bit_or (bit_and a rest) (bit_and b sign)
    else if op == 1
    then bit_or (bit_and a rest) (bit_and (bit_xor b sign) sign)
    else bit_or (bit_and a rest) (bit_and (bit_xor a b) sign)

unfoldable pub s_fsgnj : ℕ → ℕ → ℕ → ℕ → Machine → Machine
s_fsgnj rs2 rs1 op rd m =
    fpr_write_s rd (inject 0x7FFFFFFF 0x80000000 op (fpr_read_s rs1 m) (fpr_read_s rs2 m)) m

unfoldable pub h_fsgnj : ℕ → ℕ → ℕ → ℕ → Machine → Machine
h_fsgnj rs2 rs1 op rd m =
    fpr_write_h rd (inject 0x7FFF 0x8000 op (fpr_read_h rs1 m) (fpr_read_h rs2 m)) m

unfoldable pub d_fsgnj : ℕ → ℕ → ℕ → ℕ → Machine → Machine
d_fsgnj rs2 rs1 op rd m =
    fpr_write_d rd
      (inject 0x7FFFFFFFFFFFFFFF 0x8000000000000000 op (fpr_read_d rs1 m) (fpr_read_d rs2 m)) m

unfoldable pub q_fsgnj : ℕ → ℕ → ℕ → ℕ → Machine → Machine
q_fsgnj rs2 rs1 op rd m =
    let (lo, hi) = fpr_read_q rs1 m in
    let (lo', hi') = fpr_read_q rs2 m in
    let sign_a = bit_and hi 0x8000000000000000 in
    let sign_b = bit_and hi' 0x8000000000000000 in
    let rest = bit_and hi 0x7FFFFFFFFFFFFFFF in
    fpr_write_q rd
      (
        lo,
        if op == 0
            then bit_or rest sign_b
            else if op == 1
            then bit_or rest (bit_xor sign_b 0x8000000000000000)
            else bit_or rest (bit_xor sign_a sign_b),
      )
      m

unfoldable pub s_fclass : ℕ → ℕ → Machine → Machine
s_fclass rs1 rd m = reg_write rd (fclass_s (fpr_read_s rs1 m)) m

unfoldable pub h_fclass : ℕ → ℕ → Machine → Machine
h_fclass rs1 rd m = reg_write rd (fclass_h (fpr_read_h rs1 m)) m

unfoldable pub d_fclass : ℕ → ℕ → Machine → Machine
d_fclass rs1 rd m = reg_write rd (fclass_d (fpr_read_d rs1 m)) m

unfoldable pub q_fclass : ℕ → ℕ → Machine → Machine
q_fclass rs1 rd m = reg_write rd (fclass_q (fpr_read_q rs1 m)) m
