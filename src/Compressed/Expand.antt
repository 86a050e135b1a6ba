-- ===== src/Compressed/Expand.antt =====
-- The instructions of src/extension/c_extension.c that stand for a longer one of
-- include/extension/basic_instructions.h, from their encodings.
use riscvemu.Base.{ℕ, ◌+◌, ◌%◌, ◌^◌, ◌≤◌, ◌<◌, ◌≡◌, ◌==◌, refl, true, if◌then◌else◌, u32, arith}
use riscvemu.Machine.{Machine, reg_read, reg_write}
use riscvemu.Integer.{insi_i_addi, add}
use riscvemu.LoadStore.{insi_i_lw, insi_s_sw}
use riscvemu.Jump.{insi_j_jal, insi_b_beq, insi_b_bne, branch}
use riscvemu.Jump.Target.{is_fetchable}
use riscvemu.Exec.Formats.{IsSigned}
use riscvemu.Compressed.{exec_c_insn, quadrant0, quadrant1, sequential, after_access}
use riscvemu.Compressed.Jumps.{raise_if_misaligned_fetch-fetchable}
use riscvemu.Compressed.Fields.{
  ci_type, ci_type_fields, c_imm6-ci_type, cl_type, cl_type_fields, c_ls_uimm-cl_type, cb_type,
  cb_type_fields, c_branch_offset-cb_type, cj_type, cj_type_fields, c_jal_offset-cj_type,
}

pub c_addi-insi_i_addi :
    (rd imm : ℕ) (m : Machine)
    → rd < 32
    → IsSigned 6 imm
    → exec_c_insn (ci_type 1 0 rd imm) m ≡ sequential (insi_i_addi imm rd rd m)
unfolding exec_c_insn quadrant1 insi_i_addi add
c_addi-insi_i_addi rd imm m d h =
    let (q, f, r) = ci_type_fields 1 0 rd imm (omega arith) (omega arith) d in
    let i = c_imm6-ci_type 1 0 rd imm (omega arith) (omega arith) d h in simp (q, f, r, i)

reg_read_zero : (m : Machine) → reg_read 0 m ≡ 0
unfolding reg_read
reg_read_zero m = refl

insi_i_addi_zero :
    (rd imm : ℕ) (m : Machine) → imm < 2 ^ 32 → insi_i_addi imm 0 rd m ≡ reg_write rd imm m
unfolding insi_i_addi add
insi_i_addi_zero rd imm m h =
    let word : u32 (0 + imm) ≡ imm = omega arith in rw (reg_read_zero m, word) refl

pub c_li-insi_i_addi :
    (rd imm : ℕ) (m : Machine)
    → rd < 32
    → IsSigned 6 imm
    → exec_c_insn (ci_type 1 2 rd imm) m ≡ sequential (insi_i_addi imm 0 rd m)
unfolding exec_c_insn quadrant1
c_li-insi_i_addi rd imm m d h =
    let (q, f, r) = ci_type_fields 1 2 rd imm (omega arith) (omega arith) d in
    let i = c_imm6-ci_type 1 2 rd imm (omega arith) (omega arith) d h in
    let word : imm < 2 ^ 32 = ground arith in simp (q, f, r, i, insi_i_addi_zero rd imm m word)

module _ (rs1 rd imm : ℕ) (m : Machine) (a : 8 ≤ rs1) (b : rs1 < 16) (d : 8 ≤ rd) (e : rd < 16)
    (h : imm < 2 ^ 7) (w : imm % 4 ≡ 0) where
  pub c_lw-insi_i_lw :
      exec_c_insn (cl_type 2 rs1 rd imm) m ≡ after_access m.pc (insi_i_lw imm rs1 rd m)
  unfolding exec_c_insn quadrant0
  c_lw-insi_i_lw =
      let (q, f, r, s) = cl_type_fields 2 rs1 rd imm (omega arith) a b d e in
      let i = c_ls_uimm-cl_type 2 rs1 rd imm (omega arith) a b d e h w in simp (q, f, r, s, i)

  pub c_sw-insi_s_sw :
      exec_c_insn (cl_type 6 rs1 rd imm) m ≡ after_access m.pc (insi_s_sw imm rd rs1 m)
  unfolding exec_c_insn quadrant0
  c_sw-insi_s_sw =
      let (q, f, r, s) = cl_type_fields 6 rs1 rd imm (omega arith) a b d e in
      let i = c_ls_uimm-cl_type 6 rs1 rd imm (omega arith) a b d e h w in simp (q, f, r, s, i)

pub c_j-insi_j_jal :
    (imm : ℕ) (m : Machine)
    → IsSigned 12 imm
    → imm % 2 ≡ 0
    → is_fetchable (u32 (m.pc + imm)) m ≡ true
    → exec_c_insn (cj_type 5 imm) m ≡ (insi_j_jal imm 0 m, 0)
unfolding exec_c_insn quadrant1 insi_j_jal reg_write
c_j-insi_j_jal imm m h even o =
    let (q, f) = cj_type_fields 5 imm (omega arith) in
    let i = c_jal_offset-cj_type 5 imm (omega arith) h even in
    let t = raise_if_misaligned_fetch-fetchable (u32 (m.pc + imm)) m o in simp (q, f, i, t)

module _ (rs1 imm : ℕ) (m : Machine) (a : 8 ≤ rs1) (b : rs1 < 16) (h : IsSigned 9 imm)
    (even : imm % 2 ≡ 0) (o : is_fetchable (u32 (m.pc + imm)) m ≡ true) where
  pub c_beqz-insi_b_beq :
      exec_c_insn (cb_type 6 rs1 imm) m
      ≡ (if reg_read rs1 m == 0 then (insi_b_beq imm 0 rs1 m, 0) else sequential m)
  unfolding exec_c_insn quadrant1 insi_b_beq branch
  c_beqz-insi_b_beq =
      let (q, f, r) = cb_type_fields 6 rs1 imm (omega arith) a b in
      let i = c_branch_offset-cb_type 6 rs1 imm (omega arith) a b h even in
      let t = raise_if_misaligned_fetch-fetchable (u32 (m.pc + imm)) m o in
      let z = reg_read_zero m in ground (arith, q, f, r, i, t, z)

  pub c_bnez-insi_b_bne :
      exec_c_insn (cb_type 7 rs1 imm) m
      ≡ (if reg_read rs1 m == 0 then sequential m else (insi_b_bne imm 0 rs1 m, 0))
  unfolding exec_c_insn quadrant1 insi_b_bne branch
  c_bnez-insi_b_bne =
      let (q, f, r) = cb_type_fields 7 rs1 imm (omega arith) a b in
      let i = c_branch_offset-cb_type 7 rs1 imm (omega arith) a b h even in
      let t = raise_if_misaligned_fetch-fetchable (u32 (m.pc + imm)) m o in
      let z = reg_read_zero m in ground (arith, q, f, r, i, t, z)
