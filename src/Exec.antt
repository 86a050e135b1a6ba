-- ===== src/Exec.antt =====
-- The dispatch of src/exec.c, opcode by opcode. `fatal` ends the emulator.
pub mod Decode
pub mod Formats
pub mod System
pub mod Dispatch
pub mod Encoded
pub mod Instructions
pub mod Encodes
use riscvemu.Base.{
  ℕ, ◌+◌, ◌*◌, ◌/◌, ◌^◌, Bool, true, false, not, ◌&&◌, ◌==◌, nonzero, if◌then◌else◌, bit_and, ◌>>>◌,
}
use riscvemu.Outcome.{Outcome, running, fatal}
use riscvemu.Machine.{Machine}
use riscvemu.System.{
  raise_exception, raise_exception_pc, raise_illegal, misa_c_enabled, cause_illegal_instruction,
  cause_misaligned_fetch,
}
use riscvemu.Integer.{
  insi_r_add, insi_r_sub, insi_r_sll, insi_r_slt, insi_r_sltu, insi_r_xor, insi_r_srl, insi_r_sra,
  insi_r_or, insi_r_and, insi_i_addi, insi_i_slli, insi_i_slti, insi_i_sltiu, insi_i_xori,
  insi_i_srli, insi_i_srai, insi_i_ori, insi_i_andi, insi_u_lui, insi_u_auipc, ins_zicond_czero_eqz,
  ins_zicond_czero_nez,
}
use riscvemu.Jump.{
  insi_b_beq, insi_b_bne, insi_b_blt, insi_b_bge, insi_b_bltu, insi_b_bgeu, insi_j_jal, insi_i_jalr,
}
use riscvemu.Muldiv.{
  insm_r_mul, insm_r_mulh, insm_r_mulsu, insm_r_mulu, insm_r_div, insm_r_divu, insm_r_rem,
  insm_r_remu,
}
use riscvemu.LoadStore.{
  insi_i_lb, insi_i_lh, insi_i_lw, insi_i_lbu, insi_i_lhu, insi_s_sb, insi_s_sh, insi_s_sw,
  fpu_fs_off, insf_flh, insf_flw, insf_fld, insf_flq, insf_fsh, insf_fsw, insf_fsd, insf_fsq,
}
use riscvemu.Atomic.{insa_r_lr_w, insa_r_sc_w}
use riscvemu.Atomic.Amo.{
  insa_r_amoadd_w, insa_r_amoswap_w, insa_r_amoxor_w, insa_r_amoor_w, insa_r_amoand_w,
  insa_r_amomin_w, insa_r_amomax_w, insa_r_amominu_w, insa_r_amomaxu_w,
}
use riscvemu.Compressed.{exec_c_insn}
use riscvemu.Exec.Decode.{
  get_opcode, get_rd, get_funct3, get_rs1, get_rs2, get_funct7, i_imm, s_imm, b_imm, j_imm, u_imm,
}

-- An instruction of the R format, on rs2, rs1 and rd.
abbrev pub Rtype : Type 0
Rtype = ℕ → ℕ → ℕ → Machine → Machine

-- `m_ins_optable` at funct7 = 1.
unfoldable pub m_ins_optable : ℕ → Rtype
m_ins_optable funct3 =
    if funct3 == 0
    then insm_r_mul
    else if funct3 == 1
    then insm_r_mulh
    else if funct3 == 2
    then insm_r_mulsu
    else if funct3 == 3
    then insm_r_mulu
    else if funct3 == 4
    then insm_r_div
    else if funct3 == 5
    then insm_r_divu
    else if funct3 == 6
    then insm_r_rem
    else insm_r_remu

-- `if (funct7 == expected) f(rs2, rs1, rd); else fatal(...);`
abbrev pub only : ℕ → ℕ → Outcome → Outcome
only expected funct7 o = if funct7 == expected then o else fatal

-- Two instructions told apart by bit 30.
abbrev pub either : ℕ → Outcome → Outcome → Outcome
either funct7 plain other =
    if funct7 == 0 then plain else if funct7 == 0b0100000 then other else fatal

unfoldable pub exec_alu : ℕ → ℕ → ℕ → ℕ → ℕ → Machine → Outcome
exec_alu funct3 funct7 rs2 rs1 rd m =
    if funct3 == 0
    then either funct7 (running (insi_r_add rs2 rs1 rd m)) (running (insi_r_sub rs2 rs1 rd m))
    else if funct3 == 1
    then only 0 funct7 (running (insi_r_sll rs2 rs1 rd m))
    else if funct3 == 2
    then only 0 funct7 (running (insi_r_slt rs2 rs1 rd m))
    else if funct3 == 3
    then only 0 funct7 (running (insi_r_sltu rs2 rs1 rd m))
    else if funct3 == 4
    then only 0 funct7 (running (insi_r_xor rs2 rs1 rd m))
    else if funct3 == 5
    then either funct7 (running (insi_r_srl rs2 rs1 rd m)) (running (insi_r_sra rs2 rs1 rd m))
    else if funct3 == 6
    then only 0 funct7 (running (insi_r_or rs2 rs1 rd m))
    else only 0 funct7 (running (insi_r_and rs2 rs1 rd m))

unfoldable pub exec_r : ℕ → ℕ → ℕ → ℕ → ℕ → Machine → Outcome
exec_r funct3 funct7 rs2 rs1 rd m =
    if funct7 == 0b0000001
    then running (m_ins_optable funct3 rs2 rs1 rd m)
    else if funct7 == 0b0000111
    then if funct3 == 0b101
      then running (ins_zicond_czero_eqz rs1 rs2 rd m)
      else if funct3 == 0b111
      then running (ins_zicond_czero_nez rs1 rs2 rd m)
      else fatal
    else exec_alu funct3 funct7 rs2 rs1 rd m

unfoldable pub exec_i : ℕ → ℕ → ℕ → ℕ → ℕ → Machine → Outcome
exec_i ins funct3 funct7 rs1 rd m =
    let imm = i_imm ins in
    let shamt = bit_and imm 0x1F in
    if funct3 == 0
    then running (insi_i_addi imm rs1 rd m)
    else if funct3 == 1
    then if nonzero funct7
      then running (raise_exception cause_illegal_instruction ins m)
      else running (insi_i_slli shamt rs1 rd m)
    else if funct3 == 2
    then running (insi_i_slti imm rs1 rd m)
    else if funct3 == 3
    then running (insi_i_sltiu imm rs1 rd m)
    else if funct3 == 4
    then running (insi_i_xori imm rs1 rd m)
    else if funct3 == 5
    then either funct7 (running (insi_i_srli shamt rs1 rd m)) (running (insi_i_srai shamt rs1 rd m))
    else if funct3 == 6
    then running (insi_i_ori imm rs1 rd m)
    else running (insi_i_andi imm rs1 rd m)

unfoldable pub exec_load : ℕ → ℕ → ℕ → ℕ → Machine → Outcome
exec_load imm funct3 rs1 rd m =
    if funct3 == 0
    then running (insi_i_lb imm rs1 rd m)
    else if funct3 == 1
    then running (insi_i_lh imm rs1 rd m)
    else if funct3 == 2
    then running (insi_i_lw imm rs1 rd m)
    else if funct3 == 4
    then running (insi_i_lbu imm rs1 rd m)
    else if funct3 == 5
    then running (insi_i_lhu imm rs1 rd m)
    else fatal

unfoldable pub exec_store : ℕ → ℕ → ℕ → ℕ → Machine → Outcome
exec_store imm funct3 rs2 rs1 m =
    if funct3 == 0
    then running (insi_s_sb imm rs2 rs1 m)
    else if funct3 == 1
    then running (insi_s_sh imm rs2 rs1 m)
    else if funct3 == 2
    then running (insi_s_sw imm rs2 rs1 m)
    else fatal

unfoldable pub exec_fp_load : ℕ → ℕ → ℕ → ℕ → Machine → Outcome
exec_fp_load imm funct3 rs1 rd m =
    if funct3 == 1
    then running (insf_flh imm rs1 rd m)
    else if funct3 == 2
    then running (insf_flw imm rs1 rd m)
    else if funct3 == 3
    then running (insf_fld imm rs1 rd m)
    else if funct3 == 4
    then running (insf_flq imm rs1 rd m)
    else fatal

unfoldable pub exec_fp_store : ℕ → ℕ → ℕ → ℕ → Machine → Outcome
exec_fp_store imm funct3 rs2 rs1 m =
    if funct3 == 1
    then running (insf_fsh imm rs1 rs2 m)
    else if funct3 == 2
    then running (insf_fsw imm rs1 rs2 m)
    else if funct3 == 3
    then running (insf_fsd imm rs1 rs2 m)
    else if funct3 == 4
    then running (insf_fsq imm rs1 rs2 m)
    else fatal

-- An illegal instruction while the floating-point unit is off.
abbrev pub unless_off : ℕ → Machine → Outcome → Outcome
unless_off ins m o =
    if fpu_fs_off m then running (raise_exception cause_illegal_instruction ins m) else o

unfoldable pub exec_branch : ℕ → ℕ → ℕ → ℕ → Machine → Outcome
exec_branch imm funct3 rs2 rs1 m =
    if funct3 == 0
    then running (insi_b_beq imm rs2 rs1 m)
    else if funct3 == 1
    then running (insi_b_bne imm rs2 rs1 m)
    else if funct3 == 4
    then running (insi_b_blt imm rs2 rs1 m)
    else if funct3 == 5
    then running (insi_b_bge imm rs2 rs1 m)
    else if funct3 == 6
    then running (insi_b_bltu imm rs2 rs1 m)
    else if funct3 == 7
    then running (insi_b_bgeu imm rs2 rs1 m)
    else fatal

unfoldable pub exec_atomic : Bool → ℕ → ℕ → ℕ → ℕ → Machine → Outcome
exec_atomic allocated funct5 rs1 rs2 rd m =
    if funct5 == 0x00
    then insa_r_amoadd_w rs1 rs2 rd m
    else if funct5 == 0x01
    then insa_r_amoswap_w rs1 rs2 rd m
    else if funct5 == 0x02
    then insa_r_lr_w allocated rs1 rd m
    else if funct5 == 0x03
    then insa_r_sc_w allocated rs1 rs2 rd m
    else if funct5 == 0x04
    then insa_r_amoxor_w rs1 rs2 rd m
    else if funct5 == 0x08
    then insa_r_amoor_w rs1 rs2 rd m
    else if funct5 == 0x0C
    then insa_r_amoand_w rs1 rs2 rd m
    else if funct5 == 0x10
    then insa_r_amomin_w rs1 rs2 rd m
    else if funct5 == 0x14
    then insa_r_amomax_w rs1 rs2 rd m
    else if funct5 == 0x18
    then insa_r_amominu_w rs1 rs2 rd m
    else if funct5 == 0x1C
    then insa_r_amomaxu_w rs1 rs2 rd m
    else fatal

-- FENCE and FENCE.I do nothing.
unfoldable pub exec_fence : ℕ → Machine → Outcome
exec_fence funct3 m = if funct3 == 0 then running m else if funct3 == 1 then running m else fatal
