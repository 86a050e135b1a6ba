-- ===== src/Integer.antt =====
-- The integer computations of include/extension/basic_instructions.h and include/extension/zicond_extension.h. A
-- word is its bit pattern; the signed type is in the comparisons and the arithmetic shifts.
pub mod Signed
use riscvemu.Base.{
  ℕ, ◌+◌, ltb, ◌==◌, nonzero, if◌then◌else◌, bit_and, bit_or, bit_xor, u32, sub32, ◌<<<◌, ◌>>>◌,
}
use riscvemu.Base.Int.{int32, uint32, sar_ℤ, ltb_ℤ}
use riscvemu.Machine.{Machine, reg_read, reg_write}

-- `rd = f(rs1, rs2)` and `rd = f(rs1, imm)`.
abbrev pub register_form : (ℕ → ℕ → ℕ) → ℕ → ℕ → ℕ → Machine → Machine
register_form f rs2 rs1 rd m = reg_write rd (f (reg_read rs1 m) (reg_read rs2 m)) m

abbrev pub immediate_form : (ℕ → ℕ → ℕ) → ℕ → ℕ → ℕ → Machine → Machine
immediate_form f imm rs1 rd m = reg_write rd (f (reg_read rs1 m) imm) m

-- The operations on two words.
unfoldable pub add : ℕ → ℕ → ℕ
add v1 v2 = u32 (v1 + v2)

unfoldable pub sll : ℕ → ℕ → ℕ
sll v1 v2 = u32 (v1 <<< bit_and v2 0x1F)

unfoldable pub srl : ℕ → ℕ → ℕ
srl v1 v2 = v1 >>> bit_and v2 0x1F

unfoldable pub sra : ℕ → ℕ → ℕ
sra v1 v2 = uint32 (sar_ℤ (int32 v1) (bit_and v2 0x1F))

unfoldable pub slt : ℕ → ℕ → ℕ
slt v1 v2 = if ltb_ℤ (int32 v1) (int32 v2) then 1 else 0

unfoldable pub sltu : ℕ → ℕ → ℕ
sltu v1 v2 = if ltb v1 v2 then 1 else 0

unfoldable pub insi_r_add : ℕ → ℕ → ℕ → Machine → Machine
insi_r_add rs2 rs1 rd m = register_form add rs2 rs1 rd m

unfoldable pub insi_r_sub : ℕ → ℕ → ℕ → Machine → Machine
insi_r_sub rs2 rs1 rd m = register_form sub32 rs2 rs1 rd m

unfoldable pub insi_r_xor : ℕ → ℕ → ℕ → Machine → Machine
insi_r_xor rs2 rs1 rd m = register_form bit_xor rs2 rs1 rd m

unfoldable pub insi_r_or : ℕ → ℕ → ℕ → Machine → Machine
insi_r_or rs2 rs1 rd m = register_form bit_or rs2 rs1 rd m

unfoldable pub insi_r_and : ℕ → ℕ → ℕ → Machine → Machine
insi_r_and rs2 rs1 rd m = register_form bit_and rs2 rs1 rd m

unfoldable pub insi_r_sll : ℕ → ℕ → ℕ → Machine → Machine
insi_r_sll rs2 rs1 rd m = register_form sll rs2 rs1 rd m

unfoldable pub insi_r_srl : ℕ → ℕ → ℕ → Machine → Machine
insi_r_srl rs2 rs1 rd m = register_form srl rs2 rs1 rd m

unfoldable pub insi_r_sra : ℕ → ℕ → ℕ → Machine → Machine
insi_r_sra rs2 rs1 rd m = register_form sra rs2 rs1 rd m

unfoldable pub insi_r_slt : ℕ → ℕ → ℕ → Machine → Machine
insi_r_slt rs2 rs1 rd m = register_form slt rs2 rs1 rd m

unfoldable pub insi_r_sltu : ℕ → ℕ → ℕ → Machine → Machine
insi_r_sltu rs2 rs1 rd m = register_form sltu rs2 rs1 rd m

unfoldable pub insi_i_addi : ℕ → ℕ → ℕ → Machine → Machine
insi_i_addi imm rs1 rd m = immediate_form add imm rs1 rd m

unfoldable pub insi_i_xori : ℕ → ℕ → ℕ → Machine → Machine
insi_i_xori imm rs1 rd m = immediate_form bit_xor imm rs1 rd m

unfoldable pub insi_i_ori : ℕ → ℕ → ℕ → Machine → Machine
insi_i_ori imm rs1 rd m = immediate_form bit_or imm rs1 rd m

unfoldable pub insi_i_andi : ℕ → ℕ → ℕ → Machine → Machine
insi_i_andi imm rs1 rd m = immediate_form bit_and imm rs1 rd m

unfoldable pub insi_i_slli : ℕ → ℕ → ℕ → Machine → Machine
insi_i_slli imm rs1 rd m = immediate_form sll imm rs1 rd m

unfoldable pub insi_i_srli : ℕ → ℕ → ℕ → Machine → Machine
insi_i_srli imm rs1 rd m = immediate_form srl imm rs1 rd m

unfoldable pub insi_i_srai : ℕ → ℕ → ℕ → Machine → Machine
insi_i_srai imm rs1 rd m = immediate_form sra imm rs1 rd m

unfoldable pub insi_i_slti : ℕ → ℕ → ℕ → Machine → Machine
insi_i_slti imm rs1 rd m = immediate_form slt imm rs1 rd m

unfoldable pub insi_i_sltiu : ℕ → ℕ → ℕ → Machine → Machine
insi_i_sltiu imm rs1 rd m = immediate_form sltu imm rs1 rd m

unfoldable pub insi_u_lui : ℕ → ℕ → Machine → Machine
insi_u_lui imm rd m = reg_write rd imm m

unfoldable pub insi_u_auipc : ℕ → ℕ → Machine → Machine
insi_u_auipc imm rd m = reg_write rd (u32 (m.pc + imm)) m

unfoldable pub ins_zicond_czero_eqz : ℕ → ℕ → ℕ → Machine → Machine
ins_zicond_czero_eqz rs1 rs2 rd m =
    let val1 = reg_read rs1 m in
    if reg_read rs2 m == 0 then reg_write rd 0 m else reg_write rd val1 m

unfoldable pub ins_zicond_czero_nez : ℕ → ℕ → ℕ → Machine → Machine
ins_zicond_czero_nez rs1 rs2 rd m =
    let val1 = reg_read rs1 m in
    if nonzero (reg_read rs2 m) then reg_write rd 0 m else reg_write rd val1 m
