-- ===== src/Exec/Instructions.antt =====
-- The base instructions and those of the M extension, as words of their formats and by the functions of
-- include/extension/basic_instructions.h and src/extension/m_extension.c.
use riscvemu.Base.{ℕ, ◌%◌, ◌≡◌}
use riscvemu.Machine.{Machine}
use riscvemu.Integer.{
  insi_r_add, insi_r_sub, insi_r_sll, insi_r_slt, insi_r_sltu, insi_r_xor, insi_r_srl, insi_r_sra,
  insi_r_or, insi_r_and, insi_i_addi, insi_i_slli, insi_i_slti, insi_i_sltiu, insi_i_xori,
  insi_i_srli, insi_i_srai, insi_i_ori, insi_i_andi,
}
use riscvemu.Jump.{
  insi_b_beq, insi_b_bne, insi_b_blt, insi_b_bge, insi_b_bltu, insi_b_bgeu, insi_j_jal, insi_i_jalr,
}
use riscvemu.Muldiv.{
  insm_r_mul, insm_r_mulh, insm_r_mulsu, insm_r_mulu, insm_r_div, insm_r_divu, insm_r_rem,
  insm_r_remu,
}
use riscvemu.LoadStore.{
  insi_i_lb, insi_i_lh, insi_i_lw, insi_i_lbu, insi_i_lhu, insi_s_sb, insi_s_sh, insi_s_sw,
}
use riscvemu.Exec.{Rtype}
use riscvemu.Exec.Formats.{IsSigned, r_type, i_type, s_type, b_type, j_type}
use riscvemu.Exec.Encoded.{Operands}

-- The operations of each format, with their function codes and their effects.
pub data Register : Type 0 where
  add sub sll slt sltu xor srl sra or and mul mulh mulhsu mulhu div divu rem remu : Register

abbrev pub register_code : Register → ℕ × ℕ
register_code add = (0, 0)
register_code sub = (0, 32)
register_code sll = (1, 0)
register_code slt = (2, 0)
register_code sltu = (3, 0)
register_code xor = (4, 0)
register_code srl = (5, 0)
register_code sra = (5, 32)
register_code or = (6, 0)
register_code and = (7, 0)
register_code mul = (0, 1)
register_code mulh = (1, 1)
register_code mulhsu = (2, 1)
register_code mulhu = (3, 1)
register_code div = (4, 1)
register_code divu = (5, 1)
register_code rem = (6, 1)
register_code remu = (7, 1)

abbrev pub register_effect : Register → Rtype
register_effect add = insi_r_add
register_effect sub = insi_r_sub
register_effect sll = insi_r_sll
register_effect slt = insi_r_slt
register_effect sltu = insi_r_sltu
register_effect xor = insi_r_xor
register_effect srl = insi_r_srl
register_effect sra = insi_r_sra
register_effect or = insi_r_or
register_effect and = insi_r_and
register_effect mul = insm_r_mul
register_effect mulh = insm_r_mulh
register_effect mulhsu = insm_r_mulsu
register_effect mulhu = insm_r_mulu
register_effect div = insm_r_div
register_effect divu = insm_r_divu
register_effect rem = insm_r_rem
register_effect remu = insm_r_remu

pub data Immediate : Type 0 where
  addi slti sltiu xori ori andi : Immediate

abbrev pub immediate_code : Immediate → ℕ
immediate_code addi = 0
immediate_code slti = 2
immediate_code sltiu = 3
immediate_code xori = 4
immediate_code ori = 6
immediate_code andi = 7

abbrev pub immediate_effect : Immediate → Rtype
immediate_effect addi = insi_i_addi
immediate_effect slti = insi_i_slti
immediate_effect sltiu = insi_i_sltiu
immediate_effect xori = insi_i_xori
immediate_effect ori = insi_i_ori
immediate_effect andi = insi_i_andi

pub data Shift : Type 0 where
  slli srli srai : Shift

abbrev pub shift_code : Shift → ℕ × ℕ
shift_code slli = (1, 0)
shift_code srli = (5, 0)
shift_code srai = (5, 32)

abbrev pub shift_effect : Shift → Rtype
shift_effect slli = insi_i_slli
shift_effect srli = insi_i_srli
shift_effect srai = insi_i_srai

pub data Load : Type 0 where
  lb lh lw lbu lhu : Load

abbrev pub load_code : Load → ℕ
load_code lb = 0
load_code lh = 1
load_code lw = 2
load_code lbu = 4
load_code lhu = 5

abbrev pub load_effect : Load → Rtype
load_effect lb = insi_i_lb
load_effect lh = insi_i_lh
load_effect lw = insi_i_lw
load_effect lbu = insi_i_lbu
load_effect lhu = insi_i_lhu

pub data Store : Type 0 where
  sb sh sw : Store

abbrev pub store_code : Store → ℕ
store_code sb = 0
store_code sh = 1
store_code sw = 2

abbrev pub store_effect : Store → Rtype
store_effect sb = insi_s_sb
store_effect sh = insi_s_sh
store_effect sw = insi_s_sw

pub data Branch : Type 0 where
  beq bne blt bge bltu bgeu : Branch

abbrev pub branch_code : Branch → ℕ
branch_code beq = 0
branch_code bne = 1
branch_code blt = 4
branch_code bge = 5
branch_code bltu = 6
branch_code bgeu = 7

abbrev pub branch_effect : Branch → Rtype
branch_effect beq = insi_b_beq
branch_effect bne = insi_b_bne
branch_effect blt = insi_b_blt
branch_effect bge = insi_b_bge
branch_effect bltu = insi_b_bltu
branch_effect bgeu = insi_b_bgeu

-- Destination, sources and immediate, in this order.
pub data Instruction : Type 0 where
  register : Register → ℕ → ℕ → ℕ → Instruction
  immediate : Immediate → ℕ → ℕ → ℕ → Instruction
  shift : Shift → ℕ → ℕ → ℕ → Instruction
  load_from : Load → ℕ → ℕ → ℕ → Instruction
  store_to : Store → ℕ → ℕ → ℕ → Instruction
  branch_by : Branch → ℕ → ℕ → ℕ → Instruction
  jal : ℕ → ℕ → Instruction
  jalr : ℕ → ℕ → ℕ → Instruction

abbrev pub encode : Instruction → ℕ
encode (register o rd rs1 rs2) = r_type 0x33 rd (register_code o).0 rs1 rs2 (register_code o).1
encode (immediate o rd rs1 imm) = i_type 0x13 rd (immediate_code o) rs1 imm
encode (shift o rd rs1 shamt) = r_type 0x13 rd (shift_code o).0 rs1 shamt (shift_code o).1
encode (load_from o rd rs1 imm) = i_type 0x03 rd (load_code o) rs1 imm
encode (store_to o rs1 rs2 imm) = s_type 0x23 (store_code o) rs1 rs2 imm
encode (branch_by o rs1 rs2 imm) = b_type 0x63 (branch_code o) rs1 rs2 imm
encode (jal rd imm) = j_type 0x6F rd imm
encode (jalr rd rs1 imm) = i_type 0x67 rd 0 rs1 imm

abbrev pub effect : Instruction → Machine → Machine
effect (register o rd rs1 rs2) m = register_effect o rs2 rs1 rd m
effect (immediate o rd rs1 imm) m = immediate_effect o imm rs1 rd m
effect (shift o rd rs1 shamt) m = shift_effect o shamt rs1 rd m
effect (load_from o rd rs1 imm) m = load_effect o imm rs1 rd m
effect (store_to o rs1 rs2 imm) m = store_effect o imm rs2 rs1 m
effect (branch_by o rs1 rs2 imm) m = branch_effect o imm rs2 rs1 m
effect (jal rd imm) m = insi_j_jal imm rd m
effect (jalr rd rs1 imm) m = insi_i_jalr imm rs1 rd m

abbrev IsJumpOffset : ℕ → ℕ → Type 0
IsJumpOffset k imm = IsSigned k imm × (imm % 2 ≡ 0)

-- The registers and the immediate that the format has room for.
abbrev pub IsEncodable : Instruction → Type 0
IsEncodable (register o rd rs1 rs2) = Operands rd rs1 rs2
IsEncodable (immediate o rd rs1 imm) = Operands rd rs1 0 × IsSigned 12 imm
IsEncodable (shift o rd rs1 shamt) = Operands rd rs1 shamt
IsEncodable (load_from o rd rs1 imm) = Operands rd rs1 0 × IsSigned 12 imm
IsEncodable (store_to o rs1 rs2 imm) = Operands 0 rs1 rs2 × IsSigned 12 imm
IsEncodable (branch_by o rs1 rs2 imm) = Operands 0 rs1 rs2 × IsJumpOffset 13 imm
IsEncodable (jal rd imm) = Operands rd 0 0 × IsJumpOffset 21 imm
IsEncodable (jalr rd rs1 imm) = Operands rd rs1 0 × IsSigned 12 imm
