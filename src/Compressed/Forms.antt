-- ===== src/Compressed/Forms.antt =====
-- The short forms of src/extension/c_extension.c that stand for one base instruction: their
-- encodings, and the instruction of include/extension/basic_instructions.h for which each stands.
use riscvemu.Base.{
  ℕ, ◌+◌, ◌%◌, ◌^◌, ◌≤◌, ◌<◌, ◌≡◌, ◌==◌, true, nonzero, if◌then◌else◌, u32, bit_and, arith,
}
use riscvemu.Bits.{bit_and-ones}
use riscvemu.Machine.{Machine, reg_read}
use riscvemu.System.{misa_c_enabled}
use riscvemu.Jump.Target.{is_fetchable}
use riscvemu.Integer.{insi_i_addi, insi_r_add, insi_r_sub, insi_r_xor, insi_r_or, insi_r_and}
use riscvemu.LoadStore.{insi_i_lw, insi_s_sw}
use riscvemu.Jump.{insi_j_jal, insi_b_beq, insi_b_bne}
use riscvemu.Exec.Formats.{IsSigned}
use riscvemu.Compressed.{exec_c_insn, sequential, after_access, c_alu}
use riscvemu.Compressed.Fields.{ci_type, cl_type, cb_type, cj_type}
use riscvemu.Compressed.Stack.{
  ci_stack_type, css_type, cr_type, ca_type, c_lwsp-insi_i_lw, c_swsp-insi_s_sw, c_add-insi_r_add,
  c_alu-register_form,
}
use riscvemu.Compressed.Expand.{
  c_addi-insi_i_addi, c_li-insi_i_addi, c_lw-insi_i_lw, c_sw-insi_s_sw, c_j-insi_j_jal,
  c_beqz-insi_b_beq, c_bnez-insi_b_bne,
}

-- The operands in the order of the full instruction: source registers, destination, immediate.
pub data Short : Type 0 where
  c_addi c_li c_lwsp c_swsp : ℕ → ℕ → Short
  c_lw c_sw : ℕ → ℕ → ℕ → Short
  c_add c_sub c_xor c_or c_and : ℕ → ℕ → Short
  c_j : ℕ → Short
  c_beqz c_bnez : ℕ → ℕ → Short

abbrev pub encode : Short → ℕ
encode (c_addi rd imm) = ci_type 1 0 rd imm
encode (c_li rd imm) = ci_type 1 2 rd imm
encode (c_lwsp rd imm) = ci_stack_type rd imm
encode (c_swsp rs2 imm) = css_type rs2 imm
encode (c_lw rs1 rd imm) = cl_type 2 rs1 rd imm
encode (c_sw rs1 rs2 imm) = cl_type 6 rs1 rs2 imm
encode (c_add rd rs2) = cr_type 1 rd rs2
encode (c_sub rd rs2) = ca_type 0 rd rs2
encode (c_xor rd rs2) = ca_type 1 rd rs2
encode (c_or rd rs2) = ca_type 2 rd rs2
encode (c_and rd rs2) = ca_type 3 rd rs2
encode (c_j imm) = cj_type 5 imm
encode (c_beqz rs1 imm) = cb_type 6 rs1 imm
encode (c_bnez rs1 imm) = cb_type 7 rs1 imm

-- The effect of the full instruction; one that runs on advances by 2.
abbrev pub expand : Short → Machine → Machine × ℕ
expand (c_addi rd imm) m = sequential (insi_i_addi imm rd rd m)
expand (c_li rd imm) m = sequential (insi_i_addi imm 0 rd m)
expand (c_lwsp rd imm) m = after_access m.pc (insi_i_lw imm 2 rd m)
expand (c_swsp rs2 imm) m = after_access m.pc (insi_s_sw imm rs2 2 m)
expand (c_lw rs1 rd imm) m = after_access m.pc (insi_i_lw imm rs1 rd m)
expand (c_sw rs1 rs2 imm) m = after_access m.pc (insi_s_sw imm rs2 rs1 m)
expand (c_add rd rs2) m = sequential (insi_r_add rs2 rd rd m)
expand (c_sub rd rs2) m = sequential (insi_r_sub rs2 rd rd m)
expand (c_xor rd rs2) m = sequential (insi_r_xor rs2 rd rd m)
expand (c_or rd rs2) m = sequential (insi_r_or rs2 rd rd m)
expand (c_and rd rs2) m = sequential (insi_r_and rs2 rd rd m)
expand (c_j imm) m = (insi_j_jal imm 0 m, 0)
expand (c_beqz rs1 imm) m =
    if reg_read rs1 m == 0 then (insi_b_beq imm 0 rs1 m, 0) else sequential m
expand (c_bnez rs1 imm) m =
    if reg_read rs1 m == 0 then sequential m else (insi_b_bne imm 0 rs1 m, 0)

-- The registers and immediates that the format has room for.
abbrev IsPrime : ℕ → Type 0
IsPrime r = (8 ≤ r) × (r < 16)

abbrev IsGeneral : ℕ → Type 0
IsGeneral r = (0 < r) × (r < 32)

-- A multiple of 4 below a bound.
abbrev IsWordOffset : ℕ → ℕ → Type 0
IsWordOffset bound imm = (imm < bound) × (imm % 4 ≡ 0)

abbrev IsJumpOffset : ℕ → ℕ → Type 0
IsJumpOffset k imm = IsSigned k imm × (imm % 2 ≡ 0)

abbrev pub IsEncodable : Short → Type 0
IsEncodable (c_addi rd imm) = (rd < 32) × IsSigned 6 imm
IsEncodable (c_li rd imm) = (rd < 32) × IsSigned 6 imm
IsEncodable (c_lwsp rd imm) = IsGeneral rd × IsWordOffset (2 ^ 8) imm
IsEncodable (c_swsp rs2 imm) = (rs2 < 32) × IsWordOffset (2 ^ 8) imm
IsEncodable (c_lw rs1 rd imm) = IsPrime rs1 × IsPrime rd × IsWordOffset (2 ^ 7) imm
IsEncodable (c_sw rs1 rs2 imm) = IsPrime rs1 × IsPrime rs2 × IsWordOffset (2 ^ 7) imm
IsEncodable (c_add rd rs2) = IsGeneral rd × IsGeneral rs2
IsEncodable (c_sub rd rs2) = IsPrime rd × IsPrime rs2
IsEncodable (c_xor rd rs2) = IsPrime rd × IsPrime rs2
IsEncodable (c_or rd rs2) = IsPrime rd × IsPrime rs2
IsEncodable (c_and rd rs2) = IsPrime rd × IsPrime rs2
IsEncodable (c_j imm) = IsJumpOffset 12 imm
IsEncodable (c_beqz rs1 imm) = IsPrime rs1 × IsJumpOffset 9 imm
IsEncodable (c_bnez rs1 imm) = IsPrime rs1 × IsJumpOffset 9 imm

-- With the extension on, every even address may start an instruction.
is_fetchable-even :
    (imm : ℕ) (m : Machine)
    → nonzero (misa_c_enabled m) ≡ true
    → m.pc % 2 ≡ 0
    → imm % 2 ≡ 0
    → is_fetchable (u32 (m.pc + imm)) m ≡ true
unfolding is_fetchable
is_fetchable-even imm m on p i =
    let low : bit_and (u32 (m.pc + imm)) 1 ≡ 0 = omega (arith, bit_and-ones 1 (u32 (m.pc + imm))) in
    simp (on, low)

-- For C.ADDI, C.LI, C.LWSP, C.SWSP, C.LW, C.SW, C.ADD, C.SUB, C.XOR, C.OR, C.AND, C.J, C.BEQZ and
-- C.BNEZ with registers and an immediate that their formats have room for, from an even address
-- with the C extension on, `exec_c_insn` on the encoding does what the function of the full
-- instruction does; when that runs on to the next instruction, the program counter advances by 2,
-- and a branch that is not taken does no more than that.
pub exec_c_insn-expand :
    (i : Short) (m : Machine)
    → IsEncodable i
    → nonzero (misa_c_enabled m) ≡ true
    → m.pc % 2 ≡ 0
    → exec_c_insn (encode i) m ≡ expand i m
unfolding c_alu insi_r_sub insi_r_xor insi_r_or insi_r_and
exec_c_insn-expand (c_addi rd imm) m (d, h) on p = c_addi-insi_i_addi rd imm m d h
exec_c_insn-expand (c_li rd imm) m (d, h) on p = c_li-insi_i_addi rd imm m d h
exec_c_insn-expand (c_lwsp rd imm) m ((z, d), (h, w)) on p = c_lwsp-insi_i_lw rd imm d h w m z
exec_c_insn-expand (c_swsp rs2 imm) m (d, (h, w)) on p = c_swsp-insi_s_sw rs2 imm d h w m
exec_c_insn-expand (c_lw rs1 rd imm) m ((a, b), (d, e), (h, w)) on p =
    c_lw-insi_i_lw rs1 rd imm m a b d e h w
exec_c_insn-expand (c_sw rs1 rs2 imm) m ((a, b), (d, e), (h, w)) on p =
    c_sw-insi_s_sw rs1 rs2 imm m a b d e h w
exec_c_insn-expand (c_add rd rs2) m ((z, d), (y, e)) on p = c_add-insi_r_add rd rs2 m z d y e
exec_c_insn-expand (c_sub rd rs2) m ((a, b), (d, e)) on p =
    c_alu-register_form 0 rd rs2 m (omega arith) a b d e
exec_c_insn-expand (c_xor rd rs2) m ((a, b), (d, e)) on p =
    c_alu-register_form 1 rd rs2 m (omega arith) a b d e
exec_c_insn-expand (c_or rd rs2) m ((a, b), (d, e)) on p =
    c_alu-register_form 2 rd rs2 m (omega arith) a b d e
exec_c_insn-expand (c_and rd rs2) m ((a, b), (d, e)) on p =
    c_alu-register_form 3 rd rs2 m (omega arith) a b d e
exec_c_insn-expand (c_j imm) m (h, w) on p =
    c_j-insi_j_jal imm m h w (is_fetchable-even imm m on p w)
exec_c_insn-expand (c_beqz rs1 imm) m ((a, b), (h, w)) on p =
    c_beqz-insi_b_beq rs1 imm m a b h w (is_fetchable-even imm m on p w)
exec_c_insn-expand (c_bnez rs1 imm) m ((a, b), (h, w)) on p =
    c_bnez-insi_b_bne rs1 imm m a b h w (is_fetchable-even imm m on p w)
