-- ===== src/Jump.antt =====
-- The jumps, branches and environment calls of include/extension/basic_instructions.h. The main loop adds 4 after
-- each instruction, so a jump leaves its target less 4.
pub mod Target
use riscvemu.Base.{
  ℕ, ◌+◌, ◌-◌, ◌%◌, ◌^◌, Bool, true, false, not, ltb, ◌==◌, nonzero, if◌then◌else◌, bit_and, bit_or,
  not32, u32, sub32,
}
use riscvemu.Base.Int.{int32, ltb_ℤ}
use riscvemu.Machine.{Machine, reg_read, reg_write, prv_supervisor, prv_machine}
use riscvemu.System.{raise_exception, raise_if_misaligned_fetch}

-- `g_state.pc = target; PC_BACKWARD;`
abbrev pub set_target : ℕ → Machine → Machine
set_target target m = record m { pc = sub32 target 4 }

-- A jump that saves the address after it in `rd`.
abbrev pub link : ℕ → ℕ → Machine → Machine
link target rd m =
    let (n, trapped) = raise_if_misaligned_fetch target m in
    if trapped then n else set_target target (reg_write rd (u32 (n.pc + 4)) n)

unfoldable pub insi_i_jalr : ℕ → ℕ → ℕ → Machine → Machine
insi_i_jalr imm rs1 rd m = link (bit_and (u32 (reg_read rs1 m + imm)) (not32 1)) rd m

unfoldable pub insi_j_jal : ℕ → ℕ → Machine → Machine
insi_j_jal imm rd m = link (u32 (m.pc + imm)) rd m

-- A branch that is taken when the test holds.
unfoldable pub branch : Bool → ℕ → Machine → Machine
branch taken imm m =
    let (n, trapped) = raise_if_misaligned_fetch (u32 (m.pc + imm)) m in
    if taken then if trapped then n else set_target (u32 (n.pc + imm)) n else m

unfoldable pub insi_b_beq : ℕ → ℕ → ℕ → Machine → Machine
insi_b_beq imm rs2 rs1 m = branch (reg_read rs1 m == reg_read rs2 m) imm m

unfoldable pub insi_b_bne : ℕ → ℕ → ℕ → Machine → Machine
insi_b_bne imm rs2 rs1 m = branch (not (reg_read rs1 m == reg_read rs2 m)) imm m

unfoldable pub insi_b_blt : ℕ → ℕ → ℕ → Machine → Machine
insi_b_blt imm rs2 rs1 m = branch (ltb_ℤ (int32 (reg_read rs1 m)) (int32 (reg_read rs2 m))) imm m

unfoldable pub insi_b_bge : ℕ → ℕ → ℕ → Machine → Machine
insi_b_bge imm rs2 rs1 m =
    branch (not (ltb_ℤ (int32 (reg_read rs1 m)) (int32 (reg_read rs2 m)))) imm m

unfoldable pub insi_b_bltu : ℕ → ℕ → ℕ → Machine → Machine
insi_b_bltu imm rs2 rs1 m = branch (ltb (reg_read rs1 m) (reg_read rs2 m)) imm m

unfoldable pub insi_b_bgeu : ℕ → ℕ → ℕ → Machine → Machine
insi_b_bgeu imm rs2 rs1 m = branch (not (ltb (reg_read rs1 m) (reg_read rs2 m))) imm m

-- a7 = 93 ends the run, as the test programs ask for it.
unfoldable pub insi_i_ecall : Machine → Machine
insi_i_ecall m =
    if m.gpr 17 == 93
    then record m { terminated = true }
    else raise_exception
        (if m.privilege == prv_supervisor then 9 else if m.privilege == prv_machine then 11 else 8)
        0 m

unfoldable pub insi_i_ebreak : Machine → Machine
insi_i_ebreak m = raise_exception 3 0 m

unfoldable pub sign_extend_12 : ℕ → ℕ
sign_extend_12 imm = if nonzero (bit_and imm 0x800) then bit_or imm 0xFFFFF000 else imm

unfoldable pub sign_extend_13 : ℕ → ℕ
sign_extend_13 imm = if nonzero (bit_and imm 0x1000) then bit_or imm 0xFFFFE000 else imm

unfoldable pub sign_extend_21 : ℕ → ℕ
sign_extend_21 imm = if nonzero (bit_and imm 0x100000) then bit_or imm 0xFFE00000 else imm
