-- ===== src/Compressed.antt =====
-- `exec_c_insn` of src/extension/c_extension.c, by quadrants. The main loop adds 4 after it, so an
-- instruction that runs on leaves the program counter 2 lower. The second component is what the
-- function returns.
pub mod Imm
pub mod Jumps
pub mod Fields
pub mod Stack
pub mod Expand
pub mod Forms
use riscvemu.Base.{
  ℕ, ◌+◌, ◌-◌, ◌*◌, ◌/◌, ◌%◌, ◌^◌, Bool, true, false, not, ◌&&◌, ◌||◌, leb, ◌==◌, nonzero,
  if◌then◌else◌, bit_and, bit_or, bit_xor, u32, sub32, ◌<<<◌, ◌>>>◌,
}
use riscvemu.Base.Int.{int32, uint32, sar_ℤ}
use riscvemu.Machine.{Machine, reg_read, reg_write}
use riscvemu.System.{raise_illegal, raise_exception, raise_if_misaligned_fetch}
use riscvemu.Jump.{set_target}
use riscvemu.LoadStore.{insi_i_lw, insi_s_sw, insf_flw, insf_fld, insf_fsw, insf_fsd}
use riscvemu.Compressed.Imm.{
  c_addi4spn_imm, c_ls_uimm, c_lwsp_uimm, c_swsp_uimm, c_addi16sp_imm, c_jal_offset,
  c_branch_offset, c_lui_imm, c_imm6, c_shamt,
}

-- `g_state.pc -= 2; return 0;`
abbrev pub sequential : Machine → Machine × ℕ
sequential m = (record m { pc = sub32 m.pc 2 }, 0)

-- `raise_illegal(c); return 1;`
abbrev pub illegal : ℕ → Machine → Machine × ℕ
illegal c m = (raise_illegal c m, 1)

-- After a load or a store that began at `saved`.
unfoldable pub after_access : ℕ → Machine → Machine × ℕ
after_access saved m =
    let n = if m.pc == saved then record m { pc = sub32 m.pc 2 } else m in
    (n, if n.pc == saved then 0 else 1)

-- The 3-bit register field at a shift.
abbrev pub prime : ℕ → ℕ → ℕ
prime c shift = 8 + bit_and (c >>> shift) 0x7

abbrev pub full : ℕ → ℕ → ℕ
full c shift = bit_and (c >>> shift) 0x1F

unfoldable pub quadrant0 : ℕ → ℕ → Machine → Machine × ℕ
quadrant0 c f3 m =
    let rs1p = prime c 7 in
    let rdp = prime c 2 in
    let nzuimm = c_addi4spn_imm c in
    if f3 == 0
    then if nzuimm == 0
      then illegal c m
      else sequential (reg_write rdp (u32 (reg_read 2 m + nzuimm)) m)
    else if f3 == 1
    then after_access m.pc (insf_fld (c_ls_uimm c) rs1p rdp m)
    else if f3 == 3
    then after_access m.pc (insf_flw (c_ls_uimm c) rs1p rdp m)
    else if f3 == 2
    then after_access m.pc (insi_i_lw (c_ls_uimm c) rs1p rdp m)
    else if f3 == 6
    then after_access m.pc (insi_s_sw (c_ls_uimm c) rdp rs1p m)
    else if f3 == 5
    then after_access m.pc (insf_fsd (c_ls_uimm c) rs1p rdp m)
    else if f3 == 7
    then after_access m.pc (insf_fsw (c_ls_uimm c) rs1p rdp m)
    else illegal c m

-- `g_state.pc += offset; PC_BACKWARD; return 0;`
abbrev pub jump_by : ℕ → Machine → Machine × ℕ
jump_by offset m = (set_target (u32 (m.pc + offset)) m, 0)

-- C.SUB, C.XOR, C.OR and C.AND.
unfoldable pub c_alu : ℕ → ℕ → ℕ → ℕ
c_alu alu rs1v rs2v =
    if alu == 0
    then sub32 rs1v rs2v
    else if alu == 1
    then bit_xor rs1v rs2v
    else if alu == 2
    then bit_or rs1v rs2v
    else bit_and rs1v rs2v

-- The arithmetic and shift group of quadrant 1.
unfoldable pub quadrant1_alu : ℕ → Machine → Machine × ℕ
quadrant1_alu c m =
    let funct2 = bit_and (c >>> 10) 0x3 in
    let rdp = prime c 7 in
    let shamt = c_shamt c in
    let val = reg_read rdp m in
    if leb funct2 1
    then if shamt == 0
      then illegal c m
      else if funct2 == 0
      then sequential (reg_write rdp (val >>> bit_and shamt 0x1F) m)
      else sequential (reg_write rdp (uint32 (sar_ℤ (int32 val) (bit_and shamt 0x1F))) m)
    else if funct2 == 2
    then sequential (reg_write rdp (bit_and val (c_imm6 c)) m)
    else sequential (reg_write rdp (c_alu (bit_and (c >>> 5) 0x3) val (reg_read (prime c 2) m)) m)

unfoldable pub quadrant1 : ℕ → ℕ → Machine → Machine × ℕ
quadrant1 c f3 m =
    let rd = full c 7 in
    let v = reg_read (prime c 7) m in
    if f3 == 0
    then sequential (reg_write rd (u32 (reg_read rd m + c_imm6 c)) m)
    else if f3 == 1
    then jump_by (c_jal_offset c) (reg_write 1 (u32 (m.pc + 2)) m)
    else if f3 == 2
    then sequential (reg_write rd (c_imm6 c) m)
    else if f3 == 3
    then if rd == 2
      then sequential (reg_write 2 (u32 (reg_read 2 m + c_addi16sp_imm c)) m)
      else if nonzero rd
      then sequential (reg_write rd (c_lui_imm c) m)
      else illegal c m
    else if f3 == 4
    then quadrant1_alu c m
    else if f3 == 5
    then jump_by (c_jal_offset c) m
    else if f3 == 6 && v == 0 || f3 == 7 && nonzero v
    then jump_by (c_branch_offset c) m
    else sequential m

-- C.JR and C.JALR; `link` writes the return address.
abbrev pub jump_register : ℕ → (Machine → Machine) → Machine → Machine × ℕ
jump_register rs1 link m =
    let (n, trapped) = raise_if_misaligned_fetch (reg_read rs1 m) m in
    if trapped then (n, 1) else (let k = link n in (set_target (reg_read rs1 k) k, 0))

-- C.JR, C.MV, C.EBREAK, C.JALR and C.ADD.
unfoldable pub quadrant2_move : ℕ → Machine → Machine × ℕ
quadrant2_move c m =
    let rs1 = full c 7 in
    let rs2 = full c 2 in
    if bit_and (c >>> 12) 0x1 == 0
    then if rs2 == 0
      then if rs1 == 0 then sequential m else jump_register rs1 (λ n. n) m
      else sequential (reg_write rs1 (reg_read rs2 m) m)
    else if rs1 == 0
    then (raise_exception 3 0 m, 1)
    else if rs2 == 0
    then jump_register rs1 (λ n. reg_write 1 (u32 (n.pc + 2)) n) m
    else sequential (reg_write rs1 (u32 (reg_read rs1 m + reg_read rs2 m)) m)

unfoldable pub quadrant2 : ℕ → ℕ → Machine → Machine × ℕ
quadrant2 c f3 m =
    let rd = full c 7 in
    let shamt = c_shamt c in
    if f3 == 0
    then if shamt == 0
      then illegal c m
      else sequential (reg_write rd (u32 (reg_read rd m <<< bit_and shamt 0x1F)) m)
    else if f3 == 2
    then if rd == 0 then illegal c m else after_access m.pc (insi_i_lw (c_lwsp_uimm c) 2 rd m)
    else if f3 == 4
    then quadrant2_move c m
    else if f3 == 6
    then after_access m.pc (insi_s_sw (c_swsp_uimm c) (full c 2) 2 m)
    else illegal c m

unfoldable pub exec_c_insn : ℕ → Machine → Machine × ℕ
exec_c_insn c m =
    let q = bit_and c 0x3 in
    let f3 = bit_and (c >>> 13) 0x7 in
    if q == 0 then quadrant0 c f3 m else if q == 1 then quadrant1 c f3 m else quadrant2 c f3 m
