-- ===== src/LoadStore.antt =====
-- The loads and stores of include/basic_instructions.h, and those of src/extension/f_extension.c, in
-- the configuration that traps misaligned accesses.
pub mod Faults
use riscvemu.Base.{
  ℕ, ◌+◌, ◌-◌, ◌*◌, ◌/◌, ◌%◌, ◌^◌, Bool, true, false, not, ◌==◌, nonzero, if◌then◌else◌, update,
  bit_and, bit_or, u16, u32,
}
use riscvemu.Machine.{Machine, reg_read, reg_write}
use riscvemu.Csr.Numbers.{csr_mstatus, mstatus_fs_mask}
use riscvemu.Csr.Access.{csr_read}
use riscvemu.System.{raise_exception}
use riscvemu.Trigger.{sdtrig_check_load_trigger, sdtrig_check_store_trigger}
use riscvemu.Mmu.Access.{
  mmu_read8_unsigned, mmu_read8_signed, mmu_read16_unsigned, mmu_read16_signed, mmu_read32_unsigned,
  mmu_read32_signed, mmu_read64_unsigned, mmu_write8, mmu_write16, mmu_write32, mmu_write64,
}

abbrev pub cause_misaligned_load : ℕ
cause_misaligned_load = 4

abbrev pub cause_misaligned_store : ℕ
cause_misaligned_store = 6

-- `reg_write(rd, val)` of a value that was read.
abbrev pub load_into : ℕ → ℕ × Machine → Machine
load_into rd (val, m) = reg_write rd val m

-- A load whose address must be a multiple of `mask + 1`: the trigger, the alignment, the access.
unfoldable pub guarded_load : ℕ → (ℕ → Machine → ℕ × Machine) → ℕ → ℕ → Machine → Machine
guarded_load mask read addr rd m =
    let (n, stopped) = sdtrig_check_load_trigger addr m in
    if stopped
    then n
    else if nonzero (bit_and addr mask)
    then raise_exception cause_misaligned_load addr n
    else load_into rd (read addr n)

unfoldable pub guarded_store : ℕ → (ℕ → ℕ → Machine → Machine) → ℕ → ℕ → ℕ → Machine → Machine
guarded_store mask write size_mask addr rs2 m =
    let (n, stopped) = sdtrig_check_store_trigger addr m in
    if stopped
    then n
    else if nonzero (bit_and addr mask)
    then raise_exception cause_misaligned_store addr n
    else write addr (bit_and (reg_read rs2 n) size_mask) n

-- `reg_read(rs1) + imm`
abbrev pub effective : ℕ → ℕ → Machine → ℕ
effective imm rs1 m = u32 (reg_read rs1 m + imm)

unfoldable pub insi_i_lb : ℕ → ℕ → ℕ → Machine → Machine
insi_i_lb imm rs1 rd m = guarded_load 0 mmu_read8_signed (effective imm rs1 m) rd m

unfoldable pub insi_i_lh : ℕ → ℕ → ℕ → Machine → Machine
insi_i_lh imm rs1 rd m = guarded_load 0x1 mmu_read16_signed (effective imm rs1 m) rd m

unfoldable pub insi_i_lw : ℕ → ℕ → ℕ → Machine → Machine
insi_i_lw imm rs1 rd m = guarded_load 0x3 mmu_read32_signed (effective imm rs1 m) rd m

unfoldable pub insi_i_lbu : ℕ → ℕ → ℕ → Machine → Machine
insi_i_lbu imm rs1 rd m = guarded_load 0 mmu_read8_unsigned (effective imm rs1 m) rd m

unfoldable pub insi_i_lhu : ℕ → ℕ → ℕ → Machine → Machine
insi_i_lhu imm rs1 rd m = guarded_load 0x1 mmu_read16_unsigned (effective imm rs1 m) rd m

unfoldable pub insi_s_sb : ℕ → ℕ → ℕ → Machine → Machine
insi_s_sb imm rs2 rs1 m = guarded_store 0 mmu_write8 0xFF (effective imm rs1 m) rs2 m

unfoldable pub insi_s_sh : ℕ → ℕ → ℕ → Machine → Machine
insi_s_sh imm rs2 rs1 m = guarded_store 0x1 mmu_write16 0xFFFF (effective imm rs1 m) rs2 m

unfoldable pub insi_s_sw : ℕ → ℕ → ℕ → Machine → Machine
insi_s_sw imm rs2 rs1 m = guarded_store 0x3 mmu_write32 0xFFFFFFFF (effective imm rs1 m) rs2 m

-- The floating-point registers: two 64-bit lanes each, with narrow values boxed in ones.
abbrev pub ones64 : ℕ
ones64 = 2 ^ 64 - 1

abbrev pub set_lanes : ℕ → ℕ → ℕ → Machine → Machine
set_lanes r low high m = record m { fpr = update (update m.fpr (2 * r) low) (2 * r + 1) high }

unfoldable pub fpr_read_s : ℕ → Machine → ℕ
fpr_read_s r m = u32 (m.fpr (2 * r))

unfoldable pub fpr_read_d : ℕ → Machine → ℕ
fpr_read_d r m = m.fpr (2 * r)

unfoldable pub fpr_read_h : ℕ → Machine → ℕ
fpr_read_h r m = u16 (m.fpr (2 * r))

unfoldable pub fpr_read_q : ℕ → Machine → ℕ × ℕ
fpr_read_q r m = (m.fpr (2 * r), m.fpr (2 * r + 1))

unfoldable pub fpr_write_s : ℕ → ℕ → Machine → Machine
fpr_write_s r v m = set_lanes r (bit_or 0xFFFFFFFF00000000 v) ones64 m

unfoldable pub fpr_write_d : ℕ → ℕ → Machine → Machine
fpr_write_d r v m = set_lanes r v ones64 m

unfoldable pub fpr_write_h : ℕ → ℕ → Machine → Machine
fpr_write_h r v m = set_lanes r (bit_or 0xFFFFFFFFFFFF0000 v) ones64 m

unfoldable pub fpr_write_q : ℕ → ℕ × ℕ → Machine → Machine
fpr_write_q r (low, high) m = set_lanes r low high m

unfoldable pub fpu_fs_off : Machine → Bool
fpu_fs_off m = bit_and (csr_read csr_mstatus m) mstatus_fs_mask == 0

unfoldable pub insf_flw : ℕ → ℕ → ℕ → Machine → Machine
insf_flw imm rs1 rd m =
    let (val, n) = mmu_read32_unsigned (effective imm rs1 m) m in fpr_write_s rd val n

unfoldable pub insf_fsw : ℕ → ℕ → ℕ → Machine → Machine
insf_fsw imm rs1 rs2 m = mmu_write32 (effective imm rs1 m) (fpr_read_s rs2 m) m

unfoldable pub insf_fld : ℕ → ℕ → ℕ → Machine → Machine
insf_fld imm rs1 rd m =
    let (val, n) = mmu_read64_unsigned (effective imm rs1 m) m in fpr_write_d rd val n

unfoldable pub insf_fsd : ℕ → ℕ → ℕ → Machine → Machine
insf_fsd imm rs1 rs2 m = mmu_write64 (effective imm rs1 m) (fpr_read_d rs2 m) m

unfoldable pub insf_flh : ℕ → ℕ → ℕ → Machine → Machine
insf_flh imm rs1 rd m =
    let (val, n) = mmu_read16_unsigned (effective imm rs1 m) m in fpr_write_h rd val n

unfoldable pub insf_fsh : ℕ → ℕ → ℕ → Machine → Machine
insf_fsh imm rs1 rs2 m = mmu_write16 (effective imm rs1 m) (fpr_read_h rs2 m) m

unfoldable pub insf_flq : ℕ → ℕ → ℕ → Machine → Machine
insf_flq imm rs1 rd m =
    let addr = effective imm rs1 m in
    let (low, n) = mmu_read64_unsigned addr m in
    let (high, k) = mmu_read64_unsigned (u32 (addr + 8)) n in fpr_write_q rd (low, high) k

unfoldable pub insf_fsq : ℕ → ℕ → ℕ → Machine → Machine
insf_fsq imm rs1 rs2 m =
    let addr = effective imm rs1 m in
    let (low, high) = fpr_read_q rs2 m in mmu_write64 (u32 (addr + 8)) high (mmu_write64 addr low m)
