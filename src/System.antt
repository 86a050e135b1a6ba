-- ===== src/System.antt =====
-- src/extension/system.c and include/extension/system.h: traps, interrupts and the returns from
-- them. `debug` only logs.
pub mod Status
pub mod Trap
pub mod Return
pub mod SupervisorReturn
pub mod Interrupts
use riscvemu.Base.{
  ℕ, ◌+◌, ◌-◌, ◌*◌, ◌/◌, ◌%◌, ◌^◌, Bool, true, false, ◌&&◌, ltb, ◌==◌, nonzero, if◌then◌else◌,
  Option, none, some, bit_and, bit_or, not32, u32, sub32, ◌<<<◌, ◌>>>◌,
}
use riscvemu.HashmapU32.{Hashmap, hashmap_clear}
use riscvemu.Machine.{Machine, prv_user, prv_supervisor, prv_machine}
use riscvemu.Csr.Numbers.{
  csr_mstatus, csr_misa, csr_medeleg, csr_mideleg, csr_mie, csr_mtvec, csr_mepc, csr_mcause,
  csr_mtval, csr_mip, csr_sstatus, csr_sie, csr_sip, csr_stvec, csr_sepc, csr_scause, csr_stval,
  mstatus_uie, mstatus_sie, mstatus_mie, mstatus_mpie, mstatus_tvm, mstatus_tsr, mstatus_mpp_mask,
  mip_ssip, mip_msip, mip_stip, mip_mtip, mip_seip, mip_meip,
}
use riscvemu.Csr.Status.{set_value}
use riscvemu.Csr.Access.{csr_read, csr_write}

abbrev pub cause_misaligned_fetch : ℕ
cause_misaligned_fetch = 0

abbrev pub cause_illegal_instruction : ℕ
cause_illegal_instruction = 2

unfoldable pub misa_c_enabled : Machine → ℕ
misa_c_enabled m = bit_and (m.csr_value csr_misa >>> 2) 1

-- A trap drops the reservations of LR.W.
unfoldable pub clear_flags : Hashmap → Hashmap
clear_flags map = if ltb 0 map.size then hashmap_clear map else map

unfoldable pub clear_reservations : Machine → Machine
clear_reservations m = record m { mmu_flags = clear_flags m.mmu_flags }

-- `if (on) w |= flag; else w &= ~flag;`
abbrev pub assign_flag : Bool → ℕ → ℕ → ℕ
assign_flag on flag w = if on then bit_or w flag else bit_and w (not32 flag)

-- The new mstatus of a trap into machine mode from `privilege`.
unfoldable pub machine_entry_status : ℕ → ℕ → ℕ
machine_entry_status privilege mstatus =
    let s = bit_or (bit_and mstatus (not32 mstatus_mpp_mask)) (u32 (privilege <<< 11)) in
    let s = assign_flag (nonzero (bit_and s mstatus_mie)) mstatus_mpie s in
    bit_and s (not32 mstatus_mie)

-- The new sstatus of a trap into supervisor mode from `privilege`.
unfoldable pub supervisor_entry_status : ℕ → ℕ → ℕ
supervisor_entry_status privilege sstatus =
    let s = assign_flag (privilege == prv_supervisor) (1 <<< 8) sstatus in
    let s = assign_flag (nonzero (bit_and s (1 <<< 1))) (1 <<< 5) s in bit_and s (not32 (1 <<< 1))

-- What both kinds of trap into machine mode do before they set the program counter.
abbrev machine_entry : ℕ → ℕ → ℕ → Machine → Machine
machine_entry cause tval pc m =
    let m = csr_write csr_mstatus (machine_entry_status m.privilege (csr_read csr_mstatus m)) m in
    let m = csr_write csr_mcause cause m in
    let m = csr_write csr_mtval tval m in
    let m = csr_write csr_mepc pc m in record m { privilege = prv_machine; just_trapped = true }

abbrev supervisor_entry : ℕ → ℕ → ℕ → Machine → Machine
supervisor_entry cause tval pc m =
    let m =
      csr_write csr_sstatus (supervisor_entry_status m.privilege (csr_read csr_sstatus m)) m in
    let m = csr_write csr_scause cause m in
    let m = csr_write csr_stval tval m in
    let m = csr_write csr_sepc pc m in record m { privilege = prv_supervisor }

-- The main loop adds 4 before the next fetch.
unfoldable pub raise_machine_exception : ℕ → ℕ → ℕ → Machine → Machine
raise_machine_exception cause tval pc m =
    let m = machine_entry cause tval pc m in
    record m { pc = sub32 (bit_and (csr_read csr_mtvec m) (not32 0x3)) 4 }

unfoldable pub raise_supervisor_exception : ℕ → ℕ → ℕ → Machine → Machine
raise_supervisor_exception cause tval pc m =
    let m = supervisor_entry cause tval pc m in
    record m { pc = sub32 (bit_and (csr_read csr_stvec m) (not32 0x3)) 4 }

-- Whether a trap from a privilege below machine mode is delegated by the register `deleg`.
unfoldable pub delegate_to_s : ℕ → ℕ → ℕ → Bool
delegate_to_s privilege deleg cause =
    if privilege == prv_user
    then nonzero (bit_and deleg (1 <<< cause))
    else if privilege == prv_supervisor
    then nonzero (bit_and deleg (1 <<< cause))
    else false

unfoldable pub raise_exception_pc : ℕ → ℕ → ℕ → Machine → Machine
raise_exception_pc cause tval epc m =
    let m = clear_reservations m in
    if delegate_to_s m.privilege (csr_read csr_medeleg m) cause
    then raise_supervisor_exception cause tval epc m
    else raise_machine_exception cause tval epc m

unfoldable pub raise_exception : ℕ → ℕ → Machine → Machine
raise_exception cause tval m = raise_exception_pc cause tval m.pc m

unfoldable pub raise_illegal : ℕ → Machine → Machine
raise_illegal ins m = raise_exception cause_illegal_instruction ins m

-- The handler's address: the base, or 4 bytes for each interrupt from it in the vectored mode.
unfoldable pub interrupt_vector : ℕ → ℕ → ℕ
interrupt_vector tvec irq =
    let base = bit_and tvec (not32 0x3) in
    if nonzero (bit_and tvec 0x1) then u32 (base + (bit_and irq 0xF <<< 2)) else base

unfoldable pub raise_machine_interrupt : ℕ → ℕ → Machine → Machine
raise_machine_interrupt irq pc m =
    let m = machine_entry (bit_or irq (1 <<< 31)) 0 pc m in
    record m { pc = interrupt_vector (csr_read csr_mtvec m) irq }

unfoldable pub raise_supervisor_interrupt_internal : ℕ → ℕ → Machine → Machine
raise_supervisor_interrupt_internal irq pc m =
    let m = supervisor_entry (bit_or irq (1 <<< 31)) 0 pc m in
    record m { pc = interrupt_vector (csr_read csr_stvec m) irq }

unfoldable pub raise_supervisor_interrupt : ℕ → Machine → Machine
raise_supervisor_interrupt irq m = raise_supervisor_interrupt_internal irq m.pc m

unfoldable pub raise_interrupt : ℕ → Machine → Machine
raise_interrupt irq m =
    let pc = m.pc in
    let m = clear_reservations m in
    if delegate_to_s m.privilege (csr_read csr_mideleg m) irq
    then raise_supervisor_interrupt_internal irq pc m
    else raise_machine_interrupt irq pc m

-- The highest of the supervisor's lines in `lines`, and of all lines: the two `else if` chains.
unfoldable pub supervisor_irq : ℕ → Option ℕ
supervisor_irq lines =
    if nonzero (bit_and lines mip_seip)
    then some 9
    else if nonzero (bit_and lines mip_ssip)
    then some 1
    else if nonzero (bit_and lines mip_stip)
    then some 5
    else none

unfoldable pub machine_irq : ℕ → Option ℕ
machine_irq lines =
    if nonzero (bit_and lines mip_meip)
    then some 11
    else if nonzero (bit_and lines mip_msip)
    then some 3
    else if nonzero (bit_and lines mip_mtip)
    then some 7
    else supervisor_irq lines

-- Which interrupt is taken now.
unfoldable pub select_interrupt : Machine → Option ℕ
select_interrupt m =
    let mip = csr_read csr_mip m in
    let mie = csr_read csr_mie m in
    let mstatus = csr_read csr_mstatus m in
    let sp = bit_and (bit_and (csr_read csr_sip m) (csr_read csr_sie m)) (csr_read csr_mideleg m) in
    let escalated =
      if nonzero (bit_and mstatus mstatus_mie)
      then machine_irq (bit_and (bit_and mip mie) (not32 sp))
      else none in
    if m.privilege == prv_machine
    then if nonzero (bit_and mstatus mstatus_mie) then machine_irq (bit_and mip mie) else none
    else if nonzero
        (bit_and mstatus (if m.privilege == prv_supervisor then mstatus_sie else mstatus_uie))
    then elim (supervisor_irq sp) [ some irq ↦ some irq | none ↦ escalated ]
    else escalated

unfoldable pub check_and_handle_interrupts : Machine → Machine
check_and_handle_interrupts m = elim (select_interrupt m) [
  | some irq ↦ raise_interrupt irq m
  | none ↦ m
]

unfoldable pub ins_mret : Machine → Machine
ins_mret m =
    let mstatus_val = m.csr_value csr_mstatus in
    let mpp = bit_and mstatus_val mstatus_mpp_mask >>> 11 in
    let s = assign_flag (nonzero (bit_and mstatus_val mstatus_mpie)) mstatus_mie mstatus_val in
    let s = bit_and (bit_or s mstatus_mpie) (not32 mstatus_mpp_mask) in
    let s = bit_or s (prv_user <<< 11) in
    let m = set_value csr_mstatus s m in
    record m { privilege = mpp; pc = sub32 (m.csr_value csr_mepc) 4 }

-- SRET after its test of TSR.
unfoldable pub sret_return : Machine → Machine
sret_return m =
    let sstatus_val = csr_read csr_sstatus m in
    let spp = bit_and (sstatus_val >>> 8) 1 in
    let s = assign_flag (nonzero (bit_and sstatus_val (1 <<< 5))) (1 <<< 1) sstatus_val in
    let s = bit_and (bit_or s (1 <<< 5)) (not32 (1 <<< 8)) in
    let m = csr_write csr_sstatus s m in
    record m {
      privilege = if nonzero spp then prv_supervisor else prv_user;
      pc = sub32 (csr_read csr_sepc m) 4;
    }

unfoldable pub ins_sret : Machine → Machine
ins_sret m =
    if m.privilege == prv_supervisor && nonzero (bit_and (m.csr_value csr_mstatus) mstatus_tsr)
    then raise_illegal 0x10200073 m
    else sret_return m

-- `ins_wfi` and `ins_sctrclr` only log.
unfoldable pub ins_mnret : Machine → Machine
ins_mnret m = ins_mret m

unfoldable pub ins_sfence_vma : Machine → Machine
ins_sfence_vma m =
    if m.privilege == prv_supervisor && nonzero (bit_and (m.csr_value csr_mstatus) mstatus_tvm)
    then raise_illegal 0x12000073 m
    else m

-- The Boolean says whether a trap was raised.
unfoldable pub raise_if_misaligned_fetch : ℕ → Machine → Machine × Bool
raise_if_misaligned_fetch target_addr m =
    if nonzero (bit_and target_addr (if nonzero (misa_c_enabled m) then 1 else 3))
    then (raise_exception_pc cause_misaligned_fetch target_addr m.pc m, true)
    else (m, false)
