-- ===== src/Tests/Hart.antt =====
-- Examples of the hart.
use riscvemu.Base.{none, ◌≢◌, ◌⊎◌, ◌+◌, ◌*◌, ◌^◌, ◌≡◌, refl, true, some, bit_and, not32, u32, arith}
use riscvemu.Base.Int.{◌*ℤ◌}
use riscvemu.Bits.{bit}
use riscvemu.Clint.{clint_init, clint_mtip_pending}
use riscvemu.Plic.{
  plic_external_pending, plic_external_pending_s, plic_best_source, plic_best_loop, eligible,
}
use riscvemu.Machine.{reg_read}
use riscvemu.Csr.Numbers.{csr_mstatus, csr_mtvec}
use riscvemu.Csr.Table.{csr_table}
use riscvemu.Csr.Access.{csr_read, run_read, get_mip}
use riscvemu.Csr.Status.{mstatus_read, sstatus_read, sstatus_write, s_mask, sstatus_read-write}
use riscvemu.System.{
  raise_exception_pc, raise_machine_exception, ins_mret, machine_irq, supervisor_irq,
  select_interrupt, check_and_handle_interrupts, misa_c_enabled,
}
use riscvemu.System.Trap.{IsSupervisorTrap, IsMachineTrap, IsTrap, raise_exception_pc-IsCleanTrap}
use riscvemu.HashmapU32.{hashmap_get}
use riscvemu.HashmapU32.Valid.{IsValid, replicate-IsValid}
use riscvemu.System.Return.{ins_mret-raise_machine_exception}
use riscvemu.System.Interrupts.{
  IsEnabled, IsTaken, first_set, irq-first_set, check_and_handle_interrupts-IsEnabled,
}
use riscvemu.Zicsr.{ins_zicsr_csrrw}
use riscvemu.Zicsr.Swap.{IsChecked, ins_zicsr_csrrw-mtvec}
use riscvemu.Muldiv.{insm_r_mulh, insm_r_mul, insm_r_div, insm_r_rem}
use riscvemu.Muldiv.Product.{insm_r_mulh-mul}
use riscvemu.Muldiv.Division.{IsRemainder, insm_r_div-rem}
use riscvemu.Jump.{branch}
use riscvemu.Jump.Target.{is_fetchable, branch-fetchable, branch-unfetchable}
use riscvemu.System.{ins_sret, raise_supervisor_exception}
use riscvemu.System.SupervisorReturn.{ins_sret-raise_supervisor_exception}
use riscvemu.Fcsr.{get_fflags, get_frm, set_fflags, set_frm}
use riscvemu.Fcsr.Fields.{fcsr_fields}
use riscvemu.Trigger.{Fires, sdtrig_check, sdtrig_check_iff}
use riscvemu.Base.{◌↔◌, ◌<◌, ◌==◌, if◌then◌else◌, ℕ}
use riscvemu.Machine.{Machine}
use riscvemu.Integer.{sltu, add, insi_r_slt, insi_i_slti}
use riscvemu.Integer.Signed.{insi_r_slt-sltu}
use riscvemu.Tests.{user_hart, machine_hart}

no_flags-IsValid : IsValid user_hart.mmu_flags
no_flags-IsValid = replicate-IsValid 0 (omega arith)

raise_exception_pc-IsCleanTrap_example :
    let t = raise_exception_pc 2 0x13 0x80000100 user_hart in
    ((k : ℕ) → hashmap_get t.mmu_flags k ≡ none) × IsSupervisorTrap 2 0x13 0x80000100 user_hart t
raise_exception_pc-IsCleanTrap_example =
    raise_exception_pc-IsCleanTrap 2 0x13 0x80000100 user_hart (omega arith) no_flags-IsValid

ins_mret-raise_machine_exception_example :
    let t = ins_mret (raise_machine_exception 2 0x13 0x80000100 user_hart) in
    (t.privilege ≡ 0)
    × (bit (t.csr_value csr_mstatus) 3 ≡ 1)
    × (u32 (t.pc + 4) ≡ 0x80000100)
    × (t.gpr ≡ user_hart.gpr)
    × (t.main_memory ≡ user_hart.main_memory)
ins_mret-raise_machine_exception_example =
    ins_mret-raise_machine_exception 2 0x13 0x80000100 user_hart (omega arith) (omega arith)

takes_software : select_interrupt machine_hart ≡ some 3
unfolding select_interrupt machine_irq csr_read run_read csr_table mstatus_read get_mip
    clint_mtip_pending clint_init plic_external_pending plic_external_pending_s plic_best_source
    plic_best_loop eligible
takes_software = refl

check_and_handle_interrupts-IsEnabled_example :
    IsEnabled machine_hart 3 × IsTaken 3 machine_hart (check_and_handle_interrupts machine_hart)
check_and_handle_interrupts-IsEnabled_example =
    check_and_handle_interrupts-IsEnabled machine_hart 3 takes_software

irq-first_set_example : (machine_irq 0x2A0 ≡ some 7) × (supervisor_irq 0x2A0 ≡ some 9)
unfolding first_set
irq-first_set_example = irq-first_set 0x2A0

sstatus_read-write_example :
    (sstatus_read (sstatus_write 0xFFFFFFFF user_hart) ≡ s_mask)
    × (bit_and (mstatus_read (sstatus_write 0xFFFFFFFF user_hart)) (not32 s_mask) ≡ 8)
unfolding mstatus_read
sstatus_read-write_example = sstatus_read-write 0xFFFFFFFF user_hart

ins_zicsr_csrrw-mtvec_example :
    let t = ins_zicsr_csrrw 7 9 csr_mtvec 0x305394F3 user_hart in
    (t.csr_value csr_mtvec ≡ 47)
    × (reg_read 9 t ≡ 0x80000400)
    × (c : Machine) × IsChecked 0x305394F3 user_hart c
    × (t.privilege ≡ c.privilege)
    × (t.pc ≡ c.pc)
    × ((k : ℕ) → k ≢ csr_mtvec → t.csr_value k ≡ c.csr_value k)
unfolding reg_read
ins_zicsr_csrrw-mtvec_example = ins_zicsr_csrrw-mtvec 7 9 0x305394F3 user_hart (omega arith)

insm_r_mulh-mul_example :
    reg_read 3 (insm_r_mulh 1 2 3 user_hart) * 2 ^ 32 + reg_read 3 (insm_r_mul 1 2 3 user_hart)
    ≡ 41 * 42
unfolding reg_read ◌*ℤ◌
insm_r_mulh-mul_example = insm_r_mulh-mul 1 2 3 user_hart (λ e. absurd (omega arith))

-- INT32_MIN by -1.
abbrev overflowing : Machine
overflowing = record (user_hart) { gpr = λ i. if i == 20 then 0x80000000 else 0xFFFFFFFF }

insm_r_div-rem_example :
    let q = reg_read 3 (insm_r_div 1 20 3 overflowing) in
    let r = reg_read 3 (insm_r_rem 1 20 3 overflowing) in
    (u32 (q * 0xFFFFFFFF + r) ≡ 0x80000000)
    × ((reg_read 1 overflowing ≡ 0) ⊎ IsRemainder 0x80000000 0xFFFFFFFF r)
unfolding reg_read
insm_r_div-rem_example =
    insm_r_div-rem 1 20 3 overflowing (λ e. absurd (omega arith)) (omega arith) (omega arith)

fetchable : is_fetchable 0x80000140 user_hart ≡ true
unfolding is_fetchable misa_c_enabled
fetchable = refl

branch-fetchable_example :
    (u32 ((branch true 0x40 user_hart).pc + 4) ≡ 0x80000140)
    × ((branch true 0x40 user_hart).gpr ≡ user_hart.gpr)
branch-fetchable_example = branch-fetchable 0x40 user_hart fetchable

branch-unfetchable_example :
    IsMachineTrap 0 0x80000141 0x80000100 user_hart (branch true 0x41 user_hart)
branch-unfetchable_example =
    branch-unfetchable 0x41 user_hart (omega arith) (λ e. absurd (omega (arith, e)))

ins_sret-raise_supervisor_exception_example :
    let t = ins_sret (raise_supervisor_exception 8 0 0x80000100 user_hart) in
    (t.privilege ≡ 0)
    × (bit (t.csr_value csr_mstatus) 1 ≡ 0)
    × (bit_and (t.csr_value csr_mstatus) (not32 s_mask) ≡ 8)
    × (u32 (t.pc + 4) ≡ 0x80000100)
    × (t.gpr ≡ user_hart.gpr)
    × (t.main_memory ≡ user_hart.main_memory)
ins_sret-raise_supervisor_exception_example =
    ins_sret-raise_supervisor_exception 8 0 0x80000100 user_hart (omega arith) (omega arith) refl

fcsr_fields_example :
    (get_fflags (set_fflags 0x21 0x6F) ≡ 1)
    × (get_frm (set_fflags 0x21 0x6F) ≡ get_frm 0x6F)
    × (get_frm (set_frm 2 0x6F) ≡ 2)
    × (get_fflags (set_frm 2 0x6F) ≡ get_fflags 0x6F)
fcsr_fields_example = fcsr_fields 0x21 2 0x6F (omega arith) (omega arith)

-- Slot 2 stops the fetch at 0x1000 in user mode.
abbrev armed : Machine
armed = record (user_hart) {
  sdtrig = record {
    tdata1 = λ i. if i == 2 then 0x2000000C else 0;
    tdata2 = λ i. 0x1000;
    tselect = 0;
    tcontrol = 0;
  };
}

sdtrig_check_iff_example :
    let (t, b) = sdtrig_check 0x1000 4 armed in
    ((b ≡ true) ↔ (
      (j : ℕ) × (j < 4)
      × Fires 0 2 0x1000 (armed.sdtrig.tdata1 j) (armed.sdtrig.tdata2 j) armed.sdtrig.tcontrol))
    × (if b then IsTrap 3 0x1000 0x80000100 armed t else (t ≡ armed))
sdtrig_check_iff_example = sdtrig_check_iff 0x1000 2 armed (omega arith) (omega arith)

insi_r_slt-sltu_example :
    (reg_read 3 (insi_r_slt 2 1 3 user_hart) ≡ 1)
    × (reg_read 3 (insi_i_slti 0xFFFFFFFF 1 3 user_hart) ≡ 0)
unfolding reg_read sltu add
insi_r_slt-sltu_example =
    insi_r_slt-sltu 2 1 3 0xFFFFFFFF user_hart (λ e. absurd (omega arith)) (omega arith)
      (omega arith) (omega arith)
