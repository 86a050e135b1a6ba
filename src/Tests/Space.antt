-- ===== src/Tests/Space.antt =====
-- Examples of the memory, address translation and reservations.
use riscvemu.Base.{ℕ, ◌≡◌, refl, ap, true, false, ◌==◌, if◌then◌else◌, Option, none, arith}
use riscvemu.Machine.{Machine, reg_read, reg_write}
use riscvemu.Csr.Numbers.{csr_satp}
use riscvemu.Csr.Table.{csr_table}
use riscvemu.Csr.Access.{csr_read, run_read}
use riscvemu.Csr.Status.{mstatus_read}
use riscvemu.System.Trap.{IsMachineTrap}
use riscvemu.Trigger.{sdtrig_check_load_trigger, sdtrig_check}
use riscvemu.Sdtrig.{any_trigger, trigger_matches, init_sdtrig}
use riscvemu.Memory.{
  mem_read16_unsigned, mem_read32_unsigned, mem_read64_unsigned, mem_write8, mem_write16,
  mem_write32, mem_write64, load_le,
}
use riscvemu.Memory.Bytes.{IsRam, IsStored, mem_write-mem_read, mem_write-kept}
use riscvemu.Mmu.{
  load, mmu_translate, mmu_vm_active, mmu_satp_mode, mmu_satp_root_ppn, mmu_effective_dpriv, walk,
  walk_entry, walk_table, leaf, mmu_check_pte,
}
use riscvemu.Mmu.Walk.{IsTranslation}
use riscvemu.Mmu.Fault.{mmu_translate_iff, mmu_translate-fault}
use riscvemu.LoadStore.{insi_i_lb, insi_i_lh, insi_i_lw, insi_i_lbu, insi_i_lhu}
use riscvemu.LoadStore.Faults.{load-fault}
use riscvemu.Tests.{user_hart}

inside_memory : IsRam 8 0x80000000
unfolding IsRam
inside_memory = (refl, refl, refl, omega arith)

mem_write-mem_read_example :
    let s = mem_write16 0x80000000 0x7788 user_hart in
    let t = mem_write32 0x80000000 0x55667788 user_hart in
    let w = mem_write64 0x80000000 0x1122334455667788 user_hart in
    (IsStored 2 0x80000000 0x7788 user_hart s × (mem_read16_unsigned 0x80000000 s ≡ (0x7788, s)))
    × (IsStored 4 0x80000000 0x55667788 user_hart t
        × (mem_read32_unsigned 0x80000000 t ≡ (0x55667788, t)))
    × (IsStored 8 0x80000000 0x1122334455667788 user_hart w
        × (mem_read64_unsigned 0x80000000 w ≡ (0x1122334455667788, w)))
mem_write-mem_read_example =
    mem_write-mem_read 0x80000000 0x1122334455667788 user_hart inside_memory

mem_write-kept_example :
    ((mem_write8 0xFFFFEFFE 5 user_hart).main_memory 0xFFFFF000 ≡ 0)
    × ((mem_write16 0xFFFFEFFE 5 user_hart).main_memory 0xFFFFF000 ≡ 0)
    × ((mem_write32 0xFFFFEFFE 5 user_hart).main_memory 0xFFFFF000 ≡ 0)
    × ((mem_write64 0xFFFFEFFE 5 user_hart).main_memory 0xFFFFF000 ≡ 0)
mem_write-kept_example = mem_write-kept 0xFFFFEFFE 5 0xFFFFF000 user_hart (omega arith)

-- One page of user memory: 0x1000 lies at 0x5000, by the root at 0x80000 and its table at 0x81000.
abbrev pub paged : Machine
paged = record (user_hart) {
  csr_value = λ csr. if csr == csr_satp then 0x80000080 else user_hart.csr_value csr;
  main_memory = λ a.
      if a == 0x80000
      then 0x01
      else if a == 0x80001
      then 0x04
      else if a == 0x80002
      then 0x02
      else if a == 0x81004
      then 0xD7
      else if a == 0x81005
      then 0x14
      else 0;
}

paged-active : mmu_vm_active 0 paged ≡ true
unfolding mmu_vm_active mmu_satp_mode csr_read run_read csr_table
paged-active = refl

load_privilege : mmu_effective_dpriv paged ≡ 0
unfolding mmu_effective_dpriv csr_read run_read csr_table mstatus_read
load_privilege = refl

-- Nothing is mapped at 0x5234.
pub unmapped : (mmu_translate 0x5234 load paged).0 ≡ none
unfolding mmu_translate mmu_vm_active mmu_satp_mode mmu_effective_dpriv walk walk_entry walk_table
    leaf mmu_satp_root_ppn mmu_check_pte mem_read32_unsigned load_le csr_read run_read csr_table
    mstatus_read
unmapped = refl

nowhere : (pa : ℕ) (n : Machine) → ¬ IsTranslation 0x5234 0 load paged pa n
unfolding mmu_effective_dpriv csr_read run_read csr_table mstatus_read
nowhere pa n t =
    let e = (mmu_translate_iff 0x5234 load paged n pa paged-active).1 t in
    absurd (ground (arith, ap (λ (r : Option ℕ × Machine). r.0) e, unmapped))

abbrev pub faulted : Machine
faulted = (mmu_translate 0x5234 load paged).1

mmu_translate-fault_example :
    ((mmu_translate 0x5234 load paged).0 ≡ none) × IsMachineTrap 13 0x5234 0x80000100 paged faulted
unfolding mmu_effective_dpriv csr_read run_read csr_table mstatus_read
mmu_translate-fault_example =
    mmu_translate-fault 0x5234 load paged (omega arith) paged-active nowhere

quiet_trigger : sdtrig_check_load_trigger 0x5234 paged ≡ (paged, false)
unfolding sdtrig_check_load_trigger sdtrig_check any_trigger trigger_matches init_sdtrig
quiet_trigger = refl

load-fault_example :
    (t : Machine) × IsMachineTrap 13 0x5234 0x80000100 paged t
    × (insi_i_lb 0x51F8 20 3 paged ≡ reg_write 3 0 t)
    × (insi_i_lh 0x51F8 20 3 paged ≡ reg_write 3 0 t)
    × (insi_i_lw 0x51F8 20 3 paged ≡ reg_write 3 0 t)
    × (insi_i_lbu 0x51F8 20 3 paged ≡ reg_write 3 0 t)
    × (insi_i_lhu 0x51F8 20 3 paged ≡ reg_write 3 0 t)
unfolding reg_read mmu_effective_dpriv csr_read run_read csr_table mstatus_read
load-fault_example =
    load-fault 0x51F8 20 3 paged (omega arith) refl quiet_trigger paged-active nowhere
