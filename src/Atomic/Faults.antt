-- ===== src/Atomic/Faults.antt =====
-- What an atomic operation of include/extension/a_extension.h does when its load faults.
use riscvemu.Base.{ℕ, ◌≡◌, ap, false, none}
use riscvemu.Machine.{Machine, reg_write}
use riscvemu.Memory.{mem_read32_unsigned, mem_write32}
use riscvemu.Mmu.{load, mmu_translate, mmu_vm_active, mmu_effective_dpriv}
use riscvemu.Mmu.Access.{read_at, mmu_read32_unsigned, mmu_write32}
use riscvemu.Atomic.Amo.{amo}

-- When the load of an atomic operation faults and nothing is translated in the mode that the fault
-- leads to, the operation goes on: it stores its result for an old value of 0 at the physical
-- address that equals the virtual one, and clears its destination register.
pub amo-fault :
    (f : ℕ → ℕ → ℕ) (addr value rd : ℕ) (m t : Machine)
    → mmu_translate addr load m ≡ (none, t)
    → mmu_vm_active (mmu_effective_dpriv t) t ≡ false
    → amo f addr value rd m ≡ reg_write rd 0 (mem_write32 addr (f 0 value) t)
unfolding amo mmu_read32_unsigned mmu_write32 mmu_translate
amo-fault f addr value rd m t e off =
    let read : mmu_read32_unsigned addr m ≡ (0, t) = ap (read_at mem_read32_unsigned) e in
    simp (read, off)
