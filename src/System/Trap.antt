-- ===== src/System/Trap.antt =====
-- The state after a trap, into machine mode and into supervisor mode.
use riscvemu.Base.{
  ℕ, ◌+◌, ◌<◌, ◌≡◌, refl, Bool, true, false, bit_and, not32, if◌then◌else◌, arith, if_both, sub32,
  u32, ltb, ◌==◌, ◌&&◌, none, inl, inr, Bool-cases,
}
use riscvemu.Bits.{bit, nonzero-bit, bit_and-le_right}
use riscvemu.HashmapU32.{Hashmap, hashmap_get}
use riscvemu.HashmapU32.Valid.{IsValid}
use riscvemu.HashmapU32.Empty.{hashmap_get-empty, hashmap_clear-get}
use riscvemu.Machine.{Machine, prv_machine, prv_supervisor}
use riscvemu.Csr.Numbers.{
  csr_mstatus, csr_mcause, csr_mtval, csr_mepc, csr_mtvec, csr_medeleg, csr_scause, csr_stval,
  csr_sepc, csr_stvec,
}
use riscvemu.Csr.Table.{csr_table}
use riscvemu.Csr.Access.{csr_read, csr_write, run_read, run_write}
use riscvemu.Csr.Status.{mstatus_read, mstatus_write, sstatus_write}
use riscvemu.System.{
  clear_flags, clear_reservations, delegate_to_s, raise_exception_pc, raise_machine_exception,
  raise_supervisor_exception,
}
use riscvemu.System.Status.{
  IsEntry, machine_entry_status-IsEntry, writable-IsEntry, IsSupervisorEntry,
  sstatus_write-IsSupervisorEntry,
}

-- The state `t` of a trap taken in machine mode from the state `m`.
unfoldable pub IsMachineTrap : ℕ → ℕ → ℕ → Machine → Machine → Type 0
IsMachineTrap cause tval epc m t =
    (t.privilege ≡ prv_machine)
    × (t.just_trapped ≡ true)
    × (t.csr_value csr_mcause ≡ cause)
    × (t.csr_value csr_mtval ≡ tval)
    × (t.csr_value csr_mepc ≡ epc)
    × IsEntry m.privilege (m.csr_value csr_mstatus) (t.csr_value csr_mstatus)
    × (u32 (t.pc + 4) ≡ bit_and (m.csr_value csr_mtvec) (not32 3))
    × (t.gpr ≡ m.gpr)
    × (t.main_memory ≡ m.main_memory)

next_pc : (a : ℕ) → u32 (sub32 (bit_and a (not32 3)) 4 + 4) ≡ bit_and a (not32 3)
next_pc a = omega (arith, bit_and-le_right a (not32 3))

pub raise_machine_exception_lem :
    (cause tval epc : ℕ) (m : Machine)
    → m.privilege < 4
    → IsMachineTrap cause tval epc m (raise_machine_exception cause tval epc m)
unfolding IsMachineTrap raise_machine_exception csr_read csr_write run_read run_write csr_table
    mstatus_read mstatus_write
raise_machine_exception_lem cause tval epc m h = (
  refl,
  refl,
  refl,
  refl,
  refl,
  writable-IsEntry m.privilege (m.csr_value csr_mstatus) _
      (machine_entry_status-IsEntry m.privilege (m.csr_value csr_mstatus) h),
  next_pc (m.csr_value csr_mtvec),
  refl,
  refl,
)

-- The state `t` of a trap taken in supervisor mode from the state `m`.
unfoldable pub IsSupervisorTrap : ℕ → ℕ → ℕ → Machine → Machine → Type 0
IsSupervisorTrap cause tval epc m t =
    (t.privilege ≡ prv_supervisor)
    × (t.csr_value csr_scause ≡ cause)
    × (t.csr_value csr_stval ≡ tval)
    × (t.csr_value csr_sepc ≡ epc)
    × IsSupervisorEntry m.privilege (m.csr_value csr_mstatus) (t.csr_value csr_mstatus)
    × (u32 (t.pc + 4) ≡ bit_and (m.csr_value csr_stvec) (not32 3))
    × (t.csr_value csr_mepc ≡ m.csr_value csr_mepc)
    × (t.csr_value csr_mcause ≡ m.csr_value csr_mcause)
    × (t.gpr ≡ m.gpr)
    × (t.main_memory ≡ m.main_memory)

pub raise_supervisor_exception_lem :
    (cause tval epc : ℕ) (m : Machine)
    → IsSupervisorTrap cause tval epc m (raise_supervisor_exception cause tval epc m)
unfolding IsSupervisorTrap raise_supervisor_exception csr_read csr_write run_read run_write
    csr_table mstatus_read sstatus_write
raise_supervisor_exception_lem cause tval epc m = (
  refl,
  refl,
  refl,
  refl,
  sstatus_write-IsSupervisorEntry m.privilege m,
  next_pc (m.csr_value csr_stvec),
  refl,
  refl,
  refl,
  refl,
)

clear_flags-get : (map : Hashmap) (k : ℕ) → IsValid map → hashmap_get (clear_flags map) k ≡ none
unfolding clear_flags
clear_flags-get map k valid = elim (Bool-cases (ltb 0 map.size)) [
  | inl e ↦ rw e (hashmap_clear-get map k valid)
  | inr e ↦ rw e (hashmap_get-empty map k valid (ground (arith, e)))
]

-- What holds of the state of each branch.
pub either_trap :
    (P Q : Machine → Type 0) (b : Bool) (x y : Machine)
    → P x
    → Q y
    → let t = if b then x else y in if b then P t else Q t
either_trap P Q true x y p q = p
either_trap P Q false x y p q = q

-- Below machine mode, a cause is delegated to supervisor mode by its bit in medeleg or mideleg.
abbrev pub is_delegated : ℕ → ℕ → ℕ → Bool
is_delegated privilege deleg cause = ltb privilege 2 && (bit deleg cause == 1)

pub delegate_to_s-is_delegated :
    (privilege deleg cause : ℕ)
    → delegate_to_s privilege deleg cause ≡ is_delegated privilege deleg cause
unfolding delegate_to_s
delegate_to_s-is_delegated privilege deleg cause = ground (arith, nonzero-bit deleg cause)

-- The state `t` of a trap from the state `m`, in the mode that takes it.
abbrev pub IsTrap : ℕ → ℕ → ℕ → Machine → Machine → Type 0
IsTrap cause tval epc m t =
    if is_delegated m.privilege (m.csr_value csr_medeleg) cause
    then IsSupervisorTrap cause tval epc m t
    else IsMachineTrap cause tval epc m t

pub raise_exception_pc-IsTrap :
    (cause tval epc : ℕ) (m : Machine)
    → m.privilege < 4
    → IsTrap cause tval epc m (raise_exception_pc cause tval epc m)
unfolding raise_exception_pc clear_reservations csr_read run_read csr_table IsMachineTrap
    IsSupervisorTrap
raise_exception_pc-IsTrap cause tval epc m h =
    let c = clear_reservations m in
    let b = is_delegated m.privilege (m.csr_value csr_medeleg) cause in
    let x = raise_supervisor_exception cause tval epc c in
    let y = raise_machine_exception cause tval epc c in
    rw (delegate_to_s-is_delegated m.privilege (m.csr_value csr_medeleg) cause) (
      either_trap (IsSupervisorTrap cause tval epc m) (IsMachineTrap cause tval epc m) b x y
        (raise_supervisor_exception_lem cause tval epc c)
        (raise_machine_exception_lem cause tval epc c h))

-- A trap that leaves no reservation.
abbrev pub IsCleanTrap : ℕ → ℕ → ℕ → Machine → Machine → Type 0
IsCleanTrap cause tval epc m t =
    ((k : ℕ) → hashmap_get t.mmu_flags k ≡ none) × IsTrap cause tval epc m t

-- From a privilege below 4 and with a valid map of reservations, an exception leaves no key in that
-- map, and is taken in supervisor mode when it comes from user or supervisor mode and the bit of
-- its cause in medeleg is set, and in machine mode otherwise. The cause, value and address
-- registers of the mode that takes it hold the arguments, its status fields hold the previous
-- privilege and the previous enable bit, with the enable bit cleared, and the next fetch is at its
-- handler's base; the general registers and the memory are unchanged.
pub raise_exception_pc-IsCleanTrap :
    (cause tval epc : ℕ) (m : Machine)
    → m.privilege < 4
    → IsValid m.mmu_flags
    → IsCleanTrap cause tval epc m (raise_exception_pc cause tval epc m)
unfolding raise_exception_pc clear_reservations raise_machine_exception raise_supervisor_exception
    csr_write run_write mstatus_write sstatus_write csr_read run_read csr_table
raise_exception_pc-IsCleanTrap cause tval epc m h valid = (
  λ k.
      if_both (λ (t : Machine). hashmap_get t.mmu_flags k ≡ none) _
        (clear_flags-get m.mmu_flags k valid) (clear_flags-get m.mmu_flags k valid),
  raise_exception_pc-IsTrap cause tval epc m h,
)
