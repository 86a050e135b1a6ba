-- ===== src/Mmu/Fault.antt =====
-- `mmu_translate` of include/mmu.h: the address, or the page fault.
use riscvemu.Base.{
  ℕ, ◌<◌, ◌≡◌, ◌↔◌, ◌∙◌, inl, inr, refl, ap, true, false, leb, ◌-◌, ◌==◌, if◌then◌else◌, Option,
  none, some, if_both, nonzero, not, bit_and, Option-cases, arith,
}
use mathlib.Core.Path.{subst}
use riscvemu.Machine.{Machine}
use riscvemu.Uart.{Devices}
use riscvemu.Memory.{mem_read32_unsigned, in_clint, in_uart, in_plic, mem_size}
use riscvemu.System.{raise_exception}
use riscvemu.System.Trap.{IsSupervisorTrap, IsMachineTrap, IsTrap, raise_exception_pc-IsTrap}
use riscvemu.Mmu.{
  MmuAccess, fetch, load, store, is_fetch, is_store, fault_cause, effective_privilege,
  mmu_vm_active, mmu_translate, walk, walk_entry, walk_table, leaf, or_fault, pte_v, pte_rwx,
}
use riscvemu.Mmu.Walk.{IsTranslation}
use riscvemu.Mmu.Refines.{walk_iff}

-- Only the devices differ.
abbrev pub IsRead : Machine → Machine → Type 0
IsRead m n = (d : Devices) × (n ≡ record m { devices = d })

pub mem_read32-IsRead : (addr : ℕ) (m : Machine) → IsRead m (mem_read32_unsigned addr m).1
unfolding mem_read32_unsigned
mem_read32-IsRead addr m =
    let P : ℕ × Machine → Type 0 = λ r. IsRead m r.1 in
    if_both P (in_clint addr) (m.devices, refl)
      (if_both P (in_uart addr) (_, refl)
        (if_both P (in_plic addr) (_, refl)
          (if_both P (leb (mem_size - 3) addr) (m.devices, refl) (m.devices, refl))))

IsRead-trans : (m n k : Machine) → IsRead m n → IsRead n k → IsRead m k
IsRead-trans m n k (d, e) (c, f) = (c, f ∙ ap (λ (t : Machine). record t { devices = c }) e)

walk_entry-IsRead :
    (pte vaddr epriv : ℕ) (access : MmuAccess) (m : Machine)
    → IsRead m (walk_entry pte vaddr epriv access m).1
unfolding walk_entry walk_table leaf
walk_entry-IsRead pte vaddr epriv access m =
    let P : Option ℕ × Machine → Type 0 = λ r. IsRead m r.1 in
    if_both P (not (nonzero (bit_and pte pte_v))) (m.devices, refl)
      (if_both P (nonzero (bit_and pte pte_rwx)) (m.devices, refl) (mem_read32-IsRead _ m))

walk-IsRead :
    (vaddr epriv : ℕ) (access : MmuAccess) (m : Machine) → IsRead m (walk vaddr epriv access m).1
unfolding walk
walk-IsRead vaddr epriv access m =
    IsRead-trans m _ _ (mem_read32-IsRead _ m) (walk_entry-IsRead _ vaddr epriv access _)

or_fault_iff :
    (vaddr pa : ℕ) (access : MmuAccess) (r : Option ℕ × Machine) (n : Machine)
    → (or_fault vaddr access r ≡ (some pa, n)) ↔ (r ≡ (some pa, n))
or_fault_iff vaddr pa access (some a, m) n = (λ e. e, λ e. e)
or_fault_iff vaddr pa access (none, m) n = ground arith

active_below : (epriv : ℕ) (m : Machine) → mmu_vm_active epriv m ≡ true → (epriv == 3) ≡ false
unfolding mmu_vm_active
active_below epriv m h = ground arith

-- Where translation is active for an access, `mmu_translate` gives a physical address and a machine
-- exactly when the walk ends there at a granted leaf.
pub mmu_translate_iff :
    (vaddr : ℕ) (access : MmuAccess) (m n : Machine) (pa : ℕ)
    → let epriv = effective_privilege access m in
      mmu_vm_active epriv m ≡ true
      → (mmu_translate vaddr access m ≡ (some pa, n)) ↔ IsTranslation vaddr epriv access m pa n
unfolding mmu_translate
mmu_translate_iff vaddr access m n pa active =
    let epriv = effective_privilege access m in
    rw active (
      let (to, from) = walk_iff vaddr epriv access (active_below epriv m active) pa n m in
      let (out, back) = or_fault_iff vaddr pa access (walk vaddr epriv access m) n in
      (λ e. to (out e), λ t. back (from t)))

fault-IsTrap :
    (vaddr : ℕ) (access : MmuAccess) (m : Machine) (r : Option ℕ × Machine)
    → m.privilege < 4
    → IsRead m r.1
    → r.0 ≡ none
    → let (a, t) = or_fault vaddr access r in
      (a ≡ none) × IsTrap (fault_cause access) vaddr m.pc m t
unfolding raise_exception IsSupervisorTrap IsMachineTrap
fault-IsTrap vaddr access m (some a, n) h read e = ground arith
fault-IsTrap vaddr access m (none, n) h (d, f) e = (
  refl,
  rw f (raise_exception_pc-IsTrap (fault_cause access) vaddr m.pc (record m { devices = d }) h),
)

page_fault :
    (access : MmuAccess)
    → fault_cause access ≡ (if is_fetch access then 12 else if is_store access then 15 else 13)
page_fault fetch = refl
page_fault load = refl
page_fault store = refl

-- Where translation is active for an access from a privilege below 4 and the walk has no granted
-- leaf for its address, `mmu_translate` gives no address and traps with cause 12 for a fetch, 15
-- for a store and 13 for a load, the address as the trap value and the program counter as its
-- address, in supervisor mode when it comes from user or supervisor mode and the bit of the cause
-- in medeleg is set, and in machine mode otherwise.
pub mmu_translate-fault :
    (vaddr : ℕ) (access : MmuAccess) (m : Machine)
    → m.privilege < 4
    → let epriv = effective_privilege access m in
      mmu_vm_active epriv m ≡ true
      → ((pa : ℕ) (n : Machine) → ¬ IsTranslation vaddr epriv access m pa n)
      → let (a, t) = mmu_translate vaddr access m in
        let cause : ℕ = if is_fetch access then 12 else if is_store access then 15 else 13 in
        (a ≡ none) × IsTrap cause vaddr m.pc m t
unfolding mmu_translate
mmu_translate-fault vaddr access m h active nowhere =
    let epriv = effective_privilege access m in
    let r = walk vaddr epriv access m in
    let missing : r.0 ≡ none = elim (Option-cases r.0) [
      | inl e ↦ e
      | inr (pa, e) ↦ absurd (
          nowhere pa r.1 (
            (walk_iff vaddr epriv access (active_below epriv m active) pa r.1 m).0
              (ap (λ (o : Option ℕ). (o, r.1)) e)))
    ] in
    let trap = fault-IsTrap vaddr access m r h (walk-IsRead vaddr epriv access m) missing in
    rw active (
      subst
        (λ (cause : ℕ).
          let (a, t) = or_fault vaddr access r in (a ≡ none) × IsTrap cause vaddr m.pc m t)
        (page_fault access) trap)
