-- ===== src/Mmu.antt =====
-- include/mmu.h: Sv32 address translation and the accesses through it.
pub mod Access
pub mod Walk
pub mod Refines
pub mod Fault
pub mod Sv32
use riscvemu.Base.{
  ℕ, ◌+◌, ◌-◌, ◌*◌, ◌/◌, ◌%◌, ◌^◌, Bool, true, false, not, ◌&&◌, ◌||◌, ◌==◌, nonzero, if◌then◌else◌,
  Option, none, some, bit_and, bit_or, u32, ◌<<<◌, ◌>>>◌,
}
use riscvemu.Machine.{Machine, prv_user, prv_supervisor, prv_machine}
use riscvemu.Csr.Numbers.{
  csr_mstatus, csr_satp, mstatus_mprv, mstatus_mpp_mask, mstatus_sum, mstatus_mxr,
}
use riscvemu.Csr.Access.{csr_read}
use riscvemu.System.{raise_exception}
use riscvemu.Memory.{mem_read32_unsigned}

abbrev pub pte_v : ℕ
pte_v = 0x001

abbrev pub pte_r : ℕ
pte_r = 0x002

abbrev pub pte_w : ℕ
pte_w = 0x004

abbrev pub pte_x : ℕ
pte_x = 0x008

abbrev pub pte_u : ℕ
pte_u = 0x010

abbrev pub pte_a : ℕ
pte_a = 0x040

abbrev pub pte_d : ℕ
pte_d = 0x080

-- `PTE_R | PTE_W | PTE_X`, the bits of a leaf.
abbrev pub pte_rwx : ℕ
pte_rwx = 0x00E

abbrev pub pgshift : ℕ
pgshift = 12

pub data MmuAccess : Type 0 where
  fetch load store : MmuAccess

abbrev pub is_fetch : MmuAccess → Bool
is_fetch fetch = true
is_fetch load = false
is_fetch store = false

abbrev pub is_store : MmuAccess → Bool
is_store fetch = false
is_store load = false
is_store store = true

unfoldable pub mmu_satp_mode : Machine → Bool
mmu_satp_mode m = nonzero (bit_and (csr_read csr_satp m) 0x80000000)

-- The privilege of loads and stores.
unfoldable pub mmu_effective_dpriv : Machine → ℕ
mmu_effective_dpriv m =
    let mstatus = csr_read csr_mstatus m in
    if nonzero (bit_and mstatus mstatus_mprv)
    then bit_and mstatus mstatus_mpp_mask >>> 11
    else m.privilege

unfoldable pub mmu_vm_active : ℕ → Machine → Bool
mmu_vm_active epriv m = if epriv == prv_machine then false else mmu_satp_mode m

unfoldable pub mmu_satp_root_ppn : Machine → ℕ
mmu_satp_root_ppn m = bit_and (csr_read csr_satp m) 0x003FFFFF

-- What the kind of access asks of a leaf.
unfoldable pub grants_access : ℕ → Bool → MmuAccess → Machine → Bool
grants_access pte write access m =
    if write
    then nonzero (bit_and pte pte_w) && nonzero (bit_and pte pte_d)
    else if is_fetch access
    then nonzero (bit_and pte pte_x)
    else nonzero (bit_and pte pte_r)
      || (nonzero (bit_and pte pte_x) && nonzero (bit_and (csr_read csr_mstatus m) mstatus_mxr))

-- What the privilege asks of a leaf.
unfoldable pub grants_privilege : ℕ → ℕ → Machine → Bool
grants_privilege pte epriv m =
    let user_leaf = nonzero (bit_and pte pte_u) in
    if epriv == prv_supervisor
    then not user_leaf || nonzero (bit_and (csr_read csr_mstatus m) mstatus_sum)
    else if epriv == prv_user
    then user_leaf
    else true

unfoldable pub mmu_check_pte : ℕ → ℕ → Bool → MmuAccess → Machine → Bool
mmu_check_pte pte epriv write access m =
    if epriv == prv_machine
    then true
    else nonzero (bit_and pte pte_a)
      && grants_access pte write access m
      && grants_privilege pte epriv m

-- The first byte of the page or the table that an entry names.
abbrev pub pte_base : ℕ → ℕ
pte_base pte = u32 (pte >>> 10 <<< pgshift)

-- The end of a walk at a leaf: its address, or nothing.
unfoldable pub leaf : Bool → ℕ → ℕ → Machine → Option ℕ × Machine
leaf granted pte offset m = (if granted then some (bit_or (pte_base pte) offset) else none, m)

-- The second level of the walk.
unfoldable pub walk_table : ℕ → ℕ → ℕ → MmuAccess → Machine → Option ℕ × Machine
walk_table pte1 vaddr epriv access m =
    let vpn0 = bit_and (vaddr >>> 12) 0x3FF in
    let (pte2, n) = mem_read32_unsigned (u32 (pte_base pte1 + vpn0 * 4)) m in
    leaf
      (nonzero (bit_and pte2 pte_v)
        && nonzero (bit_and pte2 pte_rwx)
        && mmu_check_pte pte2 epriv (is_store access) access n)
      pte2 (bit_and vaddr 0xFFF) n

-- The walk from the root's entry on.
unfoldable pub walk_entry : ℕ → ℕ → ℕ → MmuAccess → Machine → Option ℕ × Machine
walk_entry pte1 vaddr epriv access m =
    if not (nonzero (bit_and pte1 pte_v))
    then (none, m)
    else if nonzero (bit_and pte1 pte_rwx)
    then leaf
        (bit_and (pte1 >>> 10) 0x3FF == 0 && mmu_check_pte pte1 epriv (is_store access) access m)
        pte1 (bit_and vaddr 0x3FFFFF) m
    else walk_table pte1 vaddr epriv access m

-- The walk from the root; no address is a fault.
unfoldable pub walk : ℕ → ℕ → MmuAccess → Machine → Option ℕ × Machine
walk vaddr epriv access m =
    let root = u32 (mmu_satp_root_ppn m <<< pgshift) in
    let vpn1 = bit_and (vaddr >>> 22) 0x3FF in
    let (pte1, n) = mem_read32_unsigned (u32 (root + vpn1 * 4)) m in
    walk_entry pte1 vaddr epriv access n

abbrev pub fault_cause : MmuAccess → ℕ
fault_cause fetch = 12
fault_cause load = 13
fault_cause store = 15

-- `fault:`
abbrev pub or_fault : ℕ → MmuAccess → Option ℕ × Machine → Option ℕ × Machine
or_fault vaddr access (some pa, m) = (some pa, m)
or_fault vaddr access (none, m) = (none, raise_exception (fault_cause access) vaddr m)

abbrev pub effective_privilege : MmuAccess → Machine → ℕ
effective_privilege access m = if is_fetch access then m.privilege else mmu_effective_dpriv m

-- The physical address, or nothing when a page fault was raised.
unfoldable pub mmu_translate : ℕ → MmuAccess → Machine → Option ℕ × Machine
mmu_translate vaddr access m =
    let epriv = effective_privilege access m in
    if mmu_vm_active epriv m
    then or_fault vaddr access (walk vaddr epriv access m)
    else (some vaddr, m)
