-- ===== src/Mmu/Walk.antt =====
-- The walk of include/mmu.h against its description by the fields of the entries.
use riscvemu.Base.{
  ℕ, ◌+◌, ◌*◌, ◌/◌, ◌%◌, ◌^◌, ◌<◌, ◌≡◌, ◌↔◌, ◌⊎◌, true, false, ◌&&◌, ◌==◌, nonzero, bit_and, bit_or,
  u32, arith,
}
use riscvemu.Bits.{bit, bit_and-ones, bit_or_fields, nonzero-bit, bit_and_step, bit_and-zero}
use riscvemu.Machine.{Machine}
use riscvemu.Csr.Numbers.{csr_mstatus, csr_satp}
use riscvemu.Csr.Access.{csr_read}
use riscvemu.Memory.{mem_read32_unsigned}
use riscvemu.Mmu.{
  MmuAccess, fetch, load, store, is_store, grants_access, grants_privilege, mmu_check_pte, pte_base,
  pte_rwx,
}

-- How many of the bits R, W and X an entry has: none in a pointer to a table.
abbrev pub rwx : ℕ → ℕ
rwx pte = bit pte 1 + bit pte 2 + bit pte 3

-- The bits that an access needs, with A in every case.
unfoldable pub Allows : ℕ → MmuAccess → Machine → Type 0
Allows pte fetch m = bit pte 3 ≡ 1
Allows pte load m = (bit pte 1 ≡ 1) ⊎ ((bit pte 3 ≡ 1) × (bit (csr_read csr_mstatus m) 19 ≡ 1))
Allows pte store m = (bit pte 2 ≡ 1) × (bit pte 7 ≡ 1)

-- User pages are for user mode, and for supervisor mode while mstatus.SUM is set.
unfoldable pub Reaches : ℕ → ℕ → Machine → Type 0
Reaches pte epriv m =
    (epriv ≡ 0 → bit pte 4 ≡ 1)
    × (epriv ≡ 1 → (bit pte 4 ≡ 0) ⊎ (bit (csr_read csr_mstatus m) 18 ≡ 1))

unfoldable pub IsGranted : ℕ → ℕ → MmuAccess → Machine → Type 0
IsGranted pte epriv access m =
    (bit pte 0 ≡ 1) × (0 < rwx pte) × (bit pte 6 ≡ 1) × Allows pte access m × Reaches pte epriv m

pub rwx_test : (pte : ℕ) → bit_and pte pte_rwx ≡ 2 * bit pte 1 + 4 * bit pte 2 + 8 * bit pte 3
rwx_test pte = omega (
  arith,
  bit_and_step pte 14,
  bit_and_step (pte / 2) 7,
  bit_and_step (pte / 2 / 2) 3,
  bit_and_step (pte / 2 / 2 / 2) 1,
  bit_and-zero (pte / 2 / 2 / 2 / 2),
)

grants_access_iff :
    (pte : ℕ) (access : MmuAccess) (m : Machine)
    → (grants_access pte (is_store access) access m ≡ true) ↔ Allows pte access m
unfolding grants_access Allows
grants_access_iff pte fetch m = ground (arith, nonzero-bit pte 3)
grants_access_iff pte load m =
    ground (arith, nonzero-bit pte 1, nonzero-bit pte 3, nonzero-bit (csr_read csr_mstatus m) 19)
grants_access_iff pte store m = ground (arith, nonzero-bit pte 2, nonzero-bit pte 7)

grants_privilege_iff :
    (pte epriv : ℕ) (m : Machine) → (grants_privilege pte epriv m ≡ true) ↔ Reaches pte epriv m
unfolding grants_privilege Reaches
grants_privilege_iff pte epriv m =
    ground (arith, nonzero-bit pte 4, nonzero-bit (csr_read csr_mstatus m) 18)

-- A leaf that `walk` takes, below machine mode.
pub IsGranted-iff :
    (pte epriv : ℕ) (access : MmuAccess) (m : Machine)
    → (epriv == 3) ≡ false
    → ((nonzero (bit_and pte 1)
          && nonzero (bit_and pte pte_rwx)
          && mmu_check_pte pte epriv (is_store access) access m)
        ≡ true)
      ↔ IsGranted pte epriv access m
unfolding mmu_check_pte IsGranted
IsGranted-iff pte epriv access m h = ground (
  arith,
  h,
  rwx_test pte,
  nonzero-bit pte 0,
  nonzero-bit pte 6,
  grants_access_iff pte access m,
  grants_privilege_iff pte epriv m,
)

-- The entries of the two levels, read from the tables in memory.
unfoldable pub first_entry : ℕ → Machine → ℕ × Machine
first_entry vaddr m =
    mem_read32_unsigned (u32 (csr_read csr_satp m % 2 ^ 22 * 2 ^ 12 + vaddr / 2 ^ 22 % 2 ^ 10 * 4))
      m

unfoldable pub second_entry : ℕ → ℕ → Machine → ℕ × Machine
second_entry pte vaddr m =
    mem_read32_unsigned (u32 (pte / 2 ^ 10 * 2 ^ 12 + vaddr / 2 ^ 12 % 2 ^ 10 * 4)) m

-- The two ways to an address from the first entry: it is a leaf, aligned to 4 MiB, or it points to a
-- table that has one.
unfoldable pub IsMegapage : ℕ → ℕ → ℕ → MmuAccess → Machine → ℕ → Machine → Type 0
IsMegapage pte vaddr epriv access m pa n =
    IsGranted pte epriv access m
    × (pte / 2 ^ 10 % 2 ^ 10 ≡ 0)
    × (pa ≡ pte / 2 ^ 20 % 2 ^ 10 * 2 ^ 22 + vaddr % 2 ^ 22)
    × (n ≡ m)

unfoldable pub IsPage : ℕ → ℕ → MmuAccess → ℕ × Machine → ℕ → Machine → Type 0
IsPage vaddr epriv access (pte, m) pa n =
    IsGranted pte epriv access m × (pa ≡ pte / 2 ^ 10 % 2 ^ 20 * 2 ^ 12 + vaddr % 2 ^ 12) × (n ≡ m)

-- What the walk makes of an address: `pa`, once the entries are read.
unfoldable pub IsTranslation : ℕ → ℕ → MmuAccess → Machine → ℕ → Machine → Type 0
IsTranslation vaddr epriv access m pa n =
    let (pte, k) = first_entry vaddr m in
    IsMegapage pte vaddr epriv access k pa n
    ⊎ ((bit pte 0 ≡ 1) × (rwx pte ≡ 0) × IsPage vaddr epriv access (second_entry pte vaddr k) pa n)

pub page_address :
    (pte vaddr : ℕ)
    → bit_or (pte_base pte) (bit_and vaddr 0xFFF) ≡ pte / 2 ^ 10 % 2 ^ 20 * 2 ^ 12 + vaddr % 2 ^ 12
page_address pte vaddr =
    let e : pte_base pte ≡ pte / 2 ^ 10 % 2 ^ 20 * 2 ^ 12 = omega arith in
    rw (e, bit_and-ones 12 vaddr)
      (bit_or_fields 12 (pte / 2 ^ 10 % 2 ^ 20) (vaddr % 2 ^ 12) (omega arith))

pub megapage_address :
    (pte vaddr : ℕ)
    → pte / 2 ^ 10 % 2 ^ 10 ≡ 0
    → bit_or (pte_base pte) (bit_and vaddr 0x3FFFFF)
      ≡ pte / 2 ^ 20 % 2 ^ 10 * 2 ^ 22 + vaddr % 2 ^ 22
megapage_address pte vaddr h =
    let e : pte_base pte ≡ pte / 2 ^ 20 % 2 ^ 10 * 2 ^ 22 = omega (arith, h) in
    rw (e, bit_and-ones 22 vaddr)
      (bit_or_fields 22 (pte / 2 ^ 20 % 2 ^ 10) (vaddr % 2 ^ 22) (omega arith))
