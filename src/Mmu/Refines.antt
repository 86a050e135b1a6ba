-- ===== src/Mmu/Refines.antt =====
-- `walk` and `mmu_translate` of include/mmu.h give an address exactly where the rules of Walk do.
use riscvemu.Base.{
  ℕ, ◌+◌, ◌*◌, ◌/◌, ◌%◌, ◌^◌, ◌<◌, ◌≡◌, ◌↔◌, ◌⊎◌, Bool, true, false, ◌&&◌, ◌==◌, nonzero, bit_and,
  bit_or, u32, ◌>>>◌, ◌<<<◌, some, arith,
}
use riscvemu.Bits.{bit, bit_and-ones, nonzero-bit}
use riscvemu.Machine.{Machine}
use riscvemu.Csr.Numbers.{csr_satp}
use riscvemu.Csr.Access.{csr_read}
use riscvemu.Memory.{mem_read32_unsigned}
use riscvemu.Mmu.{
  MmuAccess, is_store, pte_base, pte_rwx, walk, walk_table, walk_entry, leaf, mmu_satp_root_ppn,
  mmu_check_pte,
}
use riscvemu.Mmu.Walk.{
  rwx, IsGranted, IsGranted-iff, rwx_test, first_entry, second_entry, IsMegapage, IsPage,
  IsTranslation, page_address, megapage_address,
}

root_address :
    (vaddr : ℕ) (m : Machine)
    → u32 (u32 (mmu_satp_root_ppn m <<< 12) + bit_and (vaddr >>> 22) 0x3FF * 4)
      ≡ u32 (csr_read csr_satp m % 2 ^ 22 * 2 ^ 12 + vaddr / 2 ^ 22 % 2 ^ 10 * 4)
unfolding mmu_satp_root_ppn
root_address vaddr m =
    omega (arith, bit_and-ones 22 (csr_read csr_satp m), bit_and-ones 10 (vaddr / 2 ^ 22))

table_address :
    (pte vaddr : ℕ)
    → u32 (pte_base pte + bit_and (vaddr >>> 12) 0x3FF * 4)
      ≡ u32 (pte / 2 ^ 10 * 2 ^ 12 + vaddr / 2 ^ 12 % 2 ^ 10 * 4)
table_address pte vaddr = omega (arith, bit_and-ones 10 (vaddr / 2 ^ 12))

leaf_iff :
    (b : Bool) (pte offset pa : ℕ) (m n : Machine)
    → (leaf b pte offset m ≡ (some pa, n))
      ↔ ((b ≡ true) × (pa ≡ bit_or (pte_base pte) offset) × (n ≡ m))
unfolding leaf
leaf_iff true pte offset pa m n = ground arith
leaf_iff false pte offset pa m n = ground arith

module _ (vaddr epriv : ℕ) (access : MmuAccess) (below : (epriv == 3) ≡ false) (pa : ℕ)
    (n : Machine) where
  IsPage-iff :
      (table : ℕ) (m : Machine)
      → (walk_table table vaddr epriv access m ≡ (some pa, n))
        ↔ IsPage vaddr epriv access (second_entry table vaddr m) pa n
  unfolding walk_table second_entry IsPage
  IsPage-iff table m = rw (table_address table vaddr) (
      let (pte, l) =
        mem_read32_unsigned (u32 (table / 2 ^ 10 * 2 ^ 12 + vaddr / 2 ^ 12 % 2 ^ 10 * 4)) m in
      let b =
        nonzero (bit_and pte 1)
        && nonzero (bit_and pte pte_rwx)
        && mmu_check_pte pte epriv (is_store access) access l in
      ground (
        arith,
        IsGranted-iff pte epriv access l below,
        leaf_iff b pte (bit_and vaddr 0xFFF) pa l n,
        page_address pte vaddr,
      ))

  IsMegapage-iff :
      (pte : ℕ) (m : Machine)
      → 0 < rwx pte
      → bit pte 0 ≡ 1
      → (leaf
            (bit_and (pte >>> 10) 0x3FF == 0 && mmu_check_pte pte epriv (is_store access) access m)
            pte
            (bit_and vaddr 0x3FFFFF)
            m
          ≡ (some pa, n))
        ↔ IsMegapage pte vaddr epriv access m pa n
  unfolding IsMegapage
  IsMegapage-iff pte m some_bit valid =
      let b =
        bit_and (pte >>> 10) 0x3FF == 0 && mmu_check_pte pte epriv (is_store access) access m in
      ground (
        arith,
        IsGranted-iff pte epriv access m below,
        leaf_iff b pte (bit_and vaddr 0x3FFFFF) pa m n,
        megapage_address pte vaddr,
        bit_and-ones 10 (pte / 2 ^ 10),
        nonzero-bit pte 0,
        rwx_test pte,
      )

  megapage_leaf :
      (pte : ℕ) (m : Machine)
      → IsMegapage pte vaddr epriv access m pa n
      → (0 < rwx pte) × (bit pte 0 ≡ 1)
  unfolding IsMegapage IsGranted
  megapage_leaf pte m h = ground arith

  entry_iff :
      (pte : ℕ) (m : Machine)
      → (walk_entry pte vaddr epriv access m ≡ (some pa, n)) ↔ (
          IsMegapage pte vaddr epriv access m pa n
          ⊎ ((bit pte 0 ≡ 1)
              × (rwx pte ≡ 0)
              × IsPage vaddr epriv access (second_entry pte vaddr m) pa n))
  unfolding walk_entry
  entry_iff pte m = ground (
    arith,
    rwx_test pte,
    nonzero-bit pte 0,
    megapage_leaf pte m,
    IsMegapage-iff pte m,
    IsPage-iff pte m,
  )

  -- w
  pub walk_iff :
      (m : Machine)
      → (walk vaddr epriv access m ≡ (some pa, n)) ↔ IsTranslation vaddr epriv access m pa n
  unfolding walk IsTranslation first_entry
  walk_iff m = rw (root_address vaddr m) (entry_iff _ _)
