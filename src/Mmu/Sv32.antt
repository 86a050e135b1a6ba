-- ===== src/Mmu/Sv32.antt =====
-- `mmu_translate` of include/mmu.h against the rules of Sv32, which refuse entries with W and no R and
-- supervisor fetches from user pages.
use riscvemu.Base.{ℕ, ◌+◌, ◌*◌, ◌/◌, ◌%◌, ◌^◌, ◌<◌, ◌≤◌, ◌≡◌, ◌⊎◌, false}
use riscvemu.Bits.{bit}
use riscvemu.Machine.{Machine}
use riscvemu.Csr.Numbers.{csr_mstatus}
use riscvemu.Csr.Access.{csr_read}
use riscvemu.Mmu.{MmuAccess, is_fetch}
use riscvemu.Mmu.Walk.{rwx, Allows, first_entry, second_entry}

-- A user page is for user mode, and for loads and stores of supervisor mode while mstatus.SUM is set.
abbrev pub MayReach : ℕ → ℕ → MmuAccess → Machine → Type 0
MayReach pte epriv access m =
    (epriv ≡ 0 → bit pte 4 ≡ 1)
    × (epriv ≡ 1
        → (bit pte 4 ≡ 0) ⊎ ((is_fetch access ≡ false) × (bit (csr_read csr_mstatus m) 18 ≡ 1)))

-- A leaf with V and A, one of R and X, and R where it has W, that allows the access.
abbrev pub IsLeaf : ℕ → ℕ → MmuAccess → Machine → Type 0
IsLeaf pte epriv access m =
    (bit pte 0 ≡ 1)
    × (0 < bit pte 1 + bit pte 3)
    × (bit pte 2 ≤ bit pte 1)
    × (bit pte 6 ≡ 1)
    × Allows pte access m
    × MayReach pte epriv access m

abbrev pub IsSv32 : ℕ → ℕ → MmuAccess → Machine → ℕ → Machine → Type 0
IsSv32 vaddr epriv access m pa n =
    let (root, k) = first_entry vaddr m in
    let (pte, l) = second_entry root vaddr k in
    (IsLeaf root epriv access k
      × (root / 2 ^ 10 % 2 ^ 10 ≡ 0)
      × (pa ≡ root / 2 ^ 20 % 2 ^ 10 * 2 ^ 22 + vaddr % 2 ^ 22)
      × (n ≡ k))
    ⊎ ((bit root 0 ≡ 1)
        × (rwx root ≡ 0)
        × IsLeaf pte epriv access l
        × (pa ≡ pte / 2 ^ 10 % 2 ^ 20 * 2 ^ 12 + vaddr % 2 ^ 12)
        × (n ≡ l))

-- The entries that the walk reads have R where they have W.
abbrev pub IsUnreserved : ℕ → Machine → Type 0
IsUnreserved vaddr m =
    let (root, k) = first_entry vaddr m in
    (bit root 2 ≤ bit root 1)
    × (bit (second_entry root vaddr k).0 2 ≤ bit (second_entry root vaddr k).0 1)

abbrev pub IsOrdinary : MmuAccess → Machine → Type 0
IsOrdinary access m = (is_fetch access ≡ false) ⊎ (bit (csr_read csr_mstatus m) 18 ≡ 0)
