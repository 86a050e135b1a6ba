-- ===== src/Atomic/Reservations.antt =====
-- The reservations of LR.W in the map of include/extension/a_extension.h, and the stores of
-- include/mem.h that drop them.
use mathlib.Core.Path.{ap₂}
use riscvemu.Base.{
  ℕ, ◌-◌, ◌<◌, ◌≡◌, ◌≢◌, ◌∙◌, ◌⊎◌, inl, inr, refl, ap, Bool, true, false, ◌^◌, ◌≤◌, ltb, leb,
  if_both, none, bit_and, bit_or, Bool-cases, arith,
}
use riscvemu.Bits.{bit-bit_or, bit_and-ones}
use riscvemu.HashmapU32.{Hashmap, hashmap_get}
use riscvemu.HashmapU32.Valid.{IsValid, IsChanged}
use riscvemu.HashmapU32.Grown.{hashmap_put-grown}
use riscvemu.Mmu.Access.{mmu_read32_unsigned}
use riscvemu.HashmapU32.Removed.{hashmap_remove-IsChanged}
use riscvemu.HashmapU32.Empty.{hashmap_get-empty}
use riscvemu.Machine.{Machine, reg_read, reg_write}
use riscvemu.Memory.{
  mem_clear_reservation, mem_write8, mem_write16, mem_write32, mem_write64, in_clint, in_uart,
  in_plic, in_plic_bytes, mem_size, plain_write,
}
use riscvemu.Outcome.{running}
use riscvemu.Atomic.{
  reserved_flag, value_or_zero, get_reservation_key, get_reserve_status, set_reserve_status,
  insa_r_sc_w, insa_r_lr_w,
}

mem_clear_reservation-get :
    (addr : ℕ) (m : Machine)
    → IsValid m.mmu_flags
    → 0 < m.mmu_flags.capacity
    → hashmap_get (mem_clear_reservation addr m).mmu_flags (get_reservation_key addr) ≡ none
unfolding mem_clear_reservation get_reservation_key IsChanged
mem_clear_reservation-get addr m valid positive = elim (Bool-cases (ltb 0 m.mmu_flags.size)) [
  | inl e ↦ rw e ((hashmap_remove-IsChanged _ m.mmu_flags valid positive).1)
  | inr e ↦ rw e (hashmap_get-empty m.mmu_flags _ valid (ground arith))
]

-- Every store of one to eight bytes at `addr`.
module _ (addr val : ℕ) (m : Machine) where
  abbrev Clears : Machine → Type 0
  Clears t = t.mmu_flags ≡ (mem_clear_reservation addr m).mmu_flags

  mem_write8-Clears : Clears (mem_write8 addr val m)
  unfolding mem_write8
  mem_write8-Clears = if_both Clears (in_clint addr) refl (
      if_both Clears (in_uart addr) refl
        (if_both Clears (in_plic_bytes addr) refl (if_both Clears (leb mem_size addr) refl refl)))

  plain_write-Clears : (n : ℕ) → Clears (plain_write n addr val m)
  unfolding plain_write
  plain_write-Clears n =
      if_both Clears (in_clint addr) refl (if_both Clears (leb (mem_size - (n - 1)) addr) refl refl)

  mem_write32-Clears : Clears (mem_write32 addr val m)
  unfolding mem_write32
  mem_write32-Clears = if_both Clears (in_clint addr) refl (
      if_both Clears (in_uart addr) refl
        (if_both Clears (in_plic addr) refl (if_both Clears (leb (mem_size - 3) addr) refl refl)))

  dropped :
      (reserved : ℕ) (t : Machine)
      → get_reservation_key reserved ≡ get_reservation_key addr
      → IsValid m.mmu_flags
      → 0 < m.mmu_flags.capacity
      → Clears t
      → get_reserve_status reserved t ≡ false
  unfolding get_reserve_status
  dropped reserved t key valid positive e =
      let found : hashmap_get t.mmu_flags (get_reservation_key reserved) ≡ none =
        ap₂ hashmap_get e key ∙ mem_clear_reservation-get addr m valid positive in
      ap reserved_flag found

-- With a valid map of reservations that has slots, SC.W right after a store of one, two, four or
-- eight bytes, to an aligned address whose word is the one in which the store began, taking the
-- virtual address of SC.W and the physical address of the store as the same number, fails: it
-- writes 1 to its destination and nothing else.
pub store-insa_r_sc_w :
    (allocated : Bool) (rs1 rs2 rd addr val : ℕ) (m t : Machine)
    → (t ≡ mem_write8 addr val m)
      ⊎ (t ≡ mem_write16 addr val m)
      ⊎ (t ≡ mem_write32 addr val m)
      ⊎ (t ≡ mem_write64 addr val m)
    → get_reservation_key (reg_read rs1 t) ≡ get_reservation_key addr
    → bit_and (reg_read rs1 t) 3 ≡ 0
    → IsValid m.mmu_flags
    → 0 < m.mmu_flags.capacity
    → insa_r_sc_w allocated rs1 rs2 rd t ≡ running (reg_write rd 1 t)
unfolding insa_r_sc_w mem_write16 mem_write64
store-insa_r_sc_w allocated rs1 rs2 rd addr val m t stored key aligned valid positive =
    let cleared : Clears addr val m t = elim stored [
      | inl e ↦ ap (λ (k : Machine). k.mmu_flags) e ∙ mem_write8-Clears addr val m
      | inr (inl e) ↦ ap (λ (k : Machine). k.mmu_flags) e ∙ plain_write-Clears addr val m 2
      | inr (inr (inl e)) ↦ ap (λ (k : Machine). k.mmu_flags) e ∙ mem_write32-Clears addr val m
      | inr (inr (inr e)) ↦ ap (λ (k : Machine). k.mmu_flags) e ∙ plain_write-Clears addr val m 8
    ] in
    let gone = dropped addr val m (reg_read rs1 t) t key valid positive cleared in
    ground (arith, aligned, gone)

set_reserve_status-get :
    (addr other : ℕ) (m : Machine)
    → IsValid m.mmu_flags
    → 0 < m.mmu_flags.capacity
    → m.mmu_flags.capacity ≤ 2 ^ 22
    → get_reservation_key other ≢ get_reservation_key addr
    → let t = set_reserve_status true addr m in
      (get_reserve_status addr t ≡ true) × (get_reserve_status other t ≡ get_reserve_status other m)
unfolding get_reserve_status set_reserve_status IsChanged
set_reserve_status-get addr other m valid positive small ne =
    let key = get_reservation_key addr in
    let old = value_or_zero (hashmap_get m.mmu_flags key) in
    let value = bit_or old 1 in
    let (valid', here, others) = hashmap_put-grown key value m.mmu_flags valid positive small in
    (
      ap reserved_flag here ∙ ground (arith, bit_and-ones 1 value, bit-bit_or 0 old 1),
      ap reserved_flag (others (get_reservation_key other) ne),
    )

reg_write-kept :
    (rd d : ℕ) (m : Machine)
    → ((reg_write rd d m).mmu_flags ≡ m.mmu_flags) × ((reg_write rd d m).pc ≡ m.pc)
unfolding reg_write
reg_write-kept rd d m = ground arith

-- When the load of LR.W from an aligned address leaves a valid map of reservations with 1 to 2 ^ 22
-- slots, and memory can be had, LR.W goes on with the loaded value in its destination, reserves the
-- word of its address, and leaves the reservation of any other word and the program counter as the
-- load left them.
pub insa_r_lr_w-get :
    (rs1 rd other : ℕ) (m : Machine)
    → let addr = reg_read rs1 m in
      let (val, n) = mmu_read32_unsigned addr m in
      bit_and addr 3 ≡ 0
      → IsValid n.mmu_flags
      → 0 < n.mmu_flags.capacity
      → n.mmu_flags.capacity ≤ 2 ^ 22
      → get_reservation_key other ≢ get_reservation_key addr
      → (t : Machine) × (insa_r_lr_w true rs1 rd m ≡ running t)
        × (get_reserve_status addr t ≡ true)
        × (get_reserve_status other t ≡ get_reserve_status other n)
        × (t.gpr ≡ (reg_write rd val n).gpr)
        × (t.pc ≡ n.pc)
unfolding insa_r_lr_w get_reserve_status set_reserve_status
insa_r_lr_w-get rs1 rd other m aligned valid positive small ne =
    let addr = reg_read rs1 m in
    let r = mmu_read32_unsigned addr m in
    let written = reg_write rd r.0 r.1 in
    let (flags, pc) = reg_write-kept rd r.0 r.1 in
    let v : IsValid written.mmu_flags = rw flags valid in
    let p : 0 < written.mmu_flags.capacity = rw flags positive in
    let l : written.mmu_flags.capacity ≤ 2 ^ 22 = rw flags small in
    let (here, others) = set_reserve_status-get addr other written v p l ne in
    let same =
      ap (λ (f : Hashmap). reserved_flag (hashmap_get f (get_reservation_key other))) flags in
    (set_reserve_status true addr written, rw aligned refl, here, others ∙ same, refl, pc)
