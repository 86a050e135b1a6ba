-- ===== src/Atomic.antt =====
-- include/extension/a_extension.h: reservations and atomic operations. A misaligned address ends the
-- emulator by `fatal`.
pub mod Amo
pub mod Faults
pub mod Reservations
use riscvemu.Base.{
  ℕ, ◌-◌, ◌^◌, Bool, false, nonzero, if◌then◌else◌, Option, none, some, bit_and, bit_or, not32,
  ◌==◌,
}
use riscvemu.HashmapU32.{Hashmap, hashmap_get, hashmap_put, hashmap_remove}
use riscvemu.Machine.{Machine, reg_read, reg_write}
use riscvemu.Mmu.Access.{mmu_read32_unsigned, mmu_write32}
use riscvemu.Outcome.{Outcome, running, fatal}

unfoldable pub get_reservation_key : ℕ → ℕ
get_reservation_key addr = bit_and addr (not32 0x3)

abbrev pub value_or_zero : Option ℕ → ℕ
value_or_zero none = 0
value_or_zero (some value) = value

-- The low bit of a word's flags, if it has any.
abbrev pub reserved_flag : Option ℕ → Bool
reserved_flag none = false
reserved_flag (some value) = nonzero (bit_and value 1)

unfoldable pub get_reserve_status : ℕ → Machine → Bool
get_reserve_status addr m = reserved_flag (hashmap_get m.mmu_flags (get_reservation_key addr))

-- `allocated` is whether the map gets memory when it grows.
unfoldable pub set_reserve_status : Bool → ℕ → Machine → Machine
set_reserve_status allocated addr m =
    let key = get_reservation_key addr in
    let value = bit_or (value_or_zero (hashmap_get m.mmu_flags key)) 1 in
    record m { mmu_flags = hashmap_put allocated key value m.mmu_flags }

unfoldable pub clear_reserve_status : Bool → ℕ → Machine → Machine
clear_reserve_status allocated addr m =
    let key = get_reservation_key addr in
    elim (hashmap_get m.mmu_flags key) [
      | none ↦ m
      | some value ↦
          let cleared = bit_and value (not32 1) in
          record m {
            mmu_flags =
                if cleared == 0
                then (hashmap_remove key m.mmu_flags).1
                else hashmap_put allocated key cleared m.mmu_flags;
          }
    ]

abbrev pub unless_misaligned : ℕ → Machine → Outcome
unless_misaligned addr m = if nonzero (bit_and addr 0x3) then fatal else running m

unfoldable pub insa_r_lr_w : Bool → ℕ → ℕ → Machine → Outcome
insa_r_lr_w allocated rs1 rd m =
    let addr = reg_read rs1 m in
    let (val, n) = mmu_read32_unsigned addr m in
    unless_misaligned addr (set_reserve_status allocated addr (reg_write rd val n))

-- The store of SC.W when the reservation stands.
unfoldable pub sc_store : Bool → ℕ → ℕ → ℕ → Machine → Machine
sc_store allocated addr value rd m =
    clear_reserve_status allocated addr (reg_write rd 0 (mmu_write32 addr value m))

unfoldable pub insa_r_sc_w : Bool → ℕ → ℕ → ℕ → Machine → Outcome
insa_r_sc_w allocated rs1 rs2 rd m =
    let addr = reg_read rs1 m in
    let value = reg_read rs2 m in
    unless_misaligned addr
      (if get_reserve_status addr m then sc_store allocated addr value rd m else reg_write rd 1 m)
