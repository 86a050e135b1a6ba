-- ===== src/Memory/Bytes.antt =====
-- What a read of the main memory finds after a write (include/mem.h).
use riscvemu.Base.{
  ℕ, zero, suc, ◌+◌, ◌-◌, ◌^◌, ◌≤◌, ◌<◌, ◌≡◌, ◌⊎◌, inl, refl, ap, false, leb, update, u8, u16, u32,
  u64, ◌>>>◌, arith,
}
use native.Mathlib.Nat.{pow-suc}
use riscvemu.Machine.{Machine}
use riscvemu.Memory.{
  load_le, store_le, in_clint, in_uart, in_plic, mem_size, mem_clear_reservation, plain_read,
  plain_write, mem_read16_unsigned, mem_read32_unsigned, mem_read64_unsigned, mem_write8,
  mem_write16, mem_write32, mem_write64,
}

store_le_frame :
    (n addr val j : ℕ) (memory : ℕ → ℕ)
    → (j < addr) ⊎ (addr + n ≤ j)
    → store_le n addr val memory j ≡ memory j
unfolding store_le
store_le_frame zero addr val j memory h = refl
store_le_frame (suc n) addr val j memory h =
    let rest =
      store_le_frame n (addr + 1) (val >>> 8) j (update memory addr (u8 val)) (ground arith) in
    ground (arith, rest)

load_le-store_le :
    (n addr val : ℕ) (memory : ℕ → ℕ)
    → val < 256 ^ n
    → load_le n addr (store_le n addr val memory) ≡ val
unfolding load_le store_le
load_le-store_le zero addr val memory h = omega arith
load_le-store_le (suc n) addr val memory h =
    let next = update memory addr (u8 val) in
    ground (
      arith,
      store_le_frame n (addr + 1) (val >>> 8) addr next (inl (omega arith)),
      load_le-store_le n (addr + 1) (val >>> 8) next (omega (arith, pow-suc 256 n)),
    )

-- `n` bytes of the main memory, outside the windows of the devices.
unfoldable pub IsRam : ℕ → ℕ → Type 0
IsRam n addr =
    (in_clint addr ≡ false)
    × (in_uart addr ≡ false)
    × (in_plic addr ≡ false)
    × (addr + n ≤ mem_size)

-- A write of `n` bytes: the bytes and the reservations change, and nothing else.
unfoldable pub IsStored : ℕ → ℕ → ℕ → Machine → Machine → Type 0
IsStored n addr val m t =
    (load_le n addr t.main_memory ≡ val)
    × ((j : ℕ) → (j < addr) ⊎ (addr + n ≤ j) → t.main_memory j ≡ m.main_memory j)
    × (t ≡ record m { main_memory = t.main_memory; mmu_flags = t.mmu_flags })

store_le-IsStored :
    (n addr val : ℕ) (m : Machine)
    → val < 256 ^ n
    → let m' = mem_clear_reservation addr m in
      IsStored n addr val m (record (m') { main_memory = store_le n addr val m'.main_memory })
unfolding IsStored mem_clear_reservation
store_le-IsStored n addr val m h = (
  load_le-store_le n addr val m.main_memory h,
  λ j out. store_le_frame n addr val j m.main_memory out,
  refl,
)

module _ (addr val : ℕ) (m : Machine) where
  plain_write-plain_read :
      (n : ℕ)
      → 0 < n
      → IsRam n addr
      → val < 256 ^ n
      → let t = plain_write n addr val m in
        IsStored n addr val m t × (plain_read n addr t ≡ (val, t))
  unfolding plain_write plain_read IsRam IsStored
  plain_write-plain_read n positive (c, u, p, h) l =
      let inside : leb (mem_size - (n - 1)) addr ≡ false = ground arith in
      let k : Machine = mem_clear_reservation addr m in
      let t : Machine = record k { main_memory = store_le n addr val k.main_memory } in
      let (bytes, frame, others) = store_le-IsStored n addr val m l in
      simp (c, u, p, inside) ((bytes, frame, others), ap (λ (v : ℕ). (v, t)) bytes)

  mem_write32-mem_read32 :
      IsRam 4 addr
      → val < 256 ^ 4
      → let t = mem_write32 addr val m in
        IsStored 4 addr val m t × (mem_read32_unsigned addr t ≡ (val, t))
  unfolding mem_write32 mem_read32_unsigned IsRam IsStored
  mem_write32-mem_read32 (c, u, p, h) l =
      let inside : leb (mem_size - 3) addr ≡ false = ground arith in
      let k : Machine = mem_clear_reservation addr m in
      let t : Machine = record k { main_memory = store_le 4 addr val k.main_memory } in
      let (bytes, frame, others) = store_le-IsStored 4 addr val m l in
      simp (c, u, p, inside) ((bytes, frame, others), ap (λ (v : ℕ). (v, t)) bytes)

-- When the eight bytes at an address are in the main memory and the address is outside the windows
-- of the devices, storing the low 16, 32 or 64 bits of a value there and loading as many gives them
-- back without a change of state; the store changes no byte outside its own, and nothing else of
-- the machine but the reservations.
pub mem_write-mem_read :
    (addr val : ℕ) (m : Machine)
    → IsRam 8 addr
    → let s = mem_write16 addr (u16 val) m in
      let t = mem_write32 addr (u32 val) m in
      let w = mem_write64 addr (u64 val) m in
      (IsStored 2 addr (u16 val) m s × (mem_read16_unsigned addr s ≡ (u16 val, s)))
      × (IsStored 4 addr (u32 val) m t × (mem_read32_unsigned addr t ≡ (u32 val, t)))
      × (IsStored 8 addr (u64 val) m w × (mem_read64_unsigned addr w ≡ (u64 val, w)))
unfolding mem_write16 mem_read16_unsigned mem_write64 mem_read64_unsigned IsRam
mem_write-mem_read addr val m (c, u, p, h) = (
  plain_write-plain_read addr (u16 val) m 2 (omega arith) (c, u, p, omega arith) (omega arith),
  mem_write32-mem_read32 addr (u32 val) m (c, u, p, omega arith) (omega arith),
  plain_write-plain_read addr (u64 val) m 8 (omega arith) (c, u, p, omega arith) (omega arith),
)

module _ (addr val j : ℕ) (m : Machine) (past : mem_size ≤ j) where
  -- Bytes beyond the memory stay through one conditional write.
  abbrev Unmoved : Machine → Type 0
  Unmoved t = t.main_memory j ≡ m.main_memory j

  plain_write-kept : (n : ℕ) → 0 < n → n ≤ 8 → Unmoved (plain_write n addr val m)
  unfolding plain_write mem_clear_reservation
  plain_write-kept n positive small = ground (arith, store_le_frame n addr val j m.main_memory)

  mem_write8-kept : Unmoved (mem_write8 addr val m)
  unfolding mem_write8 mem_clear_reservation
  mem_write8-kept = ground arith

  mem_write32-kept : Unmoved (mem_write32 addr val m)
  unfolding mem_write32 mem_clear_reservation
  mem_write32-kept = ground (arith, store_le_frame 4 addr val j m.main_memory)

  -- A store of one, two, four or eight bytes at any address leaves every byte past the end of the
  -- memory as it is.
  pub mem_write-kept :
      ((mem_write8 addr val m).main_memory j ≡ m.main_memory j)
      × ((mem_write16 addr val m).main_memory j ≡ m.main_memory j)
      × ((mem_write32 addr val m).main_memory j ≡ m.main_memory j)
      × ((mem_write64 addr val m).main_memory j ≡ m.main_memory j)
  unfolding mem_write16 mem_write64
  mem_write-kept = (
    mem_write8-kept,
    plain_write-kept 2 (omega arith) (omega arith),
    mem_write32-kept,
    plain_write-kept 8 (omega arith) (omega arith),
  )
