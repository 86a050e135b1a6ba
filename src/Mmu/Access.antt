-- ===== src/Mmu/Access.antt =====
-- The reads and writes of include/mmu.h: translate, then access. A read whose translation faults
-- returns 0, and a write then does nothing.
use riscvemu.Base.{ℕ, Option, none, some}
use riscvemu.Machine.{Machine}
use riscvemu.Memory.{
  mem_read8_unsigned, mem_read8_signed, mem_read16_unsigned, mem_read16_signed, mem_read32_unsigned,
  mem_read32_signed, mem_read64_unsigned, mem_write8, mem_write16, mem_write32, mem_write64,
}
use riscvemu.Mmu.{fetch, load, store, mmu_translate}

-- A read of a translated address.
abbrev pub read_at : (ℕ → Machine → ℕ × Machine) → Option ℕ × Machine → ℕ × Machine
read_at read (some pa, m) = read pa m
read_at read (none, m) = (0, m)

abbrev pub write_at : (ℕ → ℕ → Machine → Machine) → ℕ → Option ℕ × Machine → Machine
write_at write val (some pa, m) = write pa val m
write_at write val (none, m) = m

-- The instruction word, or nothing when a page fault was raised.
abbrev pub fetch_at : Option ℕ × Machine → Option ℕ × Machine
fetch_at (some pa, m) = let (ins, n) = mem_read32_unsigned pa m in (some ins, n)
fetch_at (none, m) = (none, m)

unfoldable pub mmu_fetch_ok : ℕ → Machine → Option ℕ × Machine
mmu_fetch_ok vaddr m = fetch_at (mmu_translate vaddr fetch m)

unfoldable pub mmu_read8_unsigned : ℕ → Machine → ℕ × Machine
mmu_read8_unsigned vaddr m = read_at mem_read8_unsigned (mmu_translate vaddr load m)

unfoldable pub mmu_read8_signed : ℕ → Machine → ℕ × Machine
mmu_read8_signed vaddr m = read_at mem_read8_signed (mmu_translate vaddr load m)

unfoldable pub mmu_read16_unsigned : ℕ → Machine → ℕ × Machine
mmu_read16_unsigned vaddr m = read_at mem_read16_unsigned (mmu_translate vaddr load m)

unfoldable pub mmu_read16_signed : ℕ → Machine → ℕ × Machine
mmu_read16_signed vaddr m = read_at mem_read16_signed (mmu_translate vaddr load m)

unfoldable pub mmu_read32_unsigned : ℕ → Machine → ℕ × Machine
mmu_read32_unsigned vaddr m = read_at mem_read32_unsigned (mmu_translate vaddr load m)

unfoldable pub mmu_read32_signed : ℕ → Machine → ℕ × Machine
mmu_read32_signed vaddr m = read_at mem_read32_signed (mmu_translate vaddr load m)

unfoldable pub mmu_read64_unsigned : ℕ → Machine → ℕ × Machine
mmu_read64_unsigned vaddr m = read_at mem_read64_unsigned (mmu_translate vaddr load m)

unfoldable pub mmu_write8 : ℕ → ℕ → Machine → Machine
mmu_write8 vaddr val m = write_at mem_write8 val (mmu_translate vaddr store m)

unfoldable pub mmu_write16 : ℕ → ℕ → Machine → Machine
mmu_write16 vaddr val m = write_at mem_write16 val (mmu_translate vaddr store m)

unfoldable pub mmu_write32 : ℕ → ℕ → Machine → Machine
mmu_write32 vaddr val m = write_at mem_write32 val (mmu_translate vaddr store m)

unfoldable pub mmu_write64 : ℕ → ℕ → Machine → Machine
mmu_write64 vaddr val m = write_at mem_write64 val (mmu_translate vaddr store m)
