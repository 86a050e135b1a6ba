-- ===== src/Memory.antt =====
-- include/mem.h: physical accesses, routed to the timer, the serial port, the interrupt controller or
-- the main memory. Multi-byte accesses of the main memory are those of a little-endian host. A read
-- returns its value and the machine, since reading a device can change it.
pub mod Bytes
use riscvemu.Base.{
  ◌==◌, ℕ, zero, suc, ◌+◌, ◌-◌, ◌*◌, ◌/◌, ◌%◌, ◌^◌, Bool, ltb, leb, if◌then◌else◌, update, bit_and,
  bit_or, not32, u8, u16, u32, u64, ◌<<<◌, ◌>>>◌,
}
use riscvemu.Clint.{Clint, clint_base, clint_size, in_window, clint_read, clint_store}
use riscvemu.Uart.{Devices, uart_read, uart_write}
use riscvemu.Plic.{plic_read32, plic_write32}
use riscvemu.HashmapU32.{hashmap_remove}
use riscvemu.Machine.{Machine}

abbrev pub uart_base : ℕ
uart_base = 0x10000000

abbrev pub uart_nregs : ℕ
uart_nregs = 8

abbrev pub plic_base : ℕ
plic_base = 0x0C000000

abbrev pub plic_size : ℕ
plic_size = 0x04000000

-- The part of the PLIC that byte accesses reach.
abbrev pub plic_byte_size : ℕ
plic_byte_size = 0x10000

abbrev pub mem_size : ℕ
mem_size = 2 ^ 32 - 4096

-- `(int32_t)(int8_t)b` and `(int32_t)(int16_t)h`, as patterns.
abbrev pub sign_extend_8 : ℕ → ℕ
sign_extend_8 b = if ltb b (2 ^ 7) then b else b + (2 ^ 32 - 2 ^ 8)

abbrev pub sign_extend_16 : ℕ → ℕ
sign_extend_16 h = if ltb h (2 ^ 15) then h else h + (2 ^ 32 - 2 ^ 16)

-- A store to a word clears its reservation.
unfoldable pub mem_clear_reservation : ℕ → Machine → Machine
mem_clear_reservation addr m = record m {
  mmu_flags =
      if ltb 0 m.mmu_flags.size
      then (hashmap_remove (bit_and addr (not32 0x3)) m.mmu_flags).1
      else m.mmu_flags;
}

-- `*(uint8_t *)`, `*(uint16_t *)` and so on in the main memory: `n` bytes, the lowest first.
unfoldable pub load_le : ℕ → ℕ → (ℕ → ℕ) → ℕ
load_le zero addr memory = 0
load_le (suc n) addr memory = memory addr + 2 ^ 8 * load_le n (addr + 1) memory

unfoldable pub store_le : ℕ → ℕ → ℕ → (ℕ → ℕ) → ℕ → ℕ
store_le zero addr val memory = memory
store_le (suc n) addr val memory = store_le n (addr + 1) (val >>> 8) (update memory addr (u8 val))

abbrev pub in_clint : ℕ → Bool
in_clint addr = in_window clint_base clint_size addr

abbrev pub in_uart : ℕ → Bool
in_uart addr = in_window uart_base uart_nregs addr

abbrev pub in_plic : ℕ → Bool
in_plic addr = in_window plic_base plic_size addr

abbrev pub in_plic_bytes : ℕ → Bool
in_plic_bytes addr = in_window plic_base plic_byte_size addr

-- `for (int i = 0; i < n; i++) v |= (uint8_t)clint_read(addr + i) << (i * 8);`
unfoldable pub clint_gather : ℕ → ℕ → Clint → ℕ
clint_gather zero addr c = 0
clint_gather (suc n) addr c =
    bit_or (clint_gather n addr c) (u8 (clint_read (addr + n) c) <<< (n * 8))

unfoldable pub clint_scatter : ℕ → ℕ → ℕ → Clint → Clint
clint_scatter zero addr val c = c
clint_scatter (suc n) addr val c =
    clint_store (addr + n) (u8 (val >>> (n * 8))) (clint_scatter n addr val c)

-- The loops over the registers of the serial port, with `left` rounds to go from round `i` on.
unfoldable pub uart_gather : ℕ → ℕ → ℕ → ℕ → Devices → ℕ × Devices
uart_gather zero i addr v d = (v, d)
uart_gather (suc left) i addr v d =
    let (b, e) = uart_read (addr - uart_base + i) d in
    let rest = uart_gather left (suc i) addr (bit_or v (u32 (b <<< (i * 8)))) e in
    if ltb (addr + i) (uart_base + uart_nregs) then rest else (v, d)

unfoldable pub uart_scatter : ℕ → ℕ → ℕ → ℕ → Devices → Devices
uart_scatter zero i addr val d = d
uart_scatter (suc left) i addr val d =
    let rest =
      uart_scatter left (suc i) addr val
        (uart_write (addr - uart_base + i) (u8 (val >>> (i * 8))) d) in
    if ltb (addr + i) (uart_base + uart_nregs) then rest else d

-- The two devices, read and written as one.
abbrev pub uart_access : ℕ × Devices → Machine → ℕ × Machine
uart_access (v, d) m = (v, record m { devices = d })

abbrev pub plic_load : ℕ → Machine → ℕ × Machine
plic_load off m =
    let (v, p) = plic_read32 off m.devices.plic in
    (v, record m { devices = record (m.devices) { plic = p } })

abbrev pub plic_store : ℕ → ℕ → Machine → Machine
plic_store off val m = record m {
  devices = record (m.devices) { plic = plic_write32 off val m.devices.plic };
}

unfoldable pub mem_read8_unsigned : ℕ → Machine → ℕ × Machine
mem_read8_unsigned addr m =
    if in_clint addr
    then (let v = clint_read addr m.clint in if ltb v (2 ^ 31) then v else 0, m)
    else if in_uart addr
    then uart_access (uart_read (addr - uart_base) m.devices) m
    else if in_plic_bytes addr
    then (let (w, n) = plic_load (addr - plic_base) m in
        (bit_and (w >>> (bit_and addr 3 * 8)) 0xFF, n))
    else if leb mem_size addr
    then (0, m)
    else (m.main_memory addr, m)

-- No route to the PLIC here.
unfoldable pub mem_read8_signed : ℕ → Machine → ℕ × Machine
mem_read8_signed addr m =
    if in_clint addr
    then (clint_read addr m.clint, m)
    else if in_uart addr
    then (let (v, n) = uart_access (uart_read (addr - uart_base) m.devices) m in (u8 v, n))
    else if leb mem_size addr
    then (0, m)
    else (sign_extend_8 (m.main_memory addr), m)

unfoldable pub mem_write8 : ℕ → ℕ → Machine → Machine
mem_write8 addr val m =
    let m = mem_clear_reservation addr m in
    if in_clint addr
    then record m { clint = clint_store addr val m.clint }
    else if in_uart addr
    then record m { devices = uart_write (addr - uart_base) val m.devices }
    else if in_plic_bytes addr
    then (let off = addr - plic_base in
        let shift = bit_and off 3 * 8 in
        let (cur, n) = plic_load (bit_and off (not32 3)) m in
        let cur = bit_or (bit_and cur (not32 (0xFF <<< shift))) (val <<< shift) in
        plic_store (bit_and off (not32 3)) cur n)
    else if leb mem_size addr
    then m
    else record m { main_memory = update m.main_memory addr val }

-- An access of `n` bytes to the timer or the main memory, for the sizes that reach nothing else.
abbrev pub plain_read : ℕ → ℕ → Machine → ℕ × Machine
plain_read n addr m =
    if in_clint addr
    then (clint_gather n addr m.clint, m)
    else if leb (mem_size - (n - 1)) addr
    then (0, m)
    else (load_le n addr m.main_memory, m)

abbrev pub plain_write : ℕ → ℕ → ℕ → Machine → Machine
plain_write n addr val m =
    let m = mem_clear_reservation addr m in
    if in_clint addr
    then record m { clint = clint_scatter n addr val m.clint }
    else if leb (mem_size - (n - 1)) addr
    then m
    else record m { main_memory = store_le n addr val m.main_memory }

unfoldable pub mem_read16_unsigned : ℕ → Machine → ℕ × Machine
mem_read16_unsigned addr m = plain_read 2 addr m

unfoldable pub mem_read16_signed : ℕ → Machine → ℕ × Machine
mem_read16_signed addr m = let (v, n) = mem_read16_unsigned addr m in (sign_extend_16 (u16 v), n)

unfoldable pub mem_write16 : ℕ → ℕ → Machine → Machine
mem_write16 addr val m = plain_write 2 addr val m

unfoldable pub mem_read32_unsigned : ℕ → Machine → ℕ × Machine
mem_read32_unsigned addr m =
    if in_clint addr
    then (clint_gather 4 addr m.clint, m)
    else if in_uart addr
    then uart_access (uart_gather 4 0 addr 0 m.devices) m
    else if in_plic addr
    then plic_load (addr - plic_base) m
    else if leb (mem_size - 3) addr
    then (0, m)
    else (load_le 4 addr m.main_memory, m)

unfoldable pub mem_read32_signed : ℕ → Machine → ℕ × Machine
mem_read32_signed addr m = mem_read32_unsigned addr m

unfoldable pub mem_write32 : ℕ → ℕ → Machine → Machine
mem_write32 addr val m =
    let m = mem_clear_reservation addr m in
    if in_clint addr
    then record m { clint = clint_scatter 4 addr val m.clint }
    else if in_uart addr
    then record m { devices = uart_scatter 4 0 addr val m.devices }
    else if in_plic addr
    then plic_store (addr - plic_base) val m
    else if leb (mem_size - 3) addr
    then m
    else record m { main_memory = store_le 4 addr val m.main_memory }

unfoldable pub mem_read64_unsigned : ℕ → Machine → ℕ × Machine
mem_read64_unsigned addr m = plain_read 8 addr m

unfoldable pub mem_write64 : ℕ → ℕ → Machine → Machine
mem_write64 addr val m = plain_write 8 addr val m

unfoldable pub is_aligned : ℕ → ℕ → Bool
is_aligned addr size = bit_and addr (size - 1) == 0
