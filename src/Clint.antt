-- ===== src/Clint.antt =====
-- src/device/clint.c: the machine timer, two 64-bit registers read and written by bytes.
pub mod Timer
pub mod Registers
use riscvemu.Base.{
  ℕ, ◌+◌, ◌-◌, ◌*◌, ◌^◌, bit_and, bit_or, Bool, ◌&&◌, not, leb, ltb, ◌==◌, if◌then◌else◌, u8, u64,
  not64, ◌<<<◌, ◌>>>◌,
}

pub record Clint : Type 0 where
  pub mtime : ℕ
  pub mtimecmp : ℕ

abbrev pub clint_base : ℕ
clint_base = 0x02000000

abbrev pub clint_size : ℕ
clint_size = 0x00010000

abbrev pub clint_mtimecmp_hart0 : ℕ
clint_mtimecmp_hart0 = 0x02004000

abbrev pub clint_mtime_addr : ℕ
clint_mtime_addr = 0x0200BFF8

-- The int32_t -1 that a read of no register returns, as a bit pattern.
abbrev pub minus_one : ℕ
minus_one = 2 ^ 32 - 1

unfoldable pub clint_init : Clint
clint_init = record { mtime = 0; mtimecmp = 0 }

unfoldable pub clint_tick : Clint → Clint
clint_tick c = record c { mtime = u64 (c.mtime + 1) }

unfoldable pub clint_get_mtime : Clint → ℕ
clint_get_mtime c = c.mtime

-- mtimecmp = 0 switches the comparator off.
unfoldable pub clint_mtip_pending : Clint → Bool
clint_mtip_pending c = not (c.mtimecmp == 0) && leb c.mtimecmp c.mtime

-- `lo <= addr && addr < lo + n`
abbrev pub in_window : ℕ → ℕ → ℕ → Bool
in_window lo n addr = leb lo addr && ltb addr (lo + n)

-- One byte of `reg` replaced by `val`.
abbrev pub put_byte : ℕ → ℕ → ℕ → ℕ
put_byte reg byte val =
    bit_or (bit_and reg (not64 (0xFF <<< (byte * 8)))) (u64 (val <<< (byte * 8)))

unfoldable pub clint_store : ℕ → ℕ → Clint → Clint
clint_store addr val c =
    if in_window clint_mtimecmp_hart0 8 addr
    then record c { mtimecmp = put_byte c.mtimecmp (u8 (addr - clint_mtimecmp_hart0)) val }
    else c

unfoldable pub clint_read : ℕ → Clint → ℕ
clint_read addr c =
    if in_window clint_mtimecmp_hart0 8 addr
    then bit_and (c.mtimecmp >>> (u8 (addr - clint_mtimecmp_hart0) * 8)) 0xFF
    else if in_window clint_mtime_addr 8 addr
    then bit_and (c.mtime >>> (u8 (addr - clint_mtime_addr) * 8)) 0xFF
    else if in_window clint_base clint_size addr
    then 0
    else minus_one
