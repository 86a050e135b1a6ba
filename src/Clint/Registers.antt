-- ===== src/Clint/Registers.antt =====
-- The byte access of clint.c to its 64-bit registers.
use mathlib.Core.Path.{ap₂}
use native.Mathlib.Nat.{mod-eq_of_lt}
use riscvemu.Base.{
  lt→ltb, le→leb, ℕ, zero, suc, ◌+◌, ◌-◌, ◌*◌, ◌/◌, ◌%◌, ◌^◌, ◌≤◌, ◌<◌, ◌≡◌, refl, ap, ◌∙◌, arith,
  u64, u8, not64, ◌<<<◌, ◌>>>◌, bit_and, bit_or,
}
use riscvemu.Bits.{bit_and_field, bit_and_clear, bit_or_insert, bit_and-ones}
use riscvemu.Clint.{Clint, clint_store, clint_read, clint_mtimecmp_hart0, put_byte}

-- Replacing the byte at a shift is arithmetic.
put_byte_shift :
    (s reg val : ℕ)
    → 0xFF <<< s < 2 ^ 64
    → reg < 2 ^ 64
    → val < 2 ^ 8
    → val <<< s < 2 ^ 64
    → (reg - reg / 2 ^ s % 2 ^ 8 * 2 ^ s) / 2 ^ s % 2 ^ 8 ≡ 0
    → bit_or (bit_and reg (not64 (0xFF <<< s))) (u64 (val <<< s))
      ≡ reg - reg / 2 ^ s % 2 ^ 8 * 2 ^ s + val * 2 ^ s
put_byte_shift s reg val mask h v fits clear =
    ap₂ bit_or
      (bit_and_clear 64 reg (0xFF <<< s) h mask ∙ ap (λ (t : ℕ). reg - t) (bit_and_field s 8 reg))
      (mod-eq_of_lt fits)
    ∙ bit_or_insert s 8 _ val v clear

-- `reg` agrees with `v` in its low `b` bytes.
abbrev Agrees : ℕ → ℕ → ℕ → Type 0
Agrees b reg v = (reg < 2 ^ 64) × (reg % 2 ^ (b * 8) ≡ v % 2 ^ (b * 8))

abbrev low_byte : ℕ → ℕ → ℕ
low_byte v b = u8 (v >>> (b * 8))

-- One more byte agrees after it is stored.
put_byte-Agrees :
    (b reg v : ℕ) → b < 8 → Agrees b reg v → Agrees (suc b) (put_byte reg b (low_byte v b)) v
put_byte-Agrees zero reg v l h = omega (arith, put_byte_shift 0 reg (low_byte v 0))
put_byte-Agrees (suc zero) reg v l h = omega (arith, put_byte_shift 8 reg (low_byte v 1))
put_byte-Agrees (suc (suc zero)) reg v l h = omega (arith, put_byte_shift 16 reg (low_byte v 2))
put_byte-Agrees (suc (suc (suc zero))) reg v l h =
    omega (arith, put_byte_shift 24 reg (low_byte v 3))
put_byte-Agrees (suc (suc (suc (suc zero)))) reg v l h =
    omega (arith, put_byte_shift 32 reg (low_byte v 4))
put_byte-Agrees (suc (suc (suc (suc (suc zero))))) reg v l h =
    omega (arith, put_byte_shift 40 reg (low_byte v 5))
put_byte-Agrees (suc (suc (suc (suc (suc (suc zero)))))) reg v l h =
    omega (arith, put_byte_shift 48 reg (low_byte v 6))
put_byte-Agrees (suc (suc (suc (suc (suc (suc (suc zero))))))) reg v l h =
    omega (arith, put_byte_shift 56 reg (low_byte v 7))
put_byte-Agrees (suc (suc (suc (suc (suc (suc (suc (suc b)))))))) reg v l h = absurd (omega arith)

-- A store in the window of mtimecmp replaces the byte that the address names, and nothing else.
pub clint_store-put_byte :
    (n val : ℕ) (c : Clint)
    → n < 8
    → clint_store (clint_mtimecmp_hart0 + n) val c
      ≡ record c { mtimecmp = put_byte c.mtimecmp n val }
unfolding clint_store
clint_store-put_byte n val c h =
    let e : u8 (clint_mtimecmp_hart0 + n - clint_mtimecmp_hart0) ≡ n = omega arith in
    rw
      (
        lt→ltb (clint_mtimecmp_hart0 + n) (clint_mtimecmp_hart0 + 8) (omega arith),
        le→leb clint_mtimecmp_hart0 (clint_mtimecmp_hart0 + n) (omega arith),
      )
      (rw e)

-- `for (int i = 0; i < n; i++) clint_store(addr + i, (uint8_t)(v >> (i * 8)))`, as mem.h does it.
abbrev pub store_bytes : ℕ → ℕ → ℕ → Clint → Clint
store_bytes zero addr v c = c
store_bytes (suc n) addr v c = clint_store (addr + n) (u8 (v >>> (n * 8))) (store_bytes n addr v c)

store_bytes-Agrees :
    (n v : ℕ) (c : Clint)
    → n ≤ 8
    → c.mtimecmp < 2 ^ 64
    → Agrees n (store_bytes n clint_mtimecmp_hart0 v c).mtimecmp v
      × ((store_bytes n clint_mtimecmp_hart0 v c).mtime ≡ c.mtime)
unfolding clint_store
store_bytes-Agrees zero v c h l = (omega arith, refl)
store_bytes-Agrees (suc n) v c h l =
    let r = (store_bytes n clint_mtimecmp_hart0 v c).mtimecmp in
    let (agree, same) = store_bytes-Agrees n v c (omega arith) l in
    rw (clint_store-put_byte n (low_byte v n) (store_bytes n clint_mtimecmp_hart0 v c) h)
      (put_byte-Agrees n r v h agree, same)

-- Storing the eight bytes of a 64-bit `v` in order leaves `v` in a 64-bit mtimecmp, whatever stood
-- there, and does not touch the counter.
pub store_bytes-mtimecmp :
    (v : ℕ) (c : Clint)
    → v < 2 ^ 64
    → c.mtimecmp < 2 ^ 64
    → store_bytes 8 clint_mtimecmp_hart0 v c ≡ record c { mtimecmp = v }
store_bytes-mtimecmp v c h l =
    let t = store_bytes-Agrees 8 v c (omega arith) l in
    let e : (store_bytes 8 clint_mtimecmp_hart0 v c).mtimecmp ≡ v = omega (arith, t.0.0, t.0.1) in
    λ i. record { mtime = t.1 i; mtimecmp = e i }

-- After the eight bytes of a 64-bit `v` were stored in a 64-bit mtimecmp, a read at offset `n`
-- below 8 returns byte `n` of `v`.
pub clint_read-store_bytes :
    (n v : ℕ) (c : Clint)
    → n < 8
    → v < 2 ^ 64
    → c.mtimecmp < 2 ^ 64
    → clint_read (clint_mtimecmp_hart0 + n) (store_bytes 8 clint_mtimecmp_hart0 v c)
      ≡ u8 (v >>> (n * 8))
unfolding clint_read
clint_read-store_bytes n v c h l m =
    let e : u8 (clint_mtimecmp_hart0 + n - clint_mtimecmp_hart0) ≡ n = omega arith in
    rw
      (
        store_bytes-mtimecmp v c l m,
        lt→ltb (clint_mtimecmp_hart0 + n) (clint_mtimecmp_hart0 + 8) (omega arith),
        le→leb clint_mtimecmp_hart0 (clint_mtimecmp_hart0 + n) (omega arith),
      )
      (rw e (bit_and-ones 8 (v >>> (n * 8))))
