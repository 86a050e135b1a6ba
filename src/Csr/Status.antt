-- ===== src/Csr/Status.antt =====
-- mstatus and its supervisor view sstatus (src/extension/system.c), and the stored values of the table.
use riscvemu.Base.{
  ℕ, ◌+◌, ◌*◌, ◌/◌, ◌%◌, ◌^◌, ◌≡◌, refl, ◌⊎◌, inl, inr, ap, sym, true, bit_and, bit_or, update,
  nonzero, if◌then◌else◌, not32, ◌<<<◌, ◌>>>◌, arith,
}
use native.Mathlib.Nat.{mul-div_left}
use riscvemu.Bits.{
  zero-bit_or, two_pow_pos, bit_and-ones, bit, bit_and-two-pow, bit_and-zero, bit_or-zero,
  bit_and_field, bit_or-bit_and, bit_and-bit_or, bit_and-bit_and, bit_or-bit_or,
}
use riscvemu.Machine.{Machine}
use riscvemu.Csr.Numbers.{
  csr_mstatus, mstatus_uie, mstatus_sie, mstatus_mie, mstatus_upie, mstatus_spie, mstatus_mpie,
  mstatus_spp, mstatus_mprv, mstatus_sum, mstatus_mxr, mstatus_tvm, mstatus_tw, mstatus_tsr,
  mstatus_mpp_mask, mstatus_fs_mask, mstatus_xs_mask,
}

-- `csr_table[csr].value = val`
abbrev pub set_value : ℕ → ℕ → Machine → Machine
set_value csr val m = record m { csr_value = update m.csr_value csr val }

-- The `writable_mask` of `mstatus_write`.
abbrev pub writable_mask : ℕ
writable_mask =
    mstatus_uie + mstatus_sie + mstatus_mie + mstatus_upie + mstatus_spie + mstatus_mpie
    + mstatus_spp + mstatus_mpp_mask + mstatus_fs_mask + mstatus_xs_mask + mstatus_mprv
    + mstatus_sum + mstatus_mxr + mstatus_tvm + mstatus_tw + mstatus_tsr

-- The `s_mask` of `sstatus_write`.
abbrev pub s_mask : ℕ
s_mask =
    mstatus_uie + mstatus_sie + mstatus_upie + mstatus_spie + mstatus_spp + mstatus_fs_mask
    + mstatus_xs_mask + mstatus_sum + mstatus_mxr

unfoldable pub mstatus_read : Machine → ℕ
mstatus_read m = m.csr_value csr_mstatus

unfoldable pub mstatus_write : ℕ → Machine → Machine
mstatus_write val m = set_value csr_mstatus (bit_and val writable_mask) m

unfoldable pub sstatus_read : Machine → ℕ
sstatus_read m =
    let v = m.csr_value csr_mstatus in
    bit_or
      (bit_or
        (bit_or
          (bit_or
            (bit_or
              (bit_or
                (bit_or
                  (bit_or (if nonzero (bit_and v mstatus_uie) then 1 else 0)
                    (if nonzero (bit_and v mstatus_sie) then 2 else 0))
                  (if nonzero (bit_and v mstatus_upie) then 16 else 0))
                (if nonzero (bit_and v mstatus_spie) then 32 else 0))
              (if nonzero (bit_and v mstatus_spp) then 256 else 0))
            ((bit_and v mstatus_fs_mask >>> 13) <<< 13))
          ((bit_and v mstatus_xs_mask >>> 15) <<< 15))
        (if nonzero (bit_and v mstatus_sum) then 2 ^ 18 else 0))
      (if nonzero (bit_and v mstatus_mxr) then 2 ^ 19 else 0)

-- `if (val & 2^k) m |= flag;`
abbrev or_if : ℕ → ℕ → ℕ → ℕ → ℕ
or_if val test flag m = if nonzero (bit_and val test) then bit_or m flag else m

unfoldable pub sstatus_write : ℕ → Machine → Machine
sstatus_write val m =
    let v = bit_and (m.csr_value csr_mstatus) (not32 s_mask) in
    let v = or_if val 1 mstatus_uie v in
    let v = or_if val 2 mstatus_sie v in
    let v = or_if val 16 mstatus_upie v in
    let v = or_if val 32 mstatus_spie v in
    let v = or_if val 256 mstatus_spp v in
    let v = bit_or v (bit_and (val >>> 13) 3 <<< 13) in
    let v = bit_or v (bit_and (val >>> 15) 3 <<< 15) in
    let v = or_if val (2 ^ 18) mstatus_sum v in
    let v = or_if val (2 ^ 19) mstatus_mxr v in set_value csr_mstatus v m

pub digit_cases : (v k : ℕ) → (bit v k ≡ 0) ⊎ (bit v k ≡ 1)
digit_cases v k = ground arith

flag_if : (k v : ℕ) → (if nonzero (bit_and v (2 ^ k)) then 2 ^ k else 0) ≡ bit_and v (2 ^ k)
flag_if k v = elim (digit_cases v k) [
  | inl e ↦
      let f : bit_and v (2 ^ k) ≡ 0 =
        omega (arith, bit_and-two-pow k v, ap (λ (t : ℕ). t * 2 ^ k) e) in
      ground (arith, f)
  | inr e ↦
      let f : bit_and v (2 ^ k) ≡ 2 ^ k =
        omega (arith, bit_and-two-pow k v, ap (λ (t : ℕ). t * 2 ^ k) e) in
      ground (arith, f, two_pow_pos k)
]

or_flag_if : (k v m : ℕ) → or_if v (2 ^ k) (2 ^ k) m ≡ bit_or m (bit_and v (2 ^ k))
or_flag_if k v m = elim (digit_cases v k) [
  | inl e ↦
      let f : bit_and v (2 ^ k) ≡ 0 =
        omega (arith, bit_and-two-pow k v, ap (λ (t : ℕ). t * 2 ^ k) e) in
      rw f (sym (bit_or-zero m))
  | inr e ↦
      let f : bit_and v (2 ^ k) ≡ 2 ^ k =
        omega (arith, bit_and-two-pow k v, ap (λ (t : ℕ). t * 2 ^ k) e) in
      let t : nonzero (2 ^ k) ≡ true = ground (arith, two_pow_pos k) in rw (f, t) refl
]

field_shift : (k v : ℕ) → (bit_and v (3 * 2 ^ k) >>> k) <<< k ≡ bit_and v (3 * 2 ^ k)
field_shift k v =
    let e = bit_and_field k 2 v in
    rw e (ap (λ (t : ℕ). t * 2 ^ k) (mul-div_left (v / 2 ^ k % 4) (two_pow_pos k)))

field_insert : (k v : ℕ) → bit_and (v >>> k) 3 <<< k ≡ bit_and v (3 * 2 ^ k)
field_insert k v = rw (bit_and_field k 2 v) (ap (λ (t : ℕ). t * 2 ^ k) (bit_and-ones 2 (v / 2 ^ k)))

-- sstatus is mstatus behind the mask of the supervisor's fields.
pub sstatus_read_lem : (m : Machine) → sstatus_read m ≡ bit_and (mstatus_read m) s_mask
unfolding sstatus_read mstatus_read
sstatus_read_lem m =
    let v = m.csr_value csr_mstatus in
    simp
      (
        flag_if 0 v,
        flag_if 1 v,
        flag_if 4 v,
        flag_if 5 v,
        flag_if 8 v,
        field_shift 13 v,
        field_shift 15 v,
        flag_if 18 v,
        flag_if 19 v,
        bit_or-bit_and,
      )
      refl

-- A write replaces the supervisor's fields and no other.
pub sstatus_write_lem :
    (val : ℕ) (m : Machine)
    → mstatus_read (sstatus_write val m)
      ≡ bit_or (bit_and (mstatus_read m) (not32 s_mask)) (bit_and val s_mask)
unfolding sstatus_write mstatus_read
sstatus_write_lem val m =
    rw
      (
        or_flag_if 0 val,
        or_flag_if 1 val,
        or_flag_if 4 val,
        or_flag_if 5 val,
        or_flag_if 8 val,
        field_insert 13 val,
        field_insert 15 val,
        or_flag_if 18 val,
        or_flag_if 19 val,
      )
      (simp (bit_or-bit_or, bit_or-bit_and) refl)

-- Writing sstatus and reading it back gives the supervisor's fields of the value and 0 elsewhere,
-- and the fields of mstatus outside the supervisor's mask stay as they were.
pub sstatus_read-write :
    (val : ℕ) (m : Machine)
    → (sstatus_read (sstatus_write val m) ≡ bit_and val s_mask)
      × (bit_and (mstatus_read (sstatus_write val m)) (not32 s_mask)
          ≡ bit_and (mstatus_read m) (not32 s_mask))
sstatus_read-write val m = (
  rw (sstatus_read_lem (sstatus_write val m), sstatus_write_lem val m, bit_and-bit_or)
      (simp (bit_and-bit_and, bit_and-zero, zero-bit_or) refl),
  rw (sstatus_write_lem val m, bit_and-bit_or)
      (simp (bit_and-bit_and, bit_and-zero, bit_or-zero) refl),
)
