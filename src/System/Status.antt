-- ===== src/System/Status.antt =====
-- What a trap and its return do to mstatus, bit by bit.
use native.Mathlib.Nat.{pow-le-pow_right, two-pow-succ}
use riscvemu.Base.{
  suc, ℕ, ◌*◌, ◌/◌, ◌%◌, ◌^◌, ◌<◌, ◌≤◌, ◌≡◌, ◌∙◌, refl, ap, min, max, Bool, true, false, bit_and,
  bit_or, nonzero, not32, if◌then◌else◌, ◌==◌, arith, inl, inr, u32, ◌<<<◌,
}
use riscvemu.Csr.Status.{
  mstatus_read, sstatus_read, sstatus_write, sstatus_read_lem, sstatus_write_lem,
  sstatus_read-write, digit_cases, s_mask, writable_mask,
}
use riscvemu.Machine.{prv_supervisor, Machine}
use riscvemu.Bits.{
  bit, bit-bit_and, bit-bit_or, bit_and-two-pow, bit-two-pow, bit-complement, two_pow_pos,
}
use riscvemu.System.{machine_entry_status, supervisor_entry_status, assign_flag}
use riscvemu.Csr.Numbers.{mstatus_mie, mstatus_mpp_mask, mstatus_mpie}

-- The MPP field.
abbrev pub mpp : ℕ → ℕ
mpp w = w / 2 ^ 11 % 4

below : (k : ℕ) → k < 32 → 2 ^ k < 2 ^ 32
below k h =
    let p : 2 ^ suc k ≤ 2 ^ 32 = pow-le-pow_right (omega arith) h in
    omega (arith, p, two-pow-succ k, two_pow_pos k)

pub test_bit : (w k : ℕ) → (if nonzero (bit_and w (2 ^ k)) then 1 else 0) ≡ bit w k
test_bit w k = elim (digit_cases w k) [
  | inl e ↦
      let f : bit_and w (2 ^ k) ≡ 0 =
        omega (arith, bit_and-two-pow k w, ap (λ (t : ℕ). t * 2 ^ k) e) in
      ground (arith, f, e)
  | inr e ↦
      let f : bit_and w (2 ^ k) ≡ 2 ^ k =
        omega (arith, bit_and-two-pow k w, ap (λ (t : ℕ). t * 2 ^ k) e) in
      ground (arith, f, e, two_pow_pos k)
]

pub bit-clear :
    (w k j : ℕ)
    → k < 32
    → j < 32
    → bit (bit_and w (not32 (2 ^ k))) j ≡ (if j == k then 0 else bit w j)
bit-clear w k j h l = ground (
  arith,
  bit-bit_and j w (not32 (2 ^ k)),
  bit-complement 32 (2 ^ k) j (below k h) l,
  bit-two-pow k j,
)

pub bit-assign_flag :
    (b : Bool) (w k j : ℕ)
    → k < 32
    → j < 32
    → bit (assign_flag b (2 ^ k) w) j ≡ (if j == k then (if b then 1 else 0) else bit w j)
bit-assign_flag true w k j h l = ground (arith, bit-bit_or j w (2 ^ k), bit-two-pow k j)
bit-assign_flag false w k j h l = bit-clear w k j h l

-- The low bit of the previous privilege and of the field that holds it, and so of the high bit.
unfoldable pub IsEntry : ℕ → ℕ → ℕ → Type 0
IsEntry p v w = (bit w 3 ≡ 0) × (bit w 7 ≡ bit v 3) × (mpp w ≡ p)

pub machine_entry_status-IsEntry : (p v : ℕ) → p < 4 → IsEntry p v (machine_entry_status p v)
unfolding machine_entry_status IsEntry
machine_entry_status-IsEntry p v h =
    let x = bit_and v (not32 mstatus_mpp_mask) in
    let s = bit_or x (u32 (p <<< 11)) in
    let b = nonzero (bit_and s mstatus_mie) in
    let t = assign_flag b mstatus_mpie s in
    let w = machine_entry_status p v in
    let field : (j : ℕ)
        → bit s j ≡ max (min (bit v j) (bit (not32 mstatus_mpp_mask) j)) (bit (u32 (p <<< 11)) j) =
      λ j.
        bit-bit_or j x (u32 (p <<< 11))
        ∙ ap (λ (t : ℕ). max t (bit (u32 (p <<< 11)) j))
            (bit-bit_and j v (not32 mstatus_mpp_mask)) in
    let low : bit w 11 ≡ p % 2 =
      bit-clear t 3 11 (omega arith) (omega arith)
      ∙ bit-assign_flag b s 7 11 (omega arith) (omega arith)
      ∙ omega (arith, field 11) in
    let high : bit w 12 ≡ p / 2 =
      bit-clear t 3 12 (omega arith) (omega arith)
      ∙ bit-assign_flag b s 7 12 (omega arith) (omega arith)
      ∙ omega (arith, field 12) in
    (
      bit-clear t 3 3 (omega arith) (omega arith),
      bit-clear t 3 7 (omega arith) (omega arith)
          ∙ bit-assign_flag b s 7 7 (omega arith) (omega arith)
          ∙ test_bit s 3
          ∙ omega (arith, field 3),
      omega (arith, low, high),
    )

-- Writing the value to mstatus keeps those fields: they are among the writable ones.
pub writable-IsEntry : (p v w : ℕ) → IsEntry p v w → IsEntry p v (bit_and w writable_mask)
unfolding IsEntry
writable-IsEntry p v w (e, f, g) = (
  omega (arith, e, bit-bit_and 3 w writable_mask),
  omega (arith, f, bit-bit_and 7 w writable_mask),
  omega (arith, g, bit-bit_and 11 w writable_mask, bit-bit_and 12 w writable_mask),
)

-- The fields of mstatus after a trap into supervisor mode: `p` is the previous privilege and `v` the previous value.
unfoldable pub IsSupervisorEntry : ℕ → ℕ → ℕ → Type 0
IsSupervisorEntry p v w =
    (bit w 1 ≡ 0)
    × (bit w 5 ≡ bit v 1)
    × (bit w 8 ≡ (if p == prv_supervisor then 1 else 0))
    × (bit_and w (not32 s_mask) ≡ bit_and v (not32 s_mask))

-- The fields that the new sstatus has of the old one.
pub supervisor_entry_status_bits :
    (p v : ℕ)
    → let w = supervisor_entry_status p v in
      (bit w 1 ≡ 0) × (bit w 5 ≡ bit v 1) × (bit w 8 ≡ (if p == prv_supervisor then 1 else 0))
unfolding supervisor_entry_status
supervisor_entry_status_bits p v =
    let s = assign_flag (p == prv_supervisor) (2 ^ 8) v in
    let b = nonzero (bit_and s (2 ^ 1)) in
    let t = assign_flag b (2 ^ 5) s in
    let old = bit-assign_flag (p == prv_supervisor) v 8 in
    (
      bit-clear t 1 1 (omega arith) (omega arith),
      bit-clear t 1 5 (omega arith) (omega arith)
          ∙ bit-assign_flag b s 5 5 (omega arith) (omega arith)
          ∙ test_bit s 1
          ∙ old 1 (omega arith) (omega arith),
      bit-clear t 1 8 (omega arith) (omega arith)
          ∙ bit-assign_flag b s 5 8 (omega arith) (omega arith)
          ∙ old 8 (omega arith) (omega arith),
    )

-- What sstatus takes over of a value, and mstatus of what sstatus took.
pub s_field : (x j : ℕ) → bit s_mask j ≡ 1 → bit (bit_and x s_mask) j ≡ bit x j
s_field x j h = omega (arith, bit-bit_and j x s_mask)

pub written_field :
    (x v j : ℕ)
    → bit s_mask j ≡ 1
    → bit (not32 s_mask) j ≡ 0
    → bit (bit_or (bit_and v (not32 s_mask)) (bit_and x s_mask)) j ≡ bit x j
written_field x v j h l = omega (
  arith,
  bit-bit_or j (bit_and v (not32 s_mask)) (bit_and x s_mask),
  bit-bit_and j v (not32 s_mask),
  bit-bit_and j x s_mask,
)

pub sstatus_write-IsSupervisorEntry :
    (p : ℕ) (m : Machine)
    → IsSupervisorEntry p
        (mstatus_read m)
        (mstatus_read (sstatus_write (supervisor_entry_status p (sstatus_read m)) m))
unfolding IsSupervisorEntry
sstatus_write-IsSupervisorEntry p m =
    let v = mstatus_read m in
    let s = supervisor_entry_status p (sstatus_read m) in
    let (e, f, g) = supervisor_entry_status_bits p (sstatus_read m) in
    let old : bit (sstatus_read m) 1 ≡ bit v 1 =
      ap (λ (t : ℕ). bit t 1) (sstatus_read_lem m) ∙ s_field v 1 refl in
    let whole = sstatus_write_lem s m in
    (
      ap (λ (t : ℕ). bit t 1) whole ∙ written_field s v 1 refl refl ∙ e,
      ap (λ (t : ℕ). bit t 5) whole ∙ written_field s v 5 refl refl ∙ f ∙ old,
      ap (λ (t : ℕ). bit t 8) whole ∙ written_field s v 8 refl refl ∙ g,
      (sstatus_read-write s m).1,
    )
