-- ===== src/Jump/Target.antt =====
-- Where a taken branch and a jump go, and what sign extension computes.
use native.Mathlib.Nat.{div-eq_of_lt, zero-mod, zero-mul}
use riscvemu.Base.{
  not, ltb, ℕ, ◌+◌, ◌-◌, ◌*◌, ◌/◌, ◌%◌, ◌^◌, ◌<◌, ◌≡◌, ◌≢◌, ◌∙◌, ap, ◌==◌, ◌>>>◌, Bool, true,
  nonzero, if◌then◌else◌, bit_and, bit_or, u32, arith,
}
use riscvemu.Bits.{bit, bit_and-ones, nonzero-bit, bit_or_sum, bit_and_field}
use riscvemu.Machine.{Machine}
use riscvemu.Csr.Numbers.{csr_misa}
use riscvemu.System.Trap.{IsTrap, raise_exception_pc-IsTrap}
use riscvemu.System.{misa_c_enabled, raise_if_misaligned_fetch}
use riscvemu.Jump.{branch, sign_extend_12, sign_extend_13, sign_extend_21}

-- Whether instructions may start at an address.
unfoldable pub is_fetchable : ℕ → Machine → Bool
is_fetchable target m = not (nonzero (bit_and target (if nonzero (misa_c_enabled m) then 1 else 3)))

-- A taken branch to an address that instructions may start at makes it the next fetch and changes
-- no register.
pub branch-fetchable :
    (imm : ℕ) (m : Machine)
    → is_fetchable (u32 (m.pc + imm)) m ≡ true
    → (u32 ((branch true imm m).pc + 4) ≡ u32 (m.pc + imm)) × ((branch true imm m).gpr ≡ m.gpr)
unfolding branch raise_if_misaligned_fetch is_fetchable
branch-fetchable imm m h = ground (arith, h)

-- A taken branch, from a privilege below 4, to an address that is not a multiple of 2 with the C
-- extension on in misa, or of 4 with it off, traps with cause 0 and the target as the trap value,
-- from the branch itself, in supervisor mode when it comes from user or supervisor mode and bit 0
-- of medeleg is set, and in machine mode otherwise.
pub branch-unfetchable :
    (imm : ℕ) (m : Machine)
    → m.privilege < 4
    → let target = u32 (m.pc + imm) in
      target % (if bit (m.csr_value csr_misa) 2 == 1 then 2 else 4) ≢ 0
      → IsTrap 0 target m.pc m (branch true imm m)
unfolding branch raise_if_misaligned_fetch misa_c_enabled
branch-unfetchable imm m h odd =
    let target = u32 (m.pc + imm) in
    let trap = raise_exception_pc-IsTrap 0 target m.pc m h in
    let two = bit_and-ones 1 target in
    let four = bit_and-ones 2 target in
    let misa = bit_and-ones 1 (m.csr_value csr_misa >>> 2) in
    ground (arith, trap, two, four, misa, odd)

-- The mask that extends a field of `s` bits to 32.
or_mask : (s w imm : ℕ) → imm < 2 ^ s → bit_or imm ((2 ^ w - 1) * 2 ^ s) ≡ imm + (2 ^ w - 1) * 2 ^ s
or_mask s w imm h =
    let z : imm / 2 ^ s % 2 ^ w ≡ 0 =
      ap (λ (t : ℕ). t % 2 ^ w) (div-eq_of_lt h) ∙ zero-mod (2 ^ w) in
    omega (
      arith,
      bit_or_sum imm ((2 ^ w - 1) * 2 ^ s),
      bit_and_field s w imm,
      ap (λ (t : ℕ). t * 2 ^ s) z,
      zero-mul (2 ^ s),
    )

-- Sign extension of fields of 12, 13 and 21 bits: a field whose highest bit is set becomes the word
-- of its value less the field's size, and any other stays.
pub sign_extend-value :
    (a b c : ℕ)
    → a < 2 ^ 12
    → b < 2 ^ 13
    → c < 2 ^ 21
    → (sign_extend_12 a ≡ (if ltb a (2 ^ 11) then a else a + (2 ^ 32 - 2 ^ 12)))
      × (sign_extend_13 b ≡ (if ltb b (2 ^ 12) then b else b + (2 ^ 32 - 2 ^ 13)))
      × (sign_extend_21 c ≡ (if ltb c (2 ^ 20) then c else c + (2 ^ 32 - 2 ^ 21)))
unfolding sign_extend_12 sign_extend_13 sign_extend_21
sign_extend-value a b c h l k = (
  ground (arith, nonzero-bit a 11, or_mask 12 20 a h),
  ground (arith, nonzero-bit b 12, or_mask 13 19 b l),
  ground (arith, nonzero-bit c 20, or_mask 21 11 c k),
)
