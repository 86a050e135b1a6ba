-- ===== src/Fcsr/Fields.antt =====
-- The two fields of the floating-point status register.
use riscvemu.Base.{
  false, ℕ, ◌+◌, ◌-◌, ◌*◌, ◌/◌, ◌%◌, ◌^◌, ◌≤◌, ◌<◌, ◌≡◌, ◌∙◌, ap, bit_and, ltb, not32, u32, ◌<<<◌,
  arith,
}
use riscvemu.Bits.{bit_and-ones, bit_and_field, bit_and_clear, bit_or_fields, bit_or_insert}
use riscvemu.Fcsr.{get_fflags, get_frm, set_fflags, set_frm}

-- The value after each of the two writes, as a sum of fields.
set_fflags_lem :
    (flags fcsr : ℕ) → fcsr < 2 ^ 32 → set_fflags flags fcsr ≡ fcsr / 32 * 32 + flags % 32
unfolding set_fflags
set_fflags_lem flags fcsr h =
    let rest = bit_and fcsr (not32 0b11111) in
    let cleared : rest ≡ fcsr / 32 * 32 =
      omega (arith, bit_and_clear 32 fcsr 0b11111 h (omega arith), bit_and-ones 5 fcsr) in
    let low = bit_and-ones 5 flags in
    rw (cleared, low) (bit_or_fields 5 (fcsr / 32) (flags % 32) (omega arith))

set_frm_lem :
    (frm fcsr : ℕ)
    → fcsr < 2 ^ 32
    → frm ≤ 4
    → set_frm frm fcsr ≡ fcsr / 256 * 256 + frm * 32 + fcsr % 32
unfolding set_frm
set_frm_lem frm fcsr h l =
    let rest = bit_and fcsr (not32 0b11100000) in
    let cleared : rest ≡ fcsr - fcsr / 32 % 8 * 32 =
      bit_and_clear 32 fcsr 0b11100000 h (omega arith)
      ∙ ap (λ (t : ℕ). fcsr - t) (bit_and_field 5 3 fcsr) in
    let small : u32 (frm <<< 5) ≡ frm * 2 ^ 5 = omega arith in
    let kept : ltb 4 frm ≡ false = ground arith in
    rw (kept, cleared, small)
      (bit_or_insert 5 3 (fcsr - fcsr / 32 % 8 * 32) frm (omega arith) (omega arith) ∙ omega arith)

-- On a 32-bit register, a write of the flags changes the flags alone, to the low five bits written,
-- and a write of a rounding mode up to 4 changes the rounding mode alone.
pub fcsr_fields :
    (flags frm fcsr : ℕ)
    → fcsr < 2 ^ 32
    → frm ≤ 4
    → (get_fflags (set_fflags flags fcsr) ≡ flags % 32)
      × (get_frm (set_fflags flags fcsr) ≡ get_frm fcsr)
      × (get_frm (set_frm frm fcsr) ≡ frm)
      × (get_fflags (set_frm frm fcsr) ≡ get_fflags fcsr)
unfolding get_fflags get_frm
fcsr_fields flags frm fcsr h l =
    let e = set_fflags_lem flags fcsr h in
    let f = set_frm_lem frm fcsr h l in
    let w = set_fflags flags fcsr in
    let v = set_frm frm fcsr in
    (
      omega (arith, e, bit_and-ones 5 w),
      omega (arith, e, bit_and-ones 3 (w / 32), bit_and-ones 3 (fcsr / 32)),
      omega (arith, f, bit_and-ones 3 (v / 32)),
      omega (arith, f, bit_and-ones 5 v, bit_and-ones 5 fcsr),
    )
