-- ===== src/Float/Classes.antt =====
-- The classes of src/extension/f_extension.c and its tests for NaN: FCLASS tells a signaling NaN, a quiet
-- NaN and a number apart as the minimum, the maximum and the comparisons do.
use riscvemu.Base.{ℕ, ◌^◌, ◌≡◌, ◌↔◌, Bool, true, not, ◌&&◌, ◌==◌, nonzero, bit_and, ◌>>>◌, arith}
use riscvemu.Bits.{bit_and_field, bit_and-ones, bit_and-bit_and}
use riscvemu.Float.{
  classify, nan_by, signaling_by, fclass_s, fclass_d, fclass_h, is_nan_s, is_nan_d, is_nan_h,
  is_signaling_nan_s, is_signaling_nan_d, is_signaling_nan_h,
}

-- A class of NaN, from what the tests say.
abbrev pub Agrees : ℕ → Bool → Bool → Type 0
Agrees class nan signaling =
    ((class ≡ 2 ^ 8) ↔ (signaling ≡ true)) × ((class ≡ 2 ^ 9) ↔ ((nan && not signaling) ≡ true))

classify-Agrees :
    (sign : Bool) (exp exp_max x exp_mask frac quiet : ℕ)
    → ((exp == exp_max) ≡ (bit_and x exp_mask == exp_mask))
    → bit_and (bit_and x frac) quiet ≡ bit_and x quiet
    → Agrees
        (classify sign exp exp_max (bit_and x frac == 0) (nonzero (bit_and (bit_and x frac) quiet)))
        (nan_by exp_mask frac x)
        (signaling_by exp_mask frac quiet x)
classify-Agrees sign exp exp_max x exp_mask frac quiet e q = ground (arith, e, q)

-- For every word, in single, double and half precision, FCLASS gives 2 ^ 8 exactly when the test
-- for a signaling NaN holds, and 2 ^ 9 exactly when the test for a NaN holds and that for a
-- signaling one does not.
pub fclass-is_nan :
    (x : ℕ)
    → Agrees (fclass_s x) (is_nan_s x) (is_signaling_nan_s x)
      × Agrees (fclass_d x) (is_nan_d x) (is_signaling_nan_d x)
      × Agrees (fclass_h x) (is_nan_h x) (is_signaling_nan_h x)
unfolding fclass_s is_signaling_nan_s is_nan_s fclass_d is_signaling_nan_d is_nan_d fclass_h
    is_signaling_nan_h is_nan_h
fclass-is_nan x = (
  classify-Agrees (nonzero (bit_and (x >>> 31) 1)) (bit_and (x >>> 23) 0xFF) 0xFF x 0x7F800000
      0x7FFFFF 0x400000 (ground (arith, bit_and_field 23 8 x, bit_and-ones 8 (x >>> 23)))
      (bit_and-bit_and x 0x7FFFFF 0x400000),
  classify-Agrees (nonzero (bit_and (x >>> 63) 1)) (bit_and (x >>> 52) 0x7FF) 0x7FF x
      0x7FF0000000000000 0xFFFFFFFFFFFFF 0x8000000000000
      (ground (arith, bit_and_field 52 11 x, bit_and-ones 11 (x >>> 52)))
      (bit_and-bit_and x 0xFFFFFFFFFFFFF 0x8000000000000),
  classify-Agrees (nonzero (bit_and (x >>> 15) 1)) (bit_and (x >>> 10) 0x1F) 0x1F x 0x7C00 0x3FF
      0x200 (ground (arith, bit_and_field 10 5 x, bit_and-ones 5 (x >>> 10)))
      (bit_and-bit_and x 0x3FF 0x200),
)
