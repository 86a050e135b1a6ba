-- ===== src/Float.antt =====
-- The NaNs and the classes of numbers of src/extension/f_extension.c, in its four formats. A
-- quadruple is its low and its high word.
pub mod MinMax
pub mod Sign
pub mod Classes
pub mod Arith
pub mod Convert
pub mod Formats
pub mod Ops
use riscvemu.Base.{
  ℕ, ◌-◌, ◌*◌, ◌/◌, ◌^◌, Bool, true, false, not, ◌&&◌, ◌||◌, ◌==◌, nonzero, if◌then◌else◌, bit_and,
  ◌>>>◌,
}

abbrev pub canonical_nan_h : ℕ
canonical_nan_h = 0x7E00

abbrev pub canonical_nan_s : ℕ
canonical_nan_s = 0x7FC00000

abbrev pub canonical_nan_d : ℕ
canonical_nan_d = 0x7FF8000000000000

abbrev pub canonical_nan_q : ℕ × ℕ
canonical_nan_q = (0x0000000000000000, 0x7FFF800000000000)

-- The tests by the masks of the exponent, of the fraction and of the quiet bit.
abbrev pub nan_by : ℕ → ℕ → ℕ → Bool
nan_by exp frac x = (bit_and x exp == exp) && nonzero (bit_and x frac)

abbrev pub signaling_by : ℕ → ℕ → ℕ → ℕ → Bool
signaling_by exp frac quiet x = nan_by exp frac x && not (nonzero (bit_and x quiet))

unfoldable pub is_nan_s : ℕ → Bool
is_nan_s x = nan_by 0x7F800000 0x007FFFFF x

unfoldable pub is_signaling_nan_s : ℕ → Bool
is_signaling_nan_s x = signaling_by 0x7F800000 0x007FFFFF 0x00400000 x

unfoldable pub is_nan_d : ℕ → Bool
is_nan_d x = nan_by 0x7FF0000000000000 0x000FFFFFFFFFFFFF x

unfoldable pub is_signaling_nan_d : ℕ → Bool
is_signaling_nan_d x = signaling_by 0x7FF0000000000000 0x000FFFFFFFFFFFFF 0x0008000000000000 x

unfoldable pub is_nan_h : ℕ → Bool
is_nan_h x = nan_by 0x7C00 0x03FF x

unfoldable pub is_signaling_nan_h : ℕ → Bool
is_signaling_nan_h x = signaling_by 0x7C00 0x03FF 0x0200 x

unfoldable pub is_nan_q : ℕ × ℕ → Bool
is_nan_q (lo, hi) =
    (bit_and (hi >>> 48) 0x7FFF == 0x7FFF)
    && (nonzero (bit_and hi 0x0000FFFFFFFFFFFF) || nonzero lo)

unfoldable pub is_signaling_nan_q : ℕ × ℕ → Bool
is_signaling_nan_q (lo, hi) =
    let mant_hi = bit_and hi 0x0000FFFFFFFFFFFF in
    (bit_and (hi >>> 48) 0x7FFF == 0x7FFF)
    && not ((mant_hi == 0) && (lo == 0))
    && not (nonzero (bit_and mant_hi (2 ^ 47)))

-- The class by the sign, the exponent, whether the fraction is 0 and whether it is quiet.
abbrev pub classify : Bool → ℕ → ℕ → Bool → Bool → ℕ
classify sign exp exp_max no_mant quiet =
    if exp == exp_max
    then if no_mant then if sign then 2 ^ 0 else 2 ^ 7 else if quiet then 2 ^ 9 else 2 ^ 8
    else if exp == 0
    then if no_mant then if sign then 2 ^ 3 else 2 ^ 4 else if sign then 2 ^ 2 else 2 ^ 5
    else if sign
    then 2 ^ 1
    else 2 ^ 6

unfoldable pub fclass_s : ℕ → ℕ
fclass_s x =
    let mant = bit_and x 0x7FFFFF in
    classify (nonzero (bit_and (x >>> 31) 1)) (bit_and (x >>> 23) 0xFF) 0xFF (mant == 0)
      (nonzero (bit_and mant 0x400000))

unfoldable pub fclass_d : ℕ → ℕ
fclass_d x =
    let mant = bit_and x 0xFFFFFFFFFFFFF in
    classify (nonzero (bit_and (x >>> 63) 1)) (bit_and (x >>> 52) 0x7FF) 0x7FF (mant == 0)
      (nonzero (bit_and mant 0x8000000000000))

unfoldable pub fclass_h : ℕ → ℕ
fclass_h x =
    let mant = bit_and x 0x3FF in
    classify (nonzero (bit_and (x >>> 15) 1)) (bit_and (x >>> 10) 0x1F) 0x1F (mant == 0)
      (nonzero (bit_and mant 0x200))

unfoldable pub fclass_q : ℕ × ℕ → ℕ
fclass_q (lo, hi) =
    let mhi = bit_and hi 0x0000FFFFFFFFFFFF in
    classify (nonzero (bit_and (hi >>> 63) 1)) (bit_and (hi >>> 48) 0x7FFF) 0x7FFF
      ((mhi == 0) && (lo == 0)) (nonzero (bit_and mhi (2 ^ 47)))

unfoldable pub normalize_nan_s : ℕ → ℕ
normalize_nan_s x = if is_nan_s x then canonical_nan_s else x

unfoldable pub normalize_nan_d : ℕ → ℕ
normalize_nan_d x = if is_nan_d x then canonical_nan_d else x

unfoldable pub normalize_nan_h : ℕ → ℕ
normalize_nan_h x = if is_nan_h x then canonical_nan_h else x

unfoldable pub normalize_nan_q : ℕ × ℕ → ℕ × ℕ
normalize_nan_q x = if is_nan_q x then canonical_nan_q else x
