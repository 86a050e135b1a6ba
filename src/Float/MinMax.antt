-- ===== src/Float/MinMax.antt =====
-- Minimum, maximum and comparisons of src/extension/f_extension.c over those of the float library.
use riscvemu.Base.{
  ℕ, Bool, false, not, ◌&&◌, ◌||◌, ◌==◌, nonzero, if◌then◌else◌, bit_and, bit_or, ◌>>>◌,
}
use riscvemu.Machine.{Machine, reg_write}
use riscvemu.LoadStore.{
  fpr_read_s, fpr_read_d, fpr_read_h, fpr_read_q, fpr_write_s, fpr_write_d, fpr_write_h,
  fpr_write_q,
}
use riscvemu.Float.{
  canonical_nan_s, canonical_nan_d, canonical_nan_h, canonical_nan_q, is_nan_s, is_nan_d, is_nan_h,
  is_nan_q, is_signaling_nan_s, is_signaling_nan_d, is_signaling_nan_h, is_signaling_nan_q,
}

-- The library's `eq`, `lt` and `le` on one format.
pub record Comparisons {ℓ} (A : Type ℓ) : Type ℓ where
  pub eq : A → A → Bool
  pub lt : A → A → Bool
  pub le : A → A → Bool

-- A format as the functions below see it: its tests for NaN, the sign and the canonical NaN.
pub record Format {ℓ} (A : Type ℓ) : Type ℓ where
  pub is_nan : A → Bool
  pub is_signaling : A → Bool
  pub negative : A → Bool
  pub canonical : A

abbrev pub single : Format ℕ
single = record {
  is_nan = is_nan_s;
  is_signaling = is_signaling_nan_s;
  negative = λ a. nonzero (bit_and (a >>> 31) 1);
  canonical = canonical_nan_s;
}

abbrev pub double : Format ℕ
double = record {
  is_nan = is_nan_d;
  is_signaling = is_signaling_nan_d;
  negative = λ a. nonzero (bit_and (a >>> 63) 1);
  canonical = canonical_nan_d;
}

abbrev pub half : Format ℕ
half = record {
  is_nan = is_nan_h;
  is_signaling = is_signaling_nan_h;
  negative = λ a. nonzero (bit_and (a >>> 15) 1);
  canonical = canonical_nan_h;
}

abbrev pub quad : Format (ℕ × ℕ)
quad = record {
  is_nan = is_nan_q;
  is_signaling = is_signaling_nan_q;
  negative = λ a. nonzero (bit_and (a.1 >>> 63) 1);
  canonical = canonical_nan_q;
}

-- `fcsr |= NV;` under a condition.
abbrev pub invalid_if : Bool → Machine → Machine
invalid_if bad m = record m { fcsr = if bad then bit_or m.fcsr 0b10000 else m.fcsr }

module _ {ℓ} {A : Type ℓ} (f : Format A) (c : Comparisons A) where
  -- What the minimum and the maximum share; `less` is the smaller of two numbers or the other one.
  abbrev pub select : (A → A → A) → A → A → Machine → A × Machine
  select less a b m =
      let a_snan = f.is_signaling a in
      let b_snan = f.is_signaling b in
      let a_qnan = f.is_nan a && not a_snan in
      let b_qnan = f.is_nan b && not b_snan in
      (
        if (a_snan || a_qnan) && (b_snan || b_qnan)
            then f.canonical
            else if a_snan || a_qnan
            then b
            else if b_snan || b_qnan
            then a
            else less a b,
        invalid_if (a_snan || b_snan) m,
      )

  abbrev pub rv_fmin : A → A → Machine → A × Machine
  rv_fmin a b m =
      select (λ x y. if c.eq x y then if f.negative x then x else y else if c.lt x y then x else y)
        a b m

  abbrev pub rv_fmax : A → A → Machine → A × Machine
  rv_fmax a b m =
      select (λ x y. if c.eq x y then if f.negative x then y else x else if c.lt x y then y else x)
        a b m

  -- The result of a comparison by its `op`: 2 is equality, 1 less, 0 less or equal.
  abbrev pub compare_by : ℕ → A → A → Bool
  compare_by op a b =
      if op == 2
      then c.eq a b
      else if op == 1
      then c.lt a b
      else if op == 0
      then c.le a b
      else false

  abbrev pub fcmp : ℕ → A → A → ℕ → Machine → Machine
  fcmp op a b rd m =
      let unordered = f.is_nan a || f.is_nan b in
      let bad = if op == 2 then f.is_signaling a || f.is_signaling b else (op == 0) || (op == 1) in
      reg_write rd (if not unordered && compare_by op a b then 1 else 0)
        (invalid_if (unordered && bad) m)

-- The instructions, over the comparisons of the float library.
module _ (f32 f64 f16 : Comparisons ℕ) (f128 : Comparisons (ℕ × ℕ)) where
  unfoldable pub rv_fmin_s : ℕ → ℕ → Machine → ℕ × Machine
  rv_fmin_s a b m = rv_fmin single f32 a b m

  unfoldable pub rv_fmax_s : ℕ → ℕ → Machine → ℕ × Machine
  rv_fmax_s a b m = rv_fmax single f32 a b m

  unfoldable pub rv_fmin_d : ℕ → ℕ → Machine → ℕ × Machine
  rv_fmin_d a b m = rv_fmin double f64 a b m

  unfoldable pub rv_fmax_d : ℕ → ℕ → Machine → ℕ × Machine
  rv_fmax_d a b m = rv_fmax double f64 a b m

  unfoldable pub rv_fmin_h : ℕ → ℕ → Machine → ℕ × Machine
  rv_fmin_h a b m = rv_fmin half f16 a b m

  unfoldable pub rv_fmax_h : ℕ → ℕ → Machine → ℕ × Machine
  rv_fmax_h a b m = rv_fmax half f16 a b m

  unfoldable pub rv_fmin_q : ℕ × ℕ → ℕ × ℕ → Machine → (ℕ × ℕ) × Machine
  rv_fmin_q a b m = rv_fmin quad f128 a b m

  unfoldable pub rv_fmax_q : ℕ × ℕ → ℕ × ℕ → Machine → (ℕ × ℕ) × Machine
  rv_fmax_q a b m = rv_fmax quad f128 a b m

  unfoldable pub s_fmin : ℕ → ℕ → ℕ → Machine → Machine
  s_fmin rs2 rs1 rd m =
      let (r, n) = rv_fmin_s (fpr_read_s rs1 m) (fpr_read_s rs2 m) m in fpr_write_s rd r n

  unfoldable pub s_fmax : ℕ → ℕ → ℕ → Machine → Machine
  s_fmax rs2 rs1 rd m =
      let (r, n) = rv_fmax_s (fpr_read_s rs1 m) (fpr_read_s rs2 m) m in fpr_write_s rd r n

  unfoldable pub h_fmin : ℕ → ℕ → ℕ → Machine → Machine
  h_fmin rs2 rs1 rd m =
      let (r, n) = rv_fmin_h (fpr_read_h rs1 m) (fpr_read_h rs2 m) m in fpr_write_h rd r n

  unfoldable pub h_fmax : ℕ → ℕ → ℕ → Machine → Machine
  h_fmax rs2 rs1 rd m =
      let (r, n) = rv_fmax_h (fpr_read_h rs1 m) (fpr_read_h rs2 m) m in fpr_write_h rd r n

  unfoldable pub d_fmin : ℕ → ℕ → ℕ → Machine → Machine
  d_fmin rs2 rs1 rd m =
      let (r, n) = rv_fmin_d (fpr_read_d rs1 m) (fpr_read_d rs2 m) m in fpr_write_d rd r n

  unfoldable pub d_fmax : ℕ → ℕ → ℕ → Machine → Machine
  d_fmax rs2 rs1 rd m =
      let (r, n) = rv_fmax_d (fpr_read_d rs1 m) (fpr_read_d rs2 m) m in fpr_write_d rd r n

  unfoldable pub q_fmin : ℕ → ℕ → ℕ → Machine → Machine
  q_fmin rs2 rs1 rd m =
      let (r, n) = rv_fmin_q (fpr_read_q rs1 m) (fpr_read_q rs2 m) m in fpr_write_q rd r n

  unfoldable pub q_fmax : ℕ → ℕ → ℕ → Machine → Machine
  q_fmax rs2 rs1 rd m =
      let (r, n) = rv_fmax_q (fpr_read_q rs1 m) (fpr_read_q rs2 m) m in fpr_write_q rd r n

  unfoldable pub s_fcmp : ℕ → ℕ → ℕ → ℕ → Machine → Machine
  s_fcmp op rs2 rs1 rd m = fcmp single f32 op (fpr_read_s rs1 m) (fpr_read_s rs2 m) rd m

  unfoldable pub h_fcmp : ℕ → ℕ → ℕ → ℕ → Machine → Machine
  h_fcmp op rs2 rs1 rd m = fcmp half f16 op (fpr_read_h rs1 m) (fpr_read_h rs2 m) rd m

  unfoldable pub d_fcmp : ℕ → ℕ → ℕ → ℕ → Machine → Machine
  d_fcmp op rs2 rs1 rd m = fcmp double f64 op (fpr_read_d rs1 m) (fpr_read_d rs2 m) rd m

  unfoldable pub q_fcmp : ℕ → ℕ → ℕ → ℕ → Machine → Machine
  q_fcmp op rs2 rs1 rd m = fcmp quad f128 op (fpr_read_q rs1 m) (fpr_read_q rs2 m) rd m
