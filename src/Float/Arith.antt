-- ===== src/Float/Arith.antt =====
-- The arithmetic instructions of src/extension/f_extension.c over the operations of the float library,
-- which take a rounding mode and give a result with the flags they raise.
use riscvemu.Base.{ℕ, ◌==◌, nonzero, if◌then◌else◌, bit_and, bit_or, bit_xor, ◌>>>◌}
use riscvemu.Outcome.{Outcome, running, fatal}
use riscvemu.Machine.{Machine}
use riscvemu.LoadStore.{
  fpr_read_s, fpr_read_d, fpr_read_h, fpr_read_q, fpr_write_s, fpr_write_d, fpr_write_h,
  fpr_write_q,
}
use riscvemu.Float.{normalize_nan_s, normalize_nan_d, normalize_nan_h, normalize_nan_q}

-- `softfloat_round_near_even` and the others.
pub data Rounding : Type 0 where
  near_even min_mag round_min round_max near_max_mag : Rounding

unfoldable pub get_rm : ℕ → Machine → ℕ
get_rm rm m = if rm == 0b111 then bit_and (m.fcsr >>> 5) 0b111 else rm

unfoldable pub sf_rm : ℕ → Machine → Rounding
sf_rm rm m =
    let mode = get_rm rm m in
    if mode == 0b000
    then near_even
    else if mode == 0b001
    then min_mag
    else if mode == 0b010
    then round_min
    else if mode == 0b011
    then round_max
    else if mode == 0b100
    then near_max_mag
    else near_even

-- The library's operations on one format, with the exceptions flags that each raises.
pub record Arithmetic {ℓ} (A : Type ℓ) : Type ℓ where
  pub add : Rounding → A → A → A × ℕ
  pub sub : Rounding → A → A → A × ℕ
  pub mul : Rounding → A → A → A × ℕ
  pub div : Rounding → A → A → A × ℕ
  pub sqrt : Rounding → A → A × ℕ
  pub mul_add : Rounding → A → A → A → A × ℕ

-- How the registers hold a format: reading, writing, the canonical form of a NaN and the change of sign.
pub record Lane {ℓ} (A : Type ℓ) : Type ℓ where
  pub read : ℕ → Machine → A
  pub write : ℕ → A → Machine → Machine
  pub normalize : A → A
  pub negate : A → A

abbrev pub single_lane : Lane ℕ
single_lane = record {
  read = fpr_read_s;
  write = fpr_write_s;
  normalize = normalize_nan_s;
  negate = λ a. bit_xor a 0x80000000;
}

abbrev pub double_lane : Lane ℕ
double_lane = record {
  read = fpr_read_d;
  write = fpr_write_d;
  normalize = normalize_nan_d;
  negate = λ a. bit_xor a 0x8000000000000000;
}

abbrev pub half_lane : Lane ℕ
half_lane = record {
  read = fpr_read_h;
  write = fpr_write_h;
  normalize = normalize_nan_h;
  negate = λ a. bit_xor a 0x8000;
}

abbrev pub quad_lane : Lane (ℕ × ℕ)
quad_lane = record {
  read = fpr_read_q;
  write = fpr_write_q;
  normalize = normalize_nan_q;
  negate = λ a. (a.0, bit_xor a.1 0x8000000000000000);
}

module _ {ℓ} {A : Type ℓ} (lane : Lane A) where
  -- `sf_end()`, and the result without its payload when it is a NaN.
  abbrev pub store_result : ℕ → A × ℕ → Machine → Machine
  store_result rd (r, flags) m =
      lane.write rd (lane.normalize r) (record m { fcsr = bit_or m.fcsr flags })

  abbrev pub binary : (Rounding → A → A → A × ℕ) → ℕ → ℕ → ℕ → ℕ → Machine → Machine
  binary op rs2 rs1 rm rd m =
      store_result rd (op (sf_rm rm m) (lane.read rs1 m) (lane.read rs2 m)) m

  abbrev pub unary : (Rounding → A → A × ℕ) → ℕ → ℕ → ℕ → Machine → Machine
  unary op rs1 rm rd m = store_result rd (op (sf_rm rm m) (lane.read rs1 m)) m

  -- Bit 0 of `subop` changes the sign of the addend and bit 1 that of the product.
  abbrev pub fused : (Rounding → A → A → A → A × ℕ) → ℕ → ℕ → ℕ → ℕ → ℕ → ℕ → Machine → Machine
  fused op subop rs3 rs2 rs1 rm rd m =
      let a = lane.read rs1 m in
      let b = lane.read rs2 m in
      let c = lane.read rs3 m in
      let c = if nonzero (bit_and subop 1) then lane.negate c else c in
      let a = if nonzero (bit_and subop 2) then lane.negate a else a in
      store_result rd (op (sf_rm rm m) a b c) m

-- One operation, chosen in each format: 0 is single, 1 double, 2 half and 3 quad precision.
abbrev pub by_format : ℕ → Outcome → Outcome → Outcome → Outcome → Outcome
by_format fmt s d h q =
    if fmt == 0b00
    then s
    else if fmt == 0b10
    then h
    else if fmt == 0b01
    then d
    else if fmt == 0b11
    then q
    else fatal

module _ (f32 f64 f16 : Arithmetic ℕ) (f128 : Arithmetic (ℕ × ℕ)) where
  unfoldable pub do_fadd : ℕ → ℕ → ℕ → ℕ → ℕ → Machine → Outcome
  do_fadd fmt rs2 rs1 rm rd m =
      by_format fmt (running (binary single_lane f32.add rs2 rs1 rm rd m))
        (running (binary double_lane f64.add rs2 rs1 rm rd m))
        (running (binary half_lane f16.add rs2 rs1 rm rd m))
        (running (binary quad_lane f128.add rs2 rs1 rm rd m))

  unfoldable pub do_fsub : ℕ → ℕ → ℕ → ℕ → ℕ → Machine → Outcome
  do_fsub fmt rs2 rs1 rm rd m =
      by_format fmt (running (binary single_lane f32.sub rs2 rs1 rm rd m))
        (running (binary double_lane f64.sub rs2 rs1 rm rd m))
        (running (binary half_lane f16.sub rs2 rs1 rm rd m))
        (running (binary quad_lane f128.sub rs2 rs1 rm rd m))

  unfoldable pub do_fmul : ℕ → ℕ → ℕ → ℕ → ℕ → Machine → Outcome
  do_fmul fmt rs2 rs1 rm rd m =
      by_format fmt (running (binary single_lane f32.mul rs2 rs1 rm rd m))
        (running (binary double_lane f64.mul rs2 rs1 rm rd m))
        (running (binary half_lane f16.mul rs2 rs1 rm rd m))
        (running (binary quad_lane f128.mul rs2 rs1 rm rd m))

  unfoldable pub do_fdiv : ℕ → ℕ → ℕ → ℕ → ℕ → Machine → Outcome
  do_fdiv fmt rs2 rs1 rm rd m =
      by_format fmt (running (binary single_lane f32.div rs2 rs1 rm rd m))
        (running (binary double_lane f64.div rs2 rs1 rm rd m))
        (running (binary half_lane f16.div rs2 rs1 rm rd m))
        (running (binary quad_lane f128.div rs2 rs1 rm rd m))

  unfoldable pub do_fsqrt : ℕ → ℕ → ℕ → ℕ → Machine → Outcome
  do_fsqrt fmt rs1 rm rd m =
      by_format fmt (running (unary single_lane f32.sqrt rs1 rm rd m))
        (running (unary double_lane f64.sqrt rs1 rm rd m))
        (running (unary half_lane f16.sqrt rs1 rm rd m))
        (running (unary quad_lane f128.sqrt rs1 rm rd m))

  unfoldable pub insf_r_fma : ℕ → ℕ → Machine → Outcome
  insf_r_fma ins subop m =
      let fmt = bit_and (ins >>> 25) 3 in
      let rs3 = bit_and (ins >>> 27) 0x1F in
      let rs2 = bit_and (ins >>> 20) 0x1F in
      let rs1 = bit_and (ins >>> 15) 0x1F in
      let rm = bit_and (ins >>> 12) 7 in
      let rd = bit_and (ins >>> 7) 0x1F in
      by_format fmt (running (fused single_lane f32.mul_add subop rs3 rs2 rs1 rm rd m))
        (running (fused double_lane f64.mul_add subop rs3 rs2 rs1 rm rd m))
        (running (fused half_lane f16.mul_add subop rs3 rs2 rs1 rm rd m))
        (running (fused quad_lane f128.mul_add subop rs3 rs2 rs1 rm rd m))
