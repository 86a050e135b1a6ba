-- ===== src/Compressed/Fields.antt =====
-- The immediates of src/extension/c_extension.c are those that the formats CI, CL, CSS, CB and CJ put
-- together.
use riscvemu.Base.{
  ℕ, ◌+◌, ◌-◌, ◌*◌, ◌/◌, ◌%◌, ◌^◌, ◌≤◌, ◌<◌, ◌≡◌, ◌∙◌, bit_and, bit_or, ◌>>>◌, ◌<<<◌, arith,
}
use riscvemu.Bits.{bit_and-ones, bit_or_fields, bit_or_insert, bit_and_field}
use riscvemu.Exec.Formats.{IsSigned}
use riscvemu.Compressed.{full, prime}
use riscvemu.Compressed.Imm.{sext6, c_ls_uimm, c_jal_offset, c_branch_offset, c_imm6}

-- Quadrant, function, register and immediate; a register of three bits is x8 to x15.
abbrev pub ci_type : ℕ → ℕ → ℕ → ℕ → ℕ
ci_type q funct3 rd imm =
    q + imm % 2 ^ 5 * 2 ^ 2 + rd * 2 ^ 7 + imm / 2 ^ 5 % 2 * 2 ^ 12 + funct3 * 2 ^ 13

abbrev pub cl_type : ℕ → ℕ → ℕ → ℕ → ℕ
cl_type funct3 rs1 rd imm =
    (rd - 8) * 2 ^ 2
    + imm / 2 ^ 6 % 2 * 2 ^ 5
    + imm / 2 ^ 2 % 2 * 2 ^ 6
    + (rs1 - 8) * 2 ^ 7
    + imm / 2 ^ 3 % 2 ^ 3 * 2 ^ 10
    + funct3 * 2 ^ 13

abbrev pub cb_type : ℕ → ℕ → ℕ → ℕ
cb_type funct3 rs1 imm =
    1
    + imm / 2 ^ 5 % 2 * 2 ^ 2
    + imm / 2 % 2 ^ 2 * 2 ^ 3
    + imm / 2 ^ 6 % 2 ^ 2 * 2 ^ 5
    + (rs1 - 8) * 2 ^ 7
    + imm / 2 ^ 3 % 2 ^ 2 * 2 ^ 10
    + imm / 2 ^ 8 % 2 * 2 ^ 12
    + funct3 * 2 ^ 13

abbrev pub cj_type : ℕ → ℕ → ℕ
cj_type funct3 imm =
    1
    + imm / 2 ^ 5 % 2 * 2 ^ 2
    + imm / 2 % 2 ^ 3 * 2 ^ 3
    + imm / 2 ^ 7 % 2 * 2 ^ 6
    + imm / 2 ^ 6 % 2 * 2 ^ 7
    + imm / 2 ^ 10 % 2 * 2 ^ 8
    + imm / 2 ^ 8 % 2 ^ 2 * 2 ^ 9
    + imm / 2 ^ 4 % 2 * 2 ^ 11
    + imm / 2 ^ 11 % 2 * 2 ^ 12
    + funct3 * 2 ^ 13

module _ (q funct3 rd imm : ℕ) (o : q < 4) (f : funct3 < 8) (d : rd < 32) where
  pub ci_type_fields :
      let c = ci_type q funct3 rd imm in
      (bit_and c 0x3 ≡ q) × (bit_and (c >>> 13) 0x7 ≡ funct3) × (full c 7 ≡ rd)
  ci_type_fields =
      let c = ci_type q funct3 rd imm in
      (
        omega (arith, bit_and-ones 2 c),
        omega (arith, bit_and-ones 3 (c >>> 13)),
        omega (arith, bit_and-ones 5 (c >>> 7)),
      )

  pub c_imm6-ci_type : IsSigned 6 imm → c_imm6 (ci_type q funct3 rd imm) ≡ imm
  unfolding c_imm6 sext6
  c_imm6-ci_type h =
      let c = ci_type q funct3 rd imm in
      let high : bit_and (c >>> 12) 0x1 ≡ imm / 2 ^ 5 % 2 =
        omega (arith, bit_and-ones 1 (c >>> 12)) in
      let low : bit_and (c >>> 2) 0x1F ≡ imm % 2 ^ 5 = omega (arith, bit_and-ones 5 (c >>> 2)) in
      let raw : bit_or (imm / 2 ^ 5 % 2 * 2 ^ 5) (imm % 2 ^ 5) ≡ imm % 2 ^ 6 =
        bit_or_fields 5 (imm / 2 ^ 5 % 2) (imm % 2 ^ 5) (omega arith) ∙ omega arith in
      let whole : bit_and (imm % 2 ^ 6) 0x3F ≡ imm % 2 ^ 6 =
        omega (arith, bit_and-ones 6 (imm % 2 ^ 6)) in
      rw (high, low, raw, whole) (ground arith)

-- The offset of a word in memory, put together from its fields.
ls_raw :
    (p q r : ℕ)
    → p < 2
    → q < 2 ^ 3
    → r < 2
    → bit_or (bit_or (p <<< 6) (q <<< 3)) (r <<< 2) ≡ p * 2 ^ 6 + q * 2 ^ 3 + r * 2 ^ 2
ls_raw p q r hp hq hr =
    let x : bit_or (p <<< 6) (q <<< 3) ≡ p * 2 ^ 6 + q * 2 ^ 3 =
      bit_or_insert 3 3 _ q hq (omega arith) in
    rw x (bit_or_insert 2 1 (p * 2 ^ 6 + q * 2 ^ 3) r hr (omega arith) ∙ omega arith)

module _ (funct3 rs1 rd imm : ℕ) (f : funct3 < 8) (a : 8 ≤ rs1) (b : rs1 < 16) (d : 8 ≤ rd)
    (e : rd < 16) where
  pub cl_type_fields :
      let c = cl_type funct3 rs1 rd imm in
      (bit_and c 0x3 ≡ 0) × (bit_and (c >>> 13) 0x7 ≡ funct3) × (prime c 7 ≡ rs1) × (prime c 2 ≡ rd)
  cl_type_fields =
      let c = cl_type funct3 rs1 rd imm in
      (
        omega (arith, bit_and-ones 2 c),
        omega (arith, bit_and-ones 3 (c >>> 13)),
        omega (arith, bit_and-ones 3 (c >>> 7)),
        omega (arith, bit_and-ones 3 (c >>> 2)),
      )

  pub c_ls_uimm-cl_type : imm < 2 ^ 7 → imm % 4 ≡ 0 → c_ls_uimm (cl_type funct3 rs1 rd imm) ≡ imm
  unfolding c_ls_uimm
  c_ls_uimm-cl_type h w =
      let c = cl_type funct3 rs1 rd imm in
      let p : bit_and (c >>> 5) 0x1 ≡ imm / 2 ^ 6 % 2 = omega (arith, bit_and-ones 1 (c >>> 5)) in
      let q : bit_and (c >>> 10) 0x7 ≡ imm / 2 ^ 3 % 2 ^ 3 =
        omega (arith, bit_and-ones 3 (c >>> 10)) in
      let r : bit_and (c >>> 6) 0x1 ≡ imm / 2 ^ 2 % 2 = omega (arith, bit_and-ones 1 (c >>> 6)) in
      rw (p, q, r)
        (ls_raw (imm / 2 ^ 6 % 2) (imm / 2 ^ 3 % 2 ^ 3) (imm / 2 ^ 2 % 2) (omega arith)
            (omega arith) (omega arith)
          ∙ omega arith)

-- The offsets of a branch and of a jump before their sign is extended, as sums.
branch_raw :
    (p q r s t u v w : ℕ)
    → p < 2 ^ 1
    → q < 2 ^ 1
    → r < 2 ^ 1
    → s < 2 ^ 1
    → t < 2 ^ 1
    → u < 2 ^ 1
    → v < 2 ^ 1
    → w < 2 ^ 1
    → bit_or
        (bit_or
          (bit_or
            (bit_or (bit_or (bit_or (bit_or (p <<< 8) (q <<< 7)) (r <<< 6)) (s <<< 5)) (t <<< 4))
            (u <<< 3))
          (v <<< 2))
        (w <<< 1)
      ≡ p * 2 ^ 8
        + q * 2 ^ 7
        + r * 2 ^ 6
        + s * 2 ^ 5
        + t * 2 ^ 4
        + u * 2 ^ 3
        + v * 2 ^ 2
        + w * 2 ^ 1
branch_raw p q r s t u v w hp hq hr hs ht hu hv hw =
    let e1 : bit_or (p <<< 8) (q <<< 7) ≡ p * 2 ^ 8 + q * 2 ^ 7 =
      bit_or_insert 7 1 _ q hq (omega arith) in
    let e2 : bit_or (p * 2 ^ 8 + q * 2 ^ 7) (r <<< 6) ≡ p * 2 ^ 8 + q * 2 ^ 7 + r * 2 ^ 6 =
      bit_or_insert 6 1 _ r hr (omega arith) in
    let e3 : bit_or (p * 2 ^ 8 + q * 2 ^ 7 + r * 2 ^ 6) (s <<< 5)
        ≡ p * 2 ^ 8 + q * 2 ^ 7 + r * 2 ^ 6 + s * 2 ^ 5 =
      bit_or_insert 5 1 _ s hs (omega arith) in
    let e4 : bit_or (p * 2 ^ 8 + q * 2 ^ 7 + r * 2 ^ 6 + s * 2 ^ 5) (t <<< 4)
        ≡ p * 2 ^ 8 + q * 2 ^ 7 + r * 2 ^ 6 + s * 2 ^ 5 + t * 2 ^ 4 =
      bit_or_insert 4 1 _ t ht (omega arith) in
    let e5 : bit_or (p * 2 ^ 8 + q * 2 ^ 7 + r * 2 ^ 6 + s * 2 ^ 5 + t * 2 ^ 4) (u <<< 3)
        ≡ p * 2 ^ 8 + q * 2 ^ 7 + r * 2 ^ 6 + s * 2 ^ 5 + t * 2 ^ 4 + u * 2 ^ 3 =
      bit_or_insert 3 1 _ u hu (omega arith) in
    let e6 : bit_or (p * 2 ^ 8 + q * 2 ^ 7 + r * 2 ^ 6 + s * 2 ^ 5 + t * 2 ^ 4 + u * 2 ^ 3)
          (v <<< 2)
        ≡ p * 2 ^ 8 + q * 2 ^ 7 + r * 2 ^ 6 + s * 2 ^ 5 + t * 2 ^ 4 + u * 2 ^ 3 + v * 2 ^ 2 =
      bit_or_insert 2 1 _ v hv (omega arith) in
    rw (e1, e2, e3, e4, e5, e6)
      (bit_or_insert 1 1
        (p * 2 ^ 8 + q * 2 ^ 7 + r * 2 ^ 6 + s * 2 ^ 5 + t * 2 ^ 4 + u * 2 ^ 3 + v * 2 ^ 2) w hw
        (omega arith))

jump_raw :
    (p q r s t u v w : ℕ)
    → p < 2 ^ 1
    → q < 2 ^ 1
    → r < 2 ^ 2
    → s < 2 ^ 1
    → t < 2 ^ 1
    → u < 2 ^ 1
    → v < 2 ^ 1
    → w < 2 ^ 3
    → bit_or
        (bit_or
          (bit_or
            (bit_or (bit_or (bit_or (bit_or (p <<< 11) (q <<< 4)) (r <<< 8)) (s <<< 10)) (t <<< 6))
            (u <<< 7))
          (v <<< 5))
        (w <<< 1)
      ≡ p * 2 ^ 11
        + q * 2 ^ 4
        + r * 2 ^ 8
        + s * 2 ^ 10
        + t * 2 ^ 6
        + u * 2 ^ 7
        + v * 2 ^ 5
        + w * 2 ^ 1
jump_raw p q r s t u v w hp hq hr hs ht hu hv hw =
    let e1 : bit_or (p <<< 11) (q <<< 4) ≡ p * 2 ^ 11 + q * 2 ^ 4 =
      bit_or_insert 4 1 _ q hq (omega arith) in
    let e2 : bit_or (p * 2 ^ 11 + q * 2 ^ 4) (r <<< 8) ≡ p * 2 ^ 11 + q * 2 ^ 4 + r * 2 ^ 8 =
      bit_or_insert 8 2 _ r hr (omega arith) in
    let e3 : bit_or (p * 2 ^ 11 + q * 2 ^ 4 + r * 2 ^ 8) (s <<< 10)
        ≡ p * 2 ^ 11 + q * 2 ^ 4 + r * 2 ^ 8 + s * 2 ^ 10 =
      bit_or_insert 10 1 _ s hs (omega arith) in
    let e4 : bit_or (p * 2 ^ 11 + q * 2 ^ 4 + r * 2 ^ 8 + s * 2 ^ 10) (t <<< 6)
        ≡ p * 2 ^ 11 + q * 2 ^ 4 + r * 2 ^ 8 + s * 2 ^ 10 + t * 2 ^ 6 =
      bit_or_insert 6 1 _ t ht (omega arith) in
    let e5 : bit_or (p * 2 ^ 11 + q * 2 ^ 4 + r * 2 ^ 8 + s * 2 ^ 10 + t * 2 ^ 6) (u <<< 7)
        ≡ p * 2 ^ 11 + q * 2 ^ 4 + r * 2 ^ 8 + s * 2 ^ 10 + t * 2 ^ 6 + u * 2 ^ 7 =
      bit_or_insert 7 1 _ u hu (omega arith) in
    let e6 : bit_or (p * 2 ^ 11 + q * 2 ^ 4 + r * 2 ^ 8 + s * 2 ^ 10 + t * 2 ^ 6 + u * 2 ^ 7)
          (v <<< 5)
        ≡ p * 2 ^ 11 + q * 2 ^ 4 + r * 2 ^ 8 + s * 2 ^ 10 + t * 2 ^ 6 + u * 2 ^ 7 + v * 2 ^ 5 =
      bit_or_insert 5 1 _ v hv (omega arith) in
    rw (e1, e2, e3, e4, e5, e6)
      (bit_or_insert 1 3
        (p * 2 ^ 11 + q * 2 ^ 4 + r * 2 ^ 8 + s * 2 ^ 10 + t * 2 ^ 6 + u * 2 ^ 7 + v * 2 ^ 5) w hw
        (omega arith))

module _ (funct3 rs1 imm : ℕ) (f : funct3 < 8) (a : 8 ≤ rs1) (b : rs1 < 16) where
  pub cb_type_fields :
      let c = cb_type funct3 rs1 imm in
      (bit_and c 0x3 ≡ 1) × (bit_and (c >>> 13) 0x7 ≡ funct3) × (prime c 7 ≡ rs1)
  cb_type_fields =
      let c = cb_type funct3 rs1 imm in
      (
        omega (arith, bit_and-ones 2 c),
        omega (arith, bit_and-ones 3 (c >>> 13)),
        omega (arith, bit_and-ones 3 (c >>> 7)),
      )

  pub c_branch_offset-cb_type :
      IsSigned 9 imm → imm % 2 ≡ 0 → c_branch_offset (cb_type funct3 rs1 imm) ≡ imm
  unfolding c_branch_offset
  c_branch_offset-cb_type h even =
      let c = cb_type funct3 rs1 imm in
      let p : bit_and (c >>> 12) 0x1 ≡ imm / 2 ^ 8 % 2 ^ 1 =
        omega (arith, bit_and-ones 1 (c >>> 12)) in
      let q : bit_and (c >>> 6) 0x1 ≡ imm / 2 ^ 7 % 2 ^ 1 =
        omega (arith, bit_and-ones 1 (c >>> 6)) in
      let r : bit_and (c >>> 5) 0x1 ≡ imm / 2 ^ 6 % 2 ^ 1 =
        omega (arith, bit_and-ones 1 (c >>> 5)) in
      let s : bit_and (c >>> 2) 0x1 ≡ imm / 2 ^ 5 % 2 ^ 1 =
        omega (arith, bit_and-ones 1 (c >>> 2)) in
      let t : bit_and (c >>> 11) 0x1 ≡ imm / 2 ^ 4 % 2 ^ 1 =
        omega (arith, bit_and-ones 1 (c >>> 11)) in
      let u : bit_and (c >>> 10) 0x1 ≡ imm / 2 ^ 3 % 2 ^ 1 =
        omega (arith, bit_and-ones 1 (c >>> 10)) in
      let v : bit_and (c >>> 4) 0x1 ≡ imm / 2 ^ 2 % 2 ^ 1 =
        omega (arith, bit_and-ones 1 (c >>> 4)) in
      let w : bit_and (c >>> 3) 0x1 ≡ imm / 2 ^ 1 % 2 ^ 1 =
        omega (arith, bit_and-ones 1 (c >>> 3)) in
      let e : imm / 2 ^ 8 % 2 ^ 1 * 2 ^ 8
            + imm / 2 ^ 7 % 2 ^ 1 * 2 ^ 7
            + imm / 2 ^ 6 % 2 ^ 1 * 2 ^ 6
            + imm / 2 ^ 5 % 2 ^ 1 * 2 ^ 5
            + imm / 2 ^ 4 % 2 ^ 1 * 2 ^ 4
            + imm / 2 ^ 3 % 2 ^ 1 * 2 ^ 3
            + imm / 2 ^ 2 % 2 ^ 1 * 2 ^ 2
            + imm / 2 ^ 1 % 2 ^ 1 * 2 ^ 1
          ≡ imm % 2 ^ 9 =
        omega arith in
      let raw =
        branch_raw (imm / 2 ^ 8 % 2 ^ 1) (imm / 2 ^ 7 % 2 ^ 1) (imm / 2 ^ 6 % 2 ^ 1)
          (imm / 2 ^ 5 % 2 ^ 1) (imm / 2 ^ 4 % 2 ^ 1) (imm / 2 ^ 3 % 2 ^ 1) (imm / 2 ^ 2 % 2 ^ 1)
          (imm / 2 ^ 1 % 2 ^ 1) (omega arith) (omega arith) (omega arith) (omega arith)
          (omega arith) (omega arith) (omega arith) (omega arith)
        ∙ e in
      let sign = bit_and_field 8 1 (imm % 2 ^ 9) in
      rw (p, q, r, s, t, u, v, w, raw) (ground (arith, sign))

module _ (funct3 imm : ℕ) (f : funct3 < 8) where
  pub cj_type_fields :
      let c = cj_type funct3 imm in (bit_and c 0x3 ≡ 1) × (bit_and (c >>> 13) 0x7 ≡ funct3)
  cj_type_fields =
      let c = cj_type funct3 imm in
      (omega (arith, bit_and-ones 2 c), omega (arith, bit_and-ones 3 (c >>> 13)))

  pub c_jal_offset-cj_type : IsSigned 12 imm → imm % 2 ≡ 0 → c_jal_offset (cj_type funct3 imm) ≡ imm
  unfolding c_jal_offset
  c_jal_offset-cj_type h even =
      let c = cj_type funct3 imm in
      let p : bit_and (c >>> 12) 0x1 ≡ imm / 2 ^ 11 % 2 ^ 1 =
        omega (arith, bit_and-ones 1 (c >>> 12)) in
      let q : bit_and (c >>> 11) 0x1 ≡ imm / 2 ^ 4 % 2 ^ 1 =
        omega (arith, bit_and-ones 1 (c >>> 11)) in
      let r : bit_and (c >>> 9) 0x3 ≡ imm / 2 ^ 8 % 2 ^ 2 =
        omega (arith, bit_and-ones 2 (c >>> 9)) in
      let s : bit_and (c >>> 8) 0x1 ≡ imm / 2 ^ 10 % 2 ^ 1 =
        omega (arith, bit_and-ones 1 (c >>> 8)) in
      let t : bit_and (c >>> 7) 0x1 ≡ imm / 2 ^ 6 % 2 ^ 1 =
        omega (arith, bit_and-ones 1 (c >>> 7)) in
      let u : bit_and (c >>> 6) 0x1 ≡ imm / 2 ^ 7 % 2 ^ 1 =
        omega (arith, bit_and-ones 1 (c >>> 6)) in
      let v : bit_and (c >>> 2) 0x1 ≡ imm / 2 ^ 5 % 2 ^ 1 =
        omega (arith, bit_and-ones 1 (c >>> 2)) in
      let w : bit_and (c >>> 3) 0x7 ≡ imm / 2 ^ 1 % 2 ^ 3 =
        omega (arith, bit_and-ones 3 (c >>> 3)) in
      let e : imm / 2 ^ 11 % 2 ^ 1 * 2 ^ 11
            + imm / 2 ^ 4 % 2 ^ 1 * 2 ^ 4
            + imm / 2 ^ 8 % 2 ^ 2 * 2 ^ 8
            + imm / 2 ^ 10 % 2 ^ 1 * 2 ^ 10
            + imm / 2 ^ 6 % 2 ^ 1 * 2 ^ 6
            + imm / 2 ^ 7 % 2 ^ 1 * 2 ^ 7
            + imm / 2 ^ 5 % 2 ^ 1 * 2 ^ 5
            + imm / 2 ^ 1 % 2 ^ 3 * 2 ^ 1
          ≡ imm % 2 ^ 12 =
        omega arith in
      let raw =
        jump_raw (imm / 2 ^ 11 % 2 ^ 1) (imm / 2 ^ 4 % 2 ^ 1) (imm / 2 ^ 8 % 2 ^ 2)
          (imm / 2 ^ 10 % 2 ^ 1) (imm / 2 ^ 6 % 2 ^ 1) (imm / 2 ^ 7 % 2 ^ 1) (imm / 2 ^ 5 % 2 ^ 1)
          (imm / 2 ^ 1 % 2 ^ 3) (omega arith) (omega arith) (omega arith) (omega arith)
          (omega arith) (omega arith) (omega arith) (omega arith)
        ∙ e in
      let sign = bit_and_field 11 1 (imm % 2 ^ 12) in
      rw (p, q, r, s, t, u, v, w, raw) (ground (arith, sign))
