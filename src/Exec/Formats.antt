-- ===== src/Exec/Formats.antt =====
-- The instruction formats: the fields that include/exec.h and src/exec.c take from a word are those
-- that it was put together from.
use riscvemu.Base.{
  ℕ, ◌+◌, ◌-◌, ◌*◌, ◌/◌, ◌%◌, ◌^◌, ◌≤◌, ◌<◌, ◌≡◌, ◌∙◌, ◌⊎◌, bit_and, bit_or, ◌>>>◌, ◌<<<◌, arith,
}
use riscvemu.Bits.{bit_and-ones, bit_or_fields, bit_or_insert}
use riscvemu.Jump.Target.{sign_extend-value}
use riscvemu.Exec.Decode.{
  get_opcode, get_rd, get_funct3, get_rs1, get_rs2, get_funct7, i_imm, s_imm, b_imm, j_imm,
}

-- The pattern of a signed number of `k` bits.
abbrev pub IsSigned : ℕ → ℕ → Type 0
IsSigned k imm = (imm < 2 ^ (k - 1)) ⊎ ((2 ^ 32 - 2 ^ (k - 1) ≤ imm) × (imm < 2 ^ 32))

abbrev pub r_type : ℕ → ℕ → ℕ → ℕ → ℕ → ℕ → ℕ
r_type opcode rd funct3 rs1 rs2 funct7 =
    opcode + rd * 2 ^ 7 + funct3 * 2 ^ 12 + rs1 * 2 ^ 15 + rs2 * 2 ^ 20 + funct7 * 2 ^ 25

abbrev pub i_type : ℕ → ℕ → ℕ → ℕ → ℕ → ℕ
i_type opcode rd funct3 rs1 imm =
    opcode + rd * 2 ^ 7 + funct3 * 2 ^ 12 + rs1 * 2 ^ 15 + imm % 2 ^ 12 * 2 ^ 20

abbrev pub s_type : ℕ → ℕ → ℕ → ℕ → ℕ → ℕ
s_type opcode funct3 rs1 rs2 imm = r_type opcode (imm % 2 ^ 5) funct3 rs1 rs2 (imm / 2 ^ 5 % 2 ^ 7)

abbrev pub b_type : ℕ → ℕ → ℕ → ℕ → ℕ → ℕ
b_type opcode funct3 rs1 rs2 imm =
    r_type opcode (imm / 2 ^ 11 % 2 + imm / 2 % 2 ^ 4 * 2) funct3 rs1 rs2
      (imm / 2 ^ 5 % 2 ^ 6 + imm / 2 ^ 12 % 2 * 2 ^ 6)

abbrev pub j_type : ℕ → ℕ → ℕ → ℕ
j_type opcode rd imm =
    opcode
    + rd * 2 ^ 7
    + imm / 2 ^ 12 % 2 ^ 8 * 2 ^ 12
    + imm / 2 ^ 11 % 2 * 2 ^ 20
    + imm / 2 % 2 ^ 10 * 2 ^ 21
    + imm / 2 ^ 20 % 2 * 2 ^ 31

module _ (opcode rd funct3 rs1 rs2 funct7 : ℕ) (o : opcode < 2 ^ 7) (d : rd < 2 ^ 5)
    (f : funct3 < 2 ^ 3) (a : rs1 < 2 ^ 5) (b : rs2 < 2 ^ 5) (g : funct7 < 2 ^ 7) where
  pub r_type_fields :
      let w = r_type opcode rd funct3 rs1 rs2 funct7 in
      (get_opcode w ≡ opcode)
      × (get_rd w ≡ rd)
      × (get_funct3 w ≡ funct3)
      × (get_rs1 w ≡ rs1)
      × (get_rs2 w ≡ rs2)
      × (get_funct7 w ≡ funct7)
  unfolding get_opcode get_rd get_funct3 get_rs1 get_rs2 get_funct7
  r_type_fields =
      let w = r_type opcode rd funct3 rs1 rs2 funct7 in
      (
        omega (arith, bit_and-ones 7 w),
        omega (arith, bit_and-ones 5 (w >>> 7)),
        omega (arith, bit_and-ones 3 (w >>> 12)),
        omega (arith, bit_and-ones 5 (w >>> 15)),
        omega (arith, bit_and-ones 5 (w >>> 20)),
        omega (arith, bit_and-ones 7 (w >>> 25)),
      )

-- The immediates before their sign is extended, as sums.
b_raw :
    (p q r s : ℕ)
    → p < 2
    → q < 2 ^ 6
    → r < 2 ^ 4
    → s < 2
    → bit_or (bit_or (bit_or (p <<< 12) (q <<< 5)) (r <<< 1)) (s <<< 11)
      ≡ p * 2 ^ 12 + s * 2 ^ 11 + q * 2 ^ 5 + r * 2
b_raw p q r s hp hq hr hs =
    let x : bit_or (p <<< 12) (q <<< 5) ≡ p * 2 ^ 12 + q * 2 ^ 5 =
      bit_or_insert 5 6 _ q hq (omega arith) in
    let y : bit_or (p * 2 ^ 12 + q * 2 ^ 5) (r <<< 1) ≡ p * 2 ^ 12 + q * 2 ^ 5 + r * 2 =
      bit_or_insert 1 4 _ r hr (omega arith) in
    rw (x, y) (bit_or_insert 11 1 (p * 2 ^ 12 + q * 2 ^ 5 + r * 2) s hs (omega arith) ∙ omega arith)

j_raw :
    (p q r s : ℕ)
    → p < 2
    → q < 2 ^ 10
    → r < 2
    → s < 2 ^ 8
    → bit_or (bit_or (bit_or (p <<< 20) (q <<< 1)) (r <<< 11)) (s <<< 12)
      ≡ p * 2 ^ 20 + s * 2 ^ 12 + r * 2 ^ 11 + q * 2
j_raw p q r s hp hq hr hs =
    let x : bit_or (p <<< 20) (q <<< 1) ≡ p * 2 ^ 20 + q * 2 =
      bit_or_insert 1 10 _ q hq (omega arith) in
    let y : bit_or (p * 2 ^ 20 + q * 2) (r <<< 11) ≡ p * 2 ^ 20 + q * 2 + r * 2 ^ 11 =
      bit_or_insert 11 1 _ r hr (omega arith) in
    rw (x, y)
      (bit_or_insert 12 8 (p * 2 ^ 20 + q * 2 + r * 2 ^ 11) s hs (omega arith) ∙ omega arith)

sum13 :
    (imm : ℕ)
    → imm % 2 ≡ 0
    → imm / 2 ^ 12 % 2 * 2 ^ 12
        + imm / 2 ^ 11 % 2 * 2 ^ 11
        + imm / 2 ^ 5 % 2 ^ 6 * 2 ^ 5
        + imm / 2 % 2 ^ 4 * 2
      ≡ imm % 2 ^ 13
sum13 imm even = omega arith

sum21 :
    (imm : ℕ)
    → imm % 2 ≡ 0
    → imm / 2 ^ 20 % 2 * 2 ^ 20
        + imm / 2 ^ 12 % 2 ^ 8 * 2 ^ 12
        + imm / 2 ^ 11 % 2 * 2 ^ 11
        + imm / 2 % 2 ^ 10 * 2
      ≡ imm % 2 ^ 21
sum21 imm even = omega arith

module _ (opcode rd funct3 rs1 rs2 imm : ℕ) (o : opcode < 2 ^ 7) (d : rd < 2 ^ 5)
    (f : funct3 < 2 ^ 3) (a : rs1 < 2 ^ 5) (b : rs2 < 2 ^ 5) where
  pub i_imm-i_type : IsSigned 12 imm → i_imm (i_type opcode rd funct3 rs1 imm) ≡ imm
  unfolding i_imm
  i_imm-i_type h =
      let w = i_type opcode rd funct3 rs1 imm in
      let e : bit_and (w >>> 20) 0xFFF ≡ imm % 2 ^ 12 = omega (arith, bit_and-ones 12 (w >>> 20)) in
      rw e (
        ground (
          arith,
          (sign_extend-value (imm % 2 ^ 12) 0 0 (omega arith) (omega arith) (omega arith)).0,
        ))

  pub s_imm-s_type : IsSigned 12 imm → s_imm (s_type opcode funct3 rs1 rs2 imm) ≡ imm
  unfolding s_imm
  s_imm-s_type h =
      let w = s_type opcode funct3 rs1 rs2 imm in
      let low : bit_and (w >>> 7) 0x1F ≡ imm % 2 ^ 5 = omega (arith, bit_and-ones 5 (w >>> 7)) in
      let high : bit_and (w >>> 25) 0x7F ≡ imm / 2 ^ 5 % 2 ^ 7 =
        omega (arith, bit_and-ones 7 (w >>> 25)) in
      let e : bit_or (imm / 2 ^ 5 % 2 ^ 7 * 2 ^ 5) (imm % 2 ^ 5) ≡ imm % 2 ^ 12 =
        bit_or_fields 5 (imm / 2 ^ 5 % 2 ^ 7) (imm % 2 ^ 5) (omega arith) ∙ omega arith in
      rw (low, high, e)
        (ground (
          arith,
          (sign_extend-value (imm % 2 ^ 12) 0 0 (omega arith) (omega arith) (omega arith)).0,
        ))

  pub b_imm-b_type : IsSigned 13 imm → imm % 2 ≡ 0 → b_imm (b_type opcode funct3 rs1 rs2 imm) ≡ imm
  unfolding b_imm
  b_imm-b_type h even =
      let w = b_type opcode funct3 rs1 rs2 imm in
      let p : bit_and (w >>> 31) 0x1 ≡ imm / 2 ^ 12 % 2 =
        omega (arith, bit_and-ones 1 (w >>> 31)) in
      let q : bit_and (w >>> 25) 0x3F ≡ imm / 2 ^ 5 % 2 ^ 6 =
        omega (arith, bit_and-ones 6 (w >>> 25)) in
      let r : bit_and (w >>> 8) 0xF ≡ imm / 2 % 2 ^ 4 = omega (arith, bit_and-ones 4 (w >>> 8)) in
      let s : bit_and (w >>> 7) 0x1 ≡ imm / 2 ^ 11 % 2 = omega (arith, bit_and-ones 1 (w >>> 7)) in
      let e =
        b_raw (imm / 2 ^ 12 % 2) (imm / 2 ^ 5 % 2 ^ 6) (imm / 2 % 2 ^ 4) (imm / 2 ^ 11 % 2)
          (omega arith) (omega arith) (omega arith) (omega arith)
        ∙ sum13 imm even in
      rw (p, q, r, s, e)
        (ground (
          arith,
          (sign_extend-value 0 (imm % 2 ^ 13) 0 (omega arith) (omega arith) (omega arith)).1,
        ))

  pub j_imm-j_type : IsSigned 21 imm → imm % 2 ≡ 0 → j_imm (j_type opcode rd imm) ≡ imm
  unfolding j_imm
  j_imm-j_type h even =
      let w = j_type opcode rd imm in
      let p : bit_and (w >>> 31) 0x1 ≡ imm / 2 ^ 20 % 2 =
        omega (arith, bit_and-ones 1 (w >>> 31)) in
      let q : bit_and (w >>> 21) 0x3FF ≡ imm / 2 % 2 ^ 10 =
        omega (arith, bit_and-ones 10 (w >>> 21)) in
      let r : bit_and (w >>> 20) 0x1 ≡ imm / 2 ^ 11 % 2 =
        omega (arith, bit_and-ones 1 (w >>> 20)) in
      let s : bit_and (w >>> 12) 0xFF ≡ imm / 2 ^ 12 % 2 ^ 8 =
        omega (arith, bit_and-ones 8 (w >>> 12)) in
      let e =
        j_raw (imm / 2 ^ 20 % 2) (imm / 2 % 2 ^ 10) (imm / 2 ^ 11 % 2) (imm / 2 ^ 12 % 2 ^ 8)
          (omega arith) (omega arith) (omega arith) (omega arith)
        ∙ sum21 imm even in
      rw (p, q, r, s, e)
        (ground (
          arith,
          (sign_extend-value 0 0 (imm % 2 ^ 21) (omega arith) (omega arith) (omega arith)).2,
        ))
