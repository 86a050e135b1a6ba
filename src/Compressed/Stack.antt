-- ===== src/Compressed/Stack.antt =====
-- The stack-relative loads and stores and the register operations of src/extension/c_extension.c, from
-- their encodings in the formats CI, CSS, CR and CA.
use riscvemu.Base.{
  ℕ, ◌+◌, ◌-◌, ◌*◌, ◌/◌, ◌%◌, ◌^◌, ◌≤◌, ◌<◌, ◌≡◌, ◌∙◌, ◌==◌, false, bit_and, bit_or, ◌>>>◌, arith,
}
use riscvemu.Bits.{bit_and-ones, bit_or_insert}
use riscvemu.Machine.{Machine}
use riscvemu.Integer.{insi_r_add, add, register_form}
use riscvemu.LoadStore.{insi_i_lw, insi_s_sw}
use riscvemu.Compressed.{
  exec_c_insn, quadrant1, quadrant1_alu, quadrant2, quadrant2_move, c_alu, sequential, after_access,
  full, prime,
}
use riscvemu.Compressed.Imm.{c_lwsp_uimm, c_swsp_uimm}

abbrev pub ci_stack_type : ℕ → ℕ → ℕ
ci_stack_type rd imm =
    2
    + imm / 2 ^ 6 % 2 ^ 2 * 2 ^ 2
    + imm / 2 ^ 2 % 2 ^ 3 * 2 ^ 4
    + rd * 2 ^ 7
    + imm / 2 ^ 5 % 2 * 2 ^ 12
    + 2 * 2 ^ 13

abbrev pub css_type : ℕ → ℕ → ℕ
css_type rs2 imm =
    2 + rs2 * 2 ^ 2 + imm / 2 ^ 6 % 2 ^ 2 * 2 ^ 7 + imm / 2 ^ 2 % 2 ^ 4 * 2 ^ 9 + 6 * 2 ^ 13

abbrev pub cr_type : ℕ → ℕ → ℕ → ℕ
cr_type funct1 rd rs2 = 2 + rs2 * 2 ^ 2 + rd * 2 ^ 7 + funct1 * 2 ^ 12 + 4 * 2 ^ 13

abbrev pub ca_type : ℕ → ℕ → ℕ → ℕ
ca_type funct2 rd rs2 =
    1 + (rs2 - 8) * 2 ^ 2 + funct2 * 2 ^ 5 + (rd - 8) * 2 ^ 7 + 3 * 2 ^ 10 + 4 * 2 ^ 13

module _ (rd imm : ℕ) (d : rd < 32) (h : imm < 2 ^ 8) (w : imm % 4 ≡ 0) where
  c_lwsp_uimm-ci_stack_type : c_lwsp_uimm (ci_stack_type rd imm) ≡ imm
  unfolding c_lwsp_uimm
  c_lwsp_uimm-ci_stack_type =
      let c = ci_stack_type rd imm in
      let p : bit_and (c >>> 2) 0x3 ≡ imm / 2 ^ 6 % 2 ^ 2 =
        omega (arith, bit_and-ones 2 (c >>> 2)) in
      let q : bit_and (c >>> 12) 0x1 ≡ imm / 2 ^ 5 % 2 = omega (arith, bit_and-ones 1 (c >>> 12)) in
      let r : bit_and (c >>> 4) 0x7 ≡ imm / 2 ^ 2 % 2 ^ 3 =
        omega (arith, bit_and-ones 3 (c >>> 4)) in
      let high = imm / 2 ^ 6 % 2 ^ 2 * 2 ^ 6 in
      let middle = imm / 2 ^ 5 % 2 * 2 ^ 5 in
      let x : bit_or high middle ≡ high + middle =
        bit_or_insert 5 1 high (imm / 2 ^ 5 % 2) (omega arith) (omega arith) in
      rw (p, q, r, x)
        (bit_or_insert 2 3 (high + middle) (imm / 2 ^ 2 % 2 ^ 3) (omega arith) (omega arith)
          ∙ omega arith)

  pub c_lwsp-insi_i_lw :
      (m : Machine)
      → 0 < rd
      → exec_c_insn (ci_stack_type rd imm) m ≡ after_access m.pc (insi_i_lw imm 2 rd m)
  unfolding exec_c_insn quadrant2
  c_lwsp-insi_i_lw m positive =
      let c = ci_stack_type rd imm in
      let q : bit_and c 3 ≡ 2 = omega (arith, bit_and-ones 2 c) in
      let f : bit_and (c >>> 13) 7 ≡ 2 = omega (arith, bit_and-ones 3 (c >>> 13)) in
      let r : full c 7 ≡ rd = omega (arith, bit_and-ones 5 (c >>> 7)) in
      let z : (rd == 0) ≡ false = ground arith in simp (q, f, r, z, c_lwsp_uimm-ci_stack_type)

module _ (rs2 imm : ℕ) (d : rs2 < 32) (h : imm < 2 ^ 8) (w : imm % 4 ≡ 0) where
  c_swsp_uimm-css_type : c_swsp_uimm (css_type rs2 imm) ≡ imm
  unfolding c_swsp_uimm
  c_swsp_uimm-css_type =
      let c = css_type rs2 imm in
      let p : bit_and (c >>> 7) 0x3 ≡ imm / 2 ^ 6 % 2 ^ 2 =
        omega (arith, bit_and-ones 2 (c >>> 7)) in
      let q : bit_and (c >>> 9) 0xF ≡ imm / 2 ^ 2 % 2 ^ 4 =
        omega (arith, bit_and-ones 4 (c >>> 9)) in
      rw (p, q)
        (bit_or_insert 2 4 (imm / 2 ^ 6 % 2 ^ 2 * 2 ^ 6) (imm / 2 ^ 2 % 2 ^ 4) (omega arith)
            (omega arith)
          ∙ omega arith)

  pub c_swsp-insi_s_sw :
      (m : Machine) → exec_c_insn (css_type rs2 imm) m ≡ after_access m.pc (insi_s_sw imm rs2 2 m)
  unfolding exec_c_insn quadrant2
  c_swsp-insi_s_sw m =
      let c = css_type rs2 imm in
      let q : bit_and c 3 ≡ 2 = omega (arith, bit_and-ones 2 c) in
      let f : bit_and (c >>> 13) 7 ≡ 6 = omega (arith, bit_and-ones 3 (c >>> 13)) in
      let r : full c 2 ≡ rs2 = omega (arith, bit_and-ones 5 (c >>> 2)) in
      simp (q, f, r, c_swsp_uimm-css_type)

pub c_add-insi_r_add :
    (rd rs2 : ℕ) (m : Machine)
    → 0 < rd
    → rd < 32
    → 0 < rs2
    → rs2 < 32
    → exec_c_insn (cr_type 1 rd rs2) m ≡ sequential (insi_r_add rs2 rd rd m)
unfolding exec_c_insn quadrant2 quadrant2_move insi_r_add add
c_add-insi_r_add rd rs2 m p d s e =
    let c = cr_type 1 rd rs2 in
    let q : bit_and c 3 ≡ 2 = omega (arith, bit_and-ones 2 c) in
    let f : bit_and (c >>> 13) 7 ≡ 4 = omega (arith, bit_and-ones 3 (c >>> 13)) in
    let b : bit_and (c >>> 12) 1 ≡ 1 = omega (arith, bit_and-ones 1 (c >>> 12)) in
    let r : full c 7 ≡ rd = omega (arith, bit_and-ones 5 (c >>> 7)) in
    let t : full c 2 ≡ rs2 = omega (arith, bit_and-ones 5 (c >>> 2)) in
    let z : (rd == 0) ≡ false = ground arith in
    let y : (rs2 == 0) ≡ false = ground arith in simp (q, f, b, r, t, z, y)

pub c_alu-register_form :
    (funct2 rd rs2 : ℕ) (m : Machine)
    → funct2 < 4
    → 8 ≤ rd
    → rd < 16
    → 8 ≤ rs2
    → rs2 < 16
    → exec_c_insn (ca_type funct2 rd rs2) m ≡ sequential (register_form (c_alu funct2) rs2 rd rd m)
unfolding exec_c_insn quadrant1 quadrant1_alu
c_alu-register_form funct2 rd rs2 m g p d s e =
    let c = ca_type funct2 rd rs2 in
    let q : bit_and c 3 ≡ 1 = omega (arith, bit_and-ones 2 c) in
    let f : bit_and (c >>> 13) 7 ≡ 4 = omega (arith, bit_and-ones 3 (c >>> 13)) in
    let b : bit_and (c >>> 10) 3 ≡ 3 = omega (arith, bit_and-ones 2 (c >>> 10)) in
    let k : bit_and (c >>> 5) 3 ≡ funct2 = omega (arith, bit_and-ones 2 (c >>> 5)) in
    let r : prime c 7 ≡ rd = omega (arith, bit_and-ones 3 (c >>> 7)) in
    let t : prime c 2 ≡ rs2 = omega (arith, bit_and-ones 3 (c >>> 2)) in simp (q, f, b, k, r, t)
