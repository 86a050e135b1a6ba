-- ===== src/Exec/Encoded.antt =====
-- `exec` of src/exec.c on the words of the base formats.
use riscvemu.Float.Formats.{FloatLibrary}
use riscvemu.Base.{
  ℕ, ◌+◌, ◌*◌, ◌/◌, ◌%◌, ◌^◌, ◌<◌, ◌≡◌, ◌∙◌, ap, Bool, true, false, nonzero, ◌==◌, if◌then◌else◌,
  if_both, bit_and, arith,
}
use riscvemu.Bits.{bit_and-ones}
use riscvemu.Outcome.{Outcome, running}
use riscvemu.Machine.{Machine}
use riscvemu.System.{misa_c_enabled}
use riscvemu.Jump.{insi_j_jal, insi_i_jalr}
use riscvemu.Exec.{exec_r, exec_load, exec_store, exec_branch}
use riscvemu.Exec.Decode.{get_opcode, get_rd, get_funct3, get_rs1}
use riscvemu.Exec.Dispatch.{exec, exec_opcode}
use riscvemu.Exec.Formats.{
  IsSigned, r_type, i_type, s_type, b_type, j_type, r_type_fields, i_imm-i_type, s_imm-s_type,
  b_imm-b_type, j_imm-j_type,
}

-- Registers, a function field and the three kinds of immediates of an instruction.
abbrev pub Operands : ℕ → ℕ → ℕ → Type 0
Operands rd rs1 rs2 = (rd < 2 ^ 5) × (rs1 < 2 ^ 5) × (rs2 < 2 ^ 5)

module _ (allocated : Bool) (float : FloatLibrary) (m : Machine)
    (aligned : bit_and m.pc 3 ≡ 0) where
  pub exec_word :
      (w : ℕ) → get_opcode w % 4 ≡ 3 → exec allocated float w m ≡ exec_opcode allocated float w m
  unfolding exec
  exec_word w h =
      let at_pc : nonzero (bit_and m.pc (if nonzero (misa_c_enabled m) then 1 else 3)) ≡ false =
        if_both (λ (k : ℕ). nonzero (bit_and m.pc k) ≡ false) (nonzero (misa_c_enabled m))
          (ground (arith, bit_and-ones 1 m.pc, bit_and-ones 2 m.pc, aligned))
          (ground (arith, aligned)) in
      let full_size : (bit_and (get_opcode w) 3 == 3) ≡ true =
        ground (arith, bit_and-ones 2 (get_opcode w), h) in
      ground (arith, at_pc, full_size)

  abbrev Runs : ℕ → Outcome → Type 0
  Runs w o = exec allocated float w m ≡ o

  module _ (funct3 rd rs1 rs2 : ℕ) (f : funct3 < 2 ^ 3) (operands : Operands rd rs1 rs2) where
    exec-r_type :
        (funct7 : ℕ)
        → funct7 < 2 ^ 7
        → Runs (r_type 0x33 rd funct3 rs1 rs2 funct7) (exec_r funct3 funct7 rs2 rs1 rd m)
    unfolding exec_opcode
    exec-r_type funct7 g =
        let (d, a, b) = operands in
        let w = r_type 0x33 rd funct3 rs1 rs2 funct7 in
        let (eo, ed, ef, ea, eb, eg) =
          r_type_fields 0x33 rd funct3 rs1 rs2 funct7 (omega arith) d f a b g in
        exec_word w (ground (arith, eo)) ∙ simp (eo, ed, ef, ea, eb, eg)

    exec-s_type :
        (imm : ℕ)
        → IsSigned 12 imm
        → Runs (s_type 0x23 funct3 rs1 rs2 imm) (exec_store imm funct3 rs2 rs1 m)
    unfolding exec_opcode
    exec-s_type imm h =
        let (d, a, b) = operands in
        let w = s_type 0x23 funct3 rs1 rs2 imm in
        let (eo, ed, ef, ea, eb, eg) =
          r_type_fields 0x23 (imm % 2 ^ 5) funct3 rs1 rs2 (imm / 2 ^ 5 % 2 ^ 7) (omega arith)
            (omega arith) f a b (omega arith) in
        let ei = s_imm-s_type 0x23 rd funct3 rs1 rs2 imm (omega arith) d f a b h in
        exec_word w (ground (arith, eo)) ∙ simp (eo, ef, ea, eb, ei)

    exec-b_type :
        (imm : ℕ)
        → IsSigned 13 imm
        → imm % 2 ≡ 0
        → Runs (b_type 0x63 funct3 rs1 rs2 imm) (exec_branch imm funct3 rs2 rs1 m)
    unfolding exec_opcode
    exec-b_type imm h even =
        let (d, a, b) = operands in
        let w = b_type 0x63 funct3 rs1 rs2 imm in
        let (eo, ed, ef, ea, eb, eg) =
          r_type_fields 0x63 (imm / 2 ^ 11 % 2 + imm / 2 % 2 ^ 4 * 2) funct3 rs1 rs2
            (imm / 2 ^ 5 % 2 ^ 6 + imm / 2 ^ 12 % 2 * 2 ^ 6) (omega arith) (omega arith) f a b
            (omega arith) in
        let ei = b_imm-b_type 0x63 rd funct3 rs1 rs2 imm (omega arith) d f a b h even in
        exec_word w (ground (arith, eo)) ∙ simp (eo, ef, ea, eb, ei)

    i_type_fields :
        (opcode imm : ℕ)
        → opcode < 2 ^ 7
        → let w = i_type opcode rd funct3 rs1 imm in
          (get_opcode w ≡ opcode) × (get_rd w ≡ rd) × (get_funct3 w ≡ funct3) × (get_rs1 w ≡ rs1)
    i_type_fields opcode imm o =
        let (d, a, b) = operands in
        let e : i_type opcode rd funct3 rs1 imm
            ≡ r_type opcode rd funct3 rs1 (imm % 2 ^ 5) (imm / 2 ^ 5 % 2 ^ 7) =
          omega arith in
        let (eo, ed, ef, ea, eb, eg) =
          r_type_fields opcode rd funct3 rs1 (imm % 2 ^ 5) (imm / 2 ^ 5 % 2 ^ 7) o d f a
            (omega arith) (omega arith) in
        rw e (eo, ed, ef, ea)

    exec-i_type :
        (imm : ℕ)
        → IsSigned 12 imm
        → Runs (i_type 0x03 rd funct3 rs1 imm) (exec_load imm funct3 rs1 rd m)
          × Runs (i_type 0x67 rd funct3 rs1 imm) (running (insi_i_jalr imm rs1 rd m))
    unfolding exec_opcode
    exec-i_type imm h =
        let (d, a, b) = operands in
        let (eo, ed, ef, ea) = i_type_fields 0x03 imm (omega arith) in
        let (jo, jd, jf, ja) = i_type_fields 0x67 imm (omega arith) in
        let ei = i_imm-i_type 0x03 rd funct3 rs1 rs2 imm (omega arith) d f a b h in
        let ji = i_imm-i_type 0x67 rd funct3 rs1 rs2 imm (omega arith) d f a b h in
        (
          exec_word (i_type 0x03 rd funct3 rs1 imm) (ground (arith, eo))
              ∙ simp (eo, ed, ef, ea, ei),
          exec_word (i_type 0x67 rd funct3 rs1 imm) (ground (arith, jo))
              ∙ simp (jo, jd, jf, ja, ji),
        )

    exec-j_type :
        (imm : ℕ)
        → IsSigned 21 imm
        → imm % 2 ≡ 0
        → Runs (j_type 0x6F rd imm) (running (insi_j_jal imm rd m))
    unfolding exec_opcode
    exec-j_type imm h even =
        let (d, a, b) = operands in
        let w = j_type 0x6F rd imm in
        let x2 = imm / 2 ^ 11 % 2 + imm / 2 % 2 ^ 4 * 2 in
        let x7 = imm / 2 ^ 5 % 2 ^ 6 + imm / 2 ^ 20 % 2 * 2 ^ 6 in
        let e : w ≡ r_type 0x6F rd (imm / 2 ^ 12 % 2 ^ 3) (imm / 2 ^ 15 % 2 ^ 5) x2 x7 =
          omega arith in
        let (eo, ed, ef, ea, eb, eg) =
          r_type_fields 0x6F rd (imm / 2 ^ 12 % 2 ^ 3) (imm / 2 ^ 15 % 2 ^ 5) x2 x7 (omega arith) d
            (omega arith) (omega arith) (omega arith) (omega arith) in
        let jo = ap get_opcode e ∙ eo in
        let jd = ap get_rd e ∙ ed in
        let ji = j_imm-j_type 0x6F rd funct3 rs1 rs2 imm (omega arith) d f a b h even in
        exec_word w (ground (arith, jo)) ∙ simp (jo, jd, ji)

-- With the program counter a multiple of 4, `exec` runs a word of the R format with opcode 0x33, of
-- the I format with opcode 0x03 or 0x67, of the S format with opcode 0x23, of the B format with
-- opcode 0x63 and of the J format with opcode 0x6F by the table of its function fields, on
-- its registers and its immediate: signed of 12 bits, or even and signed of 13 and of 21 bits.
pub exec-type :
    (allocated : Bool) (float : FloatLibrary) (m : Machine)
    (funct3 funct7 rd rs1 rs2 imm12 imm13 imm21 : ℕ)
    → bit_and m.pc 3 ≡ 0
    → funct3 < 2 ^ 3
    → funct7 < 2 ^ 7
    → Operands rd rs1 rs2
    → IsSigned 12 imm12
    → IsSigned 13 imm13 × (imm13 % 2 ≡ 0)
    → IsSigned 21 imm21 × (imm21 % 2 ≡ 0)
    → let run = λ (w : ℕ). exec allocated float w m in
      (run (r_type 0x33 rd funct3 rs1 rs2 funct7) ≡ exec_r funct3 funct7 rs2 rs1 rd m)
      × (run (i_type 0x03 rd funct3 rs1 imm12) ≡ exec_load imm12 funct3 rs1 rd m)
      × (run (i_type 0x67 rd funct3 rs1 imm12) ≡ running (insi_i_jalr imm12 rs1 rd m))
      × (run (s_type 0x23 funct3 rs1 rs2 imm12) ≡ exec_store imm12 funct3 rs2 rs1 m)
      × (run (b_type 0x63 funct3 rs1 rs2 imm13) ≡ exec_branch imm13 funct3 rs2 rs1 m)
      × (run (j_type 0x6F rd imm21) ≡ running (insi_j_jal imm21 rd m))
exec-type allocated float m funct3 funct7 rd rs1 rs2 imm12 imm13 imm21 p f g o h (k, even)
      (l, even') =
    let (load, jalr) = exec-i_type allocated float m p funct3 rd rs1 rs2 f o imm12 h in
    (
      exec-r_type allocated float m p funct3 rd rs1 rs2 f o funct7 g,
      load,
      jalr,
      exec-s_type allocated float m p funct3 rd rs1 rs2 f o imm12 h,
      exec-b_type allocated float m p funct3 rd rs1 rs2 f o imm13 k even,
      exec-j_type allocated float m p funct3 rd rs1 rs2 f o imm21 l even',
    )
