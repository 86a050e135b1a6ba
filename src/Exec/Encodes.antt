-- ===== src/Exec/Encodes.antt =====
-- `exec` of src/exec.c on the words of the instructions.
use riscvemu.Float.Formats.{FloatLibrary}
use riscvemu.Base.{
  ℕ, ◌+◌, ◌*◌, ◌/◌, ◌%◌, ◌^◌, ◌<◌, ◌≡◌, ◌∙◌, ap, sym, inl, refl, Bool, bit_and, arith,
}
use riscvemu.Bits.{bit_and-ones}
use riscvemu.Outcome.{running}
use riscvemu.Machine.{Machine}
use riscvemu.Exec.{m_ins_optable, exec_alu, exec_r, exec_i, exec_load, exec_store, exec_branch}
use riscvemu.Exec.Decode.{i_imm}
use riscvemu.Exec.Dispatch.{exec, exec_opcode}
use riscvemu.Exec.Formats.{r_type, i_type, r_type_fields, i_imm-i_type}
use riscvemu.Exec.Encoded.{Operands, exec_word, exec-type}
use riscvemu.Exec.Instructions.{
  Register, Immediate, Shift, Load, Store, Branch, Instruction, encode, effect, IsEncodable,
  register_code, register_effect, immediate_code, immediate_effect, shift_code, shift_effect,
  load_code, load_effect, store_code, store_effect, branch_code, branch_effect, register, immediate,
  shift, load_from, store_to, branch_by, jal, jalr, add, sub, sll, slt, sltu, xor, srl, sra, or,
  and, mul, mulh, mulhsu, mulhu, div, divu, rem, remu, addi, slti, sltiu, xori, ori, andi, slli,
  srli, srai, lb, lh, lw, lbu, lhu, sb, sh, sw, beq, bne, blt, bge, bltu, bgeu,
}

-- What the tables of src/exec.c do with the codes of each operation.
register-run :
    (o : Register) (rs2 rs1 rd : ℕ) (m : Machine)
    → (((register_code o).0 < 2 ^ 3) × ((register_code o).1 < 2 ^ 7))
      × (exec_r (register_code o).0 (register_code o).1 rs2 rs1 rd m
          ≡ running (register_effect o rs2 rs1 rd m))
unfolding exec_r exec_alu m_ins_optable
register-run add rs2 rs1 rd m = ((omega arith, omega arith), refl)
register-run sub rs2 rs1 rd m = ((omega arith, omega arith), refl)
register-run sll rs2 rs1 rd m = ((omega arith, omega arith), refl)
register-run slt rs2 rs1 rd m = ((omega arith, omega arith), refl)
register-run sltu rs2 rs1 rd m = ((omega arith, omega arith), refl)
register-run xor rs2 rs1 rd m = ((omega arith, omega arith), refl)
register-run srl rs2 rs1 rd m = ((omega arith, omega arith), refl)
register-run sra rs2 rs1 rd m = ((omega arith, omega arith), refl)
register-run or rs2 rs1 rd m = ((omega arith, omega arith), refl)
register-run and rs2 rs1 rd m = ((omega arith, omega arith), refl)
register-run mul rs2 rs1 rd m = ((omega arith, omega arith), refl)
register-run mulh rs2 rs1 rd m = ((omega arith, omega arith), refl)
register-run mulhsu rs2 rs1 rd m = ((omega arith, omega arith), refl)
register-run mulhu rs2 rs1 rd m = ((omega arith, omega arith), refl)
register-run div rs2 rs1 rd m = ((omega arith, omega arith), refl)
register-run divu rs2 rs1 rd m = ((omega arith, omega arith), refl)
register-run rem rs2 rs1 rd m = ((omega arith, omega arith), refl)
register-run remu rs2 rs1 rd m = ((omega arith, omega arith), refl)

load-run :
    (o : Load) (imm rs1 rd : ℕ) (m : Machine)
    → ((load_code o < 2 ^ 3))
      × (exec_load imm (load_code o) rs1 rd m ≡ running (load_effect o imm rs1 rd m))
unfolding exec_load
load-run lb imm rs1 rd m = (omega arith, refl)
load-run lh imm rs1 rd m = (omega arith, refl)
load-run lw imm rs1 rd m = (omega arith, refl)
load-run lbu imm rs1 rd m = (omega arith, refl)
load-run lhu imm rs1 rd m = (omega arith, refl)

store-run :
    (o : Store) (imm rs2 rs1 : ℕ) (m : Machine)
    → ((store_code o < 2 ^ 3))
      × (exec_store imm (store_code o) rs2 rs1 m ≡ running (store_effect o imm rs2 rs1 m))
unfolding exec_store
store-run sb imm rs2 rs1 m = (omega arith, refl)
store-run sh imm rs2 rs1 m = (omega arith, refl)
store-run sw imm rs2 rs1 m = (omega arith, refl)

branch-run :
    (o : Branch) (imm rs2 rs1 : ℕ) (m : Machine)
    → ((branch_code o < 2 ^ 3))
      × (exec_branch imm (branch_code o) rs2 rs1 m ≡ running (branch_effect o imm rs2 rs1 m))
unfolding exec_branch
branch-run beq imm rs2 rs1 m = (omega arith, refl)
branch-run bne imm rs2 rs1 m = (omega arith, refl)
branch-run blt imm rs2 rs1 m = (omega arith, refl)
branch-run bge imm rs2 rs1 m = (omega arith, refl)
branch-run bltu imm rs2 rs1 m = (omega arith, refl)
branch-run bgeu imm rs2 rs1 m = (omega arith, refl)

immediate-run :
    (o : Immediate) (w rs1 rd funct7 : ℕ) (m : Machine)
    → (immediate_code o < 2 ^ 3)
      × (exec_i w (immediate_code o) funct7 rs1 rd m
          ≡ running (immediate_effect o (i_imm w) rs1 rd m))
unfolding exec_i
immediate-run addi w rs1 rd funct7 m = (omega arith, refl)
immediate-run slti w rs1 rd funct7 m = (omega arith, refl)
immediate-run sltiu w rs1 rd funct7 m = (omega arith, refl)
immediate-run xori w rs1 rd funct7 m = (omega arith, refl)
immediate-run ori w rs1 rd funct7 m = (omega arith, refl)
immediate-run andi w rs1 rd funct7 m = (omega arith, refl)

shift-run :
    (o : Shift) (w rs1 rd : ℕ) (m : Machine)
    → ((shift_code o).0 < 2 ^ 3)
      × ((shift_code o).1 < 2 ^ 6)
      × (exec_i w (shift_code o).0 (shift_code o).1 rs1 rd m
          ≡ running (shift_effect o (bit_and (i_imm w) 0x1F) rs1 rd m))
unfolding exec_i
shift-run slli w rs1 rd m = (omega arith, omega arith, refl)
shift-run srli w rs1 rd m = (omega arith, omega arith, refl)
shift-run srai w rs1 rd m = (omega arith, omega arith, refl)

module _ (allocated : Bool) (float : FloatLibrary) (m : Machine)
    (aligned : bit_and m.pc 3 ≡ 0) where
  exec-immediate :
      (funct3 funct7 rd rs1 rs2 : ℕ)
      → funct3 < 2 ^ 3
      → funct7 < 2 ^ 7
      → Operands rd rs1 rs2
      → let w = r_type 0x13 rd funct3 rs1 rs2 funct7 in
        exec allocated float w m ≡ exec_i w funct3 funct7 rs1 rd m
  unfolding exec_opcode
  exec-immediate funct3 funct7 rd rs1 rs2 f g (d, a, b) =
      let w = r_type 0x13 rd funct3 rs1 rs2 funct7 in
      let (eo, ed, ef, ea, eb, eg) =
        r_type_fields 0x13 rd funct3 rs1 rs2 funct7 (omega arith) d f a b g in
      exec_word allocated float m aligned w (omega (arith, eo)) ∙ simp (eo, ed, ef, ea, eg)

  -- With the program counter a multiple of 4, `exec` runs the word of each register, immediate,
  -- shift, load, store, branch and jump instruction of the base set, and of each of the M
  -- extension, as the function of that instruction, on its registers and its immediate: signed of
  -- 12 bits, a shift below 32, or even and signed of 13 and of 21 bits.
  pub exec-encode :
      (i : Instruction) → IsEncodable i → exec allocated float (encode i) m ≡ running (effect i m)
  exec-encode (register o rd rs1 rs2) h =
      let ((f, g), e) = register-run o rs2 rs1 rd m in
      (exec-type allocated float m (register_code o).0 (register_code o).1 rd rs1 rs2 0 0 0 aligned
        f g h (inl (omega arith)) (inl (omega arith), refl) (inl (omega arith), refl)).0
      ∙ e
  exec-encode (immediate o rd rs1 imm) ((d, a, b), h) =
      let f = (immediate-run o 0 rs1 rd 0 m).0 in
      let w = encode (immediate o rd rs1 imm) in
      let same : w ≡ r_type 0x13 rd (immediate_code o) rs1 (imm % 2 ^ 5) (imm / 2 ^ 5 % 2 ^ 7) =
        omega arith in
      let run =
        exec-immediate (immediate_code o) (imm / 2 ^ 5 % 2 ^ 7) rd rs1 (imm % 2 ^ 5) f (omega arith)
          (d, a, omega arith) in
      let i = i_imm-i_type 0x13 rd (immediate_code o) rs1 0 imm (omega arith) d f a b h in
      let split = r_type 0x13 rd (immediate_code o) rs1 (imm % 2 ^ 5) (imm / 2 ^ 5 % 2 ^ 7) in
      let e = (immediate-run o split rs1 rd (imm / 2 ^ 5 % 2 ^ 7) m).1 in
      ap (λ (t : ℕ). exec allocated float t m) same
      ∙ run
      ∙ e
      ∙ ap (λ (t : ℕ). running (immediate_effect o t rs1 rd m)) (ap i_imm (sym same) ∙ i)
  exec-encode (shift o rd rs1 shamt) (d, a, b) =
      let (f, g, e) = shift-run o (encode (shift o rd rs1 shamt)) rs1 rd m in
      let imm = shamt + (shift_code o).1 * 2 ^ 5 in
      let same : i_type 0x13 rd (shift_code o).0 rs1 imm ≡ encode (shift o rd rs1 shamt) =
        omega (arith, g, b) in
      let i =
        i_imm-i_type 0x13 rd (shift_code o).0 rs1 0 imm (omega arith) d f a (omega arith)
          (inl (omega (arith, g, b))) in
      let low : bit_and imm 0x1F ≡ shamt = omega (arith, bit_and-ones 5 imm, b) in
      exec-immediate (shift_code o).0 (shift_code o).1 rd rs1 shamt f (omega (arith, g)) (d, a, b)
      ∙ e
      ∙ ap (λ (t : ℕ). running (shift_effect o t rs1 rd m))
          (ap (λ (t : ℕ). bit_and t 0x1F) (ap i_imm (sym same) ∙ i) ∙ low)
  exec-encode (load_from o rd rs1 imm) (r, h) =
      let (f, e) = load-run o imm rs1 rd m in
      (exec-type allocated float m (load_code o) 0 rd rs1 0 imm 0 0 aligned f (omega arith) r h
        (inl (omega arith), refl) (inl (omega arith), refl)).1
      ∙ e
  exec-encode (store_to o rs1 rs2 imm) (r, h) =
      let (f, e) = store-run o imm rs2 rs1 m in
      (exec-type allocated float m (store_code o) 0 0 rs1 rs2 imm 0 0 aligned f (omega arith) r h
        (inl (omega arith), refl) (inl (omega arith), refl)).3
      ∙ e
  exec-encode (branch_by o rs1 rs2 imm) (r, h) =
      let (f, e) = branch-run o imm rs2 rs1 m in
      (exec-type allocated float m (branch_code o) 0 0 rs1 rs2 0 imm 0 aligned f (omega arith) r
        (inl (omega arith)) h (inl (omega arith), refl)).4
      ∙ e
  exec-encode (jal rd imm) (r, h) =
      (exec-type allocated float m 0 0 rd 0 0 0 0 imm aligned (omega arith) (omega arith) r
        (inl (omega arith)) (inl (omega arith), refl) h).5
  exec-encode (jalr rd rs1 imm) (r, h) =
      (exec-type allocated float m 0 0 rd rs1 0 imm 0 0 aligned (omega arith) (omega arith) r h
        (inl (omega arith), refl) (inl (omega arith), refl)).2
