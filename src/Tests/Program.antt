-- ===== src/Tests/Program.antt =====
-- Examples of decoding, compressed jumps and the main loop.
use riscvemu.Base.{ℕ, zero, suc, ◌+◌, ◌*◌, ◌%◌, ◌≡◌, refl, inr, true, false, u32, arith}
use riscvemu.Outcome.{running}
use riscvemu.Machine.{Machine, reg_read}
use riscvemu.System.{misa_c_enabled}
use riscvemu.Jump.{insi_b_bne, insi_b_blt}
use riscvemu.Jump.Target.{is_fetchable}
use riscvemu.Compressed.{exec_c_insn}
use riscvemu.Compressed.Forms.{c_bnez, exec_c_insn-expand}
use riscvemu.Compressed.Jumps.{c_jr-c_jalr}
use riscvemu.Exec.Dispatch.{exec}
use riscvemu.Exec.Instructions.{branch_by, blt}
use riscvemu.Exec.Encodes.{exec-encode}
use riscvemu.Float.{
  fclass_s, fclass_d, fclass_h, is_nan_s, is_nan_d, is_nan_h, is_signaling_nan_s,
  is_signaling_nan_d, is_signaling_nan_h,
}
use riscvemu.Float.Formats.{FormatLibrary, FloatLibrary}
use riscvemu.Float.Classes.{Agrees, fclass-is_nan}
use riscvemu.Tests.{user_hart}

-- A loop of three instructions.
abbrev spinning : ℕ → ℕ
spinning k = 0x80000040 + k % 3 * 4

-- A trap, then the rounds of the loop.
abbrev after_trap : ℕ → Machine
after_trap zero = record (user_hart) { just_trapped = true }
after_trap (suc n) = user_hart

abbrev returning : Machine
returning = record (user_hart) { gpr = λ i. 0x80000200 }

returning-fetchable : is_fetchable (reg_read 1 returning) returning ≡ true
unfolding is_fetchable misa_c_enabled reg_read
returning-fetchable = refl

c_jr-c_jalr_example :
    let s = (exec_c_insn 0x8082 returning).0 in
    let t = (exec_c_insn 0x9082 returning).0 in
    (u32 (s.pc + 4) ≡ 0x80000200)
    × (s.gpr ≡ returning.gpr)
    × (reg_read 1 t ≡ 0x80000102)
    × (u32 (t.pc + 4) ≡ 0x80000102)
unfolding reg_read
c_jr-c_jalr_example =
    c_jr-c_jalr 1 returning (omega arith) (omega arith) (omega arith) returning-fetchable

-- C.BNEZ of x8 back by 4.
exec_c_insn-expand_example : exec_c_insn 0xFC75 returning ≡ (insi_b_bne 0xFFFFFFFC 0 8 returning, 0)
unfolding reg_read misa_c_enabled
exec_c_insn-expand_example =
    exec_c_insn-expand (c_bnez 8 0xFFFFFFFC) returning
      ((omega arith, omega arith), (inr (omega arith, omega arith), refl)) refl refl

-- A library whose results are all 0.
abbrev zeros : {A : Type 0} → A → FormatLibrary A
zeros z = record {
  arithmetic = record {
    add = λ r a b. (z, 0);
    sub = λ r a b. (z, 0);
    mul = λ r a b. (z, 0);
    div = λ r a b. (z, 0);
    sqrt = λ r a. (z, 0);
    mul_add = λ r a b c. (z, 0);
  };
  comparisons = record { eq = λ a b. false; lt = λ a b. false; le = λ a b. false };
  integers = record {
    to_i32 = λ r a. (0, 0);
    to_ui32 = λ r a. (0, 0);
    to_i64 = λ r a. (0, 0);
    to_ui64 = λ r a. (0, 0);
    i32_to = λ r n. (z, 0);
    ui32_to = λ r n. (z, 0);
    i64_to = λ r n. (z, 0);
    ui64_to = λ r n. (z, 0);
  };
  widths = record {
    to_f32 = λ r a. (0, 0);
    to_f64 = λ r a. (0, 0);
    to_f16 = λ r a. (0, 0);
    to_f128 = λ a. (0, 0);
  };
}

abbrev no_float : FloatLibrary
no_float = record { f32 = zeros 0; f64 = zeros 0; f16 = zeros 0; f128 = zeros (0, 0) }

-- BLT x6, x7 back by 256.
exec-encode_example :
    exec true no_float 0xF07340E3 user_hart ≡ running (insi_b_blt 0xFFFFFF00 7 6 user_hart)
exec-encode_example =
    exec-encode true no_float user_hart refl (branch_by blt 6 7 0xFFFFFF00)
      ((omega arith, omega arith, omega arith), (inr (omega arith, omega arith), refl))

-- A signaling NaN in single precision.
fclass-is_nan_example :
    Agrees (fclass_s 0x7F800001) (is_nan_s 0x7F800001) (is_signaling_nan_s 0x7F800001)
    × Agrees (fclass_d 0x7F800001) (is_nan_d 0x7F800001) (is_signaling_nan_d 0x7F800001)
    × Agrees (fclass_h 0x7F800001) (is_nan_h 0x7F800001) (is_signaling_nan_h 0x7F800001)
fclass-is_nan_example = fclass-is_nan 0x7F800001
