-- ===== src/Exec/Dispatch.antt =====
-- `exec` of src/exec.c: the alignment of the fetch, compressed instructions, and the opcodes.
use riscvemu.Base.{ℕ, Bool, not, ◌&&◌, ◌==◌, nonzero, if◌then◌else◌, bit_and, ◌>>>◌}
use riscvemu.Outcome.{Outcome, running, fatal}
use riscvemu.Machine.{Machine}
use riscvemu.System.{raise_exception_pc, raise_illegal, misa_c_enabled, cause_misaligned_fetch}
use riscvemu.Integer.{insi_u_lui, insi_u_auipc}
use riscvemu.Jump.{insi_j_jal, insi_i_jalr}
use riscvemu.Compressed.{exec_c_insn}
use riscvemu.Exec.Decode.{
  get_opcode, get_rd, get_funct3, get_rs1, get_rs2, get_funct7, i_imm, s_imm, b_imm, j_imm, u_imm,
}
use riscvemu.Exec.System.{exec_system}
use riscvemu.Float.Arith.{insf_r_fma}
use riscvemu.Float.Formats.{FloatLibrary, insf_r_fpop}
use riscvemu.Exec.{
  exec_r, exec_i, exec_load, exec_store, exec_fp_load, exec_fp_store, unless_off, exec_branch,
  exec_atomic, exec_fence,
}

-- `allocated` is whether the map of reservations gets memory when it grows; `float` is the
-- float library that the instructions of src/extension/f_extension.c call.
module _ (allocated : Bool) (float : FloatLibrary) where
  unfoldable pub exec_opcode : ℕ → Machine → Outcome
  exec_opcode ins m =
      let opcode = get_opcode ins in
      let funct3 = get_funct3 ins in
      let funct7 = get_funct7 ins in
      let rs1 = get_rs1 ins in
      let rs2 = get_rs2 ins in
      let rd = get_rd ins in
      if opcode == 0b0110011
      then exec_r funct3 funct7 rs2 rs1 rd m
      else if opcode == 0b0010011
      then exec_i ins funct3 funct7 rs1 rd m
      else if opcode == 0b0000011
      then exec_load (i_imm ins) funct3 rs1 rd m
      else if opcode == 0b0100011
      then exec_store (s_imm ins) funct3 rs2 rs1 m
      else if opcode == 0b0000111
      then unless_off ins m (exec_fp_load (i_imm ins) funct3 rs1 rd m)
      else if opcode == 0b0100111
      then unless_off ins m (exec_fp_store (s_imm ins) funct3 rs2 rs1 m)
      else if opcode == 0b1000011
      then unless_off ins m (
          insf_r_fma float.f32.arithmetic float.f64.arithmetic float.f16.arithmetic
            float.f128.arithmetic ins 0 m)
      else if opcode == 0b1000111
      then unless_off ins m (
          insf_r_fma float.f32.arithmetic float.f64.arithmetic float.f16.arithmetic
            float.f128.arithmetic ins 1 m)
      else if opcode == 0b1001011
      then unless_off ins m (
          insf_r_fma float.f32.arithmetic float.f64.arithmetic float.f16.arithmetic
            float.f128.arithmetic ins 2 m)
      else if opcode == 0b1001111
      then unless_off ins m (
          insf_r_fma float.f32.arithmetic float.f64.arithmetic float.f16.arithmetic
            float.f128.arithmetic ins 3 m)
      else if opcode == 0b1010011
      then unless_off ins m (insf_r_fpop float ins m)
      else if opcode == 0b0101111
      then if funct3 == 0x2
        then exec_atomic allocated (bit_and (ins >>> 27) 0x1F) rs1 rs2 rd m
        else fatal
      else if opcode == 0b1100011
      then exec_branch (b_imm ins) funct3 rs2 rs1 m
      else if opcode == 0b1101111
      then running (insi_j_jal (j_imm ins) rd m)
      else if opcode == 0b0110111
      then running (insi_u_lui (u_imm ins) rd m)
      else if opcode == 0b0010111
      then running (insi_u_auipc (u_imm ins) rd m)
      else if opcode == 0b1100111
      then running (insi_i_jalr (i_imm ins) rs1 rd m)
      else if opcode == 0b1110011
      then exec_system ins m
      else if opcode == 0b0001111
      then exec_fence funct3 m
      else running (raise_illegal ins m)

  unfoldable pub exec : ℕ → Machine → Outcome
  exec ins m =
      if nonzero (bit_and m.pc (if nonzero (misa_c_enabled m) then 1 else 3))
      then running (raise_exception_pc cause_misaligned_fetch m.pc m.prev_ins_pc m)
      else if nonzero (misa_c_enabled m) && not (bit_and (get_opcode ins) 3 == 3)
      then running (exec_c_insn (bit_and ins 0xFFFF) m).0
      else exec_opcode ins m
