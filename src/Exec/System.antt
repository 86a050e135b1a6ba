-- ===== src/Exec/System.antt =====
-- The SYSTEM opcode of src/exec.c.
use riscvemu.Base.{ℕ, ◌&&◌, ◌==◌, nonzero, if◌then◌else◌, bit_and, ◌>>>◌}
use riscvemu.Outcome.{Outcome, running, fatal}
use riscvemu.Machine.{Machine}
use riscvemu.System.{ins_sret, ins_mret, ins_mnret, ins_sfence_vma}
use riscvemu.Jump.{insi_i_ecall, insi_i_ebreak}
use riscvemu.Zicsr.{
  ins_zicsr_csrrw, ins_zicsr_csrrs, ins_zicsr_csrrc, ins_zicsr_csrrwi, ins_zicsr_csrrsi,
  ins_zicsr_csrrci,
}
use riscvemu.Exec.Decode.{get_funct3, get_funct7, get_rs1, get_rd}

-- The instructions without operands; WFI and SCTRCLR only log.
unfoldable pub exec_plain_system : ℕ → ℕ → Machine → Outcome
exec_plain_system imm funct7 m =
    if imm == 0x000
    then running (insi_i_ecall m)
    else if imm == 0x001
    then running (insi_i_ebreak m)
    else if imm == 0x102
    then running (ins_sret m)
    else if imm == 0x302
    then running (ins_mret m)
    else if imm == 0x702
    then running (ins_mnret m)
    else if imm == 0x104
    then running m
    else if imm == 0x105
    then running m
    else if funct7 == 0b0001001
    then running (ins_sfence_vma m)
    else fatal

unfoldable pub exec_system : ℕ → Machine → Outcome
exec_system ins m =
    let funct3 = get_funct3 ins in
    let funct7 = get_funct7 ins in
    let rs1 = get_rs1 ins in
    let rd = get_rd ins in
    let csr = bit_and (ins >>> 20) 0xFFF in
    if funct3 == 0
    then if rs1 == 0 && rd == 0
      then exec_plain_system csr funct7 m
      else if funct7 == 0b0001001
      then if nonzero rd then fatal else running (ins_sfence_vma m)
      else fatal
    else if funct3 == 1
    then running (ins_zicsr_csrrw rs1 rd csr ins m)
    else if funct3 == 2
    then running (ins_zicsr_csrrs rs1 rd csr ins m)
    else if funct3 == 3
    then running (ins_zicsr_csrrc rs1 rd csr ins m)
    else if funct3 == 5
    then running (ins_zicsr_csrrwi rs1 rd csr ins m)
    else if funct3 == 6
    then running (ins_zicsr_csrrsi rs1 rd csr ins m)
    else if funct3 == 7
    then running (ins_zicsr_csrrci rs1 rd csr ins m)
    else fatal
