-- ===== src/Zicsr.antt =====
-- `check_csr_access` of include/extension/zicsr_extension.h and the six instructions of
-- src/extension/zicsr_extension.c. The check raises a trap and returns, and the instruction goes on.
pub mod Swap
use riscvemu.Base.{
  ℕ, ◌-◌, ◌^◌, ◌<◌, ◌≡◌, ◌∙◌, refl, ap, Bool, true, false, not, ◌&&◌, ltb, ◌==◌, nonzero,
  if◌then◌else◌, bit_and, bit_or, not32,
}
use riscvemu.Machine.{Machine, reg_read, reg_write, prv_supervisor}
use riscvemu.Csr.Numbers.{csr_mstatus, csr_satp, csr_mtvec, mstatus_tvm}
use riscvemu.Csr.Table.{csr_table}
use riscvemu.Csr.Access.{csr_read, csr_write}
use riscvemu.System.{raise_exception, cause_illegal_instruction}

unfoldable pub is_accessible : ℕ → Machine → Bool
is_accessible csr m =
    if not (csr_table csr).valid
    then false
    else if ltb m.privilege (csr_table csr).privilege
    then false
    else not (
        (csr == csr_satp && m.privilege == prv_supervisor)
        && nonzero (bit_and (m.csr_value csr_mstatus) mstatus_tvm))

unfoldable pub check_csr_access : ℕ → ℕ → Machine → Machine
check_csr_access csr ins m =
    if is_accessible csr m then m else raise_exception cause_illegal_instruction ins m

-- `if (rd != 0) reg_write(rd, old_val);`
abbrev pub write_back : ℕ → ℕ → Machine → Machine
write_back rd old_val m = if rd == 0 then m else reg_write rd old_val m

unfoldable pub ins_zicsr_csrrw : ℕ → ℕ → ℕ → ℕ → Machine → Machine
ins_zicsr_csrrw rs1 rd csr ins m =
    let m = check_csr_access csr ins m in
    let old_val = csr_read csr m in
    let m = csr_write csr (reg_read rs1 m) m in write_back rd old_val m

unfoldable pub ins_zicsr_csrrs : ℕ → ℕ → ℕ → ℕ → Machine → Machine
ins_zicsr_csrrs rs1 rd csr ins m =
    let m = check_csr_access csr ins m in
    let old_val = csr_read csr m in
    let m = if rs1 == 0 then m else csr_write csr (bit_or old_val (reg_read rs1 m)) m in
    write_back rd old_val m

unfoldable pub ins_zicsr_csrrc : ℕ → ℕ → ℕ → ℕ → Machine → Machine
ins_zicsr_csrrc rs1 rd csr ins m =
    let m = check_csr_access csr ins m in
    let old_val = csr_read csr m in
    let m = if rs1 == 0 then m else csr_write csr (bit_and old_val (not32 (reg_read rs1 m))) m in
    write_back rd old_val m

unfoldable pub ins_zicsr_csrrwi : ℕ → ℕ → ℕ → ℕ → Machine → Machine
ins_zicsr_csrrwi uimm rd csr ins m =
    let m = check_csr_access csr ins m in
    let old_val = csr_read csr m in
    let m = csr_write csr (bit_and uimm 0x1F) m in write_back rd old_val m

unfoldable pub ins_zicsr_csrrsi : ℕ → ℕ → ℕ → ℕ → Machine → Machine
ins_zicsr_csrrsi uimm rd csr ins m =
    let m = check_csr_access csr ins m in
    let old_val = csr_read csr m in
    let m = if uimm == 0 then m else csr_write csr (bit_or old_val (bit_and uimm 0x1F)) m in
    write_back rd old_val m

unfoldable pub ins_zicsr_csrrci : ℕ → ℕ → ℕ → ℕ → Machine → Machine
ins_zicsr_csrrci uimm rd csr ins m =
    let m = check_csr_access csr ins m in
    let old_val = csr_read csr m in
    let m =
      if uimm == 0 then m else csr_write csr (bit_and old_val (not32 (bit_and uimm 0x1F))) m in
    write_back rd old_val m
