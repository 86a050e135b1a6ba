-- ===== src/Zicsr/Swap.antt =====
-- What CSRRW does to mtvec, at every privilege.
use riscvemu.Base.{
  arith, ℕ, ◌<◌, ◌≡◌, ◌≢◌, ◌∙◌, refl, inl, inr, ltb, true, false, Bool-cases, ap, ◌==◌,
  if◌then◌else◌, if_both,
}
use riscvemu.Machine.{Machine, reg_read, reg_write}
use riscvemu.Csr.Numbers.{csr_mtvec}
use riscvemu.Csr.Table.{csr_table}
use riscvemu.Csr.Access.{csr_read, csr_write, run_read, run_write}
use riscvemu.System.Trap.{IsTrap, raise_exception_pc-IsTrap}
use riscvemu.System.{
  raise_exception, raise_exception_pc, raise_machine_exception, raise_supervisor_exception,
  clear_reservations, cause_illegal_instruction,
}
use riscvemu.Csr.Status.{mstatus_read, mstatus_write, sstatus_write}
use riscvemu.Zicsr.{is_accessible, check_csr_access, write_back, ins_zicsr_csrrw}

-- A trap changes neither mtvec nor a general register.
trap-keeps :
    (cause tval : ℕ) (m : Machine)
    → let t = raise_exception cause tval m in
      (t.csr_value csr_mtvec ≡ m.csr_value csr_mtvec) × (t.gpr ≡ m.gpr)
unfolding raise_exception raise_exception_pc raise_machine_exception raise_supervisor_exception
    clear_reservations csr_read csr_write run_read run_write csr_table mstatus_read mstatus_write
    sstatus_write
trap-keeps cause tval m =
    if_both (λ (t : Machine). (t.csr_value csr_mtvec ≡ m.csr_value csr_mtvec) × (t.gpr ≡ m.gpr)) _
      (refl, refl) (refl, refl)

check-keeps :
    (ins : ℕ) (m : Machine)
    → let t = check_csr_access csr_mtvec ins m in
      (t.csr_value csr_mtvec ≡ m.csr_value csr_mtvec) × (t.gpr ≡ m.gpr)
unfolding check_csr_access
check-keeps ins m =
    if_both (λ (t : Machine). (t.csr_value csr_mtvec ≡ m.csr_value csr_mtvec) × (t.gpr ≡ m.gpr))
      (is_accessible csr_mtvec m) (refl, refl) (trap-keeps cause_illegal_instruction ins m)

-- The swap after the check.
swap : ℕ → ℕ → Machine → Machine
swap rs1 rd m = write_back rd (csr_read csr_mtvec m) (csr_write csr_mtvec (reg_read rs1 m) m)

swap_mtvec :
    (rs1 rd : ℕ) (m : Machine)
    → ((swap rs1 rd m).csr_value csr_mtvec ≡ reg_read rs1 m)
      × (reg_read rd (swap rs1 rd m) ≡ (if rd == 0 then 0 else m.csr_value csr_mtvec))
unfolding swap csr_read csr_write run_read run_write csr_table reg_write reg_read
swap_mtvec rs1 rd m = ground arith

-- What the swap leaves as it was.
swap-kept :
    (rs1 rd k : ℕ) (m : Machine)
    → ((swap rs1 rd m).privilege ≡ m.privilege)
      × ((swap rs1 rd m).pc ≡ m.pc)
      × (k ≢ csr_mtvec → (swap rs1 rd m).csr_value k ≡ m.csr_value k)
unfolding swap csr_read csr_write run_read run_write csr_table reg_write reg_read
swap-kept rs1 rd k m = ground arith

-- The state after the check: a trap, except in machine mode.
abbrev pub IsChecked : ℕ → Machine → Machine → Type 0
IsChecked ins m c = if m.privilege == 3 then c ≡ m else IsTrap 2 ins m.pc m c

check_csr_access-IsChecked :
    (ins : ℕ) (m : Machine) → m.privilege < 4 → IsChecked ins m (check_csr_access csr_mtvec ins m)
unfolding check_csr_access is_accessible csr_table raise_exception
check_csr_access-IsChecked ins m h =
    let trap = raise_exception_pc-IsTrap 2 ins m.pc m h in
    elim (Bool-cases (m.privilege == 3)) [
      | inl e ↦ let f : ltb m.privilege 3 ≡ false = ground (arith, e) in rw (e, f) refl
      | inr e ↦ let f : ltb m.privilege 3 ≡ true = ground (arith, e) in rw (e, f) trap
    ]

same_read : (rs1 : ℕ) (m n : Machine) → n.gpr ≡ m.gpr → reg_read rs1 n ≡ reg_read rs1 m
unfolding reg_read
same_read rs1 m n e = rw e refl

-- From a privilege below 4, CSRRW on mtvec stores the source register in it and gives the old mtvec
-- to the destination, when that is not x0. Below machine mode it has first raised an
-- illegal-instruction trap with the word as the trap value; the privilege, the program counter and
-- all other control registers are those after that trap, and in machine mode those before.
pub ins_zicsr_csrrw-mtvec :
    (rs1 rd ins : ℕ) (m : Machine)
    → m.privilege < 4
    → let t = ins_zicsr_csrrw rs1 rd csr_mtvec ins m in
      (t.csr_value csr_mtvec ≡ reg_read rs1 m)
      × (reg_read rd t ≡ (if rd == 0 then 0 else m.csr_value csr_mtvec))
      × (c : Machine) × IsChecked ins m c
      × (t.privilege ≡ c.privilege)
      × (t.pc ≡ c.pc)
      × ((k : ℕ) → k ≢ csr_mtvec → t.csr_value k ≡ c.csr_value k)
unfolding ins_zicsr_csrrw swap
ins_zicsr_csrrw-mtvec rs1 rd ins m h =
    let c = check_csr_access csr_mtvec ins m in
    let (e, g) = check-keeps ins m in
    let (w, r) = swap_mtvec rs1 rd c in
    let (p, q, others) = swap-kept rs1 rd 0 c in
    (
      w ∙ same_read rs1 m c g,
      r ∙ ap (λ (t : ℕ). if rd == 0 then 0 else t) e,
      c,
      check_csr_access-IsChecked ins m h,
      p,
      q,
      λ k. (swap-kept rs1 rd k c).2,
    )
