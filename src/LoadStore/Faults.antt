-- ===== src/LoadStore/Faults.antt =====
-- What a load of include/basic_instructions.h does when its translation faults.
use riscvemu.Base.{ℕ, ◌<◌, ◌≡◌, refl, ap, Option, true, false, bit_and, none, arith}
use riscvemu.Bits.{bit_and-ones}
use riscvemu.Machine.{Machine, reg_write}
use riscvemu.Trigger.{sdtrig_check_load_trigger}
use riscvemu.Mmu.{load, mmu_translate, effective_privilege, mmu_vm_active}
use riscvemu.Mmu.Walk.{IsTranslation}
use riscvemu.Mmu.Fault.{mmu_translate-fault}
use riscvemu.System.Trap.{IsTrap}
use riscvemu.Mmu.Access.{
  mmu_read8_unsigned, mmu_read8_signed, mmu_read16_unsigned, mmu_read16_signed, mmu_read32_signed,
}
use riscvemu.LoadStore.{
  guarded_load, effective, insi_i_lb, insi_i_lh, insi_i_lw, insi_i_lbu, insi_i_lhu,
}

guarded_load-fault :
    (mask addr rd : ℕ) (read : ℕ → Machine → ℕ × Machine) (m t : Machine)
    → bit_and addr mask ≡ 0
    → sdtrig_check_load_trigger addr m ≡ (m, false)
    → read addr m ≡ (0, t)
    → guarded_load mask read addr rd m ≡ reg_write rd 0 t
unfolding guarded_load
guarded_load-fault mask addr rd read m t aligned passes e = simp (passes, aligned, e)

-- A load of a byte, half word or word, from a privilege below 4, at an address that is a multiple
-- of 4 and passes the triggers, where translation is active and the walk has no granted leaf for
-- it, traps with cause 13, the address as the trap value, from the program counter, in the mode
-- that medeleg says, and then also clears its destination register.
pub load-fault :
    (imm rs1 rd : ℕ) (m : Machine)
    → let addr = effective imm rs1 m in
      let epriv = effective_privilege load m in
      m.privilege < 4
      → bit_and addr 3 ≡ 0
      → sdtrig_check_load_trigger addr m ≡ (m, false)
      → mmu_vm_active epriv m ≡ true
      → ((pa : ℕ) (n : Machine) → ¬ IsTranslation addr epriv load m pa n)
      → (t : Machine) × IsTrap 13 addr m.pc m t
        × (insi_i_lb imm rs1 rd m ≡ reg_write rd 0 t)
        × (insi_i_lh imm rs1 rd m ≡ reg_write rd 0 t)
        × (insi_i_lw imm rs1 rd m ≡ reg_write rd 0 t)
        × (insi_i_lbu imm rs1 rd m ≡ reg_write rd 0 t)
        × (insi_i_lhu imm rs1 rd m ≡ reg_write rd 0 t)
unfolding insi_i_lb insi_i_lh insi_i_lw insi_i_lbu insi_i_lhu mmu_read8_unsigned mmu_read8_signed
    mmu_read16_unsigned mmu_read16_signed mmu_read32_signed
load-fault imm rs1 rd m h aligned passes active nowhere =
    let addr = effective imm rs1 m in
    let t = (mmu_translate addr load m).1 in
    let (none_found, trap) = mmu_translate-fault addr load m h active nowhere in
    let e : mmu_translate addr load m ≡ (none, t) = ap (λ (o : Option ℕ). (o, t)) none_found in
    let even : bit_and addr 1 ≡ 0 =
      omega (arith, bit_and-ones 2 addr, bit_and-ones 1 addr, aligned) in
    let any : bit_and addr 0 ≡ 0 = omega (arith, bit_and-ones 0 addr) in
    (
      t,
      trap,
      guarded_load-fault 0 addr rd _ m t any passes (rw e refl),
      guarded_load-fault 1 addr rd _ m t even passes (rw e refl),
      guarded_load-fault 3 addr rd _ m t aligned passes (rw e refl),
      guarded_load-fault 0 addr rd _ m t any passes (rw e refl),
      guarded_load-fault 1 addr rd _ m t even passes (rw e refl),
    )
