-- ===== src/System/SupervisorReturn.antt =====
-- `ins_sret` after a trap into supervisor mode.
use riscvemu.Base.{
  ℕ, ◌+◌, ◌/◌, ◌^◌, ◌<◌, ◌≤◌, ◌≡◌, ◌∙◌, refl, ap, bit_and, bit_or, nonzero, not32, ◌==◌,
  if◌then◌else◌, arith, sub32, u32,
}
use riscvemu.Bits.{bit, bit-bit_and, bit-bit_or, bit_and-ones, nonzero-bit}
use riscvemu.Machine.{Machine, prv_supervisor}
use riscvemu.Csr.Numbers.{csr_mstatus, csr_sepc}
use riscvemu.Csr.Table.{csr_table}
use riscvemu.Csr.Access.{csr_read, csr_write, run_read, run_write}
use riscvemu.Csr.Status.{
  mstatus_read, sstatus_read, sstatus_write, sstatus_read_lem, sstatus_write_lem,
  sstatus_read-write, s_mask,
}
use riscvemu.System.{ins_sret, sret_return, raise_supervisor_exception, assign_flag}
use riscvemu.System.Status.{
  IsSupervisorEntry, test_bit, bit-clear, bit-assign_flag, s_field, written_field,
}
use riscvemu.System.Trap.{IsSupervisorTrap, raise_supervisor_exception_lem}

-- The sstatus that SRET writes.
returned : ℕ → ℕ
returned v =
    let s = assign_flag (nonzero (bit_and v (2 ^ 5))) (2 ^ 1) v in
    bit_and (bit_or s (2 ^ 5)) (not32 (2 ^ 8))

returned_sie : (v : ℕ) → bit (returned v) 1 ≡ bit v 5
unfolding returned
returned_sie v =
    let b = nonzero (bit_and v (2 ^ 5)) in
    let s = assign_flag b (2 ^ 1) v in
    bit-clear (bit_or s (2 ^ 5)) 8 1 (omega arith) (omega arith)
    ∙ omega (arith, bit-bit_or 1 s (2 ^ 5))
    ∙ bit-assign_flag b v 1 1 (omega arith) (omega arith)
    ∙ test_bit v 5

sret_mstatus :
    (m : Machine)
    → (sret_return m).csr_value csr_mstatus
      ≡ mstatus_read (sstatus_write (returned (sstatus_read m)) m)
unfolding sret_return returned csr_read csr_write run_read run_write csr_table mstatus_read
sret_mstatus m = refl

sret_rest :
    (m : Machine)
    → ((sret_return m).gpr ≡ m.gpr)
      × ((sret_return m).main_memory ≡ m.main_memory)
      × ((sret_return m).pc ≡ sub32 (m.csr_value csr_sepc) 4)
unfolding sret_return csr_read csr_write run_read run_write csr_table sstatus_write
sret_rest m = (refl, refl, refl)

view :
    (m : Machine) (j : ℕ)
    → bit s_mask j ≡ 1
    → bit (sstatus_read m) j ≡ bit (m.csr_value csr_mstatus) j
unfolding mstatus_read
view m j h = ap (λ (t : ℕ). bit t j) (sstatus_read_lem m) ∙ s_field (m.csr_value csr_mstatus) j h

sret_privilege :
    (p : ℕ) (m : Machine)
    → p ≤ 1
    → bit (m.csr_value csr_mstatus) 8 ≡ (if p == prv_supervisor then 1 else 0)
    → (sret_return m).privilege ≡ p
unfolding sret_return csr_read run_read csr_table
sret_privilege p m h e = ground (arith, view m 8 refl, e, bit_and-ones 1 (sstatus_read m / 2 ^ 8))

-- SRET is not trapped when TSR is clear.
sret_taken : (m : Machine) → bit (m.csr_value csr_mstatus) 22 ≡ 0 → ins_sret m ≡ sret_return m
unfolding ins_sret
sret_taken m h = ground (arith, nonzero-bit (m.csr_value csr_mstatus) 22)

outside :
    (w v j : ℕ)
    → bit (not32 s_mask) j ≡ 1
    → bit_and w (not32 s_mask) ≡ bit_and v (not32 s_mask)
    → bit w j ≡ bit v j
outside w v j h e = omega (
  arith,
  bit-bit_and j w (not32 s_mask),
  bit-bit_and j v (not32 s_mask),
  ap (λ (t : ℕ). bit t j) e,
)

-- SRET right after a trap into supervisor mode, from user or supervisor mode, with a 32-bit address
-- and mstatus.TSR clear, goes back: the privilege and SIE are those before the trap, the fields of
-- mstatus outside the supervisor's mask are unchanged, the next fetch is at the address that the
-- trap was given, and the registers and the memory are unchanged.
pub ins_sret-raise_supervisor_exception :
    (cause tval epc : ℕ) (m : Machine)
    → m.privilege ≤ 1
    → epc < 2 ^ 32
    → bit (m.csr_value csr_mstatus) 22 ≡ 0
    → let t = ins_sret (raise_supervisor_exception cause tval epc m) in
      (t.privilege ≡ m.privilege)
      × (bit (t.csr_value csr_mstatus) 1 ≡ bit (m.csr_value csr_mstatus) 1)
      × (bit_and (t.csr_value csr_mstatus) (not32 s_mask)
          ≡ bit_and (m.csr_value csr_mstatus) (not32 s_mask))
      × (u32 (t.pc + 4) ≡ epc)
      × (t.gpr ≡ m.gpr)
      × (t.main_memory ≡ m.main_memory)
unfolding IsSupervisorTrap IsSupervisorEntry mstatus_read
ins_sret-raise_supervisor_exception cause tval epc m h l clear =
    let s = raise_supervisor_exception cause tval epc m in
    let w = s.csr_value csr_mstatus in
    let x = returned (sstatus_read s) in
    let (_, _, _, e, (_, saved, spp, same), _, _, _, g, f) =
      raise_supervisor_exception_lem cause tval epc m in
    let taken = sret_taken s (outside w (m.csr_value csr_mstatus) 22 refl same ∙ clear) in
    let (g', f', c) = sret_rest s in
    rw taken (
      sret_privilege m.privilege s h spp,
      ap (λ (t : ℕ). bit t 1) (sret_mstatus s ∙ sstatus_write_lem x s)
          ∙ written_field x w 1 refl refl
          ∙ returned_sie (sstatus_read s)
          ∙ view s 5 refl
          ∙ saved,
      ap (λ (t : ℕ). bit_and t (not32 s_mask)) (sret_mstatus s) ∙ (sstatus_read-write x s).1 ∙ same,
      omega (arith, c, e, l),
      g' ∙ g,
      f' ∙ f,
    )
