-- ===== src/System/Return.antt =====
-- `ins_mret` after a trap into machine mode.
use riscvemu.Base.{
  ℕ, ◌+◌, ◌^◌, ◌<◌, ◌≡◌, ◌∙◌, refl, ap, bit_and, bit_or, nonzero, not32, arith, u32,
}
use riscvemu.Bits.{bit, bit-bit_and, bit-bit_or, bit_and_field, bit_or-zero}
use riscvemu.Machine.{Machine}
use riscvemu.Csr.Numbers.{csr_mstatus, csr_mepc, mstatus_mpp_mask, mstatus_mpie, mstatus_mie}
use riscvemu.System.{ins_mret, raise_machine_exception, assign_flag}
use riscvemu.System.Status.{IsEntry, mpp, test_bit, bit-assign_flag}
use riscvemu.System.Trap.{IsMachineTrap, raise_machine_exception_lem}

-- What MRET restores of the state: the privilege of MPP, MIE of MPIE, and the counter of mepc.
mret_privilege : (m : Machine) → (ins_mret m).privilege ≡ mpp (m.csr_value csr_mstatus)
unfolding ins_mret
mret_privilege m = omega (arith, bit_and_field 11 2 (m.csr_value csr_mstatus))

mret_mie :
    (m : Machine) → bit ((ins_mret m).csr_value csr_mstatus) 3 ≡ bit (m.csr_value csr_mstatus) 7
unfolding ins_mret
mret_mie m =
    let v = m.csr_value csr_mstatus in
    let b = nonzero (bit_and v mstatus_mpie) in
    let s = assign_flag b mstatus_mie v in
    let masked = bit_and (bit_or s mstatus_mpie) (not32 mstatus_mpp_mask) in
    let set : bit s 3 ≡ bit v 7 =
      bit-assign_flag b v 3 3 (omega arith) (omega arith) ∙ test_bit v 7 in
    ap (λ (t : ℕ). bit t 3) (bit_or-zero masked)
    ∙ omega (
      arith,
      set,
      bit-bit_and 3 (bit_or s mstatus_mpie) (not32 mstatus_mpp_mask),
      bit-bit_or 3 s mstatus_mpie,
    )

mret_pc :
    (m : Machine) (epc : ℕ)
    → epc < 2 ^ 32
    → m.csr_value csr_mepc ≡ epc
    → u32 ((ins_mret m).pc + 4) ≡ epc
unfolding ins_mret
mret_pc m epc l e = omega (arith, e)

mret_gpr : (m : Machine) → (ins_mret m).gpr ≡ m.gpr
unfolding ins_mret
mret_gpr m = refl

mret_memory : (m : Machine) → (ins_mret m).main_memory ≡ m.main_memory
unfolding ins_mret
mret_memory m = refl

-- MRET right after a trap into machine mode, from a privilege below 4 and with a 32-bit address,
-- goes back: the privilege and MIE are those before the trap, the next fetch is at the address that
-- the trap was given, and the registers and the memory are unchanged.
pub ins_mret-raise_machine_exception :
    (cause tval epc : ℕ) (m : Machine)
    → m.privilege < 4
    → epc < 2 ^ 32
    → let t = ins_mret (raise_machine_exception cause tval epc m) in
      (t.privilege ≡ m.privilege)
      × (bit (t.csr_value csr_mstatus) 3 ≡ bit (m.csr_value csr_mstatus) 3)
      × (u32 (t.pc + 4) ≡ epc)
      × (t.gpr ≡ m.gpr)
      × (t.main_memory ≡ m.main_memory)
unfolding IsMachineTrap IsEntry
ins_mret-raise_machine_exception cause tval epc m h l =
    let s = raise_machine_exception cause tval epc m in
    let (_, _, _, _, e, (_, saved, field), _, g, f) =
      raise_machine_exception_lem cause tval epc m h in
    (
      mret_privilege s ∙ field,
      mret_mie s ∙ saved,
      mret_pc s epc l e,
      mret_gpr s ∙ g,
      mret_memory s ∙ f,
    )
