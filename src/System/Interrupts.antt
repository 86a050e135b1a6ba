-- ===== src/System/Interrupts.antt =====
-- Which interrupt `check_and_handle_interrupts` takes.
use riscvemu.Base.{
  ℕ, ◌≡◌, ◌≢◌, ◌⊎◌, ◌∙◌, sym, inl, inr, refl, Bool, true, false, nonzero, Bool-cases, ◌^◌, bit_or,
  bit_and, not32, if◌then◌else◌, ◌==◌, Option, none, some, List, [], ◌∷◌, arith,
}
use riscvemu.Bits.{bit, bit-bit_and, nonzero-bit}
use riscvemu.Machine.{Machine, prv_machine, prv_supervisor}
use riscvemu.Csr.Numbers.{csr_mip, csr_mie, csr_mideleg, csr_mstatus, csr_sip, csr_sie}
use riscvemu.Csr.Access.{csr_read}
use riscvemu.Csr.Numbers.{csr_scause, csr_sepc, csr_mcause, csr_mepc}
use riscvemu.Csr.Table.{csr_table}
use riscvemu.Csr.Access.{csr_write, run_write, run_read}
use riscvemu.Csr.Status.{mstatus_write, sstatus_write}
use riscvemu.System.Trap.{either_trap, is_delegated, delegate_to_s-is_delegated}
use riscvemu.System.{
  supervisor_irq, machine_irq, select_interrupt, raise_interrupt, raise_machine_interrupt,
  raise_supervisor_interrupt_internal, clear_reservations, check_and_handle_interrupts,
}

-- The first of the given lines that is set in a word.
unfoldable pub first_set : ℕ → List ℕ → Option ℕ
first_set lines [] = none
first_set lines (irq ∷ order) = if bit lines irq == 1 then some irq else first_set lines order

-- The two chains of tests pick the first line that is set, in the order 11, 3, 7, 9, 1, 5 for
-- machine mode and 9, 1, 5 for supervisor mode.
pub irq-first_set :
    (lines : ℕ)
    → (machine_irq lines ≡ first_set lines (11 ∷ 3 ∷ 7 ∷ 9 ∷ 1 ∷ 5 ∷ []))
      × (supervisor_irq lines ≡ first_set lines (9 ∷ 1 ∷ 5 ∷ []))
unfolding machine_irq supervisor_irq first_set
irq-first_set lines = (
  ground (
    arith,
    nonzero-bit lines 11,
    nonzero-bit lines 3,
    nonzero-bit lines 7,
    nonzero-bit lines 9,
    nonzero-bit lines 1,
    nonzero-bit lines 5,
  ),
  ground (arith, nonzero-bit lines 9, nonzero-bit lines 1, nonzero-bit lines 5),
)

first_set-bit :
    (lines : ℕ) (order : List ℕ) (irq : ℕ) → first_set lines order ≡ some irq → bit lines irq ≡ 1
unfolding first_set
first_set-bit lines [] irq h = ground arith
first_set-bit lines (i ∷ order) irq h = ground (arith, first_set-bit lines order irq)

-- The three ways to an interrupt: enabled in machine mode; enabled below it, with mstatus.MIE set, and not
-- one that is pending, enabled and delegated for supervisor mode; or one that is, for a mode whose
-- enable bit is set.
abbrev pub IsDelegated : Machine → ℕ → Type 0
IsDelegated m irq =
    (bit (csr_read csr_sip m) irq ≡ 1)
    × (bit (csr_read csr_sie m) irq ≡ 1)
    × (bit (csr_read csr_mideleg m) irq ≡ 1)

abbrev pub IsEnabled : Machine → ℕ → Type 0
IsEnabled m irq =
    ((bit (csr_read csr_mstatus m) 3 ≡ 1)
      × (bit (csr_read csr_mip m) irq ≡ 1)
      × (bit (csr_read csr_mie m) irq ≡ 1)
      × ((m.privilege ≡ prv_machine) ⊎ (¬ IsDelegated m irq)))
    ⊎ ((m.privilege ≢ prv_machine)
        × (bit (csr_read csr_mstatus m) (if m.privilege == prv_supervisor then 1 else 0) ≡ 1)
        × IsDelegated m irq)

machine_irq-bit : (lines irq : ℕ) → machine_irq lines ≡ some irq → bit lines irq ≡ 1
machine_irq-bit lines irq h = first_set-bit lines _ irq (sym ((irq-first_set lines).0) ∙ h)

supervisor_irq-bit : (lines irq : ℕ) → supervisor_irq lines ≡ some irq → bit lines irq ≡ 1
supervisor_irq-bit lines irq h = first_set-bit lines _ irq (sym ((irq-first_set lines).1) ∙ h)

both_bits : (a b k : ℕ) → bit (bit_and a b) k ≡ 1 → (bit a k ≡ 1) × (bit b k ≡ 1)
both_bits a b k h = let e = bit-bit_and k a b in (omega (arith, e, h), omega (arith, e, h))

abbrev IsLine : ℕ → Type 0
IsLine irq = (irq ≡ 11) ⊎ (irq ≡ 3) ⊎ (irq ≡ 7) ⊎ (irq ≡ 9) ⊎ (irq ≡ 1) ⊎ (irq ≡ 5)

machine_irq-IsLine : (lines irq : ℕ) → machine_irq lines ≡ some irq → IsLine irq
unfolding machine_irq supervisor_irq
machine_irq-IsLine lines irq h = ground (arith, h)

not32-bit : (w irq : ℕ) → IsLine irq → bit (not32 w) irq ≡ 1 → bit w irq ≡ 0
not32-bit w irq line = elim line [
  | inl e ↦ rw e (λ h. omega (arith, h))
  | inr (inl e) ↦ rw e (λ h. omega (arith, h))
  | inr (inr (inl e)) ↦ rw e (λ h. omega (arith, h))
  | inr (inr (inr (inl e))) ↦ rw e (λ h. omega (arith, h))
  | inr (inr (inr (inr (inl e)))) ↦ rw e (λ h. omega (arith, h))
  | inr (inr (inr (inr (inr e)))) ↦ rw e (λ h. omega (arith, h))
]

three_bits :
    (a b c k : ℕ)
    → bit (bit_and (bit_and a b) c) k ≡ 0
    → ¬ ((bit a k ≡ 1) × (bit b k ≡ 1) × (bit c k ≡ 1))
three_bits a b c k z (x, y, w) =
    let e = bit-bit_and k (bit_and a b) c in
    let f = bit-bit_and k a b in absurd (omega (arith, e, f, z, x, y, w))

-- A line of the machine's chain that supervisor mode does not claim.
unclaimed :
    (lines a b c irq : ℕ)
    → machine_irq (bit_and lines (not32 (bit_and (bit_and a b) c))) ≡ some irq
    → ¬ ((bit a irq ≡ 1) × (bit b irq ≡ 1) × (bit c irq ≡ 1))
unclaimed lines a b c irq h =
    let sp = bit_and (bit_and a b) c in
    let m = machine_irq-bit (bit_and lines (not32 sp)) irq h in
    three_bits a b c irq
      (not32-bit sp irq (machine_irq-IsLine _ irq h) (both_bits lines (not32 sp) irq m).1)

when_on :
    (b : Bool) (o : Option ℕ) (irq : ℕ)
    → (if b then o else none) ≡ some irq
    → (b ≡ true) × (o ≡ some irq)
when_on true o irq h = (refl, h)
when_on false o irq h = ground arith

either_irq :
    (o p : Option ℕ) (irq : ℕ)
    → elim o [ some i ↦ some i | none ↦ p ] ≡ some irq
    → (o ≡ some irq) ⊎ (p ≡ some irq)
either_irq none p irq h = inr h
either_irq (some i) p irq h = inl h

module _ (m : Machine) (irq : ℕ) where
  abbrev sp : ℕ
  sp = bit_and (bit_and (csr_read csr_sip m) (csr_read csr_sie m)) (csr_read csr_mideleg m)

  abbrev lines : ℕ
  lines = bit_and (csr_read csr_mip m) (csr_read csr_mie m)

  abbrev is_on : Bool
  is_on = nonzero (bit_and (csr_read csr_mstatus m) 8)

  escalated :
      (if is_on then machine_irq (bit_and lines (not32 sp)) else none) ≡ some irq → IsEnabled m irq
  escalated h =
      let (on, chosen) = when_on is_on _ irq h in
      let both = both_bits lines (not32 sp) irq (machine_irq-bit _ irq chosen) in
      let (p, e) = both_bits (csr_read csr_mip m) (csr_read csr_mie m) irq both.0 in
      inl (
        (nonzero-bit (csr_read csr_mstatus m) 3).0 on,
        p,
        e,
        inr (unclaimed lines _ _ _ irq chosen),
      )

  claimed :
      m.privilege ≢ prv_machine
      → nonzero (bit_and (csr_read csr_mstatus m) (if m.privilege == prv_supervisor then 2 else 1))
        ≡ true
      → supervisor_irq sp ≡ some irq
      → IsEnabled m irq
  claimed below on chosen =
      let both = both_bits _ (csr_read csr_mideleg m) irq (supervisor_irq-bit sp irq chosen) in
      let (p, e) = both_bits (csr_read csr_sip m) (csr_read csr_sie m) irq both.0 in
      let enabled : bit (csr_read csr_mstatus m) (if m.privilege == prv_supervisor then 1 else 0)
          ≡ 1 =
        elim (Bool-cases (m.privilege == prv_supervisor)) [
          | inl s ↦ rw s ((nonzero-bit (csr_read csr_mstatus m) 1).0 (rw s at on))
          | inr s ↦ rw s ((nonzero-bit (csr_read csr_mstatus m) 0).0 (rw s at on))
        ] in
      inr (below, enabled, (p, e, both.1))

  selected : select_interrupt m ≡ some irq → IsEnabled m irq
  unfolding select_interrupt
  selected h =
      let mode =
        nonzero
          (bit_and (csr_read csr_mstatus m) (if m.privilege == prv_supervisor then 2 else 1)) in
      elim (Bool-cases (m.privilege == prv_machine)) [
        | inl e ↦
            let (on, chosen) = when_on is_on _ irq (rw e at h) in
            let (p, k) =
              both_bits (csr_read csr_mip m) (csr_read csr_mie m) irq
                (machine_irq-bit _ irq chosen) in
            inl ((nonzero-bit (csr_read csr_mstatus m) 3).0 on, p, k, inl (ground (arith, e)))
        | inr e ↦
            let below : m.privilege ≢ prv_machine = ground (arith, e) in
            elim (Bool-cases mode) [
              | inl on ↦ elim (either_irq _ _ irq (rw (e, on) at h)) [
                | inl s ↦ claimed below on s
                | inr k ↦ escalated k
              ]
              | inr off ↦ escalated (rw (e, off) at h)
            ]
      ]

-- The state `t` after an interrupt is taken: from below machine mode its bit in mideleg chooses the mode.
abbrev pub IsTaken : ℕ → Machine → Machine → Type 0
IsTaken irq m t =
    if is_delegated m.privilege (csr_read csr_mideleg m) irq
    then (t.privilege ≡ 1)
      × (t.csr_value csr_scause ≡ bit_or irq (2 ^ 31))
      × (t.csr_value csr_sepc ≡ m.pc)
    else (t.privilege ≡ 3)
      × (t.csr_value csr_mcause ≡ bit_or irq (2 ^ 31))
      × (t.csr_value csr_mepc ≡ m.pc)

taken : (m : Machine) (irq : ℕ) → IsTaken irq m (raise_interrupt irq m)
unfolding raise_interrupt raise_machine_interrupt raise_supervisor_interrupt_internal csr_read
    run_read csr_write run_write mstatus_write sstatus_write csr_table clear_reservations
taken m irq =
    let c = clear_reservations m in
    rw (delegate_to_s-is_delegated m.privilege (csr_read csr_mideleg m) irq) (
      either_trap
        (λ t.
          (t.privilege ≡ 1)
          × (t.csr_value csr_scause ≡ bit_or irq (2 ^ 31))
          × (t.csr_value csr_sepc ≡ m.pc))
        (λ t.
          (t.privilege ≡ 3)
          × (t.csr_value csr_mcause ≡ bit_or irq (2 ^ 31))
          × (t.csr_value csr_mepc ≡ m.pc))
        (is_delegated m.privilege (csr_read csr_mideleg m) irq)
        (raise_supervisor_interrupt_internal irq m.pc c) (raise_machine_interrupt irq m.pc c)
        (refl, refl, refl) (refl, refl, refl))

-- An interrupt that is selected is pending and enabled: in mip and mie with mstatus.MIE set, in
-- machine mode or not also pending and enabled in sip, sie and mideleg; or, below machine mode, in
-- sip, sie and mideleg with the enable bit of the current mode set. It is then taken in supervisor
-- mode, with its cause and address in scause and sepc, when it comes from below machine mode and
-- its bit in mideleg is set, and otherwise in machine mode, with them in mcause and mepc.
pub check_and_handle_interrupts-IsEnabled :
    (m : Machine) (irq : ℕ)
    → select_interrupt m ≡ some irq
    → IsEnabled m irq × IsTaken irq m (check_and_handle_interrupts m)
unfolding check_and_handle_interrupts
check_and_handle_interrupts-IsEnabled m irq h =
    (selected m irq h, rw (check_and_handle_interrupts, h) (taken m irq))
