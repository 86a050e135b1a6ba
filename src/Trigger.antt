-- ===== src/Trigger.antt =====
-- The checks of src/extension/sdtrig_extension.c: a trigger that matches raises the breakpoint.
use riscvemu.Base.{
  ℕ, zero, suc, ◌+◌, ◌*◌, ◌/◌, ◌%◌, ◌^◌, ◌>>>◌, bit_and, ◌≤◌, ◌<◌, ◌≡◌, ◌↔◌, ◌⊎◌, ◌∙◌, refl, sym,
  inl, inr, Bool, true, false, if◌then◌else◌, Bool-cases, arith,
}
use riscvemu.Bits.{bit, nonzero-bit, bit_and-ones, bit_and_field}
use riscvemu.Machine.{Machine}
use riscvemu.Sdtrig.{
  Sdtrig, sdtrig_num_triggers, sdtrig_execute, sdtrig_load, sdtrig_store, trigger_matches,
  mode_matches, any_trigger,
}
use riscvemu.System.{raise_exception}
use riscvemu.System.Trap.{IsTrap, raise_exception_pc-IsTrap}

-- The Boolean says whether the trap was raised.
unfoldable pub sdtrig_check : ℕ → ℕ → Machine → Machine × Bool
sdtrig_check addr access_type m =
    if any_trigger m.privilege sdtrig_num_triggers 0 addr access_type m.sdtrig
    then (raise_exception 3 addr m, true)
    else (m, false)

unfoldable pub sdtrig_check_fetch_trigger : ℕ → Machine → Machine × Bool
sdtrig_check_fetch_trigger pc m = sdtrig_check pc sdtrig_execute m

unfoldable pub sdtrig_check_load_trigger : ℕ → Machine → Machine × Bool
sdtrig_check_load_trigger addr m = sdtrig_check addr sdtrig_load m

unfoldable pub sdtrig_check_store_trigger : ℕ → Machine → Machine × Bool
sdtrig_check_store_trigger addr m = sdtrig_check addr sdtrig_store m

apart : (i j : ℕ) → i ≤ j → (i ≡ j) ⊎ (suc i ≤ j)
apart i j h = ground arith

-- A slot among the `left` ones from `i` on that matches.
abbrev Match : ℕ → ℕ → ℕ → ℕ → ℕ → Sdtrig → Type 0
Match privilege left i addr access_type t =
    (j : ℕ) × (i ≤ j) × (j < i + left) × (trigger_matches privilege j addr access_type t ≡ true)

module _ (privilege addr access_type : ℕ) (t : Sdtrig) where
  found :
      (left i : ℕ)
      → any_trigger privilege left i addr access_type t ≡ true
      → Match privilege left i addr access_type t
  unfolding any_trigger
  found zero i h = cc
  found (suc left) i h = elim (Bool-cases (trigger_matches privilege i addr access_type t)) [
    | inl e ↦ (i, omega arith, omega arith, e)
    | inr e ↦
        let (j, lo, hi, f) = found left (suc i) (rw e at h) in (j, omega arith, omega arith, f)
  ]

  finds :
      (left i j : ℕ)
      → i ≤ j
      → j < i + left
      → trigger_matches privilege j addr access_type t ≡ true
      → any_trigger privilege left i addr access_type t ≡ true
  unfolding any_trigger
  finds zero i j lo hi e = absurd (omega arith)
  finds (suc left) i j lo hi e =
      elim (Bool-cases (trigger_matches privilege i addr access_type t)) [
        | inl f ↦ rw f refl
        | inr f ↦ elim (apart i j lo) [
          | inl same ↦ cc
          | inr below ↦ rw f (finds left (suc i) j below (omega arith) e)
        ]
      ]

-- A trigger that fires by its registers: an address match of type 2 that raises the breakpoint, unchained,
-- for equal addresses, enabled for the kind of access (bits 2, 1 and 0 of `tdata1`) and for the
-- privilege; machine mode also needs tcontrol.MTE.
abbrev pub IsEnabledIn : ℕ → ℕ → ℕ → Type 0
IsEnabledIn privilege tdata1 tcontrol =
    ((privilege ≡ 3) × (bit tdata1 6 ≡ 1) × (bit tcontrol 3 ≡ 1))
    ⊎ ((privilege ≡ 1) × (bit tdata1 4 ≡ 1))
    ⊎ ((privilege ≡ 0) × (bit tdata1 3 ≡ 1))

abbrev pub Fires : ℕ → ℕ → ℕ → ℕ → ℕ → ℕ → Type 0
Fires privilege kind addr tdata1 tdata2 tcontrol =
    (tdata1 / 2 ^ 28 % 2 ^ 4 ≡ 2)
    × (tdata1 / 2 ^ 12 % 2 ^ 6 ≡ 0)
    × (bit tdata1 11 ≡ 0)
    × (tdata1 / 2 ^ 7 % 2 ^ 4 ≡ 0)
    × (bit tdata1 kind ≡ 1)
    × IsEnabledIn privilege tdata1 tcontrol
    × (tdata2 ≡ addr)

mode_matches_iff :
    (privilege tdata1 : ℕ) (t : Sdtrig)
    → (mode_matches privilege tdata1 t ≡ true) ↔ IsEnabledIn privilege tdata1 t.tcontrol
unfolding mode_matches
mode_matches_iff privilege tdata1 t = ground (
  arith,
  nonzero-bit tdata1 6,
  nonzero-bit tdata1 4,
  nonzero-bit tdata1 3,
  nonzero-bit t.tcontrol 3,
)

-- The tests of the fields that are the same for each kind.
module _ (privilege j addr : ℕ) (t : Sdtrig) where
  kind_iff :
      (kind : ℕ)
      → ((kind ≡ 0) ⊎ (kind ≡ 1) ⊎ (kind ≡ 2))
      → (trigger_matches privilege j addr (2 ^ kind) t ≡ true)
        ↔ Fires privilege kind addr (t.tdata1 j) (t.tdata2 j) t.tcontrol
  unfolding trigger_matches
  kind_iff kind split =
      let w = t.tdata1 j in
      let type : bit_and (w >>> 28) 0xF ≡ w / 2 ^ 28 % 2 ^ 4 = bit_and-ones 4 (w / 2 ^ 28) in
      let action : bit_and w 0x3F000 >>> 12 ≡ w / 2 ^ 12 % 2 ^ 6 =
        omega (arith, bit_and_field 12 6 w) in
      let match : bit_and w 0x780 ≡ w / 2 ^ 7 % 2 ^ 4 * 2 ^ 7 = bit_and_field 7 4 w in
      let mode = mode_matches_iff privilege w t in
      elim split [
        | inl e ↦
            rw e (ground (arith, type, action, match, mode, nonzero-bit w 11, nonzero-bit w 0))
        | inr (inl e) ↦
            rw e (ground (arith, type, action, match, mode, nonzero-bit w 11, nonzero-bit w 1))
        | inr (inr e) ↦
            rw e (ground (arith, type, action, match, mode, nonzero-bit w 11, nonzero-bit w 2))
      ]

outcome :
    (addr access_type : ℕ) (m : Machine)
    → m.privilege < 4
    → let (t, b) = sdtrig_check addr access_type m in
      (b ≡ any_trigger m.privilege 4 0 addr access_type m.sdtrig)
      × (if b then IsTrap 3 addr m.pc m t else (t ≡ m))
unfolding sdtrig_check raise_exception
outcome addr access_type m h =
    elim (Bool-cases (any_trigger m.privilege 4 0 addr access_type m.sdtrig)) [
      | inl e ↦ rw e (refl, raise_exception_pc-IsTrap 3 addr m.pc m h)
      | inr e ↦ rw e (refl, refl)
    ]

-- From a privilege below 4, a check of a load, a store or a fetch reports a breakpoint exactly when
-- one of the four triggers fires by its registers: a type 2 match with action 0, unchained, for
-- equal addresses, with its address, and enabled for this kind of access and in the current
-- privilege, where machine mode needs tcontrol.MTE too. It then traps with cause 3, the address as
-- the trap value, into the mode that medeleg says, and changes nothing otherwise.
pub sdtrig_check_iff :
    (addr kind : ℕ) (m : Machine)
    → kind < 3
    → m.privilege < 4
    → let (t, b) = sdtrig_check addr (2 ^ kind) m in
      let d = m.sdtrig in
      ((b ≡ true)
        ↔ ((j : ℕ) × (j < 4) × Fires m.privilege kind addr (d.tdata1 j) (d.tdata2 j) d.tcontrol))
      × (if b then IsTrap 3 addr m.pc m t else (t ≡ m))
sdtrig_check_iff addr kind m k h =
    let (e, o) = outcome addr (2 ^ kind) m h in
    let split : (kind ≡ 0) ⊎ (kind ≡ 1) ⊎ (kind ≡ 2) = ground arith in
    let fires = λ (j : ℕ). kind_iff m.privilege j addr m.sdtrig kind split in
    (
      (
        λ b.
            let (j, lo, hi, f) = found m.privilege addr (2 ^ kind) m.sdtrig 4 0 (sym e ∙ b) in
            (j, hi, (fires j).0 f),
        λ (j, hi, f).
            e ∙ finds m.privilege addr (2 ^ kind) m.sdtrig 4 0 j (omega arith) hi ((fires j).1 f),
      ),
      o,
    )
