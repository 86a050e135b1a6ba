-- ===== src/Sdtrig.antt =====
-- src/extension/sdtrig_extension.c: the debug triggers, their registers and the address match.
use riscvemu.Base.{
  update, ℕ, zero, suc, ◌-◌, ◌^◌, bit_and, Bool, false, ◌&&◌, ◌||◌, not, leb, ◌==◌, nonzero,
  if◌then◌else◌, not32, ◌>>>◌,
}

abbrev pub sdtrig_num_triggers : ℕ
sdtrig_num_triggers = 4

abbrev pub sdtrig_dmode : ℕ
sdtrig_dmode = 2 ^ 27

abbrev pub sdtrig_action_mask : ℕ
sdtrig_action_mask = 0x3F000

abbrev pub sdtrig_chain : ℕ
sdtrig_chain = 2 ^ 11

abbrev pub sdtrig_match_mask : ℕ
sdtrig_match_mask = 0x780

abbrev pub sdtrig_mode_m : ℕ
sdtrig_mode_m = 2 ^ 6

abbrev pub sdtrig_mode_s : ℕ
sdtrig_mode_s = 2 ^ 4

abbrev pub sdtrig_mode_u : ℕ
sdtrig_mode_u = 2 ^ 3

abbrev pub sdtrig_execute : ℕ
sdtrig_execute = 2 ^ 2

abbrev pub sdtrig_store : ℕ
sdtrig_store = 2 ^ 1

abbrev pub sdtrig_load : ℕ
sdtrig_load = 2 ^ 0

abbrev pub sdtrig_tcontrol_mte : ℕ
sdtrig_tcontrol_mte = 0x8

-- The slots' `tdata1` and `tdata2`, and the two registers beside them.
pub record Sdtrig : Type 0 where
  pub tdata1 : ℕ → ℕ
  pub tdata2 : ℕ → ℕ
  pub tselect : ℕ
  pub tcontrol : ℕ

unfoldable pub init_sdtrig : Sdtrig
init_sdtrig = record { tdata1 = λ _. 0; tdata2 = λ _. 0; tselect = 0; tcontrol = 0 }

unfoldable pub set_tselect : ℕ → Sdtrig → Sdtrig
set_tselect val t = record t {
  tselect = if leb sdtrig_num_triggers val then sdtrig_num_triggers - 1 else val;
}

unfoldable pub get_tdata1 : Sdtrig → ℕ
get_tdata1 t = t.tdata1 t.tselect

unfoldable pub set_tdata1 : ℕ → Sdtrig → Sdtrig
set_tdata1 val t = record t {
  tdata1 = update t.tdata1 t.tselect (bit_and val (not32 sdtrig_dmode));
}

unfoldable pub get_tdata2 : Sdtrig → ℕ
get_tdata2 t = t.tdata2 t.tselect

unfoldable pub set_tdata2 : ℕ → Sdtrig → Sdtrig
set_tdata2 val t = record t { tdata2 = update t.tdata2 t.tselect val }

unfoldable pub set_tcontrol : ℕ → Sdtrig → Sdtrig
set_tcontrol val t = record t { tcontrol = val }

-- Whether the trigger may fire in a privilege: 3 is machine, 1 supervisor, 0 user mode.
unfoldable pub mode_matches : ℕ → ℕ → Sdtrig → Bool
mode_matches privilege tdata1 t =
    if privilege == 3
    then nonzero (bit_and tdata1 sdtrig_mode_m) && nonzero (bit_and t.tcontrol sdtrig_tcontrol_mte)
    else if privilege == 1
    then nonzero (bit_and tdata1 sdtrig_mode_s)
    else if privilege == 0
    then nonzero (bit_and tdata1 sdtrig_mode_u)
    else false

unfoldable pub trigger_matches : ℕ → ℕ → ℕ → ℕ → Sdtrig → Bool
trigger_matches privilege i addr access_type t =
    let tdata1 = t.tdata1 i in
    if not (bit_and (tdata1 >>> 28) 0xF == 2)
    then false
    else if not (bit_and tdata1 sdtrig_action_mask >>> 12 == 0)
    then false
    else if nonzero (bit_and tdata1 sdtrig_chain)
    then false
    else if access_type == sdtrig_load && not (nonzero (bit_and tdata1 sdtrig_load))
    then false
    else if access_type == sdtrig_store && not (nonzero (bit_and tdata1 sdtrig_store))
    then false
    else if access_type == sdtrig_execute && not (nonzero (bit_and tdata1 sdtrig_execute))
    then false
    else if not (mode_matches privilege tdata1 t)
    then false
    else if nonzero (bit_and tdata1 sdtrig_match_mask)
    then false
    else t.tdata2 i == addr

-- The loop of `sdtrig_check`: whether one of `left` triggers from `i` on fires.
unfoldable pub any_trigger : ℕ → ℕ → ℕ → ℕ → ℕ → Sdtrig → Bool
any_trigger privilege zero i addr access_type t = false
any_trigger privilege (suc left) i addr access_type t =
    trigger_matches privilege i addr access_type t
    || any_trigger privilege left (suc i) addr access_type t
