-- ===== src/Round.antt =====
-- The loop of src/emu.c, in the build without the debugger: one round of it, and the detector of
-- programs that spin.
pub mod Spin
use riscvemu.Float.Formats.{FloatLibrary}
use riscvemu.Base.{
  ℕ, zero, suc, ◌+◌, ◌%◌, ◌^◌, Bool, true, false, ◌&&◌, ◌||◌, ltb, leb, ◌==◌, if◌then◌else◌, update,
  Option, none, some, List, [], ◌∷◌, u32,
}
use riscvemu.Outcome.{Outcome, running, fatal}
use riscvemu.Machine.{Machine}
use riscvemu.Memory.{mem_size}
use riscvemu.Clint.{clint_tick}
use riscvemu.Uart.{Devices, uart_receive, uart_tick}
use riscvemu.Zicntr.{count_instruction}
use riscvemu.System.{check_and_handle_interrupts}
use riscvemu.Trigger.{sdtrig_check_fetch_trigger}
use riscvemu.Mmu.Access.{mmu_fetch_ok}
use riscvemu.Exec.Dispatch.{exec}

-- The detector's window of the last eight addresses, and how many rounds in a row found theirs in it.
pub record Detector : Type 0 where
  pub loop_window : ℕ → ℕ
  pub loop_window_pos : ℕ
  pub spin_count : ℕ
  pub spin_armed : Bool

abbrev pub empty_detector : Bool → Detector
empty_detector armed = record {
  loop_window = λ i. 0;
  loop_window_pos = 0;
  spin_count = 0;
  spin_armed = armed;
}

-- `for (int i = 0; i < 8; i++) if (loop_window[i] == fetch_pc) seen = 1;`
unfoldable pub seen : ℕ → ℕ → (ℕ → ℕ) → Bool
seen zero fetch_pc window = false
seen (suc n) fetch_pc window = (window n == fetch_pc) || seen n fetch_pc window

-- A trap arms the detector anew.
unfoldable pub rearm : Bool → Bool → Detector → Detector
rearm active trapped d = if active && trapped then empty_detector true else d

unfoldable pub note_fetch : ℕ → Detector → Detector
note_fetch fetch_pc d = record d {
  loop_window = update d.loop_window d.loop_window_pos fetch_pc;
  loop_window_pos = (d.loop_window_pos + 1) % 8;
  spin_count = if seen 8 fetch_pc d.loop_window then d.spin_count + 1 else 0;
}

-- The conclusion of a test that spins: its result goes to a0 and a7.
unfoldable pub conclude : Machine → Machine
conclude m =
    let gpr = if m.gpr 3 == 1 then update m.gpr 10 0 else m.gpr in
    record m { gpr = update gpr 17 93; terminated = true }

-- The end of a round that fetched from `fetch_pc`.
unfoldable pub watch : Bool → ℕ → Machine × Detector → Machine × Detector
watch active fetch_pc (m, d) =
    let d = rearm active m.just_trapped d in
    let n : Machine = record m { just_trapped = if active then false else m.just_trapped } in
    if d.spin_armed && active
    then (let e = note_fetch fetch_pc d in (if leb 64 e.spin_count then conclude n else n, e))
    else (n, d)

pub record Run : Type 0 where
  pub machine : Machine
  pub detector : Detector
  pub last_fetch_pc : ℕ

-- After a round: the next one, the end that the user asked for, or a fatal error.
pub data Progress : Type 0 where
  going : Run → Progress
  left : Machine → Progress
  failed : Progress

unfoldable pub receive_all : List ℕ → Devices → Devices
receive_all [] d = d
receive_all (b ∷ bytes) d = receive_all bytes (uart_receive b d)

-- `g_state.pc += 4`, the two devices' ticks and the counters.
unfoldable pub end_instruction : Machine → Machine
end_instruction m = record m {
  pc = u32 (m.pc + 4);
  clint = clint_tick m.clint;
  devices = uart_tick m.devices;
  zicntr = count_instruction m.zicntr;
}

-- `allocated` and the two instructions are those of `exec`.
module _ (allocated : Bool) (float : FloatLibrary) where
  -- The instruction at `fetch_pc`, unless its fetch traps.
  unfoldable pub fetch_and_exec : ℕ → Machine → Outcome
  fetch_and_exec fetch_pc m =
      let (fetched, n) = mmu_fetch_ok fetch_pc m in
      elim fetched [
        | none ↦ running n
        | some ins ↦
            let (k, stopped) = sdtrig_check_fetch_trigger fetch_pc n in
            if stopped then running k else exec allocated float ins k
      ]

  unfoldable pub finish : Bool → ℕ → Detector → Outcome → Progress
  finish active fetch_pc d fatal = failed
  finish active fetch_pc d (running m) =
      let (n, e) = watch active fetch_pc (end_instruction m, d) in
      going record { machine = n; detector = e; last_fetch_pc = fetch_pc }

  -- `poll` is what `uart_poll_input` finds: bytes for the serial port, or a request to leave.
  unfoldable pub round : Bool → Option (List ℕ) → Run → Progress
  round active none r = left (check_and_handle_interrupts r.machine)
  round active (some bytes) r =
      let m = check_and_handle_interrupts r.machine in
      let n : Machine = record m { devices = receive_all bytes m.devices } in
      let k : Machine = record n { prev_ins_pc = r.last_fetch_pc } in
      if leb mem_size n.pc then failed else finish active n.pc r.detector (fetch_and_exec n.pc k)
