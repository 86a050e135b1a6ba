-- ===== src/Round/Spin.antt =====
-- How soon the detector of `src/emu.c` ends a program that spins.
use riscvemu.Base.{ℕ, zero, suc, ◌+◌, ◌%◌, ◌≤◌, ◌<◌, ◌≡◌, true}
use riscvemu.Machine.{Machine}
use riscvemu.Round.{Detector, watch}

-- The address of each round, the machine at its end, and the detector before the first round.
module _ (fetch_pcs : ℕ → ℕ) (machines : ℕ → Machine) (before : Detector) where
  unfoldable pub detector_after : ℕ → Detector
  detector_after zero = before
  detector_after (suc n) = (watch true (fetch_pcs n) (machines n, detector_after n)).1

  abbrev Tracks : ℕ → ℕ → Detector → Type 0
  Tracks q n d =
      (d.spin_armed ≡ true)
      × (d.loop_window_pos ≡ n % 8)
      × (n ≤ q + d.spin_count)
      × ((i : ℕ) → i < n → n ≤ i + 8 → d.loop_window (i % 8) ≡ fetch_pcs i)
