-- ===== src/Clint/Timer.antt =====
-- When the timer interrupt of clint.c is pending.
use riscvemu.Base.{ℕ, zero, suc, ◌+◌, ◌-◌, ◌^◌, ◌<◌, ◌≡◌, refl, ◌≢◌, arith, leb}
use riscvemu.Clint.{Clint, clint_tick, clint_mtip_pending}

-- `n` rounds of the run loop.
abbrev pub ticks : ℕ → Clint → Clint
ticks zero c = c
ticks (suc n) c = ticks n (clint_tick c)

ticks_lem :
    (n : ℕ) (c : Clint)
    → c.mtime + n < 2 ^ 64
    → ((ticks n c).mtime ≡ c.mtime + n) × ((ticks n c).mtimecmp ≡ c.mtimecmp)
unfolding clint_tick
ticks_lem zero c h = (omega arith, refl)
ticks_lem (suc n) c h = omega (arith, ticks_lem n (clint_tick c) (omega arith))

-- With a deadline other than 0, the interrupt is pending after `n` ticks exactly when the deadline
-- lies at most `n` ticks ahead, as long as the counter does not wrap.
pub mtip_pending-ticks :
    (c : Clint) (n : ℕ)
    → c.mtimecmp ≢ 0
    → c.mtime + n < 2 ^ 64
    → clint_mtip_pending (ticks n c) ≡ leb (c.mtimecmp - c.mtime) n
unfolding clint_mtip_pending
mtip_pending-ticks c n set room = ground (arith, ticks_lem n c room)
