-- ===== src/Uart/Irq.antt =====
-- The interrupt line of uart.c, its transmitter, and what every call keeps.
use riscvemu.Base.{
  u8, if_both, ℕ, ◌≤◌, ◌≡◌, refl, arith, Bool, true, false, ◌&&◌, not, List, if◌then◌else◌, ◌==◌,
  leb, ltb, inl, inr, Bool-cases, sub32, bit_and,
}
use riscvemu.Bits.{bit}
use riscvemu.Plic.{plic_init}
use riscvemu.Plic.Lines.{init-IsValid, IsValid, set_irq-IsValid, bit-plic_set_irq}
use riscvemu.Uart.{
  Uart, Devices, want, differs, uart_irq, rx_fifo_size, tx_shift_ticks, uart_update_irq, uart_tick,
  uart_init, uart_receive, uart_pop, uart_read, uart_write, dlab,
}
use riscvemu.Uart.Fifo.{IsRing}

abbrev pub level : Bool → ℕ
level b = if b then 1 else 0

-- The PLIC's line of the UART shows what the UART remembers of it.
pub record IsWired (d : Devices) : Type 0 where
  pub line : bit d.plic.pending uart_irq ≡ level d.uart.irq_level
  pub plic_valid : IsValid d.plic

-- A busy transmitter has between 1 and 64 ticks to go.
abbrev pub IsPaced : Uart → Type 0
IsPaced u = u.thr_busy ≡ true → (1 ≤ u.thr_ticks) × (u.thr_ticks ≤ tx_shift_ticks)

-- The line is up exactly when an enabled cause is present, and the ring and the transmitter are
-- in bounds.
pub record IsSound (d : Devices) : Type 0 where
  pub wired : IsWired d
  pub current : d.uart.irq_level ≡ want d.uart
  pub ring_fits : IsRing d.uart
  pub paced : IsPaced d.uart

same_of_not_differs : (a b : Bool) → differs a b ≡ false → b ≡ a
same_of_not_differs true true e = refl
same_of_not_differs true false e = cc
same_of_not_differs false b e = e

update_irq-IsSound :
    (d : Devices) → IsWired d → IsRing d.uart → IsPaced d.uart → IsSound (uart_update_irq d)
unfolding uart_update_irq
update_irq-IsSound d w r t = elim (Bool-cases (differs (want d.uart) d.uart.irq_level)) [
  | inl e ↦ rw e (record {
    wired = record {
      line = ground (
        arith,
        bit-plic_set_irq uart_irq (want d.uart) d.plic uart_irq w.plic_valid.pending_word,
      );
      plic_valid = set_irq-IsValid w.plic_valid uart_irq (want d.uart);
    };
    current = refl;
    ring_fits = r;
    paced = t;
  })
  | inr e ↦ rw e (record {
    wired = w;
    current = same_of_not_differs (want d.uart) _ e;
    ring_fits = r;
    paced = t;
  })
]

-- The calls that uart.c offers.
pub data Call (d : Devices) : Devices → Type 0 where
  tick : Call d (uart_tick d)
  receive : (c : ℕ) → Call d (uart_receive c d)
  read : (offset : ℕ) → Call d (uart_read offset d).1
  write : (offset val : ℕ) → Call d (uart_write offset val d)

tick-IsSound : {d : Devices} → IsSound d → IsSound (uart_tick d)
unfolding uart_tick
tick-IsSound {d} v = elim (Bool-cases d.uart.thr_busy) [
  | inr idle ↦ simp idle v
  | inl busy ↦
      let left = sub32 d.uart.thr_ticks 1 in
      elim (Bool-cases (left == 0)) [
        | inl done ↦
            rw (busy, done)
              (update_irq-IsSound
                (record d { uart = record (d.uart) { thr_ticks = left; thr_busy = false } })
                (record { line = v.wired.line; plic_valid = v.wired.plic_valid }) v.ring_fits
                (λ e. cc))
        | inr more ↦
            rw (busy, more)
              (record {
                wired = record { line = v.wired.line; plic_valid = v.wired.plic_valid };
                current = rw busy at (v.current);
                ring_fits = v.ring_fits;
                paced = λ e. ground (arith, v.paced busy);
              })
      ]
]

receive-IsSound : {d : Devices} (c : ℕ) → IsSound d → IsSound (uart_receive c d)
unfolding uart_receive
receive-IsSound {d} c v = elim (Bool-cases (leb rx_fifo_size d.uart.rx_count)) [
  | inl full ↦ rw full v
  | inr room ↦ rw room (
      update_irq-IsSound _ (record { line = v.wired.line; plic_valid = v.wired.plic_valid })
        (v.ring_fits.0, ground arith) v.paced)
]

pop-IsSound : {d : Devices} → IsSound d → IsSound (uart_pop d).1
unfolding uart_pop
pop-IsSound {d} v = elim (Bool-cases (ltb 0 d.uart.rx_count)) [
  | inr empty ↦ rw empty v
  | inl some ↦ rw some (
      update_irq-IsSound _ (record { line = v.wired.line; plic_valid = v.wired.plic_valid })
        (ground (arith, v.ring_fits)) v.paced)
]

-- Only a read of RBR with DLAB clear changes anything.
uart_read-pop :
    (offset : ℕ) (d : Devices)
    → (uart_read offset d).1
      ≡ (if bit_and offset 0x7 == 0 && not (dlab d.uart) then (uart_pop d).1 else d)
unfolding uart_read
uart_read-pop offset d = ground arith

read-IsSound : {d : Devices} (offset : ℕ) → IsSound d → IsSound (uart_read offset d).1
read-IsSound {d} offset v =
    rw (uart_read-pop offset d)
      (if_both IsSound (bit_and offset 0x7 == 0 && not (dlab d.uart)) (pop-IsSound v) v)

-- Registers that no interrupt depends on.
unchanged :
    (lcr mcr scr : ℕ) {d : Devices}
    → IsSound d
    → IsSound (record d { uart = record (d.uart) { lcr = lcr; mcr = mcr; scr = scr } })
unchanged lcr mcr scr v = record {
  wired = record { line = v.wired.line; plic_valid = v.wired.plic_valid };
  current = v.current;
  ring_fits = v.ring_fits;
  paced = v.paced;
}

write-IsSound : {d : Devices} (offset val : ℕ) → IsSound d → IsSound (uart_write offset val d)
unfolding uart_write
write-IsSound {d} offset val v =
    let u = d.uart in
    let reg = bit_and offset 0x7 in
    if_both IsSound (reg == 0)
      (if_both IsSound (dlab u) v (
        update_irq-IsSound _ (record { line = v.wired.line; plic_valid = v.wired.plic_valid })
          v.ring_fits (λ e. (omega arith, omega arith))))
      (if_both IsSound (reg == 1)
        (update_irq-IsSound _ (record { line = v.wired.line; plic_valid = v.wired.plic_valid })
          v.ring_fits v.paced)
        (if_both IsSound (reg == 2) (update_irq-IsSound d v.wired v.ring_fits v.paced) (
          if_both IsSound (reg == 3) (unchanged (u8 val) u.mcr u.scr v) (
            if_both IsSound (reg == 4) (unchanged u.lcr (u8 val) u.scr v)
              (unchanged u.lcr u.mcr (u8 val) v)))))

-- The devices as the emulator starts them, and after any calls.
pub data Running (sent : List ℕ) : Devices → Type 0 where
  start : Running sent (uart_init sent plic_init)
  next : {d e : Devices} → Running sent d → Call d e → Running sent e

init-IsSound : (sent : List ℕ) → IsSound (uart_init sent plic_init)
unfolding uart_init
init-IsSound sent =
    update_irq-IsSound _ (record { line = unfold plic_init in refl; plic_valid = init-IsValid })
      (omega arith, omega arith) (λ e. cc)

Call-IsSound : {d e : Devices} → IsSound d → Call d e → IsSound e
Call-IsSound v tick = tick-IsSound v
Call-IsSound v (receive c) = receive-IsSound c v
Call-IsSound v (read offset) = read-IsSound offset v
Call-IsSound v (write offset val) = write-IsSound offset val v

-- In every state that the calls of uart.c reach after `uart_init`, line 10 of the PLIC is up
-- exactly when received data or an empty transmitter has its interrupt enabled, the PLIC is valid,
-- the receive ring is in bounds, and a busy transmitter has 1 to 64 ticks to go.
pub Running-IsSound : {sent : List ℕ} {d : Devices} → Running sent d → IsSound d
Running-IsSound {sent} start = init-IsSound sent
Running-IsSound (next r c) = Call-IsSound (Running-IsSound r) c
