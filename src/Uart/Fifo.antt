-- ===== src/Uart/Fifo.antt =====
-- The receive ring of uart.c is a queue of at most 256 bytes.
use mathlib.Core.Path.{ap₂}
use native.Mathlib.Nat.{mod-eq_of_lt}
use riscvemu.Base.{
  update, sub32, true, Bool-cases, inl, inr, ℕ, zero, suc, ◌+◌, ◌%◌, ◌≤◌, ◌<◌, ◌≡◌, refl, sym, ap,
  ◌∙◌, arith, List, [], ◌∷◌, ◌++◌, if◌then◌else◌, leb, ltb,
}
use riscvemu.Uart.{
  want, differs, Uart, Devices, rx_fifo_size, uart_update_irq, uart_receive, uart_pop,
}

-- The `n` bytes of the ring from `head` on.
abbrev pub ring : (ℕ → ℕ) → ℕ → ℕ → List ℕ
ring rx head zero = []
ring rx head (suc n) = rx (head % rx_fifo_size) ∷ ring rx (head + 1) n

-- The queue that the ring stands for, oldest byte first.
abbrev pub queue : Uart → List ℕ
queue u = ring u.rx u.rx_head u.rx_count

-- A ring sees its buffer only at the positions that it covers.
ring_congr :
    (rx ry : ℕ → ℕ) (head start n : ℕ)
    → head % rx_fifo_size ≡ start % rx_fifo_size
    → ((i : ℕ) → i < n → rx ((head + i) % rx_fifo_size) ≡ ry ((head + i) % rx_fifo_size))
    → ring rx head n ≡ ring ry start n
ring_congr rx ry head start zero e h = refl
ring_congr rx ry head start (suc n) e h =
    let first : head + 0 ≡ head = omega arith in
    ap₂ ◌∷◌ ((rw first at (h 0 (omega arith))) ∙ ap ry e) (
      ring_congr rx ry (head + 1) (start + 1) n (omega arith) λ i l.
        let shift : head + suc i ≡ head + 1 + i = omega arith in
        rw shift at (h (suc i) (omega arith)))

ring-suc :
    (rx : ℕ → ℕ) (head n : ℕ)
    → ring rx head (suc n) ≡ ring rx head n ++ rx ((head + n) % rx_fifo_size) ∷ []
ring-suc rx head zero = ap (λ (t : ℕ). rx (t % rx_fifo_size) ∷ []) (omega arith)
ring-suc rx head (suc n) =
    let shift : head + 1 + n ≡ head + suc n = omega arith in
    ap (◌∷◌ (rx (head % rx_fifo_size))) (
      ring-suc rx (head + 1) n
      ∙ ap (λ (t : ℕ). ring rx (head + 1) n ++ rx (t % rx_fifo_size) ∷ []) shift)

ring-update :
    (rx : ℕ → ℕ) (head n c : ℕ)
    → n < rx_fifo_size
    → ring (update rx ((head + n) % rx_fifo_size) c) head (suc n) ≡ ring rx head n ++ c ∷ []
ring-update rx head n c h =
    let ry = update rx ((head + n) % rx_fifo_size) c in
    ring-suc ry head n
    ∙ ap₂ (λ (l : List ℕ) (v : ℕ). l ++ v ∷ [])
        (ring_congr ry rx head head n refl λ i l. ground arith) (ground arith)

-- `uart_update_irq` leaves the buffer alone.
queue-uart_update_irq : (d : Devices) → queue (uart_update_irq d).uart ≡ queue d.uart
unfolding uart_update_irq
queue-uart_update_irq d = elim (Bool-cases (differs (want d.uart) d.uart.irq_level)) [
  | inl e ↦ rw e
  | inr e ↦ rw e
]

-- A received byte goes to the end of the queue, and is dropped when the queue holds 256 bytes.
pub queue-uart_receive :
    (c : ℕ) (d : Devices)
    → queue (uart_receive c d).uart
      ≡ (if leb rx_fifo_size d.uart.rx_count then queue d.uart else queue d.uart ++ c ∷ [])
unfolding uart_receive
queue-uart_receive c d = elim (Bool-cases (leb rx_fifo_size d.uart.rx_count)) [
  | inl full ↦ rw full
  | inr room ↦
      let e : d.uart.rx_count + 1 ≡ suc d.uart.rx_count = omega arith in
      let l : d.uart.rx_count < rx_fifo_size = ground arith in
      rw room (
        queue-uart_update_irq _
        ∙ ap
            (ring (update d.uart.rx ((d.uart.rx_head + d.uart.rx_count) % rx_fifo_size) c)
              d.uart.rx_head)
            e
        ∙ ring-update d.uart.rx d.uart.rx_head d.uart.rx_count c l)
]

abbrev pub head_or : ℕ → List ℕ → ℕ
head_or d [] = d
head_or d (x ∷ xs) = x

abbrev pub rest : List ℕ → List ℕ
rest [] = []
rest (x ∷ xs) = xs

-- The state of the ring that its operations keep.
abbrev pub IsRing : Uart → Type 0
IsRing u = (u.rx_head < rx_fifo_size) × (u.rx_count ≤ rx_fifo_size)

abbrev popped : ℕ → Devices → Devices
popped n d = record d {
  uart = record (d.uart) { rx_head = (d.uart.rx_head + 1) % rx_fifo_size; rx_count = n };
}

pop_nothing : (d : Devices) → d.uart.rx_count ≡ 0 → uart_pop d ≡ (0, d)
unfolding uart_pop
pop_nothing d e = rw e

pop_byte :
    (n : ℕ) (d : Devices)
    → n < rx_fifo_size
    → d.uart.rx_count ≡ suc n
    → uart_pop d ≡ (d.uart.rx d.uart.rx_head, uart_update_irq (popped n d))
unfolding uart_pop
pop_byte n d h e =
    let left : sub32 (suc n) 1 ≡ n = omega arith in
    let some : ltb 0 (suc n) ≡ true = ground arith in rw (e, some) (rw left)

-- With the ring in bounds, taking a byte returns the oldest byte of the queue, 0 when there is
-- none, and leaves the others.
pub uart_pop-queue :
    (d : Devices)
    → IsRing d.uart
    → ((uart_pop d).0 ≡ head_or 0 (queue d.uart))
      × (queue (uart_pop d).1.uart ≡ rest (queue d.uart))
uart_pop-queue d h = go d.uart.rx_count refl
  where
    go :
        (n : ℕ)
        → d.uart.rx_count ≡ n
        → ((uart_pop d).0 ≡ head_or 0 (queue d.uart))
          × (queue (uart_pop d).1.uart ≡ rest (queue d.uart))
    go zero e = rw (pop_nothing d e, e) (refl, refl)
    go (suc n) e =
        rw (pop_byte n d (omega arith) e, e)
          (
            ap d.uart.rx (sym (mod-eq_of_lt h.0)),
            queue-uart_update_irq (popped n d)
                ∙ ring_congr d.uart.rx d.uart.rx _ (d.uart.rx_head + 1) n (omega arith)
                    (λ i l. refl),
          )
