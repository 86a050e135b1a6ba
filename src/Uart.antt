-- ===== src/Uart.antt =====
-- src/device/uart.c: the 16550 registers, the receive buffer and the pacing of the transmitter, with
-- the interrupt line that it drives on the PLIC. Reading bytes from the host is not modelled: they
-- enter by `uart_receive`.
pub mod Fifo
pub mod Irq
use riscvemu.Base.{
  update, ℕ, zero, suc, ◌+◌, ◌%◌, ◌^◌, bit_and, bit_or, Bool, true, false, ◌&&◌, ◌||◌, not, leb,
  ltb, ◌==◌, nonzero, if◌then◌else◌, u8, sub32, List, [], ◌∷◌, ◌++◌,
}
use riscvemu.Plic.{Plic, plic_set_irq}

abbrev pub rx_fifo_size : ℕ
rx_fifo_size = 256

abbrev pub tx_shift_ticks : ℕ
tx_shift_ticks = 64

abbrev pub uart_irq : ℕ
uart_irq = 10

abbrev pub ier_erbi : ℕ
ier_erbi = 1

abbrev pub ier_etbei : ℕ
ier_etbei = 2

abbrev pub lcr_dlab : ℕ
lcr_dlab = 128

-- The registers, and with `sent` the bytes that were written to the host's standard output.
pub record Uart : Type 0 where
  pub rx : ℕ → ℕ
  pub rx_head : ℕ
  pub rx_count : ℕ
  pub ier : ℕ
  pub lcr : ℕ
  pub mcr : ℕ
  pub scr : ℕ
  pub irq_level : Bool
  pub thr_busy : Bool
  pub thr_ticks : ℕ
  pub sent : List ℕ

-- The two devices that the calls of uart.c change.
pub record Devices : Type 0 where
  pub uart : Uart
  pub plic : Plic

abbrev pub rx_pend : Uart → Bool
rx_pend u = ltb 0 u.rx_count && nonzero (bit_and u.ier ier_erbi)

abbrev pub tx_pend : Uart → Bool
tx_pend u = not u.thr_busy && nonzero (bit_and u.ier ier_etbei)

-- The level that the line should have.
abbrev pub want : Uart → Bool
want u = rx_pend u || tx_pend u

abbrev pub differs : Bool → Bool → Bool
differs true b = not b
differs false b = b

unfoldable pub uart_update_irq : Devices → Devices
uart_update_irq d =
    if differs (want d.uart) d.uart.irq_level
    then record {
      uart = record (d.uart) { irq_level = want d.uart };
      plic = plic_set_irq uart_irq (want d.uart) d.plic;
    }
    else d

unfoldable pub uart_tick : Devices → Devices
uart_tick d =
    let left = sub32 d.uart.thr_ticks 1 in
    if d.uart.thr_busy
    then (if left == 0
        then uart_update_irq
            (record d { uart = record (d.uart) { thr_ticks = left; thr_busy = false } })
        else record d { uart = record (d.uart) { thr_ticks = left } })
    else d

-- `memset` and the line-control reset, then the line.
unfoldable pub uart_init : List ℕ → Plic → Devices
uart_init sent plic = uart_update_irq (record {
  uart = record {
    rx = λ _. 0;
    rx_head = 0;
    rx_count = 0;
    ier = 0;
    lcr = 0x03;
    mcr = 0;
    scr = 0;
    irq_level = false;
    thr_busy = false;
    thr_ticks = 0;
    sent = sent;
  };
  plic = plic;
})

unfoldable pub uart_receive : ℕ → Devices → Devices
uart_receive c d =
    let u = d.uart in
    if leb rx_fifo_size u.rx_count
    then d
    else uart_update_irq (record d {
      uart = record u {
        rx = update u.rx ((u.rx_head + u.rx_count) % rx_fifo_size) c;
        rx_count = u.rx_count + 1;
      };
    })

-- The read of RBR with DLAB clear takes a byte out of the buffer.
unfoldable pub uart_pop : Devices → ℕ × Devices
uart_pop d =
    let u = d.uart in
    if ltb 0 u.rx_count
    then (
      u.rx u.rx_head,
      uart_update_irq (record d {
        uart = record u { rx_head = (u.rx_head + 1) % rx_fifo_size; rx_count = sub32 u.rx_count 1 };
      }),
    )
    else (0, d)

abbrev pub dlab : Uart → Bool
dlab u = nonzero (bit_and u.lcr lcr_dlab)

abbrev pub uart_iir : Uart → ℕ
uart_iir u = if rx_pend u then 0x04 else if tx_pend u then 0x02 else 0x01

abbrev pub uart_lsr : Uart → ℕ
uart_lsr u =
    bit_or (if u.thr_busy then 0 else bit_or 0x20 0x40) (if ltb 0 u.rx_count then 0x01 else 0)

-- `switch (offset & 0x7u)`
unfoldable pub uart_read : ℕ → Devices → ℕ × Devices
uart_read offset d =
    let u = d.uart in
    let reg = bit_and offset 0x7 in
    if reg == 0
    then (if dlab u then (0, d) else uart_pop d)
    else if reg == 1
    then (if dlab u then 0 else u.ier, d)
    else if reg == 2
    then (uart_iir u, d)
    else if reg == 3
    then (u.lcr, d)
    else if reg == 4
    then (u.mcr, d)
    else if reg == 5
    then (uart_lsr u, d)
    else if reg == 6
    then (0, d)
    else (u.scr, d)

unfoldable pub uart_write : ℕ → ℕ → Devices → Devices
uart_write offset val d =
    let u = d.uart in
    let reg = bit_and offset 0x7 in
    if reg == 0
    then (if dlab u
        then d
        else uart_update_irq (record d {
          uart = record u {
            sent = u.sent ++ bit_and val 0xFF ∷ [];
            thr_busy = true;
            thr_ticks = tx_shift_ticks;
          };
        }))
    else if reg == 1
    then uart_update_irq (record d { uart = record u { ier = u8 (bit_and val 0x0F) } })
    else if reg == 2
    then uart_update_irq d
    else if reg == 3
    then record d { uart = record u { lcr = u8 val } }
    else if reg == 4
    then record d { uart = record u { mcr = u8 val } }
    else record d { uart = record u { scr = u8 val } }
