-- ===== src/Tests/Bus.antt =====
-- Examples of the devices.
use riscvemu.Base.{◌+◌, ◌≡◌, ◌≢◌, true, [], ◌∷◌, arith}
use riscvemu.Clint.{Clint, clint_mtimecmp_hart0, clint_read, clint_mtip_pending}
use riscvemu.Clint.Timer.{ticks, mtip_pending-ticks}
use riscvemu.Clint.Registers.{store_bytes, clint_read-store_bytes}
use riscvemu.Plic.{
  plic_init, plic_set_irq, plic_best_source, plic_best_loop, eligible, plic_read32, plic_write32,
}
use riscvemu.Plic.Best.{Picks, plic_best_source-Picks}
use riscvemu.Plic.Claim.{claim_reg, IsClaimed, plic_read32-IsClaimed, plic_complete_claim}
use riscvemu.Plic.Lines.{IsValid, Reachable, Access, Reachable-IsValid}
use riscvemu.Uart.{uart_init, uart_write, uart_receive, uart_pop}
use riscvemu.Uart.Fifo.{queue, queue-uart_receive, uart_pop-queue}
use riscvemu.Uart.Irq.{IsSound, Running, Call, Running-IsSound}
use riscvemu.Tests.{busy_plic, devices}

abbrev clint : Clint
clint = record { mtime = 990; mtimecmp = 1000 }

mtip_pending-ticks_example : clint_mtip_pending (ticks 12 clint) ≡ true
mtip_pending-ticks_example = mtip_pending-ticks clint 12 (λ e. absurd (omega arith)) (omega arith)

clint_read-store_bytes_example :
    clint_read (clint_mtimecmp_hart0 + 1) (store_bytes 8 clint_mtimecmp_hart0 0x123456789A clint)
    ≡ 0x78
clint_read-store_bytes_example =
    clint_read-store_bytes 1 0x123456789A clint (omega arith) (omega arith) (omega arith)

plic_best_source-Picks_example : Picks busy_plic 0 5
unfolding plic_best_source plic_best_loop eligible
plic_best_source-Picks_example = plic_best_source-Picks busy_plic 0

plic_read32-IsClaimed_example : IsClaimed 1 busy_plic (plic_read32 (claim_reg 1) busy_plic)
plic_read32-IsClaimed_example = plic_read32-IsClaimed 1 busy_plic (omega arith)

is_pending : plic_best_source busy_plic 1 ≢ 0
unfolding plic_best_source plic_best_loop eligible
is_pending e = absurd (omega arith)

plic_complete_claim_example :
    let (id, q) = plic_read32 (claim_reg 1) busy_plic in plic_write32 (claim_reg 1) id q ≡ busy_plic
plic_complete_claim_example = plic_complete_claim 1 busy_plic (omega arith) is_pending

Reachable-IsValid_example : IsValid (plic_read32 0x200004 (plic_set_irq 10 true plic_init)).1
Reachable-IsValid_example = Reachable-IsValid (
    Reachable.next (Reachable.next Reachable.start (Access.set_irq 10 true))
      (Access.read32 0x200004))

Running-IsSound_example : IsSound (uart_receive 65 (uart_write 1 3 (uart_init [] plic_init)))
Running-IsSound_example =
    Running-IsSound (Running.next (Running.next Running.start (Call.write 1 3)) (Call.receive 65))

queue-uart_receive_example : queue (uart_receive 9 devices).uart ≡ 254 ∷ 255 ∷ 0 ∷ 9 ∷ []
queue-uart_receive_example = queue-uart_receive 9 devices

uart_pop-queue_example :
    ((uart_pop devices).0 ≡ 254) × (queue (uart_pop devices).1.uart ≡ 255 ∷ 0 ∷ [])
uart_pop-queue_example = uart_pop-queue devices (omega arith, omega arith)
