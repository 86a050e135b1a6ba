-- ===== src/Fdt/Calls.antt =====
-- The device tree that src/device/fdt.c builds is the image of these calls.
use riscvemu.Base.{ℕ, ◌&&◌, nonzero, if◌then◌else◌, List, [], ◌∷◌, ◌++◌, codes}
use riscvemu.Clint.{clint_base, clint_size}
use riscvemu.Plic.{plic_ndev}
use riscvemu.Uart.{uart_irq}
use riscvemu.Memory.{plic_base, plic_size, uart_base, uart_nregs}
use riscvemu.Fdt.{fdt_hart_base}
use riscvemu.Fdt.Tokens.{Call, push, pop, str, empty, bytes, cells, word}
use riscvemu.Fdt.Tree.{
  fdt_cpu_intc_phandle, fdt_plic_phandle, irq_m_soft, irq_m_timer, irq_m_ext, irq_s_ext,
  fdt_timebase_freq, fdt_ram_start, fdt_ram_size, plic_comp, ext,
}

abbrev pub clint_calls : List Call
clint_calls =
    push (codes "clint@2000000")
    ∷ str (codes "compatible") (codes "sifive,clint0")
    ∷ word (codes "reg") 0x0 clint_base 0x0 clint_size
    ∷ word (codes "interrupts-extended") fdt_cpu_intc_phandle irq_m_soft fdt_cpu_intc_phandle
        irq_m_timer
    ∷ pop
    ∷ []

abbrev pub plic_calls : List Call
plic_calls =
    push (codes "plic@c000000")
    ∷ bytes (codes "compatible") plic_comp
    ∷ word (codes "reg") 0x0 plic_base 0x0 plic_size
    ∷ cells (codes "#address-cells") (0 ∷ [])
    ∷ cells (codes "#interrupt-cells") (1 ∷ [])
    ∷ cells (codes "phandle") (fdt_plic_phandle ∷ [])
    ∷ empty (codes "interrupt-controller")
    ∷ cells (codes "riscv,ndev") (plic_ndev ∷ [])
    ∷ word (codes "interrupts-extended") fdt_cpu_intc_phandle irq_m_ext fdt_cpu_intc_phandle
        irq_s_ext
    ∷ pop
    ∷ []

abbrev pub uart_calls : List Call
uart_calls =
    push (codes "uart@10000000")
    ∷ str (codes "compatible") (codes "ns16550a")
    ∷ word (codes "reg") 0x0 uart_base 0x0 uart_nregs
    ∷ cells (codes "clock-frequency") (3686400 ∷ [])
    ∷ cells (codes "current-speed") (115200 ∷ [])
    ∷ cells (codes "reg-shift") (0 ∷ [])
    ∷ cells (codes "reg-io-width") (1 ∷ [])
    ∷ cells (codes "interrupt-parent") (fdt_plic_phandle ∷ [])
    ∷ cells (codes "interrupts") (uart_irq ∷ [])
    ∷ pop
    ∷ []

abbrev pub root_calls : List Call
root_calls =
    cells (codes "#address-cells") (2 ∷ [])
    ∷ cells (codes "#size-cells") (2 ∷ [])
    ∷ str (codes "compatible") (codes "riscvemu")
    ∷ str (codes "model") (codes "RISCVemu RV32 virt")
    ∷ []

abbrev pub chosen_calls : List Call
chosen_calls =
    push (codes "chosen")
    ∷ str (codes "stdout-path") (codes "/soc/uart@10000000")
    ∷ str (codes "bootargs")
        (codes "earlycon console=ttyS0,115200n8 root=/dev/ram0 rw rdinit=/init")
    ∷ []

abbrev pub memory_calls : List Call
memory_calls =
    push (codes "memory@80000000")
    ∷ str (codes "device_type") (codes "memory")
    ∷ word (codes "reg") 0x0 fdt_ram_start 0x0 fdt_ram_size
    ∷ pop
    ∷ []

abbrev pub cpus_calls : List Call
cpus_calls =
    push (codes "cpus")
    ∷ cells (codes "#address-cells") (1 ∷ [])
    ∷ cells (codes "#size-cells") (0 ∷ [])
    ∷ cells (codes "timebase-frequency") (fdt_timebase_freq ∷ [])
    ∷ []

abbrev pub cpu_calls : List Call
cpu_calls =
    push (codes "cpu@0")
    ∷ str (codes "device_type") (codes "cpu")
    ∷ cells (codes "reg") (fdt_hart_base ∷ [])
    ∷ str (codes "compatible") (codes "riscv")
    ∷ str (codes "mmu-type") (codes "riscv,sv32")
    ∷ str (codes "riscv,isa") (codes "rv32imafdqc_zicsr_zifencei_zicond")
    ∷ str (codes "riscv,isa-base") (codes "rv32i")
    ∷ bytes (codes "riscv,isa-extensions") ext
    ∷ []

abbrev pub cpu_intc_calls : List Call
cpu_intc_calls =
    push (codes "interrupt-controller")
    ∷ cells (codes "phandle") (fdt_cpu_intc_phandle ∷ [])
    ∷ cells (codes "#interrupt-cells") (1 ∷ [])
    ∷ str (codes "compatible") (codes "riscv,cpu-intc")
    ∷ empty (codes "interrupt-controller")
    ∷ pop
    ∷ pop
    ∷ pop
    ∷ []

abbrev pub soc_calls : List Call
soc_calls =
    push (codes "soc")
    ∷ str (codes "compatible") (codes "simple-bus")
    ∷ cells (codes "#address-cells") (2 ∷ [])
    ∷ cells (codes "#size-cells") (2 ∷ [])
    ∷ empty (codes "ranges")
    ∷ []

-- Nothing when there is no separate archive.
abbrev pub initrd_calls : ℕ → ℕ → List Call
initrd_calls initrd_start initrd_end =
    if nonzero initrd_start && nonzero initrd_end
    then cells (codes "linux,initrd-start") (0 ∷ initrd_start ∷ [])
      ∷ cells (codes "linux,initrd-end") (0 ∷ initrd_end ∷ [])
      ∷ []
    else []

abbrev pub machine_calls : ℕ → ℕ → List Call
machine_calls initrd_start initrd_end =
    root_calls
    ++ (chosen_calls
        ++ (initrd_calls initrd_start initrd_end
            ++ (pop
                ∷ (memory_calls
                    ++ (cpus_calls
                        ++ (cpu_calls
                            ++ (cpu_intc_calls
                                ++ (soc_calls
                                    ++ (clint_calls
                                        ++ (plic_calls ++ (uart_calls ++ pop ∷ [])))))))))))
