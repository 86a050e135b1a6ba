-- ===== src/Fdt/Tree.antt =====
-- `fdt_build_riscvemu` of src/device/fdt.c: the machine's device tree, in the parts that its comments name. A
-- failure gives `none` for the source's 0.
use riscvemu.Base.{
  ℕ, ◌&&◌, nonzero, if◌then◌else◌, List, [], ◌∷◌, ◌++◌, Option, none, some, ◌>>=◌, codes,
}
use riscvemu.Clint.{clint_base, clint_size}
use riscvemu.Plic.{plic_ndev}
use riscvemu.Uart.{uart_irq}
use riscvemu.Memory.{plic_base, plic_size, uart_base, uart_nregs}
use riscvemu.Fdt.{
  FdtBuilder, fdt_max_buf, fdt_hart_base, fdt_builder_init, fdt_node_push, fdt_node_pop,
  fdt_prop_word, fdt_prop_cells1, fdt_prop_cells2, fdt_prop_str, fdt_prop_empty, fdt_prop_bytes,
  fdt_prop_interrupt_parent,
}
use riscvemu.Fdt.Serialize.{fdt_serialize}

abbrev pub fdt_cpu_intc_phandle : ℕ
fdt_cpu_intc_phandle = 1

abbrev pub fdt_plic_phandle : ℕ
fdt_plic_phandle = 2

abbrev pub irq_m_soft : ℕ
irq_m_soft = 3

abbrev pub irq_m_timer : ℕ
irq_m_timer = 7

abbrev pub irq_m_ext : ℕ
irq_m_ext = 11

abbrev pub irq_s_ext : ℕ
irq_s_ext = 9

abbrev pub fdt_timebase_freq : ℕ
fdt_timebase_freq = 10000000

abbrev pub fdt_ram_start : ℕ
fdt_ram_start = 0x80000000

abbrev pub fdt_ram_size : ℕ
fdt_ram_size = 0x80000000

abbrev pub plic_comp : List ℕ
plic_comp = codes "sifive,plic-1.0.0" ++ (0 ∷ codes "riscv,plic0") ++ (0 ∷ 0 ∷ [])

-- A text with its NUL, before other bytes.
abbrev pub terminated : List ℕ → List ℕ → List ℕ
terminated s rest = s ++ (0 ∷ rest)

-- The extensions, each with its NUL, and the NUL of the literal.
abbrev pub ext : List ℕ
ext = terminated (codes "i") (
    terminated (codes "m") (
      terminated (codes "a") (
        terminated (codes "f") (
          terminated (codes "d") (
            terminated (codes "q") (
              terminated (codes "c") (
                terminated (codes "zicsr") (
                  terminated (codes "zifencei")
                    (terminated (codes "zicntr") (terminated (codes "zicond") (0 ∷ [])))))))))))

-- /soc/clint@2000000.
unfoldable pub fdt_build_clint : FdtBuilder → Option FdtBuilder
fdt_build_clint b = do
  b ← fdt_node_push (codes "clint@2000000") b
  b ← fdt_prop_str (codes "compatible") (codes "sifive,clint0") b
  b ← fdt_prop_word (codes "reg") 0x0 clint_base 0x0 clint_size b
  b ←
      fdt_prop_word (codes "interrupts-extended") fdt_cpu_intc_phandle irq_m_soft
        fdt_cpu_intc_phandle irq_m_timer b
  b ← fdt_node_pop b
  some b

-- /soc/plic@c000000.
unfoldable pub fdt_build_plic : FdtBuilder → Option FdtBuilder
fdt_build_plic b = do
  b ← fdt_node_push (codes "plic@c000000") b
  b ← fdt_prop_bytes (codes "compatible") plic_comp b
  b ← fdt_prop_word (codes "reg") 0x0 plic_base 0x0 plic_size b
  b ← fdt_prop_cells1 (codes "#address-cells") 0 b
  b ← fdt_prop_cells1 (codes "#interrupt-cells") 1 b
  b ← fdt_prop_cells1 (codes "phandle") fdt_plic_phandle b
  b ← fdt_prop_empty (codes "interrupt-controller") b
  b ← fdt_prop_cells1 (codes "riscv,ndev") plic_ndev b
  b ←
      fdt_prop_word (codes "interrupts-extended") fdt_cpu_intc_phandle irq_m_ext
        fdt_cpu_intc_phandle irq_s_ext b
  b ← fdt_node_pop b
  some b

-- /soc/uart@10000000.
unfoldable pub fdt_build_uart : FdtBuilder → Option FdtBuilder
fdt_build_uart b = do
  b ← fdt_node_push (codes "uart@10000000") b
  b ← fdt_prop_str (codes "compatible") (codes "ns16550a") b
  b ← fdt_prop_word (codes "reg") 0x0 uart_base 0x0 uart_nregs b
  b ← fdt_prop_cells1 (codes "clock-frequency") 3686400 b
  b ← fdt_prop_cells1 (codes "current-speed") 115200 b
  b ← fdt_prop_cells1 (codes "reg-shift") 0 b
  b ← fdt_prop_cells1 (codes "reg-io-width") 1 b
  b ← fdt_prop_interrupt_parent fdt_plic_phandle b
  b ← fdt_prop_cells1 (codes "interrupts") uart_irq b
  b ← fdt_node_pop b
  some b

-- The properties of the root.
unfoldable pub fdt_root : FdtBuilder → Option FdtBuilder
fdt_root b = do
  b ← fdt_prop_cells1 (codes "#address-cells") 2 b
  b ← fdt_prop_cells1 (codes "#size-cells") 2 b
  b ← fdt_prop_str (codes "compatible") (codes "riscvemu") b
  b ← fdt_prop_str (codes "model") (codes "RISCVemu RV32 virt") b
  some b

-- /chosen, which stays open for the archive.
unfoldable pub fdt_chosen : FdtBuilder → Option FdtBuilder
fdt_chosen b = do
  b ← fdt_node_push (codes "chosen") b
  b ← fdt_prop_str (codes "stdout-path") (codes "/soc/uart@10000000") b
  b ←
      fdt_prop_str (codes "bootargs")
        (codes "earlycon console=ttyS0,115200n8 root=/dev/ram0 rw rdinit=/init") b
  some b

-- /memory@80000000.
unfoldable pub fdt_memory : FdtBuilder → Option FdtBuilder
fdt_memory b = do
  b ← fdt_node_push (codes "memory@80000000") b
  b ← fdt_prop_str (codes "device_type") (codes "memory") b
  b ← fdt_prop_word (codes "reg") 0x0 fdt_ram_start 0x0 fdt_ram_size b
  b ← fdt_node_pop b
  some b

-- /cpus and /cpus/cpu@0, which stay open.
unfoldable pub fdt_cpus : FdtBuilder → Option FdtBuilder
fdt_cpus b = do
  b ← fdt_node_push (codes "cpus") b
  b ← fdt_prop_cells1 (codes "#address-cells") 1 b
  b ← fdt_prop_cells1 (codes "#size-cells") 0 b
  b ← fdt_prop_cells1 (codes "timebase-frequency") fdt_timebase_freq b
  some b

-- The properties of /cpus/cpu@0.
unfoldable pub fdt_cpu : FdtBuilder → Option FdtBuilder
fdt_cpu b = do
  b ← fdt_node_push (codes "cpu@0") b
  b ← fdt_prop_str (codes "device_type") (codes "cpu") b
  b ← fdt_prop_cells1 (codes "reg") fdt_hart_base b
  b ← fdt_prop_str (codes "compatible") (codes "riscv") b
  b ← fdt_prop_str (codes "mmu-type") (codes "riscv,sv32") b
  b ← fdt_prop_str (codes "riscv,isa") (codes "rv32imafdqc_zicsr_zifencei_zicond") b
  b ← fdt_prop_str (codes "riscv,isa-base") (codes "rv32i") b
  b ← fdt_prop_bytes (codes "riscv,isa-extensions") ext b
  some b

-- /cpus/cpu@0/interrupt-controller; the three nodes are closed.
unfoldable pub fdt_cpu_intc : FdtBuilder → Option FdtBuilder
fdt_cpu_intc b = do
  b ← fdt_node_push (codes "interrupt-controller") b
  b ← fdt_prop_cells1 (codes "phandle") fdt_cpu_intc_phandle b
  b ← fdt_prop_cells1 (codes "#interrupt-cells") 1 b
  b ← fdt_prop_str (codes "compatible") (codes "riscv,cpu-intc") b
  b ← fdt_prop_empty (codes "interrupt-controller") b
  b ← fdt_node_pop b
  b ← fdt_node_pop b
  b ← fdt_node_pop b
  some b

-- /soc, which stays open for the devices.
unfoldable pub fdt_soc : FdtBuilder → Option FdtBuilder
fdt_soc b = do
  b ← fdt_node_push (codes "soc") b
  b ← fdt_prop_str (codes "compatible") (codes "simple-bus") b
  b ← fdt_prop_cells1 (codes "#address-cells") 2 b
  b ← fdt_prop_cells1 (codes "#size-cells") 2 b
  b ← fdt_prop_empty (codes "ranges") b
  some b

-- The place of a separate initial archive, when there is one.
unfoldable pub fdt_initrd : ℕ → ℕ → FdtBuilder → Option FdtBuilder
fdt_initrd initrd_start initrd_end b =
    if nonzero initrd_start && nonzero initrd_end
    then (do
      b ← fdt_prop_cells2 (codes "linux,initrd-start") 0 initrd_start b
      b ← fdt_prop_cells2 (codes "linux,initrd-end") 0 initrd_end b
      some b)
    else some b

-- `memset(&b, 0, sizeof(b))` and the buffer at an address of the main memory.
abbrev pub fresh_builder : ℕ → (ℕ → ℕ) → FdtBuilder
fresh_builder addr memory = record {
  memory = memory;
  buf = addr;
  bufsize = fdt_max_buf;
  struct_off = 0;
  strings_off = 0;
  rsvmap_count = 0;
  depth = 0;
  err = 0;
}

-- The build into a memory, from `memset`.
unfoldable pub build_tree : ℕ → ℕ → ℕ → (ℕ → ℕ) → Option (ℕ × FdtBuilder)
build_tree addr initrd_start initrd_end memory = do
  b ← fdt_root (fdt_builder_init (fresh_builder addr memory))
  b ← fdt_chosen b
  b ← fdt_initrd initrd_start initrd_end b
  b ← fdt_node_pop b
  b ← fdt_memory b
  b ← fdt_cpus b
  b ← fdt_cpu b
  b ← fdt_cpu_intc b
  b ← fdt_soc b
  b ← fdt_build_clint b
  b ← fdt_build_plic b
  b ← fdt_build_uart b
  b ← fdt_node_pop b
  some (fdt_serialize b)

-- `none` is the result 0: there is no memory, or a step failed.
unfoldable pub fdt_build_riscvemu : ℕ → ℕ → ℕ → Option (ℕ → ℕ) → Option (ℕ × FdtBuilder)
fdt_build_riscvemu addr initrd_start initrd_end none = none
fdt_build_riscvemu addr initrd_start initrd_end (some memory) =
    build_tree addr initrd_start initrd_end memory
