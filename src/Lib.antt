-- ===== src/Lib.antt =====
-- RISCVemu, a RISC-V (RV32) system emulator: the hart, its traps and interrupts, and the devices
-- beside it, as functions on an explicit state, with their correctness theorems.
--
-- The emulator fetches an instruction in the loop of src/emu.c, dispatches it in src/exec.c to a
-- function for each instruction, and adds 4 to the program counter after it. Instructions work on the global
-- state `g_state` of include/emu.h, on the control and status registers `csr_table`, and through the
-- bus of include/mem.h on the devices. A trap is a change of that state. The devices raise interrupts
-- by lines that the registers mip and sip show, and the loop takes one between two instructions.
--
-- The files and what they model:
--   Base, Bits        the shared names, lists as arrays, words and signed integers, and the laws
--                     of `&`, `|` and `^` (bit by bit, and as arithmetic on fields).
--   Machine           include/emu.h and the registers of include/exec.h: `g_state` as a record that
--                     also holds the static variables of the other files.
--   Csr               src/extension/zicsr_extension.c and its header: the register numbers (Numbers),
--                     the table (Table), mstatus and sstatus (Status), every callback, `csr_read` and
--                     `csr_write` (Access).
--   Zicsr             the access check and the six instructions on these registers.
--   System            src/extension/system.c: exceptions, interrupts, delegation, MRET and SRET. Its
--                     theorems are in Status (fields of mstatus), Trap, Return, SupervisorReturn and
--                     Interrupts.
--   Clint, Plic, Uart src/device/clint.c, src/device/plic.c and src/device/uart.c. The UART drives a line of
--                     the PLIC, so its calls act on both devices.
--   Integer, Jump, LoadStore  include/basic_instructions.h and include/extension/zicond_extension.h, with
--                     the loads, stores and registers of src/extension/f_extension.c.
--   Muldiv            src/extension/m_extension.c: Product, and Division by way of the integers (Signed).
--   Zicntr, Sdtrig, Trigger, Fcsr  the counters, the debug triggers and their checks, and the floating-point status register of
--                     src/extension/f_extension.c.
--   Fdt               src/device/fdt.c and include/device/fdt.h: the writer of device trees (Fdt, Serialize) and the machine's tree
--                     (Tree). Tokens and Reader describe the format on their own; Filled, Props,
--                     Refines, Runs and Image follow the writer's two blocks, and Calls and Build the
--                     machine's tree.
--   Float             src/extension/f_extension.c: NaNs and classes, and the instructions on signs (Sign), minima and
--                     comparisons (MinMax), arithmetic (Arith), conversions (Convert, Formats) and
--                     the choice among them (Formats), over interfaces of the float library.
--   HashmapU32        src/hashmap_u32.c, the map of reservations: its probes (Probe, Findable), and what
--                     putting and removing a key changes (Valid, Removed), also when the table
--                     grows (Assoc, Moved, Grown).
--   Memory            include/mem.h: the physical accesses, to the devices or the main memory.
--   Mmu               include/mmu.h: Sv32 translation and the accesses through it (Access). Walk describes the
--                     walk by the fields of the entries; Refines, Fault and Sv32 hold the theorems.
--   Atomic            include/extension/a_extension.h: LR.W, SC.W and the other operations (Amo).
--   Compressed        src/extension/c_extension.c. Forms has the encodings of its short forms and what they
--                     stand for; Fields, Stack and Expand go from one to the other.
--   Outcome, Exec     src/exec.c: the fields of an instruction (Decode), every opcode (Exec, System) and the
--                     dispatch (Dispatch), with `fatal` of src/logger.c as an outcome. Formats and
--                     Encoded take words apart again; Instructions lists the base instructions for
--                     Encodes.
--   Round             the loop of src/emu.c, round by round, with its detector of programs that spin.
--   Tests             concrete states, and the theorems at work on them.
--
-- The model. Numbers are natural numbers, and a C integer is its bit pattern, with `% 2 ^ w` where it
-- wraps; a signed value is read off its pattern. A C array that is only indexed is a function, and a static variable is
-- a field. A function that changes state returns the new state; one that also returns a value
-- returns a pair. Callbacks of `csr_table` are names, dispatched by `run_read` and `run_write`. Loops
-- are recursion on the number of rounds that the source's bound gives, so no fuel is chosen: 10
-- sources of the PLIC, 4 triggers, 8 addresses of the detector, 3 bytes of padding, and the capacity of the hash map.
-- The configuration is the default of CMakeLists.txt: every extension and device is on, the debugger
-- and misaligned accesses are off.
--
-- `exec` takes the float library, whose functions give a result and the flags they raise, as a parameter, and
-- `round` takes what `uart_poll_input` found.
--
-- Not modelled: the accesses of include/mmu.h for the build
-- that supports misaligned ones, `init_mem`, the debugger and the disassembler, logging, and
-- all input and output, with the arguments and images that src/emu.c reads. `debug` calls only log and are left out. Failure of `calloc` in the hash map is
-- an argument.
pub mod Base
pub mod Bits
pub mod Clint
pub mod Plic
pub mod Uart
pub mod HashmapU32
pub mod Sdtrig
pub mod Zicntr
pub mod Fcsr
pub mod Fdt
pub mod Float
pub mod Machine
pub mod Csr
pub mod System
pub mod Zicsr
pub mod Integer
pub mod Jump
pub mod Muldiv
pub mod Trigger
pub mod Memory
pub mod Mmu
pub mod LoadStore
pub mod Outcome
pub mod Atomic
pub mod Compressed
pub mod Exec
pub mod Round
pub mod Tests
