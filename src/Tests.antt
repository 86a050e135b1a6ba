-- ===== src/Tests.antt =====
-- The states that the examples run on.
pub mod Bus
pub mod Hart
pub mod Space
pub mod Reserved
pub mod Program
pub mod Tree
use riscvemu.Base.{ℕ, ◌+◌, ◌-◌, ◌^◌, false, [], ◌==◌, if◌then◌else◌}
use riscvemu.Clint.{clint_init}
use riscvemu.HashmapU32.{Hashmap}
use riscvemu.Machine.{Machine, prv_user, prv_machine}
use riscvemu.Plic.{Plic}
use riscvemu.Sdtrig.{init_sdtrig}
use riscvemu.Uart.{Uart, Devices}
use riscvemu.Zicntr.{init_zicntr}
use riscvemu.Csr.Numbers.{
  csr_mstatus, csr_medeleg, csr_mideleg, csr_mie, csr_mip, csr_mtvec, csr_misa, csr_stvec,
}

-- Sources 3 and 5 pend with priorities 2 and 4, both enabled for machine mode.
abbrev pub busy_plic : Plic
busy_plic = record {
  priority = λ i. if i == 5 then 4 else if i == 3 then 2 else 0;
  pending = 2 ^ 3 + 2 ^ 5;
  enable = λ c. 2 ^ 3 + 2 ^ 5;
  threshold = λ c. 1;
  claimed = λ c i. false;
}

-- Three bytes wait in a ring that has wrapped around.
abbrev pub full_uart : Uart
full_uart = record {
  rx = λ i. i;
  rx_head = 254;
  rx_count = 3;
  ier = 1;
  lcr = 3;
  mcr = 0;
  scr = 0;
  irq_level = false;
  thr_busy = false;
  thr_ticks = 0;
  sent = [];
}

abbrev pub devices : Devices
devices = record { uart = full_uart; plic = busy_plic }

abbrev pub no_flags : Hashmap
no_flags = record { entries = []; capacity = 0; size = 0; tombstone_count = 0 }

abbrev hart : ℕ → Machine
hart privilege = record {
  gpr = λ i. i + 40;
  pc = 0x80000100;
  main_memory = λ a. 0;
  terminated = false;
  mmu_flags = no_flags;
  privilege = privilege;
  just_trapped = false;
  csr_value = λ csr.
      if csr == csr_mstatus
      then 2 ^ 0 + 2 ^ 3
      else if csr == csr_medeleg
      then 2 ^ 2
      else if csr == csr_mideleg
      then 2 ^ 5
      else if csr == csr_mie
      then 2 ^ 3 + 2 ^ 5
      else if csr == csr_mip
      then 2 ^ 3
      else if csr == csr_mtvec
      then 0x80000400
      else if csr == csr_stvec
      then 0x80000800
      else if csr == csr_misa
      then 0x40041125
      else 0;
  clint = clint_init;
  devices = devices;
  sdtrig = init_sdtrig;
  zicntr = init_zicntr;
  fpr = λ i. 0;
  fcsr = 0;
  prev_ins_pc = 0;
}

abbrev pub user_hart : Machine
user_hart = hart prv_user

abbrev pub machine_hart : Machine
machine_hart = hart prv_machine
