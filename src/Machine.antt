-- ===== src/Machine.antt =====
-- include/emu.h and the registers of include/exec.h: the state of the emulated machine, with
-- the files' own statics beside `g_state`.
use riscvemu.Base.{ℕ, Bool, ◌==◌, if◌then◌else◌, update}
use riscvemu.Clint.{Clint}
use riscvemu.HashmapU32.{Hashmap}
use riscvemu.Sdtrig.{Sdtrig}
use riscvemu.Uart.{Devices}
use riscvemu.Zicntr.{Zicntr}

abbrev pub prv_user : ℕ
prv_user = 0

abbrev pub prv_supervisor : ℕ
prv_supervisor = 1

abbrev pub prv_machine : ℕ
prv_machine = 3

-- `struct machine_state`; `csr_value` is the `value` column of `csr_table`.
pub record Machine : Type 0 where
  pub gpr : ℕ → ℕ
  pub pc : ℕ
  pub main_memory : ℕ → ℕ
  pub terminated : Bool
  pub mmu_flags : Hashmap
  pub privilege : ℕ
  pub just_trapped : Bool
  pub csr_value : ℕ → ℕ
  pub clint : Clint
  pub devices : Devices
  pub sdtrig : Sdtrig
  pub zicntr : Zicntr
  pub fpr : ℕ → ℕ
  pub fcsr : ℕ
  pub prev_ins_pc : ℕ

unfoldable pub reg_read : ℕ → Machine → ℕ
reg_read id m = if id == 0 then 0 else m.gpr id

unfoldable pub reg_write : ℕ → ℕ → Machine → Machine
reg_write id d m = if id == 0 then m else record m { gpr = update m.gpr id d }
