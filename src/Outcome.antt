-- ===== src/Outcome.antt =====
-- How an instruction ends: `fatal` of src/logger.c prints and ends the process.
use riscvemu.Machine.{Machine}

pub data Outcome : Type 0 where
  running : Machine → Outcome
  fatal : Outcome
