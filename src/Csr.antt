-- ===== src/Csr.antt =====
-- include/extension/zicsr_extension.h and src/extension/zicsr_extension.c: the control and status
-- registers. A callback of `csr_table` is a name, dispatched by `run_read` and `run_write`.
pub mod Numbers
pub mod Table
pub mod Status
pub mod Access
