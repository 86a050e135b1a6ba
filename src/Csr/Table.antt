-- ===== src/Csr/Table.antt =====
-- `csr_table` as `init_csr_table` fills it. Nothing changes its callbacks and rights afterwards, so it
-- is a constant; the values are in the machine.
use riscvemu.Base.{
  ℕ, ◌+◌, Bool, true, false, ◌&&◌, leb, ltb, ◌==◌, if◌then◌else◌, List, [], ◌∷◌, ◌++◌,
}
use riscvemu.Machine.{prv_user, prv_supervisor, prv_machine}
use riscvemu.Csr.Numbers.{
  csr_cycle_hi, csr_cycle_lo, csr_fcsr, csr_fflags, csr_frm, csr_instret_hi, csr_instret_lo,
  csr_marchid, csr_mcause, csr_mconfigptr, csr_mcounteren, csr_mcountinhibit, csr_mcycle,
  csr_mcycleh, csr_medeleg, csr_menvcfg, csr_menvcfgh, csr_mepc, csr_mhartid, csr_mideleg, csr_mie,
  csr_mimpid, csr_minstret, csr_minstreth, csr_mip, csr_misa, csr_mnscratch, csr_mnstatus,
  csr_mscratch, csr_mseccfg, csr_mseccfgh, csr_mstatus, csr_mstatush, csr_mtval, csr_mtvec,
  csr_mvendorid, csr_pmpaddr0, csr_pmpcfg0, csr_pmpcfg1, csr_pmpcfg2, csr_pmpcfg3, csr_satp,
  csr_scause, csr_scounteren, csr_senvcfg, csr_senvcfgh, csr_sepc, csr_sie, csr_sip, csr_sscratch,
  csr_sstatus, csr_stval, csr_stvec, csr_tcontrol, csr_tdata1, csr_tdata2, csr_time_hi, csr_time_lo,
  csr_tselect,
}

-- The functions that the table calls on a read; `null` reads the value.
pub data ReadCallback : Type 0 where
  null : ReadCallback
  get_mvendorid get_marchid get_mimpid get_mhartid : ReadCallback
  mstatus_read get_misa get_meideleg get_mideleg get_mie get_mtvec get_mcounteren : ReadCallback
  get_mscratch get_mepc get_mcause get_mtval get_mip get_mnstatus get_pmpcfg get_pmpaddr :
      ReadCallback
  sstatus_read get_sie get_sip : ReadCallback
  get_cycle_l get_time_l get_instret_l get_cycle_h get_time_h get_instret_h : ReadCallback
  get_tselect get_tdata1 get_tdata2 get_tcontrol get_fcsr get_fflags get_frm : ReadCallback

pub data WriteCallback : Type 0 where
  null : WriteCallback
  mstatus_write set_meideleg set_mideleg set_mie set_mtvec set_mcounteren : WriteCallback
  set_mscratch set_mepc set_mcause set_mtval set_mip set_pmpcfg set_pmpaddr : WriteCallback
  sstatus_write set_sie set_sip set_minstret_l set_minstret_h : WriteCallback
  set_tselect set_tdata1 set_tdata2 set_tcontrol set_fcsr set_fflags set_frm : WriteCallback

pub data Access : Type 0 where
  rw ro : Access

pub record CsrOperation : Type 0 where
  pub valid : Bool
  pub privilege : ℕ
  pub access : Access
  pub initial : ℕ
  pub read_callback : ReadCallback
  pub write_callback : WriteCallback

abbrev op : ℕ → Access → ℕ → ReadCallback → WriteCallback → CsrOperation
op privilege access initial r w = record {
  valid = true;
  privilege = privilege;
  access = access;
  initial = initial;
  read_callback = r;
  write_callback = w;
}

abbrev unregistered : CsrOperation
unregistered = record {
  valid = false;
  privilege = prv_machine;
  access = Access.rw;
  initial = 0;
  read_callback = ReadCallback.null;
  write_callback = WriteCallback.null;
}

-- A plain register: no callbacks.
abbrev plain : ℕ → CsrOperation
plain privilege = op privilege Access.rw 0 ReadCallback.null WriteCallback.null

-- The debug triggers, of `init_sdtrig_csr_table`.
abbrev sdtrig_entries : List (ℕ × CsrOperation)
sdtrig_entries =
    (csr_tselect, op prv_machine Access.rw 0 ReadCallback.get_tselect WriteCallback.set_tselect)
    ∷ (csr_tdata1, op prv_machine Access.rw 0 ReadCallback.get_tdata1 WriteCallback.set_tdata1)
    ∷ (csr_tdata2, op prv_machine Access.rw 0 ReadCallback.get_tdata2 WriteCallback.set_tdata2)
    ∷ (
      csr_tcontrol,
      op prv_machine Access.rw 0 ReadCallback.get_tcontrol WriteCallback.set_tcontrol,
    )
    ∷ []

-- The floating-point status and the counters.
abbrev user_entries : List (ℕ × CsrOperation)
user_entries =
    (csr_fcsr, op prv_user Access.rw 0 ReadCallback.get_fcsr WriteCallback.set_fcsr)
    ∷ (csr_fflags, op prv_user Access.rw 0 ReadCallback.get_fflags WriteCallback.set_fflags)
    ∷ (csr_frm, op prv_user Access.rw 0 ReadCallback.get_frm WriteCallback.set_frm)
    ∷ (csr_cycle_lo, op prv_user Access.ro 0 ReadCallback.get_cycle_l WriteCallback.null)
    ∷ (csr_time_lo, op prv_user Access.ro 0 ReadCallback.get_time_l WriteCallback.null)
    ∷ (csr_instret_lo, op prv_user Access.ro 0 ReadCallback.get_instret_l WriteCallback.null)
    ∷ (csr_cycle_hi, op prv_user Access.ro 0 ReadCallback.get_cycle_h WriteCallback.null)
    ∷ (csr_time_hi, op prv_user Access.ro 0 ReadCallback.get_time_h WriteCallback.null)
    ∷ (csr_instret_hi, op prv_user Access.ro 0 ReadCallback.get_instret_h WriteCallback.null)
    ∷ []

-- Machine information and trap setup.
abbrev machine_entries : List (ℕ × CsrOperation)
machine_entries =
    (csr_mvendorid, op prv_machine Access.ro 0 ReadCallback.get_mvendorid WriteCallback.null)
    ∷ (csr_marchid, op prv_machine Access.ro 0 ReadCallback.get_marchid WriteCallback.null)
    ∷ (csr_mimpid, op prv_machine Access.ro 0 ReadCallback.get_mimpid WriteCallback.null)
    ∷ (csr_mhartid, op prv_machine Access.ro 0 ReadCallback.get_mhartid WriteCallback.null)
    ∷ (csr_mconfigptr, op prv_machine Access.ro 0 ReadCallback.null WriteCallback.null)
    ∷ (
      csr_mstatus,
      op prv_machine Access.rw 0 ReadCallback.mstatus_read WriteCallback.mstatus_write,
    )
    ∷ (csr_misa, op prv_machine Access.ro 0x40041125 ReadCallback.get_misa WriteCallback.null)
    ∷ (csr_medeleg, op prv_machine Access.rw 0 ReadCallback.get_meideleg WriteCallback.set_meideleg)
    ∷ (csr_mideleg, op prv_machine Access.rw 0 ReadCallback.get_mideleg WriteCallback.set_mideleg)
    ∷ (csr_mie, op prv_machine Access.rw 0 ReadCallback.get_mie WriteCallback.set_mie)
    ∷ (csr_mtvec, op prv_machine Access.rw 0 ReadCallback.get_mtvec WriteCallback.set_mtvec)
    ∷ (
      csr_mcounteren,
      op prv_machine Access.rw 0xFFFFFFFF ReadCallback.get_mcounteren WriteCallback.set_mcounteren,
    )
    ∷ (csr_mstatush, plain prv_machine)
    ∷ (csr_menvcfg, plain prv_machine)
    ∷ (csr_menvcfgh, plain prv_machine)
    ∷ (csr_mnscratch, plain prv_machine)
    ∷ (csr_mseccfg, plain prv_machine)
    ∷ (csr_mseccfgh, plain prv_machine)
    ∷ []

-- Machine trap handling, counters and protection.
abbrev trap_entries : List (ℕ × CsrOperation)
trap_entries =
    (csr_mscratch, op prv_machine Access.rw 0 ReadCallback.get_mscratch WriteCallback.set_mscratch)
    ∷ (csr_mepc, op prv_machine Access.rw 0 ReadCallback.get_mepc WriteCallback.set_mepc)
    ∷ (csr_mcause, op prv_machine Access.rw 0 ReadCallback.get_mcause WriteCallback.set_mcause)
    ∷ (csr_mtval, op prv_machine Access.rw 0 ReadCallback.get_mtval WriteCallback.set_mtval)
    ∷ (csr_mip, op prv_machine Access.rw 0 ReadCallback.get_mip WriteCallback.set_mip)
    ∷ (csr_mnstatus, op prv_machine Access.rw 0 ReadCallback.get_mnstatus WriteCallback.null)
    ∷ (csr_mcountinhibit, plain prv_machine)
    ∷ (csr_mcycle, plain prv_machine)
    ∷ (csr_mcycleh, plain prv_machine)
    ∷ (
      csr_minstret,
      op prv_machine Access.rw 0 ReadCallback.get_instret_l WriteCallback.set_minstret_l,
    )
    ∷ (
      csr_minstreth,
      op prv_machine Access.rw 0 ReadCallback.get_instret_h WriteCallback.set_minstret_h,
    )
    ∷ (csr_pmpcfg0, op prv_machine Access.rw 0 ReadCallback.get_pmpcfg WriteCallback.set_pmpcfg)
    ∷ (csr_pmpcfg1, op prv_machine Access.rw 0 ReadCallback.get_pmpcfg WriteCallback.set_pmpcfg)
    ∷ (csr_pmpcfg2, op prv_machine Access.rw 0 ReadCallback.get_pmpcfg WriteCallback.set_pmpcfg)
    ∷ (csr_pmpcfg3, op prv_machine Access.rw 0 ReadCallback.get_pmpcfg WriteCallback.set_pmpcfg)
    ∷ []

-- Supervisor registers.
abbrev supervisor_entries : List (ℕ × CsrOperation)
supervisor_entries =
    (
      csr_sstatus,
      op prv_supervisor Access.rw 0 ReadCallback.sstatus_read WriteCallback.sstatus_write,
    )
    ∷ (csr_sie, op prv_supervisor Access.rw 0 ReadCallback.get_sie WriteCallback.set_sie)
    ∷ (csr_stvec, plain prv_supervisor)
    ∷ (csr_sscratch, plain prv_supervisor)
    ∷ (csr_sepc, plain prv_supervisor)
    ∷ (csr_scause, plain prv_supervisor)
    ∷ (csr_stval, plain prv_supervisor)
    ∷ (csr_sip, op prv_supervisor Access.rw 0 ReadCallback.get_sip WriteCallback.set_sip)
    ∷ (csr_satp, plain prv_supervisor)
    ∷ (csr_scounteren, plain prv_supervisor)
    ∷ (csr_senvcfg, plain prv_supervisor)
    ∷ (csr_senvcfgh, plain prv_supervisor)
    ∷ []

abbrev lookup : List (ℕ × CsrOperation) → ℕ → CsrOperation
lookup [] csr = unregistered
lookup ((c, o) ∷ table) csr = if csr == c then o else lookup table csr

-- The loop over the 16 PMP address registers, and the others.
unfoldable pub csr_table : ℕ → CsrOperation
csr_table csr =
    if leb csr_pmpaddr0 csr && ltb csr (csr_pmpaddr0 + 16)
    then op prv_machine Access.rw 0 ReadCallback.get_pmpaddr WriteCallback.set_pmpaddr
    else lookup
        (sdtrig_entries ++ user_entries ++ machine_entries ++ trap_entries ++ supervisor_entries)
        csr
