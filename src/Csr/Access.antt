-- ===== src/Csr/Access.antt =====
-- The callbacks of the table, and `csr_read` and `csr_write`.
use riscvemu.Base.{ℕ, ◌+◌, Bool, bit_and, bit_or, nonzero, if◌then◌else◌, not32, u32, ◌>>>◌}
use riscvemu.Clint.{clint_mtip_pending, clint_get_mtime}
use riscvemu.Plic.{plic_external_pending, plic_external_pending_s}
use riscvemu.Fcsr.{get_fflags, get_frm, set_fflags, set_frm, set_fcsr}
use riscvemu.Sdtrig.{
  init_sdtrig, set_tselect, get_tdata1, set_tdata1, get_tdata2, set_tdata2, set_tcontrol,
}
use riscvemu.Zicntr.{
  get_zicntr_cycle_l, get_zicntr_cycle_h, get_zicntr_instret_l, get_zicntr_instret_h,
  set_zicntr_minstret_l, set_zicntr_minstret_h,
}
use riscvemu.Machine.{Machine}
use riscvemu.Csr.Numbers.{
  csr_misa, csr_medeleg, csr_mideleg, csr_mie, csr_mtvec, csr_mcounteren, csr_mscratch, csr_mepc,
  csr_mcause, csr_mtval, csr_mip, csr_mnstatus, csr_pmpcfg0, csr_pmpaddr0, mip_ssip, mip_stip,
  mip_mtip, mip_seip, mip_meip,
}
use riscvemu.Csr.Table.{ReadCallback, WriteCallback, Access, csr_table}
use riscvemu.Csr.Status.{set_value, mstatus_read, mstatus_write, sstatus_read, sstatus_write}

abbrev pub sip_sie_s_bits : ℕ
sip_sie_s_bits = mip_ssip + mip_stip + mip_seip

-- `if (on) mip |= flag; else mip &= ~flag;`
abbrev pub live_bit : Bool → ℕ → ℕ → ℕ
live_bit on flag mip = if on then bit_or mip flag else bit_and mip (not32 flag)

unfoldable pub get_mip : Machine → ℕ
get_mip m =
    let mip = m.csr_value csr_mip in
    let mip = live_bit (clint_mtip_pending m.clint) mip_mtip mip in
    let mip = live_bit (nonzero (plic_external_pending m.devices.plic)) mip_meip mip in
    live_bit (nonzero (plic_external_pending_s m.devices.plic)) mip_seip mip

unfoldable pub set_mip : ℕ → Machine → Machine
set_mip val m = set_value csr_mip val m

-- `csr_read(CSR_MIE)` in it reads the stored value.
unfoldable pub get_sie : Machine → ℕ
get_sie m = bit_and (m.csr_value csr_mie) sip_sie_s_bits

-- `(old & ~SIP_SIE_S_BITS) | (val & SIP_SIE_S_BITS)`
abbrev pub merge_s_bits : ℕ → ℕ → ℕ
merge_s_bits old val = bit_or (bit_and old (not32 sip_sie_s_bits)) (bit_and val sip_sie_s_bits)

unfoldable pub set_sie : ℕ → Machine → Machine
set_sie val m = set_value csr_mie (merge_s_bits (m.csr_value csr_mie) val) m

unfoldable pub get_sip : Machine → ℕ
get_sip m =
    let sip = bit_and (get_mip m) sip_sie_s_bits in
    if clint_mtip_pending m.clint then bit_or sip mip_stip else sip

unfoldable pub set_sip : ℕ → Machine → Machine
set_sip val m = set_mip (merge_s_bits (get_mip m) val) m

unfoldable pub run_read : ReadCallback → ℕ → Machine → ℕ
run_read ReadCallback.null csr m = m.csr_value csr
run_read ReadCallback.get_mvendorid csr m = 0
run_read ReadCallback.get_marchid csr m = 1
run_read ReadCallback.get_mimpid csr m = 0
run_read ReadCallback.get_mhartid csr m = 0
run_read ReadCallback.mstatus_read csr m = mstatus_read m
run_read ReadCallback.get_misa csr m = m.csr_value csr_misa
run_read ReadCallback.get_meideleg csr m = m.csr_value csr_medeleg
run_read ReadCallback.get_mideleg csr m = m.csr_value csr_mideleg
run_read ReadCallback.get_mie csr m = m.csr_value csr_mie
run_read ReadCallback.get_mtvec csr m = m.csr_value csr_mtvec
run_read ReadCallback.get_mcounteren csr m = m.csr_value csr_mcounteren
run_read ReadCallback.get_mscratch csr m = m.csr_value csr_mscratch
run_read ReadCallback.get_mepc csr m = m.csr_value csr_mepc
run_read ReadCallback.get_mcause csr m = m.csr_value csr_mcause
run_read ReadCallback.get_mtval csr m = m.csr_value csr_mtval
run_read ReadCallback.get_mip csr m = get_mip m
run_read ReadCallback.get_mnstatus csr m = m.csr_value csr_mnstatus
run_read ReadCallback.get_pmpcfg csr m = m.csr_value csr_pmpcfg0
run_read ReadCallback.get_pmpaddr csr m = m.csr_value csr_pmpaddr0
run_read ReadCallback.sstatus_read csr m = sstatus_read m
run_read ReadCallback.get_sie csr m = get_sie m
run_read ReadCallback.get_sip csr m = get_sip m
run_read ReadCallback.get_cycle_l csr m = get_zicntr_cycle_l m.zicntr
run_read ReadCallback.get_time_l csr m = u32 (clint_get_mtime m.clint)
run_read ReadCallback.get_instret_l csr m = get_zicntr_instret_l m.zicntr
run_read ReadCallback.get_cycle_h csr m = get_zicntr_cycle_h m.zicntr
run_read ReadCallback.get_time_h csr m = u32 (clint_get_mtime m.clint >>> 32)
run_read ReadCallback.get_instret_h csr m = get_zicntr_instret_h m.zicntr
run_read ReadCallback.get_tselect csr m = m.sdtrig.tselect
run_read ReadCallback.get_tdata1 csr m = get_tdata1 m.sdtrig
run_read ReadCallback.get_tdata2 csr m = get_tdata2 m.sdtrig
run_read ReadCallback.get_tcontrol csr m = m.sdtrig.tcontrol
run_read ReadCallback.get_fcsr csr m = m.fcsr
run_read ReadCallback.get_fflags csr m = get_fflags m.fcsr
run_read ReadCallback.get_frm csr m = get_frm m.fcsr

unfoldable pub run_write : WriteCallback → ℕ → ℕ → Machine → Machine
run_write WriteCallback.null csr val m = set_value csr val m
run_write WriteCallback.mstatus_write csr val m = mstatus_write val m
run_write WriteCallback.set_meideleg csr val m = set_value csr_medeleg val m
run_write WriteCallback.set_mideleg csr val m = set_value csr_mideleg val m
run_write WriteCallback.set_mie csr val m = set_value csr_mie val m
run_write WriteCallback.set_mtvec csr val m = set_value csr_mtvec val m
run_write WriteCallback.set_mcounteren csr val m = set_value csr_mcounteren val m
run_write WriteCallback.set_mscratch csr val m = set_value csr_mscratch val m
run_write WriteCallback.set_mepc csr val m = set_value csr_mepc val m
run_write WriteCallback.set_mcause csr val m = set_value csr_mcause val m
run_write WriteCallback.set_mtval csr val m = set_value csr_mtval val m
run_write WriteCallback.set_mip csr val m = set_mip val m
run_write WriteCallback.set_pmpcfg csr val m = set_value csr_pmpcfg0 val m
run_write WriteCallback.set_pmpaddr csr val m = set_value csr_pmpaddr0 val m
run_write WriteCallback.sstatus_write csr val m = sstatus_write val m
run_write WriteCallback.set_sie csr val m = set_sie val m
run_write WriteCallback.set_sip csr val m = set_sip val m
run_write WriteCallback.set_minstret_l csr val m = record m {
  zicntr = set_zicntr_minstret_l val m.zicntr;
}
run_write WriteCallback.set_minstret_h csr val m = record m {
  zicntr = set_zicntr_minstret_h val m.zicntr;
}
run_write WriteCallback.set_tselect csr val m = record m { sdtrig = set_tselect val m.sdtrig }
run_write WriteCallback.set_tdata1 csr val m = record m { sdtrig = set_tdata1 val m.sdtrig }
run_write WriteCallback.set_tdata2 csr val m = record m { sdtrig = set_tdata2 val m.sdtrig }
run_write WriteCallback.set_tcontrol csr val m = record m { sdtrig = set_tcontrol val m.sdtrig }
run_write WriteCallback.set_fcsr csr val m = record m { fcsr = set_fcsr val m.fcsr }
run_write WriteCallback.set_fflags csr val m = record m { fcsr = set_fflags val m.fcsr }
run_write WriteCallback.set_frm csr val m = record m { fcsr = set_frm val m.fcsr }

unfoldable pub csr_read : ℕ → Machine → ℕ
csr_read csr m = run_read (csr_table csr).read_callback csr m

-- A write of a read-only register is ignored.
unfoldable pub csr_write : ℕ → ℕ → Machine → Machine
csr_write csr val m = elim ((csr_table csr).access) [
  | Access.ro ↦ m
  | Access.rw ↦ run_write (csr_table csr).write_callback csr val m
]

-- The values that the table starts with; its rights and callbacks are `csr_table`.
unfoldable pub init_csr_table : Machine → Machine
init_csr_table m = record m { csr_value = λ csr. (csr_table csr).initial; sdtrig = init_sdtrig }
