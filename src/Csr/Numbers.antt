-- ===== src/Csr/Numbers.antt =====
-- The register numbers of include/extension/zicsr_extension.h, and the fields of mstatus and mip
-- of include/extension/system.h.
use riscvemu.Base.{ℕ, ◌*◌, ◌^◌}

abbrev pub csr_mstatus : ℕ
csr_mstatus = 0x300

abbrev pub csr_misa : ℕ
csr_misa = 0x301

abbrev pub csr_medeleg : ℕ
csr_medeleg = 0x302

abbrev pub csr_mideleg : ℕ
csr_mideleg = 0x303

abbrev pub csr_mie : ℕ
csr_mie = 0x304

abbrev pub csr_mtvec : ℕ
csr_mtvec = 0x305

abbrev pub csr_mcounteren : ℕ
csr_mcounteren = 0x306

abbrev pub csr_mstatush : ℕ
csr_mstatush = 0x310

abbrev pub csr_menvcfg : ℕ
csr_menvcfg = 0x30A

abbrev pub csr_menvcfgh : ℕ
csr_menvcfgh = 0x31A

abbrev pub csr_mscratch : ℕ
csr_mscratch = 0x340

abbrev pub csr_mepc : ℕ
csr_mepc = 0x341

abbrev pub csr_mcause : ℕ
csr_mcause = 0x342

abbrev pub csr_mtval : ℕ
csr_mtval = 0x343

abbrev pub csr_mip : ℕ
csr_mip = 0x344

abbrev pub csr_mnstatus : ℕ
csr_mnstatus = 0x744

abbrev pub csr_mcountinhibit : ℕ
csr_mcountinhibit = 0x320

abbrev pub csr_mcycle : ℕ
csr_mcycle = 0xB00

abbrev pub csr_mcycleh : ℕ
csr_mcycleh = 0xB80

abbrev pub csr_minstret : ℕ
csr_minstret = 0xB02

abbrev pub csr_minstreth : ℕ
csr_minstreth = 0xB82

abbrev pub csr_tselect : ℕ
csr_tselect = 0x7A0

abbrev pub csr_tdata1 : ℕ
csr_tdata1 = 0x7A1

abbrev pub csr_tdata2 : ℕ
csr_tdata2 = 0x7A2

abbrev pub csr_tcontrol : ℕ
csr_tcontrol = 0x7A5

abbrev pub csr_cycle_lo : ℕ
csr_cycle_lo = 0xC00

abbrev pub csr_cycle_hi : ℕ
csr_cycle_hi = 0xC80

abbrev pub csr_time_lo : ℕ
csr_time_lo = 0xC01

abbrev pub csr_time_hi : ℕ
csr_time_hi = 0xC81

abbrev pub csr_instret_lo : ℕ
csr_instret_lo = 0xC02

abbrev pub csr_instret_hi : ℕ
csr_instret_hi = 0xC82

abbrev pub csr_pmpcfg0 : ℕ
csr_pmpcfg0 = 0x3A0

abbrev pub csr_pmpcfg1 : ℕ
csr_pmpcfg1 = 0x3A1

abbrev pub csr_pmpcfg2 : ℕ
csr_pmpcfg2 = 0x3A2

abbrev pub csr_pmpcfg3 : ℕ
csr_pmpcfg3 = 0x3A3

abbrev pub csr_pmpaddr0 : ℕ
csr_pmpaddr0 = 0x3B0

abbrev pub csr_sstatus : ℕ
csr_sstatus = 0x100

abbrev pub csr_sie : ℕ
csr_sie = 0x104

abbrev pub csr_stvec : ℕ
csr_stvec = 0x105

abbrev pub csr_sscratch : ℕ
csr_sscratch = 0x140

abbrev pub csr_sepc : ℕ
csr_sepc = 0x141

abbrev pub csr_scause : ℕ
csr_scause = 0x142

abbrev pub csr_stval : ℕ
csr_stval = 0x143

abbrev pub csr_sip : ℕ
csr_sip = 0x144

abbrev pub csr_satp : ℕ
csr_satp = 0x180

abbrev pub csr_senvcfg : ℕ
csr_senvcfg = 0x10A

abbrev pub csr_senvcfgh : ℕ
csr_senvcfgh = 0x11A

abbrev pub csr_mvendorid : ℕ
csr_mvendorid = 0xF11

abbrev pub csr_marchid : ℕ
csr_marchid = 0xF12

abbrev pub csr_mimpid : ℕ
csr_mimpid = 0xF13

abbrev pub csr_mhartid : ℕ
csr_mhartid = 0xF14

abbrev pub csr_mconfigptr : ℕ
csr_mconfigptr = 0xF15

abbrev pub csr_mseccfg : ℕ
csr_mseccfg = 0x747

abbrev pub csr_mseccfgh : ℕ
csr_mseccfgh = 0x757

abbrev pub csr_mnscratch : ℕ
csr_mnscratch = 0x740

abbrev pub csr_scounteren : ℕ
csr_scounteren = 0x106

abbrev pub mstatus_uie : ℕ
mstatus_uie = 2 ^ 0

abbrev pub mstatus_sie : ℕ
mstatus_sie = 2 ^ 1

abbrev pub mstatus_mie : ℕ
mstatus_mie = 2 ^ 3

abbrev pub mstatus_upie : ℕ
mstatus_upie = 2 ^ 4

abbrev pub mstatus_spie : ℕ
mstatus_spie = 2 ^ 5

abbrev pub mstatus_mpie : ℕ
mstatus_mpie = 2 ^ 7

abbrev pub mstatus_spp : ℕ
mstatus_spp = 2 ^ 8

abbrev pub mstatus_mprv : ℕ
mstatus_mprv = 2 ^ 17

abbrev pub mstatus_sum : ℕ
mstatus_sum = 2 ^ 18

abbrev pub mstatus_mxr : ℕ
mstatus_mxr = 2 ^ 19

abbrev pub mstatus_tvm : ℕ
mstatus_tvm = 2 ^ 20

abbrev pub mstatus_tw : ℕ
mstatus_tw = 2 ^ 21

abbrev pub mstatus_tsr : ℕ
mstatus_tsr = 2 ^ 22

abbrev pub mstatus_mpp_mask : ℕ
mstatus_mpp_mask = 3 * 2 ^ 11

abbrev pub mstatus_fs_mask : ℕ
mstatus_fs_mask = 3 * 2 ^ 13

abbrev pub mstatus_xs_mask : ℕ
mstatus_xs_mask = 3 * 2 ^ 15

abbrev pub mip_ssip : ℕ
mip_ssip = 2 ^ 1

abbrev pub mip_msip : ℕ
mip_msip = 2 ^ 3

abbrev pub mip_stip : ℕ
mip_stip = 2 ^ 5

abbrev pub mip_mtip : ℕ
mip_mtip = 2 ^ 7

abbrev pub mip_seip : ℕ
mip_seip = 2 ^ 9

abbrev pub mip_meip : ℕ
mip_meip = 2 ^ 11

abbrev pub csr_fflags : ℕ
csr_fflags = 0x001

abbrev pub csr_frm : ℕ
csr_frm = 0x002

abbrev pub csr_fcsr : ℕ
csr_fcsr = 0x003
