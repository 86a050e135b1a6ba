-- ===== src/Atomic/Amo.antt =====
-- The read-modify-write operations of include/extension/a_extension.h.
use riscvemu.Base.{ℕ, ◌+◌, ltb, if◌then◌else◌, bit_and, bit_or, bit_xor, u32}
use riscvemu.Base.Int.{int32, ltb_ℤ}
use riscvemu.Machine.{Machine, reg_read, reg_write}
use riscvemu.Mmu.Access.{mmu_read32_unsigned, mmu_write32}
use riscvemu.Outcome.{Outcome}
use riscvemu.Atomic.{unless_misaligned}

-- What every one of them does; `f old value` is the new word.
unfoldable pub amo : (ℕ → ℕ → ℕ) → ℕ → ℕ → ℕ → Machine → Machine
amo f addr value rd m =
    let (old, n) = mmu_read32_unsigned addr m in reg_write rd old (mmu_write32 addr (f old value) n)

abbrev pub atomically : (ℕ → ℕ → ℕ) → ℕ → ℕ → ℕ → Machine → Outcome
atomically f rs1 rs2 rd m =
    let addr = reg_read rs1 m in unless_misaligned addr (amo f addr (reg_read rs2 m) rd m)

abbrev pub second : ℕ → ℕ → ℕ
second old value = value

abbrev pub add_word : ℕ → ℕ → ℕ
add_word old value = u32 (old + value)

abbrev pub max_signed : ℕ → ℕ → ℕ
max_signed old value = if ltb_ℤ (int32 value) (int32 old) then old else value

abbrev pub min_signed : ℕ → ℕ → ℕ
min_signed old value = if ltb_ℤ (int32 old) (int32 value) then old else value

abbrev pub max_unsigned : ℕ → ℕ → ℕ
max_unsigned old value = if ltb value old then old else value

abbrev pub min_unsigned : ℕ → ℕ → ℕ
min_unsigned old value = if ltb old value then old else value

unfoldable pub insa_r_amoswap_w : ℕ → ℕ → ℕ → Machine → Outcome
insa_r_amoswap_w rs1 rs2 rd m = atomically second rs1 rs2 rd m

unfoldable pub insa_r_amoadd_w : ℕ → ℕ → ℕ → Machine → Outcome
insa_r_amoadd_w rs1 rs2 rd m = atomically add_word rs1 rs2 rd m

unfoldable pub insa_r_amoand_w : ℕ → ℕ → ℕ → Machine → Outcome
insa_r_amoand_w rs1 rs2 rd m = atomically bit_and rs1 rs2 rd m

unfoldable pub insa_r_amoor_w : ℕ → ℕ → ℕ → Machine → Outcome
insa_r_amoor_w rs1 rs2 rd m = atomically bit_or rs1 rs2 rd m

unfoldable pub insa_r_amoxor_w : ℕ → ℕ → ℕ → Machine → Outcome
insa_r_amoxor_w rs1 rs2 rd m = atomically bit_xor rs1 rs2 rd m

unfoldable pub insa_r_amomax_w : ℕ → ℕ → ℕ → Machine → Outcome
insa_r_amomax_w rs1 rs2 rd m = atomically max_signed rs1 rs2 rd m

unfoldable pub insa_r_amomin_w : ℕ → ℕ → ℕ → Machine → Outcome
insa_r_amomin_w rs1 rs2 rd m = atomically min_signed rs1 rs2 rd m

unfoldable pub insa_r_amomaxu_w : ℕ → ℕ → ℕ → Machine → Outcome
insa_r_amomaxu_w rs1 rs2 rd m = atomically max_unsigned rs1 rs2 rd m

unfoldable pub insa_r_amominu_w : ℕ → ℕ → ℕ → Machine → Outcome
insa_r_amominu_w rs1 rs2 rd m = atomically min_unsigned rs1 rs2 rd m
