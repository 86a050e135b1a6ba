-- ===== src/Muldiv.antt =====
-- src/extension/m_extension.c: multiplication and division. The 32-bit signed product of `insm_r_mul`
-- can overflow, which C leaves open; the model takes the low word of the product, as two's complement.
pub mod Product
pub mod Quotient
pub mod Signed
pub mod Division
use riscvemu.Base.{
  ℕ, zero, suc, ◌+◌, ◌-◌, ◌*◌, ◌/◌, ◌%◌, ◌^◌, Bool, ◌&&◌, ◌==◌, if◌then◌else◌, u32, ◌>>>◌,
}
use riscvemu.Base.Int.{ℤ, pos, negsuc, sub_ℕ, pos_part, neg_part, ◌*ℤ◌, int32, uint32, sar_ℤ}
use riscvemu.Machine.{Machine, reg_read, reg_write}

-- `(uint64_t)z`
abbrev pub uint64 : ℤ → ℕ
uint64 (pos n) = n % 2 ^ 64
uint64 (negsuc n) = 2 ^ 64 - 1 - n % 2 ^ 64

-- `/` and `%` of C on signed integers: the quotient is rounded to 0, the remainder has the sign of the dividend.
abbrev pub div_ℤ : ℤ → ℤ → ℤ
div_ℤ (pos a) (pos b) = pos (a / b)
div_ℤ (pos a) (negsuc b) = sub_ℕ 0 (a / suc b)
div_ℤ (negsuc a) (pos b) = sub_ℕ 0 (suc a / b)
div_ℤ (negsuc a) (negsuc b) = pos (suc a / suc b)

abbrev pub mod_ℤ : ℤ → ℤ → ℤ
mod_ℤ (pos a) b = pos (a % (pos_part b + neg_part b))
mod_ℤ (negsuc a) b = sub_ℕ 0 (suc a % (pos_part b + neg_part b))

-- INT32_MIN and -1, as patterns.
abbrev pub int32_min : ℕ
int32_min = 2 ^ 31

abbrev pub minus_one : ℕ
minus_one = 2 ^ 32 - 1

unfoldable pub insm_r_mul : ℕ → ℕ → ℕ → Machine → Machine
insm_r_mul rs2 rs1 rd m = reg_write rd (uint32 (int32 (reg_read rs1 m) *ℤ int32 (reg_read rs2 m))) m

unfoldable pub insm_r_mulh : ℕ → ℕ → ℕ → Machine → Machine
insm_r_mulh rs2 rs1 rd m =
    let result = int32 (reg_read rs1 m) *ℤ int32 (reg_read rs2 m) in
    reg_write rd (uint32 (sar_ℤ result 32)) m

-- The product is taken modulo 2 ^ 64: `(uint64_t)v2` makes it unsigned.
unfoldable pub insm_r_mulsu : ℕ → ℕ → ℕ → Machine → Machine
insm_r_mulsu rs2 rs1 rd m =
    let result = uint64 (int32 (reg_read rs1 m) *ℤ pos (reg_read rs2 m)) in
    reg_write rd (u32 (result >>> 32)) m

unfoldable pub insm_r_mulu : ℕ → ℕ → ℕ → Machine → Machine
insm_r_mulu rs2 rs1 rd m =
    let result = reg_read rs1 m * reg_read rs2 m in reg_write rd (u32 (result >>> 32)) m

unfoldable pub insm_r_div : ℕ → ℕ → ℕ → Machine → Machine
insm_r_div rs2 rs1 rd m =
    let v1 = reg_read rs1 m in
    let v2 = reg_read rs2 m in
    if v2 == 0
    then reg_write rd 0xFFFFFFFF m
    else if (v1 == int32_min && v2 == minus_one)
    then reg_write rd int32_min m
    else reg_write rd (uint32 (div_ℤ (int32 v1) (int32 v2))) m

unfoldable pub insm_r_divu : ℕ → ℕ → ℕ → Machine → Machine
insm_r_divu rs2 rs1 rd m =
    let v1 = reg_read rs1 m in
    let v2 = reg_read rs2 m in
    if v2 == 0 then reg_write rd 0xFFFFFFFF m else reg_write rd (v1 / v2) m

unfoldable pub insm_r_rem : ℕ → ℕ → ℕ → Machine → Machine
insm_r_rem rs2 rs1 rd m =
    let v1 = reg_read rs1 m in
    let v2 = reg_read rs2 m in
    if v2 == 0
    then reg_write rd v1 m
    else if (v1 == int32_min && v2 == minus_one)
    then reg_write rd 0 m
    else reg_write rd (uint32 (mod_ℤ (int32 v1) (int32 v2))) m

unfoldable pub insm_r_remu : ℕ → ℕ → ℕ → Machine → Machine
insm_r_remu rs2 rs1 rd m =
    let v1 = reg_read rs1 m in
    let v2 = reg_read rs2 m in if v2 == 0 then reg_write rd v1 m else reg_write rd (v1 % v2) m
