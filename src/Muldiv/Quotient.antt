-- ===== src/Muldiv/Quotient.antt =====
-- Quotient and remainder of one division.
use native.Mathlib.Nat.{div-add-mod'}
use riscvemu.Base.{false, ℕ, zero, suc, ◌+◌, ◌*◌, ◌/◌, ◌%◌, ◌≡◌, ◌≢◌, if◌then◌else◌, ◌==◌, arith}
use riscvemu.Machine.{Machine, reg_read, reg_write}
use riscvemu.Muldiv.{insm_r_divu, insm_r_remu}

-- The words that the two instructions write.
quotient : ℕ → ℕ → ℕ
quotient v1 v2 = if v2 == 0 then 0xFFFFFFFF else v1 / v2

remainder : ℕ → ℕ → ℕ
remainder v1 v2 = if v2 == 0 then v1 else v1 % v2

dividend : (v1 v2 : ℕ) → quotient v1 v2 * v2 + remainder v1 v2 ≡ v1
unfolding quotient remainder
dividend v1 zero = omega arith
dividend v1 (suc n) = let e : (suc n == 0) ≡ false = ground arith in rw e (div-add-mod' v1 (suc n))

divu_lem :
    (rs2 rs1 rd : ℕ) (m : Machine)
    → rd ≢ 0
    → reg_read rd (insm_r_divu rs2 rs1 rd m) ≡ quotient (reg_read rs1 m) (reg_read rs2 m)
unfolding insm_r_divu quotient reg_read reg_write
divu_lem rs2 rs1 rd m h = ground (arith, h)

remu_lem :
    (rs2 rs1 rd : ℕ) (m : Machine)
    → rd ≢ 0
    → reg_read rd (insm_r_remu rs2 rs1 rd m) ≡ remainder (reg_read rs1 m) (reg_read rs2 m)
unfolding insm_r_remu remainder reg_read reg_write
remu_lem rs2 rs1 rd m h = ground (arith, h)

-- DIVU and REMU of the same registers into a register other than x0 give a quotient and a remainder
-- that make up the dividend again, also for the divisor 0.
insm_r_divu-remu :
    (rs2 rs1 rd : ℕ) (m : Machine)
    → rd ≢ 0
    → let q = reg_read rd (insm_r_divu rs2 rs1 rd m) in
      let r = reg_read rd (insm_r_remu rs2 rs1 rd m) in q * reg_read rs2 m + r ≡ reg_read rs1 m
insm_r_divu-remu rs2 rs1 rd m h =
    rw (divu_lem rs2 rs1 rd m h, remu_lem rs2 rs1 rd m h)
      (dividend (reg_read rs1 m) (reg_read rs2 m))
