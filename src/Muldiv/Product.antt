-- ===== src/Muldiv/Product.antt =====
-- The two halves of a product.
use riscvemu.Base.{ℕ, ◌+◌, ◌*◌, ◌^◌, ◌≡◌, ◌≢◌, arith}
use riscvemu.Base.Int.{ℤ, pos, negsuc, ◌*ℤ◌, int32, uint32, sar_ℤ}
use riscvemu.Machine.{Machine, reg_read, reg_write}
use riscvemu.Muldiv.{uint64, insm_r_mul, insm_r_mulh}

pub written : (rd d : ℕ) (m : Machine) → rd ≢ 0 → reg_read rd (reg_write rd d m) ≡ d
unfolding reg_read reg_write
written rd d m h = ground (arith, h)

halves : (z : ℤ) → uint32 (sar_ℤ z 32) * 2 ^ 32 + uint32 z ≡ uint64 z
halves (pos n) = omega arith
halves (negsuc n) = omega arith

-- MULH and MUL of the same registers into a register other than x0 give the high and the low word
-- of the 64-bit product of the signed values.
pub insm_r_mulh-mul :
    (rs2 rs1 rd : ℕ) (m : Machine)
    → rd ≢ 0
    → reg_read rd (insm_r_mulh rs2 rs1 rd m) * 2 ^ 32 + reg_read rd (insm_r_mul rs2 rs1 rd m)
      ≡ uint64 (int32 (reg_read rs1 m) *ℤ int32 (reg_read rs2 m))
unfolding insm_r_mulh insm_r_mul
insm_r_mulh-mul rs2 rs1 rd m h =
    let z = int32 (reg_read rs1 m) *ℤ int32 (reg_read rs2 m) in
    rw (written rd (uint32 (sar_ℤ z 32)) m h, written rd (uint32 z) m h) (halves z)
