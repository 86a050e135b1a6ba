-- ===== src/Integer/Signed.antt =====
-- The signed comparison by the unsigned one.
use riscvemu.Base.{ℕ, ◌^◌, ◌<◌, ◌≡◌, ◌≢◌, ◌∙◌, arith}
use riscvemu.Machine.{Machine, reg_read}
use riscvemu.Integer.{slt, sltu, add, insi_r_slt, insi_i_slti}
use riscvemu.Muldiv.Product.{written}

slt_lem : (a b : ℕ) → a < 2 ^ 32 → b < 2 ^ 32 → slt a b ≡ sltu (add a (2 ^ 31)) (add b (2 ^ 31))
unfolding slt sltu add
slt_lem a b h l = ground arith

-- SLT and SLTI of 32-bit words into a register other than x0 write what the unsigned comparison
-- gives when 2 ^ 31 is added to both words first.
pub insi_r_slt-sltu :
    (rs2 rs1 rd imm : ℕ) (m : Machine)
    → rd ≢ 0
    → reg_read rs1 m < 2 ^ 32
    → reg_read rs2 m < 2 ^ 32
    → imm < 2 ^ 32
    → (reg_read rd (insi_r_slt rs2 rs1 rd m)
        ≡ sltu (add (reg_read rs1 m) (2 ^ 31)) (add (reg_read rs2 m) (2 ^ 31)))
      × (reg_read rd (insi_i_slti imm rs1 rd m)
          ≡ sltu (add (reg_read rs1 m) (2 ^ 31)) (add imm (2 ^ 31)))
unfolding insi_r_slt insi_i_slti
insi_r_slt-sltu rs2 rs1 rd imm m h a b c = (
  written rd (slt (reg_read rs1 m) (reg_read rs2 m)) m h
      ∙ slt_lem (reg_read rs1 m) (reg_read rs2 m) a b,
  written rd (slt (reg_read rs1 m) imm) m h ∙ slt_lem (reg_read rs1 m) imm a c,
)
