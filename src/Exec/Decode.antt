-- ===== src/Exec/Decode.antt =====
-- The fields of an instruction word, of include/exec.h, and the immediates that src/exec.c puts
-- together from them.
use riscvemu.Base.{ℕ, bit_and, bit_or, ◌<<<◌, ◌>>>◌}
use riscvemu.Jump.{sign_extend_12, sign_extend_13, sign_extend_21}

unfoldable pub get_opcode : ℕ → ℕ
get_opcode ins = bit_and ins 0x7F

unfoldable pub get_rd : ℕ → ℕ
get_rd ins = bit_and (ins >>> 7) 0x1F

unfoldable pub get_funct3 : ℕ → ℕ
get_funct3 ins = bit_and (ins >>> 12) 0x7

unfoldable pub get_rs1 : ℕ → ℕ
get_rs1 ins = bit_and (ins >>> 15) 0x1F

unfoldable pub get_rs2 : ℕ → ℕ
get_rs2 ins = bit_and (ins >>> 20) 0x1F

unfoldable pub get_funct7 : ℕ → ℕ
get_funct7 ins = bit_and (ins >>> 25) 0x7F

-- The immediates of the I, S, B and J formats, and of LUI and AUIPC.
unfoldable pub i_imm : ℕ → ℕ
i_imm ins = sign_extend_12 (bit_and (ins >>> 20) 0xFFF)

unfoldable pub s_imm : ℕ → ℕ
s_imm ins = sign_extend_12 (bit_or (bit_and (ins >>> 25) 0x7F <<< 5) (bit_and (ins >>> 7) 0x1F))

unfoldable pub b_imm : ℕ → ℕ
b_imm ins =
    let imm = bit_and (ins >>> 31) 0x1 <<< 12 in
    let imm = bit_or imm (bit_and (ins >>> 25) 0x3F <<< 5) in
    let imm = bit_or imm (bit_and (ins >>> 8) 0xF <<< 1) in
    let imm = bit_or imm (bit_and (ins >>> 7) 0x1 <<< 11) in sign_extend_13 imm

unfoldable pub j_imm : ℕ → ℕ
j_imm ins =
    let imm = bit_and (ins >>> 31) 0x1 <<< 20 in
    let imm = bit_or imm (bit_and (ins >>> 21) 0x3FF <<< 1) in
    let imm = bit_or imm (bit_and (ins >>> 20) 0x1 <<< 11) in
    let imm = bit_or imm (bit_and (ins >>> 12) 0xFF <<< 12) in sign_extend_21 imm

unfoldable pub u_imm : ℕ → ℕ
u_imm ins = bit_and ins 0xFFFFF000
