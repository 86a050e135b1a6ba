-- ===== src/Compressed/Imm.antt =====
-- The immediates of src/extension/c_extension.c: fields of the 16-bit word put in order. A signed
-- immediate is its 32-bit pattern.
use riscvemu.Base.{
  ℕ, ◌+◌, ◌-◌, ◌^◌, leb, nonzero, if◌then◌else◌, bit_and, bit_or, u32, ◌<<<◌, ◌>>>◌,
}

unfoldable pub sext6 : ℕ → ℕ
sext6 v = let v = bit_and v 0x3F in if leb 0x20 v then v + (2 ^ 32 - 0x40) else v

unfoldable pub sext10 : ℕ → ℕ
sext10 v = let v = bit_and v 0x3FF in if leb 0x200 v then v + (2 ^ 32 - 0x400) else v

unfoldable pub c_addi4spn_imm : ℕ → ℕ
c_addi4spn_imm c =
    bit_or
      (bit_or (bit_or (bit_and (c >>> 11) 0x3 <<< 4) (bit_and (c >>> 7) 0xF <<< 6))
        (bit_and (c >>> 6) 0x1 <<< 2))
      (bit_and (c >>> 5) 0x1 <<< 3)

unfoldable pub c_ls_uimm : ℕ → ℕ
c_ls_uimm c =
    bit_or (bit_or (bit_and (c >>> 5) 0x1 <<< 6) (bit_and (c >>> 10) 0x7 <<< 3))
      (bit_and (c >>> 6) 0x1 <<< 2)

unfoldable pub c_lwsp_uimm : ℕ → ℕ
c_lwsp_uimm c =
    bit_or (bit_or (bit_and (c >>> 2) 0x3 <<< 6) (bit_and (c >>> 12) 0x1 <<< 5))
      (bit_and (c >>> 4) 0x7 <<< 2)

unfoldable pub c_swsp_uimm : ℕ → ℕ
c_swsp_uimm c = bit_or (bit_and (c >>> 7) 0x3 <<< 6) (bit_and (c >>> 9) 0xF <<< 2)

unfoldable pub c_addi16sp_imm : ℕ → ℕ
c_addi16sp_imm c = sext10 (
    bit_or
      (bit_or
        (bit_or
          (bit_or (bit_or (bit_and (c >>> 12) 0x1 <<< 9) (bit_and (c >>> 4) 0x1 <<< 8))
            (bit_and (c >>> 3) 0x1 <<< 7))
          (bit_and (c >>> 5) 0x1 <<< 6))
        (bit_and (c >>> 2) 0x1 <<< 5))
      (bit_and (c >>> 6) 0x1 <<< 4))

unfoldable pub c_jal_offset : ℕ → ℕ
c_jal_offset c =
    let imm =
      bit_or
        (bit_or
          (bit_or
            (bit_or
              (bit_or
                (bit_or (bit_or (bit_and (c >>> 12) 0x1 <<< 11) (bit_and (c >>> 11) 0x1 <<< 4))
                  (bit_and (c >>> 9) 0x3 <<< 8))
                (bit_and (c >>> 8) 0x1 <<< 10))
              (bit_and (c >>> 7) 0x1 <<< 6))
            (bit_and (c >>> 6) 0x1 <<< 7))
          (bit_and (c >>> 2) 0x1 <<< 5))
        (bit_and (c >>> 3) 0x7 <<< 1) in
    if nonzero (bit_and imm 0x800) then imm + (2 ^ 32 - 0x1000) else imm

unfoldable pub c_branch_offset : ℕ → ℕ
c_branch_offset c =
    let imm =
      bit_or
        (bit_or
          (bit_or
            (bit_or
              (bit_or
                (bit_or (bit_or (bit_and (c >>> 12) 0x1 <<< 8) (bit_and (c >>> 6) 0x1 <<< 7))
                  (bit_and (c >>> 5) 0x1 <<< 6))
                (bit_and (c >>> 2) 0x1 <<< 5))
              (bit_and (c >>> 11) 0x1 <<< 4))
            (bit_and (c >>> 10) 0x1 <<< 3))
          (bit_and (c >>> 4) 0x1 <<< 2))
        (bit_and (c >>> 3) 0x1 <<< 1) in
    if nonzero (bit_and imm 0x100) then imm + (2 ^ 32 - 0x200) else imm

unfoldable pub c_lui_imm : ℕ → ℕ
c_lui_imm c = u32 (sext6 (bit_or (bit_and (c >>> 12) 0x1 <<< 5) (bit_and (c >>> 2) 0x1F)) <<< 12)

unfoldable pub c_imm6 : ℕ → ℕ
c_imm6 c = sext6 (bit_or (bit_and (c >>> 12) 0x1 <<< 5) (bit_and (c >>> 2) 0x1F))

unfoldable pub c_shamt : ℕ → ℕ
c_shamt c = bit_or (bit_and (c >>> 12) 0x1 <<< 5) (bit_and (c >>> 2) 0x1F)
