-- ===== src/Compressed/Jumps.antt =====
-- C.JR and C.JALR of src/extension/c_extension.c, from their encodings.
use riscvemu.Base.{
  ℕ, ◌+◌, ◌*◌, ◌^◌, ◌<◌, ◌≡◌, ◌==◌, refl, true, false, if◌then◌else◌, u32, bit_and, ◌>>>◌, arith,
}
use riscvemu.Bits.{bit_and-ones}
use riscvemu.Machine.{Machine, reg_read, reg_write}
use riscvemu.System.{raise_if_misaligned_fetch}
use riscvemu.Jump.Target.{is_fetchable}
use riscvemu.Compressed.{exec_c_insn, quadrant2, quadrant2_move, jump_register, full}

-- The word of C.JR (`link` = 0) and C.JALR (`link` = 1) on a register.
abbrev pub encode_cr_jump : ℕ → ℕ → ℕ
encode_cr_jump link rs1 = 4 * 2 ^ 13 + link * 2 ^ 12 + rs1 * 2 ^ 7 + 2

module _ (rs1 : ℕ) (m : Machine) (positive : 0 < rs1) (small : rs1 < 32) where
  c_jump_fields :
      (link : ℕ)
      → link < 2
      → let c = encode_cr_jump link rs1 in
        (bit_and c 3 ≡ 2)
        × (bit_and (c >>> 13) 7 ≡ 4)
        × (bit_and (c >>> 12) 1 ≡ link)
        × (full c 7 ≡ rs1)
        × (full c 2 ≡ 0)
  c_jump_fields link l =
      let c = encode_cr_jump link rs1 in
      (
        omega (arith, bit_and-ones 2 c),
        omega (arith, bit_and-ones 3 (c >>> 13)),
        omega (arith, bit_and-ones 1 (c >>> 12)),
        omega (arith, bit_and-ones 5 (c >>> 7)),
        omega (arith, bit_and-ones 5 (c >>> 2)),
      )

  c_jr_jump : exec_c_insn (encode_cr_jump 0 rs1) m ≡ jump_register rs1 (λ n. n) m
  unfolding exec_c_insn quadrant2 quadrant2_move
  c_jr_jump =
      let (q, f, b, r, z) = c_jump_fields 0 (omega arith) in
      let nonzero_rs1 : (rs1 == 0) ≡ false = ground arith in simp (q, f, b, r, z, nonzero_rs1)

  c_jalr_jump :
      exec_c_insn (encode_cr_jump 1 rs1) m
      ≡ jump_register rs1 (λ n. reg_write 1 (u32 (n.pc + 2)) n) m
  unfolding exec_c_insn quadrant2 quadrant2_move
  c_jalr_jump =
      let (q, f, b, r, z) = c_jump_fields 1 (omega arith) in
      let nonzero_rs1 : (rs1 == 0) ≡ false = ground arith in simp (q, f, b, r, z, nonzero_rs1)

pub raise_if_misaligned_fetch-fetchable :
    (target : ℕ) (m : Machine)
    → is_fetchable target m ≡ true
    → raise_if_misaligned_fetch target m ≡ (m, false)
unfolding raise_if_misaligned_fetch is_fetchable
raise_if_misaligned_fetch-fetchable target m h = ground (arith, h)

-- On a register other than x0 that holds a 32-bit address where instructions may start, C.JR makes
-- that address the next fetch and changes no register; C.JALR puts the address after itself in x1
-- and makes the register's old value the next fetch, but when the register is x1 it makes the
-- address after itself the next fetch.
pub c_jr-c_jalr :
    (rs1 : ℕ) (m : Machine)
    → 0 < rs1
    → rs1 < 32
    → m.gpr rs1 < 2 ^ 32
    → is_fetchable (reg_read rs1 m) m ≡ true
    → let s = (exec_c_insn (encode_cr_jump 0 rs1) m).0 in
      let t = (exec_c_insn (encode_cr_jump 1 rs1) m).0 in
      (u32 (s.pc + 4) ≡ reg_read rs1 m)
      × (s.gpr ≡ m.gpr)
      × (reg_read 1 t ≡ u32 (m.pc + 2))
      × (u32 (t.pc + 4) ≡ (if rs1 == 1 then u32 (m.pc + 2) else reg_read rs1 m))
unfolding reg_read reg_write
c_jr-c_jalr rs1 m p h w f =
    let word : reg_read rs1 m < 2 ^ 32 = ground arith in
    let e = raise_if_misaligned_fetch-fetchable (reg_read rs1 m) m f in
    rw (c_jr_jump rs1 m p h, c_jalr_jump rs1 m p h)
      (simp e (ground arith, refl, refl, ground arith))
