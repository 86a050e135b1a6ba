-- ===== src/Zicntr.antt =====
-- src/extension/zicntr_extension.c: the 64-bit counters, read and written by halves.
use riscvemu.Base.{
  ap, ◌∙◌, ℕ, ◌+◌, ◌*◌, ◌/◌, ◌%◌, ◌^◌, ◌<◌, ◌≡◌, Bool, true, false, bit_and, bit_or, u32, u64,
  ◌<<<◌, ◌>>>◌, if◌then◌else◌, arith,
}
use riscvemu.Bits.{bit_and_field, bit_or_fields}

pub record Zicntr : Type 0 where
  pub cycle : ℕ
  pub instret : ℕ
  pub instret_suppress_next : Bool

unfoldable pub init_zicntr : Zicntr
init_zicntr = record { cycle = 0; instret = 0; instret_suppress_next = false }

unfoldable pub get_zicntr_cycle_l : Zicntr → ℕ
get_zicntr_cycle_l z = u32 z.cycle

unfoldable pub get_zicntr_cycle_h : Zicntr → ℕ
get_zicntr_cycle_h z = u32 (z.cycle >>> 32)

unfoldable pub get_zicntr_instret_l : Zicntr → ℕ
get_zicntr_instret_l z = u32 z.instret

unfoldable pub get_zicntr_instret_h : Zicntr → ℕ
get_zicntr_instret_h z = u32 (z.instret >>> 32)

unfoldable pub set_zicntr_minstret_l : ℕ → Zicntr → Zicntr
set_zicntr_minstret_l val z = record z {
  instret = bit_or (bit_and z.instret 0xFFFFFFFF00000000) val;
  instret_suppress_next = true;
}

unfoldable pub set_zicntr_minstret_h : ℕ → Zicntr → Zicntr
set_zicntr_minstret_h val z = record z {
  instret = bit_or (bit_and z.instret 0x00000000FFFFFFFF) (u64 (val <<< 32));
  instret_suppress_next = true;
}

-- What the run loop does to the counters after each instruction (src/emu.c).
unfoldable pub count_instruction : Zicntr → Zicntr
count_instruction z =
    if z.instret_suppress_next
    then record z { cycle = u64 (z.cycle + 1); instret_suppress_next = false }
    else record z { cycle = u64 (z.cycle + 1); instret = u64 (z.instret + 1) }

-- For a 32-bit value and a 64-bit counter, the low half that an instruction wrote is read back
-- after it, the high half is unchanged, and the next instruction counts on from there.
minstret_l-written :
    (val : ℕ) (z : Zicntr)
    → val < 2 ^ 32
    → z.instret < 2 ^ 64
    → let w = count_instruction (set_zicntr_minstret_l val z) in
      (get_zicntr_instret_l w ≡ val)
      × (get_zicntr_instret_h w ≡ get_zicntr_instret_h z)
      × ((count_instruction w).instret ≡ (z.instret / 2 ^ 32 * 2 ^ 32 + val + 1) % 2 ^ 64)
unfolding count_instruction set_zicntr_minstret_l get_zicntr_instret_l get_zicntr_instret_h
minstret_l-written val z h l =
    let e : bit_or (bit_and z.instret 0xFFFFFFFF00000000) val
        ≡ z.instret / 2 ^ 32 % 2 ^ 32 * 2 ^ 32 + val =
      ap (λ (t : ℕ). bit_or t val) (bit_and_field 32 32 z.instret)
      ∙ bit_or_fields 32 (z.instret / 2 ^ 32 % 2 ^ 32) val h in
    omega (arith, e)
