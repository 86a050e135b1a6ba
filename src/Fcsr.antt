-- ===== src/Fcsr.antt =====
-- The floating-point status register of src/extension/f_extension.c.
pub mod Fields
use riscvemu.Base.{ℕ, bit_and, bit_or, leb, ltb, not32, u32, ◌<<<◌, ◌>>>◌, if◌then◌else◌}

unfoldable pub get_fflags : ℕ → ℕ
get_fflags fcsr = bit_and fcsr 0b11111

unfoldable pub get_frm : ℕ → ℕ
get_frm fcsr = bit_and (fcsr >>> 5) 0b111

unfoldable pub set_fflags : ℕ → ℕ → ℕ
set_fflags flags fcsr = bit_or (bit_and fcsr (not32 0b11111)) (bit_and flags 0b11111)

-- A reserved rounding mode is ignored.
unfoldable pub set_frm : ℕ → ℕ → ℕ
set_frm frm fcsr =
    if ltb 4 frm then fcsr else bit_or (bit_and fcsr (not32 0b11100000)) (u32 (frm <<< 5))

unfoldable pub set_fcsr : ℕ → ℕ → ℕ
set_fcsr csr fcsr =
    let new_frm = bit_and (csr >>> 5) 0b111 in
    let new_fflags = bit_and csr 0b11111 in
    if leb new_frm 4
    then bit_or (bit_and new_fflags 0b11111) (u32 (new_frm <<< 5))
    else bit_or (bit_and new_fflags 0b11111) (bit_and fcsr 0b11100000)
