-- ===== src/Fdt/Framed.antt =====
-- The three writes of `fdt_serialize` (src/device/fdt.c) around the two blocks of a tree.
use riscvemu.Base.{
  ℕ, zero, suc, ◌+◌, ◌≤◌, ◌<◌, ◌≡◌, ◌∙◌, ◌⊎◌, inl, inr, refl, List, ◌++◌, length, replicate, update,
  arith,
}
use riscvemu.Fdt.{
  fdt_struct_max, fdt_max_buf, fdt_header_size, struct_base, strings_base, write_bytes,
}
use riscvemu.Fdt.Serialize.{zero_gap}
use riscvemu.Fdt.Bytes.{read, read-join, read-write_bytes, read-write_bytes_off, write_bytes_frame}

pub zero_gap-eq :
    (n a : ℕ) (memory : ℕ → ℕ) → zero_gap n a memory ≡ write_bytes a (replicate n 0) memory
unfolding zero_gap write_bytes
zero_gap-eq zero a memory = refl
zero_gap-eq (suc n) a memory = zero_gap-eq n (suc a) (update memory a 0)

-- A header, a map after it and a gap after a block of `n` bytes.
unfoldable pub framed : ℕ → List ℕ → List ℕ → ℕ → List ℕ → (ℕ → ℕ) → ℕ → ℕ
framed base H R n Z held =
    write_bytes (base + (struct_base + n)) Z
      (write_bytes (base + fdt_header_size) R (write_bytes base H held))

-- Three writes around two blocks that the memory holds: a header of 40 bytes, a map of 16 and a gap.
module _ (base : ℕ) (H R S Z T : List ℕ) (held : ℕ → ℕ) (forty : length H ≡ 40)
    (sixteen : length R ≡ 16) (window : length S + length Z ≡ fdt_struct_max) where
  abbrev after : ℕ → ℕ
  after = framed base H R (length S) Z held

  -- A block outside of the three writes.
  read-framed :
      (a n : ℕ)
      → (base + struct_base ≤ a)
      → (a + n ≤ base + (struct_base + length S)) ⊎ (base + strings_base ≤ a)
      → read a n after ≡ read a n held
  unfolding framed
  read-framed a n past off =
      let first = write_bytes base H held in
      let second = write_bytes (base + fdt_header_size) R first in
      read-write_bytes_off a n (base + (struct_base + length S)) Z second (ground arith)
      ∙ (read-write_bytes_off a n (base + fdt_header_size) R first (inr (omega arith))
          ∙ read-write_bytes_off a n base H held (inr (omega arith)))

  pub read-framed_whole :
      read (base + struct_base) (length S) held ≡ S
      → read (base + strings_base) (length T) held ≡ T
      → read base (length (H ++ (R ++ (S ++ (Z ++ T))))) after ≡ H ++ (R ++ (S ++ (Z ++ T)))
  unfolding framed
  read-framed_whole structs strings =
      let first = write_bytes base H held in
      let second = write_bytes (base + fdt_header_size) R first in
      let gap = base + (struct_base + length S) in
      let head : read base (length H) after ≡ H =
        read-write_bytes_off base (length H) gap Z second (inl (omega arith))
        ∙ (read-write_bytes_off base (length H) (base + fdt_header_size) R first (inl (omega arith))
            ∙ read-write_bytes base H held) in
      let map : read (base + length H) (length R) after ≡ R = rw forty (
        read-write_bytes_off (base + fdt_header_size) (length R) gap Z second (inl (omega arith))
        ∙ read-write_bytes (base + fdt_header_size) R first) in
      let block : read (base + struct_base) (length S) after ≡ S =
        read-framed (base + struct_base) (length S) (omega arith) (inl (omega arith)) ∙ structs in
      let zeros : read gap (length Z) after ≡ Z = read-write_bytes gap Z second in
      let texts : read (base + strings_base) (length T) after ≡ T =
        read-framed (base + strings_base) (length T) (omega arith) (inr (omega arith)) ∙ strings in
      let after_gap : gap + length Z ≡ base + strings_base = omega arith in
      let after_block : base + struct_base + length S ≡ gap = omega arith in
      let after_map : base + length H + length R ≡ base + struct_base = omega arith in
      let from_gap = read-join gap Z T after zeros (rw after_gap texts) in
      let from_block =
        read-join (base + struct_base) S (Z ++ T) after block (rw after_block from_gap) in
      let from_map =
        read-join (base + length H) R (S ++ (Z ++ T)) after map (rw after_map from_block) in
      read-join base H (R ++ (S ++ (Z ++ T))) after head from_map

  -- Nothing changes outside of the 16 KiB.
  pub framed-off : (j : ℕ) → (j < base) ⊎ (base + fdt_max_buf ≤ j) → after j ≡ held j
  unfolding framed
  framed-off j out =
      let first = write_bytes base H held in
      let second = write_bytes (base + fdt_header_size) R first in
      write_bytes_frame (base + (struct_base + length S)) Z second j (ground arith)
      ∙ (write_bytes_frame (base + fdt_header_size) R first j (ground arith)
          ∙ write_bytes_frame base H held j (ground arith))
