-- ===== src/Fdt/Filled.antt =====
-- The state of the writer of src/device/fdt.c between two calls: what its two blocks hold.
use riscvemu.Base.{
  ℕ, zero, suc, ◌+◌, ◌-◌, ◌^◌, ◌%◌, ◌≤◌, ◌<◌, ◌≡◌, ◌∙◌, ◌⊎◌, inl, inr, refl, sym, List, [], ◌∷◌,
  ◌++◌, append_assoc, append-nil, length, replicate, true, nonzero, if◌then◌else◌, arith,
}
use riscvemu.Bits.{bit_and-ones}
use riscvemu.Fdt.{
  FdtBuilder, be32, write_bytes, struct_base, strings_base, struct_word, struct_bytes, struct_align,
  strings_intern, align_rounds, fdt_struct_max, fdt_max_buf,
}
use riscvemu.Fdt.Bytes.{
  read, length-append, write_bytes_frame, read-write_bytes_after, read-write_bytes_off,
}
use riscvemu.Fdt.Tokens.{padded}

-- The most that the strings block holds.
abbrev pub strings_max : ℕ
strings_max = fdt_max_buf - strings_base

-- The structure block at `base` holds `S` and the strings block `T`; the memory is `m` elsewhere.
pub record IsFilled (m : ℕ → ℕ) (base : ℕ) (S T : List ℕ) (d : ℕ) (b : FdtBuilder) : Type 0 where
  pub at_buf : b.buf ≡ base
  pub at_struct : b.struct_off ≡ struct_base + length S
  pub at_strings : b.strings_off ≡ strings_base + length T
  pub structs : read (base + struct_base) (length S) b.memory ≡ S
  pub strings : read (base + strings_base) (length T) b.memory ≡ T
  pub struct_fits : length S ≤ fdt_struct_max
  pub strings_fit : length T ≤ strings_max
  pub at_depth : b.depth ≡ d
  pub no_err : b.err ≡ 0
  pub frame : (j : ℕ) → (j < base) ⊎ (base + fdt_max_buf ≤ j) → b.memory j ≡ m j

module _ (m : ℕ → ℕ) (base : ℕ) (S T : List ℕ) (d : ℕ) (b : FdtBuilder)
    (f : IsFilled m base S T d b) where
  pub struct_bytes-IsFilled :
      (xs : List ℕ)
      → length (S ++ xs) ≤ fdt_struct_max
      → IsFilled m base (S ++ xs) T d (struct_bytes xs b)
  unfolding struct_bytes
  struct_bytes-IsFilled xs fits =
      let place : b.buf + b.struct_off ≡ base + struct_base + length S =
        omega (arith, f.at_buf, f.at_struct) in
      let sum = length-append S xs in
      record {
        at_buf = f.at_buf;
        at_struct = omega (arith, f.at_struct, f.struct_fits);
        at_strings = f.at_strings;
        structs = rw place (read-write_bytes_after (base + struct_base) S xs b.memory f.structs);
        strings = rw place (
            read-write_bytes_off (base + strings_base) (length T) (base + struct_base + length S) xs
              b.memory (inr (omega arith))
            ∙ f.strings);
        struct_fits = fits;
        strings_fit = f.strings_fit;
        at_depth = f.at_depth;
        no_err = f.no_err;
        frame = λ j out.
            (rw place
              (write_bytes_frame (base + struct_base + length S) xs b.memory j (ground arith)))
            ∙ f.frame j out;
      }

  pub struct_word-IsFilled :
      (w : ℕ)
      → length (S ++ be32 w) ≤ fdt_struct_max
      → IsFilled m base (S ++ be32 w) T d (struct_word w b)
  unfolding struct_bytes struct_word
  struct_word-IsFilled w fits = struct_bytes-IsFilled (be32 w) fits

  pub strings_intern-IsFilled :
      (name : List ℕ)
      → length (T ++ (name ++ 0 ∷ [])) ≤ strings_max
      → ((strings_intern name b).0 ≡ length T)
        × IsFilled m base S (T ++ (name ++ 0 ∷ [])) d (strings_intern name b).1
  unfolding strings_intern
  strings_intern-IsFilled name fits =
      let place : b.buf + b.strings_off ≡ base + strings_base + length T =
        omega (arith, f.at_buf, f.at_strings) in
      let sum = length-append T (name ++ 0 ∷ []) in
      let size = length-append name (0 ∷ []) in
      (
        omega (arith, f.at_strings, f.strings_fit),
        record {
          at_buf = f.at_buf;
          at_struct = f.at_struct;
          at_strings = omega (arith, f.at_strings, f.strings_fit);
          structs = rw place (
              read-write_bytes_off (base + struct_base) (length S) (base + strings_base + length T)
                (name ++ 0 ∷ []) b.memory (inl (omega (arith, f.struct_fits)))
              ∙ f.structs);
          strings =
              rw place (
                read-write_bytes_after (base + strings_base) T (name ++ 0 ∷ []) b.memory f.strings);
          struct_fits = f.struct_fits;
          strings_fit = fits;
          at_depth = f.at_depth;
          no_err = f.no_err;
          frame = λ j out.
              (rw place (
                write_bytes_frame (base + strings_base + length T) (name ++ 0 ∷ []) b.memory j
                  (ground arith)))
              ∙ f.frame j out;
        },
      )

  -- Another depth leaves the blocks.
  pub redepth-IsFilled : (e k : ℕ) → k ≡ e → IsFilled m base S T e (record b { depth = k })
  redepth-IsFilled e k same = record {
    at_buf = f.at_buf;
    at_struct = f.at_struct;
    at_strings = f.at_strings;
    structs = f.structs;
    strings = f.strings;
    struct_fits = f.struct_fits;
    strings_fit = f.strings_fit;
    at_depth = same;
    no_err = f.no_err;
    frame = f.frame;
  }

-- One round of the loop of `struct_align`, and the two writes of `struct_string` before it.
align_rounds-suc :
    (left : ℕ) (b : FdtBuilder)
    → align_rounds (suc left) b
      ≡ (if nonzero (b.struct_off % 2 ^ 2) then align_rounds left (struct_bytes (0 ∷ []) b) else b)
unfolding align_rounds struct_bytes write_bytes
align_rounds-suc left b = rw (bit_and-ones 2 b.struct_off)

align_rounds_done : (left : ℕ) (b : FdtBuilder) → b.struct_off % 4 ≡ 0 → align_rounds left b ≡ b
unfolding align_rounds
align_rounds_done zero b even = refl
align_rounds_done (suc left) b even = rw (align_rounds-suc left b, even)

module _ (m : ℕ → ℕ) (base : ℕ) (T : List ℕ) (d : ℕ) where
  align_rounds-IsFilled :
      (left k : ℕ) (S : List ℕ) (b : FdtBuilder)
      → (length S + k) % 4 ≡ 0
      → k < 4
      → k ≤ left
      → IsFilled m base S T d b
      → IsFilled m base (S ++ replicate k 0) T d (align_rounds left b)
  align_rounds-IsFilled left zero S b even small enough f =
      rw (append-nil S, align_rounds_done left b (omega (arith, f.at_struct))) f
  align_rounds-IsFilled zero (suc k) S b even small enough f = absurd (omega arith)
  align_rounds-IsFilled (suc left) (suc k) S b even small enough f =
      let more : nonzero (b.struct_off % 2 ^ 2) ≡ true = ground (arith, f.at_struct) in
      let size = length-append S (0 ∷ []) in
      let next = struct_bytes-IsFilled m base S T d b f (0 ∷ []) (omega (arith, f.struct_fits)) in
      let rest =
        align_rounds-IsFilled left k (S ++ 0 ∷ []) (struct_bytes (0 ∷ []) b) (omega arith)
          (omega arith) (omega arith) next in
      rw (align_rounds-suc left b, more, sym (append_assoc S (0 ∷ []) (replicate k 0))) rest

  pub struct_align-IsFilled :
      (S : List ℕ) (b : FdtBuilder)
      → IsFilled m base S T d b
      → IsFilled m base (padded S) T d (struct_align b)
  unfolding struct_align
  struct_align-IsFilled S b f =
      align_rounds-IsFilled 3 ((4 - length S % 4) % 4) S b (omega arith) (omega arith) (omega arith)
        f
