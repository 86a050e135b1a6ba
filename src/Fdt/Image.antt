-- ===== src/Fdt/Image.antt =====
-- The tree that src/device/fdt.c leaves in the memory.
use riscvemu.Base.{
  ℕ, ◌+◌, ◌-◌, ◌%◌, ◌≤◌, ◌<◌, ◌≡◌, ◌∙◌, ◌⊎◌, refl, sym, List, [], ◌∷◌, ◌++◌, some, length,
  length-replicate, replicate, u32, sub32, ltb, nonzero, ◌||◌, not, ◌==◌, false, arith,
}
use riscvemu.Fdt.{
  FdtBuilder, be32, fdt_struct_max, fdt_max_buf, fdt_begin_node, fdt_end_node, fdt_end,
  fdt_builder_init, struct_base, strings_base, struct_word, struct_align,
}
use riscvemu.Fdt.Serialize.{fdt_serialize, write_header, header}
use riscvemu.Fdt.Bytes.{read, length-append}
use riscvemu.Fdt.Framed.{framed, framed-off, read-framed_whole, zero_gap-eq}
use riscvemu.Fdt.Tokens.{
  Call, padded, encode, names, tokens, run, final_depth, structure, assemble, image,
}
use riscvemu.Fdt.Filled.{IsFilled, strings_max, struct_word-IsFilled, struct_align-IsFilled}
use riscvemu.Fdt.Props.{struct_string-IsFilled, padded_whole}
use riscvemu.Fdt.Runs.{run-Fills, length-encode}

-- The root node, which opens the structure block.
abbrev root : List ℕ
root = be32 fdt_begin_node ++ padded (0 ∷ [])

init-IsFilled : (b : FdtBuilder) → IsFilled b.memory b.buf root [] 0 (fdt_builder_init b)
unfolding fdt_builder_init
init-IsFilled b =
    let fresh : FdtBuilder = record b {
      struct_off = struct_base;
      strings_off = strings_base;
      depth = 0;
      err = 0;
      rsvmap_count = 0;
    } in
    let start : IsFilled b.memory b.buf [] [] 0 fresh = record {
      at_buf = refl;
      at_struct = refl;
      at_strings = refl;
      structs = refl;
      strings = refl;
      struct_fits = omega arith;
      strings_fit = omega arith;
      at_depth = refl;
      no_err = refl;
      frame = λ j out. refl;
    } in
    let opened =
      struct_word-IsFilled b.memory b.buf [] [] 0 fresh start fdt_begin_node (omega arith) in
    struct_string-IsFilled b.memory b.buf 0 (be32 fdt_begin_node) [] []
      (struct_word fdt_begin_node fresh) refl (omega arith) opened

-- The header, the reserve map and the gap complete the tree around the two blocks.
module _ (m : ℕ → ℕ) (base : ℕ) (S T : List ℕ) (b : FdtBuilder) (f : IsFilled m base S T 0 b) where
  write_header-memory :
      (write_header (length S) (length T) (strings_base + length T) b).memory
      ≡ framed base
          (header (length S) (length T) (strings_base + length T))
          (replicate 16 0)
          (length S)
          (replicate (fdt_struct_max - length S) 0)
          b.memory
  unfolding write_header framed
  write_header-memory =
      let gap : strings_base - b.struct_off ≡ fdt_struct_max - length S =
        omega (arith, f.at_struct) in
      rw (
        zero_gap-eq (strings_base - b.struct_off) (b.buf + b.struct_off),
        gap,
        f.at_buf,
        f.at_struct,
      )

  write_header-assemble :
      let c = write_header (length S) (length T) (strings_base + length T) b in
      (read base (length (assemble S T)) c.memory ≡ assemble S T)
      × ((j : ℕ) → (j < base) ⊎ (base + fdt_max_buf ≤ j) → c.memory j ≡ m j)
  unfolding assemble
  write_header-assemble =
      let H = header (length S) (length T) (strings_base + length T) in
      let rounds = fdt_struct_max - length S in
      let size : length (replicate rounds 0) ≡ rounds = length-replicate {A = ℕ} rounds 0 in
      let window : length S + length (replicate rounds 0) ≡ fdt_struct_max =
        omega (arith, f.struct_fits) in
      rw write_header-memory (
        read-framed_whole base H (replicate 16 0) S (replicate rounds 0) T b.memory refl refl window
            f.structs f.strings,
        λ j out.
            framed-off base H (replicate 16 0) S (replicate rounds 0) T b.memory refl refl window j
              out
            ∙ f.frame j out,
      )

pub length-assemble :
    (S T : List ℕ) → length S ≤ fdt_struct_max → length (assemble S T) ≡ strings_base + length T
unfolding assemble
length-assemble S T fits =
    let H = header (length S) (length T) (strings_base + length T) in
    let rounds = fdt_struct_max - length S in
    let gap : length (replicate rounds 0) ≡ fdt_struct_max - length S =
      length-replicate {A = ℕ} rounds 0 in
    let first = length-append H (replicate 16 0 ++ (S ++ (replicate rounds 0 ++ T))) in
    let second = length-append (replicate 16 0) (S ++ (replicate rounds 0 ++ T)) in
    let third = length-append S (replicate rounds 0 ++ T) in
    let fourth = length-append (replicate rounds 0) T in
    let sum : length (S ++ (replicate rounds 0 ++ T)) ≡ fdt_struct_max + length T =
      omega (arith, third, fourth, gap) in
    omega (arith, first, second, sum)

-- The tree that a run of the writer leaves: the image of the tokens at `buf`, and nothing else changed.
abbrev pub IsTree : List ℕ → FdtBuilder → ℕ × FdtBuilder → Type 0
IsTree bytes b (size, c) =
    (size ≡ length bytes)
    × (read b.buf (length bytes) c.memory ≡ bytes)
    × ((j : ℕ) → (j < b.buf) ⊎ (b.buf + fdt_max_buf ≤ j) → c.memory j ≡ b.memory j)

serialize-IsTree :
    (S T : List ℕ) (b d : FdtBuilder)
    → length S % 4 ≡ 0
    → length (S ++ be32 fdt_end_node ++ be32 fdt_end) ≤ fdt_struct_max
    → IsFilled b.memory b.buf S T 0 d
    → IsTree (assemble (S ++ be32 fdt_end_node ++ be32 fdt_end) T) b (fdt_serialize d)
unfolding fdt_serialize
serialize-IsTree S T b d even fits f =
    let m = b.memory in
    let base = b.buf in
    let ended = S ++ be32 fdt_end_node in
    let whole = ended ++ be32 fdt_end in
    let size = length-append S (be32 fdt_end_node) in
    let sum = length-append ended (be32 fdt_end) in
    let x = struct_word-IsFilled m base S T 0 d f fdt_end_node (omega arith) in
    let d1 = struct_word fdt_end_node d in
    let y : IsFilled m base ended T 0 (struct_align d1) =
      rw⁻¹ (padded_whole ended (omega arith)) (struct_align-IsFilled m base T 0 ended d1 x) in
    let c = struct_word fdt_end (struct_align d1) in
    let z = struct_word-IsFilled m base ended T 0 (struct_align d1) y fdt_end fits in
    let lens : sub32 c.struct_off struct_base ≡ length whole = omega (arith, z.at_struct) in
    let places : sub32 c.strings_off strings_base ≡ length T =
      omega (arith, z.at_strings, z.strings_fit) in
    let total : u32 (strings_base + length T) ≡ strings_base + length T =
      omega (arith, z.strings_fit) in
    let small : ltb fdt_max_buf (strings_base + length T) ≡ false = ground (arith, z.strings_fit) in
    let opened : (nonzero d.err || not (d.depth == 0)) ≡ false =
      ground (arith, f.no_err, f.at_depth) in
    let result : fdt_serialize d ≡ (
      strings_base + length T,
      write_header (length whole) (length T) (strings_base + length T) c,
    ) =
      rw (lens, places, total, small, opened) in
    let (held, frame) = write_header-assemble m base whole T c z in
    rw result (sym (length-assemble whole T fits), held, frame)

pub fdt_serialize-image :
    (cs : List Call) (b : FdtBuilder)
    → final_depth cs 0 ≡ some 0
    → length (structure (tokens cs)) ≤ fdt_struct_max
    → length (names (tokens cs)) ≤ strings_max
    → (d : FdtBuilder) × (run cs (fdt_builder_init b) ≡ some d)
      × IsTree (image (tokens cs)) b (fdt_serialize d)
unfolding structure image
fdt_serialize-image cs b closed fits fit =
    let inner = root ++ encode 0 (tokens cs) in
    let size = length-append inner (be32 fdt_end_node) in
    let sum = length-append (inner ++ be32 fdt_end_node) (be32 fdt_end) in
    let whole = length-append root (encode 0 (tokens cs)) in
    let aligned = length-encode 0 (tokens cs) in
    let (d, done, f) =
      run-Fills b.memory b.buf cs root [] 0 0 (fdt_builder_init b) refl (init-IsFilled b) closed
        (omega arith) fit in
    (d, done, serialize-IsTree inner (names (tokens cs)) b d (omega arith) fits f)
