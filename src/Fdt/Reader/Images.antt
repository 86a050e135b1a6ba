-- ===== src/Fdt/Reader/Images.antt =====
-- The reader of device trees finds what src/device/fdt.c wrote.
use mathlib.Core.Path.{subst}
use riscvemu.Base.{
  ℕ, ◌+◌, ◌-◌, ◌≤◌, ◌<◌, ◌≡◌, ◌∙◌, ◌⊎◌, refl, sym, ap, true, ◌==◌, List, [], ◌∷◌, ◌++◌,
  append_assoc, some, length, replicate, length-replicate, arith,
}
use riscvemu.Fdt.{
  be32, fdt_end_node, fdt_end, fdt_struct_max, FdtBuilder, fdt_builder_init, strings_base,
  struct_base, fdt_max_buf,
}
use riscvemu.Fdt.Serialize.{fdt_serialize}
use riscvemu.Fdt.Bytes.{length-append, read}
use riscvemu.Fdt.Filled.{strings_max}
use riscvemu.Fdt.Tokens.{
  Token, begin_node, end_node, encode_token, name_of, encode, names, structure, assemble, image,
  Call, tokens, run, final_depth,
}
use riscvemu.Fdt.Image.{IsTree, fdt_serialize-image, length-assemble}
use riscvemu.Fdt.Reader.{take, drop, read_tokens, read_tree, are_named, is_named, is_text}
use riscvemu.Fdt.Reader.Words.{read_word-be32, take-append, drop-append}
use riscvemu.Fdt.Reader.Trees.{block_end, read_tokens-encode, length-le-encode}

whole : (xs : List ℕ) → take (length xs) xs ≡ xs
whole [] = refl
whole (x ∷ xs) = ap (◌∷◌ x) (whole xs)

-- The blocks that the reader cuts out of a tree, by the places in its header.
module _ (S T : List ℕ) (fits : length S ≤ fdt_struct_max) where
  abbrev gap : List ℕ
  gap = replicate (fdt_struct_max - length S) 0

  structure-assemble : take (length S) (drop struct_base (assemble S T)) ≡ S
  unfolding assemble
  structure-assemble = take-append S (gap ++ T)

  names-assemble : take (length T) (drop strings_base (assemble S T)) ≡ T
  unfolding assemble
  names-assemble =
      let rounds : length gap ≡ fdt_struct_max - length S =
        length-replicate {A = ℕ} (fdt_struct_max - length S) 0 in
      let sum = length-append S gap in
      let window : length (S ++ gap) ≡ 4096 = omega (arith, sum, rounds, fits) in
      let cut : drop 4096 (S ++ gap ++ T) ≡ T =
        subst (λ (n : ℕ). drop n (S ++ gap ++ T) ≡ T) window (drop-append (S ++ gap) T) in
      let shape : drop 4096 (S ++ (gap ++ T)) ≡ T = rw⁻¹ (append_assoc S gap T) cut in
      ap (take (length T)) shape ∙ whole T

  -- The reader comes to the tokens of the two blocks.
  read_tree-assemble :
      length T ≤ strings_max → read_tree (assemble S T) ≡ read_tokens (length S) T S
  unfolding read_tree assemble
  read_tree-assemble fit =
      let total = strings_base + length T in
      let body = replicate 16 0 ++ (S ++ (gap ++ T)) in
      let t9 = be32 (length S) ++ body in
      let t8 = be32 (length T) ++ t9 in
      let t4 = be32 40 ++ (be32 17 ++ (be32 16 ++ (be32 0 ++ t8))) in
      let t3 = be32 strings_base ++ t4 in
      let t2 = be32 struct_base ++ t3 in
      let t1 = be32 total ++ t2 in
      let valid : (total == length (assemble S T)) ≡ true =
        ground (arith, length-assemble S T fits) in
      rw (
        read_word-be32 0xd00dfeed t1 (omega arith),
        read_word-be32 total t2 (omega arith),
        read_word-be32 struct_base t3 (omega arith),
        read_word-be32 strings_base t4 (omega arith),
        read_word-be32 (length T) t9 (omega arith),
        read_word-be32 (length S) body (omega arith),
        valid,
        structure-assemble,
        names-assemble,
      )

pub read_tree-image :
    (ts : List Token)
    → are_named ts ≡ true
    → length (structure ts) ≤ fdt_struct_max
    → length (names ts) ≤ strings_max
    → read_tree (image ts) ≡ some (begin_node [] ∷ ts ++ end_node ∷ [])
unfolding image structure are_named is_named is_text encode encode_token name_of names
read_tree-image ts named fits fit =
    let code = encode 0 (begin_node [] ∷ ts) in
    let S = structure ts in
    let shape : S ≡ code ++ block_end = append_assoc code (be32 fdt_end_node) (be32 fdt_end) in
    let size = length-append code block_end in
    let count = length-le-encode (begin_node [] ∷ ts) 0 in
    let sum : length S ≡ length code + 8 = ap length shape ∙ size in
    let found =
      read_tokens-encode (begin_node [] ∷ ts) 0 (length S) (names ts) [] named refl refl
        (omega (arith, count, sum)) (omega arith) (omega (arith, sum, fits)) in
    read_tree-assemble S (names ts) fits fit
    ∙ subst
        (λ (X : List ℕ).
          read_tokens (length S) (names ts) X ≡ some (begin_node [] ∷ ts ++ end_node ∷ []))
        (sym shape) found

-- A run of the writer after which the reader finds the tokens in the buffer, inside an unnamed root, and
-- nothing outside of the buffer's 16 KiB has changed.
unfoldable pub IsReadable : List Token → FdtBuilder → ℕ × FdtBuilder → Type 0
IsReadable ts b (size, c) =
    (read_tree (read b.buf size c.memory) ≡ some (begin_node [] ∷ ts ++ end_node ∷ []))
    × ((j : ℕ) → (j < b.buf) ⊎ (b.buf + fdt_max_buf ≤ j) → c.memory j ≡ b.memory j)

pub IsTree-IsReadable :
    (ts : List Token) (b : FdtBuilder) (r : ℕ × FdtBuilder)
    → are_named ts ≡ true
    → length (structure ts) ≤ fdt_struct_max
    → length (names ts) ≤ strings_max
    → IsTree (image ts) b r
    → IsReadable ts b r
unfolding IsReadable
IsTree-IsReadable ts b r named fits fit (size, held, frame) =
    (rw (size, held) (read_tree-image ts named fits fit), frame)

-- When calls of the writer open and close their nodes in turn, with non-empty node names and one to
-- four cells in each property of cells, their names have no NUL, and the structure block and the
-- names fit 4096 and 12232 bytes, then every call succeeds on an initialized builder, and after
-- `fdt_serialize` the reader finds the tokens of the calls, inside an unnamed root, in as many
-- bytes of the buffer as it returned; no byte outside of the 16 KiB at the buffer has changed.
pub fdt_serialize-IsReadable :
    (cs : List Call) (b : FdtBuilder)
    → final_depth cs 0 ≡ some 0
    → are_named (tokens cs) ≡ true
    → length (structure (tokens cs)) ≤ fdt_struct_max
    → length (names (tokens cs)) ≤ strings_max
    → (d : FdtBuilder) × (run cs (fdt_builder_init b) ≡ some d)
      × IsReadable (tokens cs) b (fdt_serialize d)
fdt_serialize-IsReadable cs b closed named fits fit =
    let (d, done, tree) = fdt_serialize-image cs b closed fits fit in
    (d, done, IsTree-IsReadable (tokens cs) b (fdt_serialize d) named fits fit tree)
