-- ===== src/Fdt.antt =====
-- src/device/fdt.c: the writer of flattened device trees. `memory` is what the pointer `buf` points into,
-- and a text is the list of its bytes without the final NUL. A call that returns 0 gives `none`: it
-- has changed nothing. Null pointers are left out.
pub mod Serialize
pub mod Bytes
pub mod Tokens
pub mod Filled
pub mod Props
pub mod Refines
pub mod Runs
pub mod Framed
pub mod Image
pub mod Tree
pub mod Calls
pub mod Build
pub mod Reader
use riscvemu.Base.{
  ℕ, zero, suc, ◌+◌, ◌-◌, ◌*◌, ◌^◌, Bool, true, false, ◌||◌, ltb, leb, ◌==◌, nonzero, if◌then◌else◌,
  List, [], ◌∷◌, ◌++◌, Option, none, some, ◌>>=◌, ◌>>◌, length, update, bit_and, codes, u8, u32,
  sub32, ◌>>>◌,
}

abbrev pub fdt_magic : ℕ
fdt_magic = 0xd00dfeed

abbrev pub fdt_version : ℕ
fdt_version = 17

abbrev pub fdt_last_comp_version : ℕ
fdt_last_comp_version = 16

abbrev pub fdt_begin_node : ℕ
fdt_begin_node = 0x1

abbrev pub fdt_end_node : ℕ
fdt_end_node = 0x2

abbrev pub fdt_prop : ℕ
fdt_prop = 0x3

abbrev pub fdt_end : ℕ
fdt_end = 0x9

abbrev pub fdt_header_size : ℕ
fdt_header_size = 40

abbrev pub fdt_struct_max : ℕ
fdt_struct_max = 4096

abbrev pub fdt_max_cells : ℕ
fdt_max_cells = 4

abbrev pub fdt_max_buf : ℕ
fdt_max_buf = fdt_struct_max * 4

abbrev pub fdt_hart_base : ℕ
fdt_hart_base = 0

pub record FdtBuilder : Type 0 where
  pub memory : ℕ → ℕ
  pub buf : ℕ
  pub bufsize : ℕ
  pub struct_off : ℕ
  pub strings_off : ℕ
  pub rsvmap_count : ℕ
  pub depth : ℕ
  pub err : ℕ

-- The bytes that `be32` and `be64` write.
abbrev pub be32 : ℕ → List ℕ
be32 v = u8 (v >>> 24) ∷ bit_and (v >>> 16) 0xFF ∷ bit_and (v >>> 8) 0xFF ∷ bit_and v 0xFF ∷ []

abbrev pub be64 : ℕ → List ℕ
be64 v = be32 (u32 (v >>> 32)) ++ be32 (bit_and v 0xFFFFFFFF)

-- `memcpy`.
unfoldable pub write_bytes : ℕ → List ℕ → (ℕ → ℕ) → ℕ → ℕ
write_bytes a [] memory = memory
write_bytes a (x ∷ xs) memory = write_bytes (suc a) xs (update memory a x)

abbrev pub struct_base : ℕ
struct_base = fdt_header_size + 16

abbrev pub strings_base : ℕ
strings_base = struct_base + fdt_struct_max

unfoldable pub struct_bytes : List ℕ → FdtBuilder → FdtBuilder
struct_bytes bytes b = record b {
  memory = write_bytes (b.buf + b.struct_off) bytes b.memory;
  struct_off = u32 (b.struct_off + length bytes);
}

unfoldable pub struct_word : ℕ → FdtBuilder → FdtBuilder
struct_word w b = record b {
  memory = write_bytes (b.buf + b.struct_off) (be32 w) b.memory;
  struct_off = u32 (b.struct_off + 4);
}

-- The loop of `struct_align`, at most 3 rounds of it.
unfoldable pub align_rounds : ℕ → FdtBuilder → FdtBuilder
align_rounds zero b = b
align_rounds (suc left) b =
    let next : FdtBuilder = record b {
      memory = update b.memory (b.buf + b.struct_off) 0;
      struct_off = u32 (b.struct_off + 1);
    } in
    let rest = align_rounds left next in if nonzero (bit_and b.struct_off 0x3) then rest else b

unfoldable pub struct_align : FdtBuilder → FdtBuilder
struct_align b = align_rounds 3 b

unfoldable pub struct_string : List ℕ → FdtBuilder → FdtBuilder
struct_string s b =
    let c : FdtBuilder = record b {
      memory = write_bytes (b.buf + b.struct_off) s b.memory;
      struct_off = u32 (b.struct_off + length s);
    } in
    struct_align (record c {
      memory = update c.memory (c.buf + c.struct_off) 0;
      struct_off = u32 (c.struct_off + 1);
    })

-- Each property writes its name again; the result is the place of the name in the strings block.
unfoldable pub strings_intern : List ℕ → FdtBuilder → ℕ × FdtBuilder
strings_intern name b = (
  sub32 b.strings_off strings_base,
  record b {
    memory = write_bytes (b.buf + b.strings_off) (name ++ 0 ∷ []) b.memory;
    strings_off = u32 (b.strings_off + u32 (length name + 1));
  },
)

unfoldable pub fdt_builder_init : FdtBuilder → FdtBuilder
fdt_builder_init b =
    let fresh : FdtBuilder = record b {
      struct_off = struct_base;
      strings_off = strings_base;
      depth = 0;
      err = 0;
      rsvmap_count = 0;
    } in
    struct_string [] (struct_word fdt_begin_node fresh)

abbrev pub is_empty {ℓ} : {A : Type ℓ} → List A → Bool
is_empty [] = true
is_empty (x ∷ xs) = false

unfoldable pub fdt_node_push : List ℕ → FdtBuilder → Option FdtBuilder
fdt_node_push name b =
    if is_empty name || nonzero b.err
    then none
    else let c = struct_string name (struct_word fdt_begin_node b) in
      some (record c { depth = c.depth + 1 })

unfoldable pub fdt_node_pop : FdtBuilder → Option FdtBuilder
fdt_node_pop b =
    if nonzero b.err || (b.depth == 0)
    then none
    else let c = struct_word fdt_end_node b in some (record c { depth = c.depth - 1 })

unfoldable pub prop_begin : List ℕ → ℕ → FdtBuilder → Option FdtBuilder
prop_begin name len b =
    if nonzero b.err
    then none
    else let (nameoff, c) = strings_intern name (struct_word len (struct_word fdt_prop b)) in
      some (struct_word nameoff c)

unfoldable pub fdt_prop_word : List ℕ → ℕ → ℕ → ℕ → ℕ → FdtBuilder → Option FdtBuilder
fdt_prop_word name v0 v1 v2 v3 b = do
  c ← prop_begin name 16 b
  some (struct_bytes (be32 v0 ++ be32 v1 ++ be32 v2 ++ be32 v3) c)

-- The loop over the cells of `fdt_prop_ncells`.
unfoldable pub write_cells : List ℕ → FdtBuilder → FdtBuilder
write_cells [] b = b
write_cells (v ∷ vals) b = write_cells vals (struct_bytes (be32 v) b)

unfoldable pub fdt_prop_ncells : List ℕ → List ℕ → FdtBuilder → Option FdtBuilder
fdt_prop_ncells name vals b =
    if is_empty vals || ltb fdt_max_cells (length vals)
    then none
    else do c ← prop_begin name (length vals * 4) b; some (write_cells vals c)

unfoldable pub fdt_prop_cells1 : List ℕ → ℕ → FdtBuilder → Option FdtBuilder
fdt_prop_cells1 name v0 b = fdt_prop_ncells name (v0 ∷ []) b

unfoldable pub fdt_prop_cells2 : List ℕ → ℕ → ℕ → FdtBuilder → Option FdtBuilder
fdt_prop_cells2 name v0 v1 b = fdt_prop_ncells name (v0 ∷ v1 ∷ []) b

unfoldable pub fdt_prop_cells3 : List ℕ → ℕ → ℕ → ℕ → FdtBuilder → Option FdtBuilder
fdt_prop_cells3 name v0 v1 v2 b = fdt_prop_ncells name (v0 ∷ v1 ∷ v2 ∷ []) b

unfoldable pub fdt_prop_str : List ℕ → List ℕ → FdtBuilder → Option FdtBuilder
fdt_prop_str name str b = do
  c ← prop_begin name (u32 (length str + 1)) b
  some (struct_align (struct_bytes (str ++ 0 ∷ []) c))

unfoldable pub fdt_prop_empty : List ℕ → FdtBuilder → Option FdtBuilder
fdt_prop_empty name b = prop_begin name 0 b

unfoldable pub fdt_prop_bytes : List ℕ → List ℕ → FdtBuilder → Option FdtBuilder
fdt_prop_bytes name bytes b = do
  c ← prop_begin name (u32 (length bytes)) b
  some (struct_align (struct_bytes bytes c))

unfoldable pub fdt_prop_interrupt_parent : ℕ → FdtBuilder → Option FdtBuilder
fdt_prop_interrupt_parent phandle b = fdt_prop_cells1 (codes "interrupt-parent") phandle b

unfoldable pub fdt_mark_enabled : FdtBuilder → Option FdtBuilder
fdt_mark_enabled b = fdt_prop_str (codes "status") (codes "okay") b
