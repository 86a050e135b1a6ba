-- ===== src/Fdt/Serialize.antt =====
-- `fdt_serialize` of src/device/fdt.c: the end of the structure block, the header and the reserve map.
use riscvemu.Base.{
  ℕ, zero, suc, ◌+◌, ◌-◌, ◌||◌, ltb, ◌==◌, not, nonzero, if◌then◌else◌, u32, sub32, List, ◌++◌,
  update,
}
use riscvemu.Fdt.{
  FdtBuilder, be32, be64, write_bytes, struct_base, strings_base, struct_word, struct_align,
  fdt_magic, fdt_version, fdt_last_comp_version, fdt_end_node, fdt_end, fdt_header_size,
  fdt_max_buf, fdt_hart_base,
}

-- `for (i = b->struct_off; i < off_strings; i++) b->buf[i] = 0;`, with `left` rounds to go.
unfoldable pub zero_gap : ℕ → ℕ → (ℕ → ℕ) → ℕ → ℕ
zero_gap zero a memory = memory
zero_gap (suc left) a memory = zero_gap left (suc a) (update memory a 0)

-- The words of the header.
abbrev pub header : ℕ → ℕ → ℕ → List ℕ
header struct_len strings_len totalsize =
    be32 fdt_magic
    ++ be32 totalsize
    ++ be32 struct_base
    ++ be32 strings_base
    ++ be32 fdt_header_size
    ++ be32 fdt_version
    ++ be32 fdt_last_comp_version
    ++ be32 fdt_hart_base
    ++ be32 strings_len
    ++ be32 struct_len

-- The header, the reserve map and the gap between the blocks.
unfoldable pub write_header : ℕ → ℕ → ℕ → FdtBuilder → FdtBuilder
write_header struct_len strings_len totalsize b =
    let headed = write_bytes b.buf (header struct_len strings_len totalsize) b.memory in
    let reserved = write_bytes (b.buf + fdt_header_size) (be64 0 ++ be64 0) headed in
    record b { memory = zero_gap (strings_base - b.struct_off) (b.buf + b.struct_off) reserved }

unfoldable pub fdt_serialize : FdtBuilder → ℕ × FdtBuilder
fdt_serialize b =
    let c = struct_word fdt_end (struct_align (struct_word fdt_end_node b)) in
    let struct_len = sub32 c.struct_off struct_base in
    let strings_len = sub32 c.strings_off strings_base in
    let totalsize = u32 (strings_base + strings_len) in
    if nonzero b.err || not (b.depth == 0)
    then (0, b)
    else if ltb fdt_max_buf totalsize
    then (0, record c { err = 1 })
    else (totalsize, write_header struct_len strings_len totalsize c)
