-- ===== src/Tests/Tree.antt =====
-- Examples of device trees.
use riscvemu.Base.{none, ◌≤◌, ℕ, ◌≡◌, refl, some, List, [], ◌∷◌, codes, arith}
use riscvemu.Memory.{mem_size}
use riscvemu.Fdt.{FdtBuilder, fdt_builder_init}
use riscvemu.Fdt.Serialize.{fdt_serialize}
use riscvemu.Fdt.Tokens.{
  Call, push, pop, str, cells, token, tokens, run, step_depth, final_depth, structure, names,
  name_of, encode, encode_token,
}
use riscvemu.Fdt.Reader.{is_text, is_named, are_named}
use riscvemu.Fdt.Reader.Images.{IsReadable, fdt_serialize-IsReadable}
use riscvemu.Fdt.Tree.{fresh_builder, fdt_build_riscvemu}
use riscvemu.Fdt.Calls.{machine_calls}
use riscvemu.Fdt.Build.{fdt_build_riscvemu-IsReadable}

abbrev small_tree : List Call
small_tree =
    push (codes "memory@80000000")
    ∷ str (codes "device_type") (codes "memory")
    ∷ cells (codes "reg") (0 ∷ 0x80000000 ∷ [])
    ∷ pop
    ∷ []

abbrev blank : ℕ → ℕ
blank j = 0

fdt_serialize-IsReadable_example :
    (d : FdtBuilder) × (run small_tree (fdt_builder_init (fresh_builder 0x87f00000 blank)) ≡ some d)
    × IsReadable (tokens small_tree) (fresh_builder 0x87f00000 blank) (fdt_serialize d)
unfolding final_depth step_depth tokens token are_named is_named is_text structure names name_of
    encode encode_token
fdt_serialize-IsReadable_example =
    fdt_serialize-IsReadable small_tree (fresh_builder 0x87f00000 blank) refl refl (omega arith)
      (omega arith)

fdt_build_riscvemu-IsReadable_example :
    (fdt_build_riscvemu 0x87f00000 0 0 none ≡ none)
    × (r : ℕ × FdtBuilder) × (fdt_build_riscvemu 0x87f00000 0 0 (some blank) ≡ some r)
    × IsReadable (tokens (machine_calls 0 0)) (fresh_builder 0x87f00000 blank) r
    × ((j : ℕ) → mem_size ≤ j → r.1.memory j ≡ blank j)
fdt_build_riscvemu-IsReadable_example =
    fdt_build_riscvemu-IsReadable 0x87f00000 0 0 blank (omega arith)
