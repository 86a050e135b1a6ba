-- ===== src/Fdt/Tokens.antt =====
-- What a flattened device tree holds (the specification that src/device/fdt.c writes to): the bytes of a
-- list of tokens and of their names, and the calls of the writer with the token that each stands for.
use riscvemu.Base.{
  ℕ, ◌+◌, ◌-◌, ◌%◌, ltb, ◌==◌, ◌||◌, if◌then◌else◌, List, [], ◌∷◌, ◌++◌, Option, none, some, ◌>>=◌,
  length, replicate,
}
use riscvemu.Fdt.{
  FdtBuilder, be32, struct_base, strings_base, fdt_magic, fdt_version, fdt_last_comp_version,
  fdt_begin_node, fdt_end_node, fdt_prop, fdt_end, fdt_header_size, fdt_struct_max, fdt_max_cells,
  fdt_hart_base, is_empty, fdt_node_push, fdt_node_pop, fdt_prop_word, fdt_prop_ncells,
  fdt_prop_str, fdt_prop_empty, fdt_prop_bytes,
}

pub data Token : Type 0 where
  begin_node : List ℕ → Token
  end_node : Token
  prop : List ℕ → List ℕ → Token

-- The bytes that bring a length to a multiple of 4.
abbrev pub padding : ℕ → List ℕ
padding n = replicate ((4 - n % 4) % 4) 0

abbrev pub padded : List ℕ → List ℕ
padded xs = xs ++ padding (length xs)

-- The bytes of a token whose name stands at `k` in the strings block.
unfoldable pub encode_token : ℕ → Token → List ℕ
encode_token k (begin_node name) = be32 fdt_begin_node ++ padded (name ++ 0 ∷ [])
encode_token k end_node = be32 fdt_end_node
encode_token k (prop name value) = be32 fdt_prop ++ be32 (length value) ++ be32 k ++ padded value

unfoldable pub name_of : Token → List ℕ
name_of (begin_node name) = []
name_of end_node = []
name_of (prop name value) = name ++ 0 ∷ []

unfoldable pub encode : ℕ → List Token → List ℕ
encode k [] = []
encode k (t ∷ ts) = encode_token k t ++ encode (k + length (name_of t)) ts

unfoldable pub names : List Token → List ℕ
names [] = []
names (t ∷ ts) = name_of t ++ names ts

-- The structure block: the root, which has no name, around the tokens.
unfoldable pub structure : List Token → List ℕ
structure ts =
    be32 fdt_begin_node ++ padded (0 ∷ []) ++ encode 0 ts ++ be32 fdt_end_node ++ be32 fdt_end

-- A whole tree from its structure block and its names: the header, an empty reserve map, the structure
-- block in its window and the names.
unfoldable pub assemble : List ℕ → List ℕ → List ℕ
assemble S T =
    (be32 fdt_magic
      ++ be32 (strings_base + length T)
      ++ be32 struct_base
      ++ be32 strings_base
      ++ be32 fdt_header_size
      ++ be32 fdt_version
      ++ be32 fdt_last_comp_version
      ++ be32 fdt_hart_base
      ++ be32 (length T)
      ++ be32 (length S))
    ++ (replicate 16 0 ++ (S ++ (replicate (fdt_struct_max - length S) 0 ++ T)))

unfoldable pub image : List Token → List ℕ
image ts = assemble (structure ts) (names ts)

pub data Call : Type 0 where
  push : List ℕ → Call
  pop : Call
  str : List ℕ → List ℕ → Call
  empty : List ℕ → Call
  bytes : List ℕ → List ℕ → Call
  cells : List ℕ → List ℕ → Call
  word : List ℕ → ℕ → ℕ → ℕ → ℕ → Call

abbrev pub cell_bytes : List ℕ → List ℕ
cell_bytes [] = []
cell_bytes (v ∷ vals) = be32 v ++ cell_bytes vals

unfoldable pub token : Call → Token
token (push name) = begin_node name
token pop = end_node
token (str name s) = prop name (s ++ 0 ∷ [])
token (empty name) = prop name []
token (bytes name value) = prop name value
token (cells name vals) = prop name (cell_bytes vals)
token (word name v0 v1 v2 v3) = prop name (cell_bytes (v0 ∷ v1 ∷ v2 ∷ v3 ∷ []))

unfoldable pub tokens : List Call → List Token
tokens [] = []
tokens (c ∷ cs) = token c ∷ tokens cs

unfoldable pub call : Call → FdtBuilder → Option FdtBuilder
call (push name) b = fdt_node_push name b
call pop b = fdt_node_pop b
call (str name s) b = fdt_prop_str name s b
call (empty name) b = fdt_prop_empty name b
call (bytes name value) b = fdt_prop_bytes name value b
call (cells name vals) b = fdt_prop_ncells name vals b
call (word name v0 v1 v2 v3) b = fdt_prop_word name v0 v1 v2 v3 b

unfoldable pub run : List Call → FdtBuilder → Option FdtBuilder
run [] b = some b
run (c ∷ cs) b = do d ← call c b; run cs d

-- The number of open nodes after a call, if it is one that the writer accepts.
unfoldable pub step_depth : Call → ℕ → Option ℕ
step_depth (push name) d = if is_empty name then none else some (d + 1)
step_depth pop d = if d == 0 then none else some (d - 1)
step_depth (cells name vals) d =
    if is_empty vals || ltb fdt_max_cells (length vals) then none else some d
step_depth (str name s) d = some d
step_depth (empty name) d = some d
step_depth (bytes name value) d = some d
step_depth (word name v0 v1 v2 v3) d = some d

unfoldable pub final_depth : List Call → ℕ → Option ℕ
final_depth [] d = some d
final_depth (c ∷ cs) d = do e ← step_depth c d; final_depth cs e
