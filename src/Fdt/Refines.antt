-- ===== src/Fdt/Refines.antt =====
-- The calls of src/device/fdt.c write the tokens that they stand for.
use mathlib.Core.Option.{some-injective}
use riscvemu.Base.{
  ℕ, ◌+◌, ◌-◌, ◌*◌, ◌%◌, ◌<◌, ◌≤◌, ◌≡◌, ◌∙◌, refl, sym, List, [], ◌∷◌, ◌++◌, Option, some, ◌>>=◌,
  bind_some, append_assoc, append-nil, length, u32, false, arith, ltb,
}
use riscvemu.Fdt.{
  FdtBuilder, be32, struct_word, struct_bytes, struct_align, struct_string, prop_begin, write_cells,
  fdt_struct_max, fdt_prop, fdt_begin_node, fdt_end_node, is_empty, fdt_max_cells, fdt_node_push,
  fdt_node_pop, fdt_prop_word, fdt_prop_ncells, fdt_prop_str, fdt_prop_empty, fdt_prop_bytes,
}
use riscvemu.Fdt.Bytes.{length-append}
use riscvemu.Fdt.Tokens.{
  Token, begin_node, end_node, prop, Call, push, pop, str, empty, bytes, cells, word, padding,
  padded, cell_bytes, encode_token, name_of, token, call, step_depth,
}
use riscvemu.Fdt.Filled.{
  IsFilled, strings_max, struct_bytes-IsFilled, struct_word-IsFilled, redepth-IsFilled,
}
use riscvemu.Fdt.Props.{
  value-IsFilled, struct_string-IsFilled, write_cells-IsFilled, prop_begin-IsFilled,
  length-cell_bytes, padded_whole,
}

module _ (m : ℕ → ℕ) (base : ℕ) where
  -- A call that succeeds and leaves the blocks with the bytes of a token more.
  abbrev pub Writes : List ℕ → List ℕ → Token → ℕ → Option FdtBuilder → Type 0
  Writes S T t d result =
      (c : FdtBuilder) × (result ≡ some c)
      × IsFilled m base (S ++ encode_token (length T) t) (T ++ name_of t) d c

  module _ (S T : List ℕ) (d : ℕ) (b : FdtBuilder) (even : length S % 4 ≡ 0)
      (f : IsFilled m base S T d b) where
    prop-Writes :
        (name value : List ℕ) (len : ℕ) (write : FdtBuilder → FdtBuilder)
        → len ≡ length value
        → ((R N : List ℕ) (c : FdtBuilder)
            → length R % 4 ≡ 0
            → length (R ++ padded value) ≤ fdt_struct_max
            → IsFilled m base R N d c
            → IsFilled m base (R ++ padded value) N d (write c))
        → length (S ++ encode_token (length T) (prop name value)) ≤ fdt_struct_max
        → length (T ++ (name ++ 0 ∷ [])) ≤ strings_max
        → Writes S T (prop name value) d (prop_begin name len b >>= λ c. some (write c))
    unfolding encode_token name_of
    prop-Writes name value len write same writes fits fit =
        let head = be32 fdt_prop ++ be32 (length value) ++ be32 (length T) in
        let sum = length-append S (head ++ padded value) in
        let assoc = append_assoc S head (padded value) in
        let (c, e, g) =
          prop_begin-IsFilled m base d S T name (length value) b (omega arith) fit f in
        let whole = length-append S head in
        (
          write c,
          rw (same, e),
          rw (sym assoc)
              (writes (S ++ head) (T ++ (name ++ 0 ∷ [])) c (omega arith) (rw assoc fits) g),
        )

    -- The room that a property takes bounds its value.
    value-fits :
        (name value : List ℕ)
        → length (S ++ encode_token (length T) (prop name value)) ≤ fdt_struct_max
        → length value ≤ fdt_struct_max
    unfolding encode_token
    value-fits name value fits =
        let head = be32 fdt_prop ++ be32 (length value) ++ be32 (length T) in
        let sum = length-append S (head ++ padded value) in
        let whole = length-append head (padded value) in
        let size = length-append value (padding (length value)) in omega arith

    -- A call that opens or closes a node adds no name.
    node-Writes :
        (t : Token) (e k : ℕ) (c : FdtBuilder)
        → name_of t ≡ []
        → k ≡ e
        → IsFilled m base (S ++ encode_token (length T) t) T d c
        → Writes S T t e (some (record c { depth = k }))
    node-Writes t e k c nameless same g =
        let left = redepth-IsFilled m base (S ++ encode_token (length T) t) T d c g e k same in
        (record c { depth = k }, refl, rw (nameless, append-nil T) left)

    push-Writes :
        (name : List ℕ) (e : ℕ)
        → step_depth (push name) d ≡ some e
        → length (S ++ encode_token (length T) (begin_node name)) ≤ fdt_struct_max
        → Writes S T (begin_node name) e (fdt_node_push name b)
    unfolding step_depth fdt_node_push encode_token name_of
    push-Writes [] e h fits = absurd (ground (arith, h))
    push-Writes (x ∷ xs) e h fits =
        let name = x ∷ xs in
        let text = padded (name ++ 0 ∷ []) in
        let assoc = append_assoc S (be32 fdt_begin_node) text in
        let first = length-append S (be32 fdt_begin_node) in
        let sum = length-append S (be32 fdt_begin_node ++ text) in
        let w = struct_word-IsFilled m base S T d b f fdt_begin_node (omega arith) in
        let c = struct_string name (struct_word fdt_begin_node b) in
        let g =
          struct_string-IsFilled m base d (S ++ be32 fdt_begin_node) T name
            (struct_word fdt_begin_node b) (omega arith) (rw assoc fits) w in
        let same : c.depth + 1 ≡ e = omega (arith, some-injective (d + 1) e h, g.at_depth) in
        let done : fdt_node_push name b ≡ some (record c { depth = c.depth + 1 }) = rw f.no_err in
        let (y, p, left) =
          node-Writes (begin_node name) e (c.depth + 1) c refl same (rw (sym assoc) g) in
        (y, done ∙ p, left)

    pop-Writes :
        (e : ℕ)
        → step_depth pop d ≡ some e
        → length (S ++ encode_token (length T) end_node) ≤ fdt_struct_max
        → Writes S T end_node e (fdt_node_pop b)
    unfolding step_depth fdt_node_pop encode_token name_of
    pop-Writes e h fits =
        let g = struct_word-IsFilled m base S T d b f fdt_end_node fits in
        let c = struct_word fdt_end_node b in
        let deep : 0 < d = ground (arith, h) in
        let same : d - 1 ≡ e = ground (arith, h) in
        let below : c.depth - 1 ≡ e = omega (arith, g.at_depth) in
        let done : fdt_node_pop b ≡ some (record c { depth = c.depth - 1 }) =
          ground (arith, f.no_err, f.at_depth) in
        let (x, p, left) = node-Writes end_node e (c.depth - 1) c refl below g in
        (x, done ∙ p, left)

    cells-Writes :
        (name vals : List ℕ) (e : ℕ)
        → step_depth (cells name vals) d ≡ some e
        → length (S ++ encode_token (length T) (prop name (cell_bytes vals))) ≤ fdt_struct_max
        → length (T ++ (name ++ 0 ∷ [])) ≤ strings_max
        → Writes S T (prop name (cell_bytes vals)) e (fdt_prop_ncells name vals b)
    unfolding step_depth fdt_prop_ncells
    cells-Writes name vals e h fits fit =
        let size = length-cell_bytes vals in
        let whole : padded (cell_bytes vals) ≡ cell_bytes vals =
          padded_whole (cell_bytes vals) (omega arith) in
        let (x, p, g) =
          prop-Writes name (cell_bytes vals) (length vals * 4) (write_cells vals) (sym size)
            (λ R N c even fits g.
              rw whole (write_cells-IsFilled m base d R N vals c (rw⁻¹ whole fits) g))
            fits fit in
        let some_cells : is_empty vals ≡ false = ground (arith, h) in
        let few : ltb fdt_max_cells (length vals) ≡ false = ground (arith, h) in
        let same : e ≡ d = ground (arith, h) in rw same (x, rw (some_cells, few) p, g)

    pub call-Writes :
        (c : Call) (e : ℕ)
        → step_depth c d ≡ some e
        → length (S ++ encode_token (length T) (token c)) ≤ fdt_struct_max
        → length (T ++ name_of (token c)) ≤ strings_max
        → Writes S T (token c) e (call c b)
    unfolding call token step_depth fdt_prop_str fdt_prop_empty fdt_prop_bytes fdt_prop_word name_of
    call-Writes (push name) e h fits fit = push-Writes name e h fits
    call-Writes pop e h fits fit = pop-Writes e h fits
    call-Writes (str name s) e h fits fit =
        let value = s ++ 0 ∷ [] in
        let size = length-append s (0 ∷ []) in
        rw (sym (some-injective d e h)) (
          prop-Writes name value (u32 (length s + 1)) (λ c. struct_align (struct_bytes value c))
            (let small = value-fits name value fits in omega arith)
            (λ R N c. value-IsFilled m base d R N value c) fits fit)
    call-Writes (empty name) e h fits fit =
        rw (sym (some-injective d e h), sym (bind_some (prop_begin name 0 b)))
          (prop-Writes name [] 0 (λ c. c) refl (λ R N c even fits g. rw (append-nil R) g) fits fit)
    call-Writes (bytes name value) e h fits fit = rw (sym (some-injective d e h)) (
        prop-Writes name value (u32 (length value)) (λ c. struct_align (struct_bytes value c))
          (let small = value-fits name value fits in omega arith)
          (λ R N c. value-IsFilled m base d R N value c) fits fit)
    call-Writes (cells name vals) e h fits fit = cells-Writes name vals e h fits fit
    call-Writes (word name v0 v1 v2 v3) e h fits fit =
        let vals = v0 ∷ v1 ∷ v2 ∷ v3 ∷ [] in
        rw (sym (some-injective d e h)) (
          prop-Writes name (cell_bytes vals) 16 (struct_bytes (cell_bytes vals)) refl
            (λ R N c even fits g. struct_bytes-IsFilled m base R N d c g (cell_bytes vals) fits)
            fits fit)
