-- ===== src/Fdt/Reader/Trees.antt =====
-- The reader of device trees finds the tokens that were encoded.
use riscvemu.Base.{
  ℕ, zero, suc, ◌+◌, ◌^◌, ◌≤◌, ◌<◌, ◌≡◌, ◌∙◌, refl, sym, ap, true, leb, List, [], ◌∷◌, ◌++◌,
  append_assoc, Option, some, ◌>>=◌, length, arith,
}
use riscvemu.Fdt.{be32, fdt_end_node, fdt_end}
use riscvemu.Fdt.Bytes.{length-append}
use riscvemu.Fdt.Tokens.{
  Token, begin_node, end_node, prop, padding, padded, encode_token, name_of, encode, names,
}
use riscvemu.Fdt.Reader.{
  read_word, drop, read_name, read_prop, read_tagged, read_token, read_tokens, end_or, is_text,
  is_named, are_named,
}
use riscvemu.Fdt.Reader.Words.{
  read_word-be32, read_text-append, take-append, drop-append, skip_words-padding,
}

padded_shape : (xs rest : List ℕ) → padded xs ++ rest ≡ xs ++ (padding (length xs) ++ rest)
padded_shape xs rest = append_assoc xs (padding (length xs)) rest

read_name-encoded :
    (name rest : List ℕ)
    → is_text name ≡ true
    → read_name (padded (name ++ 0 ∷ []) ++ rest) ≡ some (begin_node name, rest)
unfolding read_name
read_name-encoded name rest h =
    let text = name ++ 0 ∷ [] in
    let pad = padding (length text) in
    let shape : padded text ++ rest ≡ name ++ 0 ∷ (pad ++ rest) =
      padded_shape text rest ∙ append_assoc name (0 ∷ []) (pad ++ rest) in
    let size = length-append name (0 ∷ []) in
    rw (
      shape,
      read_text-append name (pad ++ rest) h,
      sym size,
      skip_words-padding (length text) rest,
    )

read_prop-encoded :
    (name value strings more rest : List ℕ) (k : ℕ)
    → is_text name ≡ true
    → drop k strings ≡ name ++ 0 ∷ more
    → k < 2 ^ 32
    → length value < 2 ^ 32
    → read_prop strings (be32 (length value) ++ (be32 k ++ (padded value ++ rest)))
      ≡ some (prop name value, rest)
unfolding read_prop
read_prop-encoded name value strings more rest k h at place small =
    let pad = padding (length value) ++ rest in
    let size = length-append value pad in
    let room : leb (length value) (length (value ++ pad)) ≡ true = ground arith in
    rw (
      read_word-be32 (length value) (be32 k ++ (padded value ++ rest)) small,
      read_word-be32 k (padded value ++ rest) place,
      at,
      read_text-append name more h,
      padded_shape value rest,
      room,
      take-append value pad,
      drop-append value pad,
      skip_words-padding (length value) rest,
    )

pub read_token-encode_token :
    (t : Token) (k : ℕ) (strings more rest : List ℕ)
    → is_named t ≡ true
    → drop k strings ≡ name_of t ++ more
    → k < 2 ^ 32
    → length (encode_token k t) < 2 ^ 32
    → read_token strings (encode_token k t ++ rest) ≡ some (t, rest)
unfolding read_token read_tagged encode_token is_named name_of
read_token-encode_token (begin_node name) k strings more rest h at place small =
    rw (read_word-be32 1 (padded (name ++ 0 ∷ []) ++ rest) (omega arith))
      (read_name-encoded name rest h)
read_token-encode_token end_node k strings more rest h at place small =
    rw (read_word-be32 2 rest (omega arith))
read_token-encode_token (prop name value) k strings more rest h at place small =
    let body = be32 (length value) ++ (be32 k ++ (padded value ++ rest)) in
    let size = length-append value (padding (length value)) in
    let start = at ∙ append_assoc name (0 ∷ []) more in
    rw (read_word-be32 3 body (omega arith))
      (read_prop-encoded name value strings more rest k h start place (omega arith))

-- No token starts like the end of the block.
token-starts :
    (t : Token) (k : ℕ) (rest : List ℕ) (more : Option (List Token))
    → (read_word (encode_token k t ++ rest) >>= λ w. end_or w.0 more) ≡ more
unfolding read_word encode_token
token-starts (begin_node name) k rest more = refl
token-starts end_node k rest more = refl
token-starts (prop name value) k rest more = refl

-- The end of the structure block.
abbrev pub block_end : List ℕ
block_end = be32 fdt_end_node ++ be32 fdt_end

read_tokens-suc :
    (n k : ℕ) (t : Token) (strings rest : List ℕ)
    → read_token strings (encode_token k t ++ rest) ≡ some (t, rest)
    → read_tokens (suc n) strings (encode_token k t ++ rest)
      ≡ (read_tokens n strings rest >>= λ ts. some (t ∷ ts))
unfolding read_tokens
read_tokens-suc n k t strings rest first =
    token-starts t k rest (
      read_token strings (encode_token k t ++ rest) >>= λ r.
      read_tokens n strings r.1 >>= λ ts. some (r.0 ∷ ts))
    ∙ rw first

last :
    (n : ℕ) (strings : List ℕ) → read_tokens (suc (suc n)) strings block_end ≡ some (end_node ∷ [])
unfolding read_tokens read_token read_tagged read_word
last n strings = refl

pub read_tokens-encode :
    (ts : List Token) (k fuel : ℕ) (strings past : List ℕ)
    → are_named ts ≡ true
    → strings ≡ past ++ names ts
    → length past ≡ k
    → length ts + 2 ≤ fuel
    → length strings < 2 ^ 32
    → length (encode k ts) < 2 ^ 32
    → read_tokens fuel strings (encode k ts ++ block_end) ≡ some (ts ++ end_node ∷ [])
unfolding encode names are_named
read_tokens-encode [] k (suc (suc n)) strings past h at place enough small fits = last n strings
read_tokens-encode [] k (suc zero) strings past h at place enough small fits = absurd (omega arith)
read_tokens-encode [] k zero strings past h at place enough small fits = absurd (omega arith)
read_tokens-encode (t ∷ ts) k zero strings past h at place enough small fits = absurd (omega arith)
read_tokens-encode (t ∷ ts) k (suc n) strings past h at place enough small fits =
    let named : is_named t ≡ true = ground (arith, h) in
    let others : are_named ts ≡ true = ground (arith, h) in
    let next = k + length (name_of t) in
    let code = encode_token k t in
    let rest = encode next ts in
    let size = length-append code rest in
    let sum = length-append past (name_of t ++ names ts) in
    let step = length-append past (name_of t) in
    let here : drop k strings ≡ name_of t ++ names ts =
      rw (at, sym place) (drop-append past (name_of t ++ names ts)) in
    let first =
      read_token-encode_token t k strings (names ts) (rest ++ block_end) named here
        (omega (arith, ap length at, sum, place, small)) (omega arith) in
    let later =
      read_tokens-encode ts next n strings (past ++ name_of t) others
        (at ∙ sym (append_assoc past (name_of t) (names ts))) (omega arith) (omega arith) small
        (omega arith) in
    rw (
      append_assoc code rest block_end,
      read_tokens-suc n k t strings (rest ++ block_end) first,
      later,
    )

encode_token-positive : (t : Token) (k : ℕ) → 1 ≤ length (encode_token k t)
unfolding encode_token
encode_token-positive (begin_node name) k = omega arith
encode_token-positive end_node k = omega arith
encode_token-positive (prop name value) k = omega arith

pub length-le-encode : (ts : List Token) (k : ℕ) → length ts ≤ length (encode k ts)
unfolding encode
length-le-encode [] k = omega arith
length-le-encode (t ∷ ts) k =
    let next = k + length (name_of t) in
    let rest = length-le-encode ts next in
    let first = encode_token-positive t k in
    let size = length-append (encode_token k t) (encode next ts) in omega arith
