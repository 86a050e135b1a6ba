-- ===== src/Fdt/Reader.antt =====
-- A reader of flattened device trees by the format's definition, which src/device/fdt.c is to satisfy: words
-- are big-endian, names end in NUL, and texts and values fill up whole words.
pub mod Words
pub mod Trees
pub mod Images
use riscvemu.Base.{
  ℕ, zero, suc, ◌+◌, ◌-◌, ◌*◌, ◌%◌, Bool, true, false, ◌&&◌, leb, ◌==◌, if◌then◌else◌, List, [],
  ◌∷◌, ◌++◌, Option, none, some, ◌>>=◌, length,
}
use riscvemu.Fdt.Tokens.{Token, begin_node, end_node, prop}

unfoldable pub read_word : List ℕ → Option (ℕ × List ℕ)
read_word (a ∷ b ∷ c ∷ d ∷ rest) = some (((a * 256 + b) * 256 + c) * 256 + d, rest)
read_word xs = none

-- A text and what follows its NUL.
unfoldable pub read_text : List ℕ → Option (List ℕ × List ℕ)
read_text [] = none
read_text (zero ∷ rest) = some ([], rest)
read_text (suc c ∷ rest) = do (s, after) ← read_text rest; some (suc c ∷ s, after)

abbrev pub take {ℓ} : {A : Type ℓ} → ℕ → List A → List A
take zero xs = []
take (suc n) [] = []
take (suc n) (x ∷ xs) = x ∷ take n xs

abbrev pub drop {ℓ} : {A : Type ℓ} → ℕ → List A → List A
drop zero xs = xs
drop (suc n) [] = []
drop (suc n) (x ∷ xs) = drop n xs

abbrev pub guarded {ℓ} : {A : Type ℓ} → Bool → A → Option A
guarded true a = some a
guarded false a = none

-- The bytes after `n` bytes in whole words.
unfoldable pub skip_words : ℕ → List ℕ → List ℕ
skip_words n xs = drop ((4 - n % 4) % 4) xs

unfoldable pub read_prop : List ℕ → List ℕ → Option (Token × List ℕ)
read_prop strings bytes = do
  (len, bytes) ← read_word bytes
  (nameoff, bytes) ← read_word bytes
  (name, others) ← read_text (drop nameoff strings)
  guarded (leb len (length bytes)) (prop name (take len bytes), skip_words len (drop len bytes))

unfoldable pub read_name : List ℕ → Option (Token × List ℕ)
read_name bytes = do
  (name, bytes) ← read_text bytes
  some (begin_node name, skip_words (length name + 1) bytes)

unfoldable pub read_tagged : ℕ → List ℕ → List ℕ → Option (Token × List ℕ)
read_tagged tag strings bytes =
    if tag == 1
    then read_name bytes
    else if tag == 2
    then some (end_node, bytes)
    else if tag == 3
    then read_prop strings bytes
    else none

unfoldable pub read_token : List ℕ → List ℕ → Option (Token × List ℕ)
read_token strings bytes = do (tag, bytes) ← read_word bytes; read_tagged tag strings bytes

-- The end of the structure block, or more tokens.
abbrev pub end_or : ℕ → Option (List Token) → Option (List Token)
end_or tag more = if tag == 9 then some [] else more

-- The tokens up to the end of the structure block, at most `n` of them.
unfoldable pub read_tokens : ℕ → List ℕ → List ℕ → Option (List Token)
read_tokens zero strings bytes = none
read_tokens (suc n) strings bytes = do
  (tag, after) ← read_word bytes
  end_or tag (read_token strings bytes >>= λ r. read_tokens n strings r.1 >>= λ ts. some (r.0 ∷ ts))

-- The magic number and the size are checked, then the blocks are read where the header says.
unfoldable pub read_tree : List ℕ → Option (List Token)
read_tree bytes = do
  (magic, rest) ← read_word bytes
  (totalsize, rest) ← read_word rest
  (off_struct, rest) ← read_word rest
  (off_strings, rest) ← read_word rest
  (size_strings, rest) ← read_word (drop 16 rest)
  (size_struct, rest) ← read_word rest
  whole ← guarded ((magic == 0xd00dfeed) && (totalsize == length bytes)) bytes
  read_tokens size_struct (take size_strings (drop off_strings bytes))
      (take size_struct (drop off_struct bytes))

-- Whether a text has no NUL, and whether the names of tokens have none.
unfoldable pub is_text : List ℕ → Bool
is_text [] = true
is_text (zero ∷ s) = false
is_text (suc c ∷ s) = is_text s

unfoldable pub is_named : Token → Bool
is_named (begin_node name) = is_text name
is_named end_node = true
is_named (prop name value) = is_text name

unfoldable pub are_named : List Token → Bool
are_named [] = true
are_named (t ∷ ts) = is_named t && are_named ts
