-- ===== src/Fdt/Runs.antt =====
-- Sequences of calls of src/device/fdt.c write sequences of tokens.
use mathlib.Core.Option.{some-injective}
use riscvemu.Base.{
  ℕ, ◌+◌, ◌-◌, ◌%◌, ◌≤◌, ◌≡◌, refl, sym, ap, List, [], ◌∷◌, ◌++◌, Option, some, append_assoc,
  append-nil, length, length-replicate, >>=-eq-some, arith,
}
use riscvemu.Fdt.{FdtBuilder, be32, fdt_struct_max, fdt_begin_node}
use riscvemu.Fdt.Bytes.{length-append}
use riscvemu.Fdt.Tokens.{
  Token, begin_node, end_node, prop, Call, padding, padded, encode_token, name_of, encode, names,
  token, tokens, run, step_depth, final_depth,
}
use riscvemu.Fdt.Filled.{IsFilled, strings_max}
use riscvemu.Fdt.Refines.{call-Writes}

length-padded : (xs : List ℕ) → length (padded xs) % 4 ≡ 0
length-padded xs =
    let size = length-append xs (padding (length xs)) in
    let pad : length (padding (length xs)) ≡ (4 - length xs % 4) % 4 =
      length-replicate ((4 - length xs % 4) % 4) 0 in
    omega arith

length-encode_token : (k : ℕ) (t : Token) → length (encode_token k t) % 4 ≡ 0
unfolding encode_token
length-encode_token k (begin_node name) =
    let rest = length-padded (name ++ 0 ∷ []) in
    let sum = length-append (be32 fdt_begin_node) (padded (name ++ 0 ∷ [])) in omega arith
length-encode_token k end_node = refl
length-encode_token k (prop name value) = let rest = length-padded value in omega arith

pub length-encode : (k : ℕ) (ts : List Token) → length (encode k ts) % 4 ≡ 0
unfolding encode
length-encode k [] = refl
length-encode k (t ∷ ts) =
    let n = k + length (name_of t) in
    let first = length-encode_token k t in
    let rest = length-encode n ts in
    let sum = length-append (encode_token k t) (encode n ts) in omega arith

final_depth-suc :
    (c : Call) (cs : List Call) (d e : ℕ)
    → final_depth (c ∷ cs) d ≡ some e
    → (k : ℕ) × (step_depth c d ≡ some k) × (final_depth cs k ≡ some e)
unfolding final_depth
final_depth-suc c cs d e h = >>=-eq-some (step_depth c d) (final_depth cs) h

module _ (m : ℕ → ℕ) (base : ℕ) where
  -- Calls that succeed and leave the blocks with the bytes of their tokens more.
  abbrev pub Fills : List ℕ → List ℕ → List Token → ℕ → Option FdtBuilder → Type 0
  Fills S T ts e result =
      (c : FdtBuilder) × (result ≡ some c)
      × IsFilled m base (S ++ encode (length T) ts) (T ++ names ts) e c

  cons-Fills :
      (S T : List ℕ) (t : Token) (ts : List Token) (e : ℕ) (result : Option FdtBuilder)
      → Fills (S ++ encode_token (length T) t) (T ++ name_of t) ts e result
      → Fills S T (t ∷ ts) e result
  unfolding encode names
  cons-Fills S T t ts e result (c, done, g) =
      let code = encode_token (length T) t in
      let place = length-append T (name_of t) in
      let next = encode (length T + length (name_of t)) ts in
      (
        c,
        done,
        rw (sym (append_assoc S code next), sym (append_assoc T (name_of t) (names ts)), sym place)
            g,
      )

  pub run-Fills :
      (cs : List Call) (S T : List ℕ) (d e : ℕ) (b : FdtBuilder)
      → length S % 4 ≡ 0
      → IsFilled m base S T d b
      → final_depth cs d ≡ some e
      → length (S ++ encode (length T) (tokens cs)) ≤ fdt_struct_max
      → length (T ++ names (tokens cs)) ≤ strings_max
      → Fills S T (tokens cs) e (run cs b)
  unfolding run tokens encode names final_depth
  run-Fills [] S T d e b even f h fits fit =
      (b, refl, rw (append-nil S, append-nil T, sym (some-injective d e h)) f)
  run-Fills (c ∷ cs) S T d e b even f h fits fit =
      let t = token c in
      let (k, step, rest) = final_depth-suc c cs d e h in
      let place = length-append T (name_of t) in
      let code = encode_token (length T) t in
      let next = encode (length T + length (name_of t)) (tokens cs) in
      let assoc : S ++ (code ++ next) ≡ S ++ code ++ next = sym (append_assoc S code next) in
      let names_assoc = append_assoc T (name_of t) (names (tokens cs)) in
      let size = length-append (S ++ code) next in
      let size' = length-append (T ++ name_of t) (names (tokens cs)) in
      let aligned = length-encode_token (length T) t in
      let sum = length-append S code in
      let (b', e', g) =
        call-Writes m base S T d b even f c k step (omega (arith, ap length assoc))
          (omega (arith, ap length names_assoc)) in
      let fills =
        run-Fills cs (S ++ code) (T ++ name_of t) k e b' (omega arith) g rest
          (rw (place, sym assoc) fits) (rw names_assoc fit) in
      rw e' (cons-Fills S T t (tokens cs) e (run cs b') fills)
