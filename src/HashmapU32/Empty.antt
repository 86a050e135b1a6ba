-- ===== src/HashmapU32/Empty.antt =====
-- What `hashmap_clear` of src/hashmap_u32.c leaves.
use riscvemu.Base.{
  ℕ, zero, suc, ◌≡◌, ◌∙◌, inl, inr, refl, sym, false, none, List, [], ◌∷◌, get_or, Option-cases,
  arith,
}
use riscvemu.HashmapU32.{HashmapEntry, Hashmap, empty_entry, hashmap_get, hashmap_clear}
use riscvemu.HashmapU32.Probe.{live}
use riscvemu.HashmapU32.Findable.{hashmap_get_iff}
use riscvemu.HashmapU32.Valid.{count, IsValid, replicate-IsValid}

count_none :
    (es : List HashmapEntry) (i : ℕ) → count live es ≡ 0 → live (get_or es i empty_entry) ≡ false
count_none [] i h = refl
count_none (e ∷ es) zero h = ground arith
count_none (e ∷ es) (suc i) h = count_none es i (omega arith)

-- An empty map holds no key.
pub hashmap_get-empty :
    (map : Hashmap) (k : ℕ) → IsValid map → map.size ≡ 0 → hashmap_get map k ≡ none
unfolding IsValid
hashmap_get-empty map k (len, bound, s, t, findable) e = elim (Option-cases (hashmap_get map k)) [
  | inl f ↦ f
  | inr (v, f) ↦
      let (idx, (l, g), value) = (hashmap_get_iff map k v findable).0 f in
      absurd (ground (arith, l, count_none map.entries idx (sym s ∙ e)))
]

pub hashmap_clear-get :
    (map : Hashmap) (k : ℕ) → IsValid map → hashmap_get (hashmap_clear map) k ≡ none
unfolding hashmap_clear IsValid
hashmap_clear-get map k (len, bound, s, t, findable) =
    hashmap_get-empty (hashmap_clear map) k (replicate-IsValid map.capacity bound) refl
