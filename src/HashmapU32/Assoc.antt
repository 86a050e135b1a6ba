-- ===== src/HashmapU32/Assoc.antt =====
-- The table of src/hashmap_u32.c as an association list of its live entries.
use riscvemu.Base.{
  ℕ, zero, suc, ◌≡◌, ◌∙◌, inl, inr, refl, ap, true, ◌&&◌, ◌==◌, if◌then◌else◌, Option, none, some,
  List, [], ◌∷◌, get_or, Bool-cases, Option-cases, arith,
}
use riscvemu.HashmapU32.{HashmapEntry, Hashmap, empty_entry, hashmap_get}
use riscvemu.HashmapU32.Probe.{live, Holds}
use riscvemu.HashmapU32.Findable.{IsFindable, Holds-once, hashmap_get_iff, option_ext}

-- The value of the first live entry with a key.
unfoldable pub assoc : List HashmapEntry → ℕ → Option ℕ
assoc [] k = none
assoc (e ∷ es) k = if live e && (e.key == k) then some e.value else assoc es k

-- No key is in two live entries.
unfoldable pub IsDistinct : List HashmapEntry → Type 0
IsDistinct [] = Unit
IsDistinct (e ∷ es) = (live e ≡ true → assoc es e.key ≡ none) × IsDistinct es

abbrev IsUnique : List HashmapEntry → Type 0
IsUnique es =
    (k i j : ℕ) → Holds k (get_or es i empty_entry) → Holds k (get_or es j empty_entry) → i ≡ j

tail-IsUnique : (e : HashmapEntry) (es : List HashmapEntry) → IsUnique (e ∷ es) → IsUnique es
tail-IsUnique e es unique k i j h l =
    let same : suc i ≡ suc j = unique k (suc i) (suc j) h l in omega arith

assoc-some :
    (es : List HashmapEntry) (k v : ℕ)
    → assoc es k ≡ some v
    → (i : ℕ) × Holds k (get_or es i empty_entry) × ((get_or es i empty_entry).value ≡ v)
unfolding assoc
assoc-some [] k v h = absurd (ground (arith, h))
assoc-some (e ∷ es) k v h = elim (Bool-cases (live e && (e.key == k))) [
  | inl here ↦ (0, ground (arith, here), ground (arith, here, h))
  | inr other ↦
      let (i, holds, value) = assoc-some es k v (ground (arith, other, h)) in (suc i, holds, value)
]

Holds-assoc :
    (es : List HashmapEntry) (k i : ℕ)
    → IsUnique es
    → Holds k (get_or es i empty_entry)
    → assoc es k ≡ some (get_or es i empty_entry).value
unfolding assoc
Holds-assoc [] k i unique h = absurd (ground (arith, h))
Holds-assoc (e ∷ es) k zero unique h = ground (arith, h)
Holds-assoc (e ∷ es) k (suc i) unique h = elim (Bool-cases (live e && (e.key == k))) [
  | inl here ↦
      let same : 0 ≡ suc i = unique k 0 (suc i) (ground (arith, here)) h in absurd (omega arith)
  | inr other ↦ rw other (Holds-assoc es k i (tail-IsUnique e es unique) h)
]

IsUnique-IsDistinct : (es : List HashmapEntry) → IsUnique es → IsDistinct es
unfolding IsDistinct
IsUnique-IsDistinct [] unique = tt
IsUnique-IsDistinct (e ∷ es) unique = (
  λ l. elim (Option-cases (assoc es e.key)) [
    | inl nothing ↦ nothing
    | inr (v, h) ↦
        let (i, holds, value) = assoc-some es e.key v h in
        let same : 0 ≡ suc i = unique e.key 0 (suc i) (l, refl) holds in absurd (omega arith)
  ],
  IsUnique-IsDistinct es (tail-IsUnique e es unique),
)

module _ (map : Hashmap) (findable : IsFindable map) where
  entries-IsUnique : IsUnique map.entries
  entries-IsUnique k i j h l = Holds-once map k i j findable h l

  pub entries-IsDistinct : IsDistinct map.entries
  entries-IsDistinct = IsUnique-IsDistinct map.entries entries-IsUnique

  pub hashmap_get-assoc : (k : ℕ) → hashmap_get map k ≡ assoc map.entries k
  hashmap_get-assoc k = option_ext (hashmap_get map k) (assoc map.entries k) λ v.
      let (to, from) = hashmap_get_iff map k v findable in
      (
        λ h.
            let (i, holds, value) = to h in
            Holds-assoc map.entries k i entries-IsUnique holds ∙ ap some value,
        λ h. from (assoc-some map.entries k v h),
      )
