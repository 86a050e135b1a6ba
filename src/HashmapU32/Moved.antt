-- ===== src/HashmapU32/Moved.antt =====
-- The loop of `rehash` (src/hashmap_u32.c) moves the live entries of a table to a new one.
use riscvemu.Base.{
  ℕ, zero, suc, ◌+◌, ◌*◌, ◌<◌, ◌≡◌, ◌≢◌, ◌⊎◌, ◌∙◌, inl, inr, refl, sym, ap, Bool, true, false,
  Option, none, some, List, [], ◌∷◌, get_or, Bool-cases, arith,
}
use riscvemu.HashmapU32.{
  HashmapEntry, Hashmap, empty_entry, entry_at, is_loaded, put_at, probe, reinsert, hashmap_get,
}
use riscvemu.HashmapU32.Probe.{live}
use riscvemu.HashmapU32.Assoc.{assoc, IsDistinct}
use riscvemu.HashmapU32.Valid.{count, is_deleted, IsValid, IsChanged, put_at-absent}

undeleted :
    (es : List HashmapEntry) (i : ℕ)
    → count is_deleted es ≡ 0
    → (get_or es i empty_entry).deleted ≡ false
undeleted [] i h = refl
undeleted (e ∷ es) zero h = ground (arith, h)
undeleted (e ∷ es) (suc i) h = undeleted es i (ground (arith, h))

-- A round of `reinsert` for a live entry.
abbrev moved : HashmapEntry → Hashmap → Hashmap
moved e t = put_at e.key e.value false (probe t e.key).1 t

reinsert-suc :
    (e : HashmapEntry) (old : List HashmapEntry) (t : Hashmap)
    → live e ≡ true
    → (entry_at t (probe t e.key).1).deleted ≡ false
    → reinsert (e ∷ old) t ≡ reinsert old (moved e t)
unfolding reinsert put_at
reinsert-suc e old t l kept = rw (l, kept)

-- A table that no entry was removed from, with room for more.
abbrev pub HasRoom : ℕ → Hashmap → Type 0
HasRoom n t = IsValid t × (t.tombstone_count ≡ 0) × (4 * (t.size + n) < 3 * t.capacity)

fresh-undeleted :
    (t : Hashmap) (i : ℕ) → IsValid t → t.tombstone_count ≡ 0 → (entry_at t i).deleted ≡ false
unfolding IsValid
fresh-undeleted t i (len, bound, size, tombs, findable) fresh =
    undeleted t.entries i (sym tombs ∙ fresh)

absent-probe : (t : Hashmap) (k : ℕ) → hashmap_get t k ≡ none → probe t k ≡ (false, (probe t k).1)
unfolding hashmap_get
absent-probe t k h = elim (Bool-cases (probe t k).0) [
  | inl e ↦ absurd (ground (arith, e, h))
  | inr e ↦ ap (λ (b : Bool). (b, (probe t k).1)) e
]

moved-counts :
    (e : HashmapEntry) (t : Hashmap)
    → (entry_at t (probe t e.key).1).deleted ≡ false
    → ((moved e t).size ≡ t.size + 1)
      × ((moved e t).tombstone_count ≡ t.tombstone_count)
      × ((moved e t).capacity ≡ t.capacity)
unfolding put_at
moved-counts e t kept = (refl, rw kept refl, refl)

moved-IsChanged :
    (e : HashmapEntry) (n : ℕ) (t : Hashmap)
    → HasRoom (suc n) t
    → hashmap_get t e.key ≡ none
    → HasRoom n (moved e t)
      × ((moved e t).capacity ≡ t.capacity)
      × IsChanged e.key (some e.value) t (moved e t)
unfolding IsChanged
moved-IsChanged e n t (valid, fresh, room) absent =
    let x = (probe t e.key).1 in
    let unloaded : is_loaded t ≡ false = ground (arith, fresh, room) in
    let (size, tombs, capacity) = moved-counts e t (fresh-undeleted t x valid fresh) in
    let (valid', found, others) =
      put_at-absent t e.key e.value x valid (omega (arith, room)) unloaded
        (absent-probe t e.key absent) in
    (
      (valid', tombs ∙ fresh, omega (arith, size, capacity, room)),
      capacity,
      (valid', found, others),
    )

abbrev pub or_else : Option ℕ → Option ℕ → Option ℕ
or_else none o = o
or_else (some v) o = some v

-- The old entries are in the new table, beside what it held.
abbrev pub IsCopied : List HashmapEntry → Hashmap → Hashmap → Type 0
IsCopied old t r =
    HasRoom 0 r
    × (r.capacity ≡ t.capacity)
    × ((k : ℕ) → hashmap_get r k ≡ or_else (assoc old k) (hashmap_get t k))

module _ (e : HashmapEntry) (old : List HashmapEntry) where
  assoc-here : live e ≡ true → assoc (e ∷ old) e.key ≡ some e.value
  unfolding assoc
  assoc-here l = ground (arith, l)

  assoc-other : (k : ℕ) → k ≢ e.key → assoc (e ∷ old) k ≡ assoc old k
  unfolding assoc
  assoc-other k ne = ground (arith, ne)

  assoc-dead : (k : ℕ) → live e ≡ false → assoc (e ∷ old) k ≡ assoc old k
  unfolding assoc
  assoc-dead k l = rw l

-- After a live entry has moved, what is left to move stands beside the new table.
module _ (e : HashmapEntry) (old : List HashmapEntry) (t r : Hashmap) (l : live e ≡ true)
    (once : assoc old e.key ≡ none) (found : hashmap_get r e.key ≡ some e.value)
    (others : (k : ℕ) → k ≢ e.key → hashmap_get r k ≡ hashmap_get t k) where
  moved-apart :
      ((k : ℕ) → (hashmap_get t k ≡ none) ⊎ (assoc (e ∷ old) k ≡ none))
      → (k : ℕ) → (hashmap_get r k ≡ none) ⊎ (assoc old k ≡ none)
  moved-apart apart k =
      let split : (k ≡ e.key) ⊎ (k ≢ e.key) = ground arith in
      elim split [
        | inl here ↦ inr (ap (assoc old) here ∙ once)
        | inr other ↦ elim (apart k) [
          | inl h ↦ inl (others k other ∙ h)
          | inr h ↦ inr (sym (assoc-other e old k other) ∙ h)
        ]
      ]

  moved-get :
      (k : ℕ)
      → or_else (assoc old k) (hashmap_get r k) ≡ or_else (assoc (e ∷ old) k) (hashmap_get t k)
  moved-get k =
      let split : (k ≡ e.key) ⊎ (k ≢ e.key) = ground arith in
      elim split [
        | inl here ↦ rw (here, once, found, assoc-here e old l)
        | inr other ↦ rw (others k other, assoc-other e old k other)
      ]

reinsert-dead :
    (e : HashmapEntry) (old : List HashmapEntry) (t : Hashmap)
    → live e ≡ false
    → reinsert (e ∷ old) t ≡ reinsert old t
unfolding reinsert
reinsert-dead e old t l = rw l

pub reinsert-IsCopied :
    (old : List HashmapEntry) (t : Hashmap)
    → HasRoom (count live old) t
    → IsDistinct old
    → ((k : ℕ) → (hashmap_get t k ≡ none) ⊎ (assoc old k ≡ none))
    → IsCopied old t (reinsert old t)
unfolding IsDistinct IsChanged
reinsert-IsCopied [] t room distinct apart =
    (unfold reinsert in room, unfold reinsert in refl, λ k. unfold reinsert assoc in refl)
reinsert-IsCopied (e ∷ old) t (valid, fresh, room) (once, distinct) apart =
    elim (Bool-cases (live e)) [
      | inl l ↦
          let absent : hashmap_get t e.key ≡ none = elim (apart e.key) [
            | inl h ↦ h
            | inr h ↦ absurd (ground (arith, sym (assoc-here e old l) ∙ h))
          ] in
          let kept = fresh-undeleted t (probe t e.key).1 valid fresh in
          let (room', capacity, (valid', found, others)) =
            moved-IsChanged e (count live old) t (valid, fresh, ground (arith, l, room)) absent in
          let (last, same, gets) =
            reinsert-IsCopied old (moved e t) room' distinct
              (moved-apart e old t (moved e t) l (once l) found others apart) in
          rw (reinsert-suc e old t l kept) (
            last,
            same ∙ capacity,
            λ k. gets k ∙ moved-get e old t (moved e t) l (once l) found others k,
          )
      | inr l ↦
          let (last, same, gets) =
            reinsert-IsCopied old t (valid, fresh, ground (arith, l, room)) distinct
              (λ k. rw⁻¹ (assoc-dead e old k l) (apart k)) in
          rw (reinsert-dead e old t l) (last, same, λ k. rw (assoc-dead e old k l) (gets k))
    ]
