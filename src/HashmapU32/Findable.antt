-- ===== src/HashmapU32/Findable.antt =====
-- Every live entry of the table of src/hashmap_u32.c is the one that a probe for its key finds, and
-- stays so when one entry changes the way `hashmap_put` and `hashmap_remove` change it.
use mathlib.Core.Path.{subst}
use riscvemu.Base.{
  ℕ, ◌%◌, ◌≡◌, ◌≢◌, ◌↔◌, ◌⊎◌, ◌∙◌, inl, inr, refl, sym, ap, Bool, true, false, Option, none, some,
  List, get_or, Bool-cases, arith,
}
use riscvemu.HashmapU32.{
  HashmapEntry, Hashmap, empty_entry, entry_at, hash_uint32, probe, hashmap_get,
}
use riscvemu.HashmapU32.Probe.{
  live, Holds, IsAlike, probe_found-Holds, probe_found-kept, has_free, probe_absent, probe_written,
}

unfoldable pub IsFindable : Hashmap → Type 0
IsFindable map =
    (idx : ℕ) → live (entry_at map idx) ≡ true → probe map (entry_at map idx).key ≡ (true, idx)

pub probe-Holds : (map : Hashmap) (k x : ℕ) → probe map k ≡ (true, x) → Holds k (entry_at map x)
unfolding probe
probe-Holds map k x h = probe_found-Holds map k _ map.capacity 0 x none h

pub Holds-probe :
    (map : Hashmap) (k x : ℕ) → IsFindable map → Holds k (entry_at map x) → probe map k ≡ (true, x)
unfolding IsFindable
Holds-probe map k x findable (l, e) = ap (probe map) (sym e) ∙ findable x l

-- A key is in the table once.
pub Holds-once :
    (map : Hashmap) (k x y : ℕ)
    → IsFindable map
    → Holds k (entry_at map x)
    → Holds k (entry_at map y)
    → x ≡ y
Holds-once map k x y findable h l =
    ap (λ (r : Bool × ℕ). r.1)
      (sym (Holds-probe map k x findable h) ∙ Holds-probe map k y findable l)

-- A lookup finds what the entries hold.
pub hashmap_get_iff :
    (map : Hashmap) (k v : ℕ)
    → IsFindable map
    → (hashmap_get map k ≡ some v)
      ↔ ((idx : ℕ) × Holds k (entry_at map idx) × ((entry_at map idx).value ≡ v))
unfolding hashmap_get
hashmap_get_iff map k v findable = (
  λ h.
      let (found, x) = probe map k in
      elim (Bool-cases found) [
        | inl e ↦ (x, probe-Holds map k x (ap (λ (b : Bool). (b, x)) e), ground (arith, e, h))
        | inr e ↦ absurd (ground (arith, e, h))
      ],
  λ (x, holds, value). rw (Holds-probe map k x findable holds) (ap some value),
)

module _ (a : Hashmap) (entries : List HashmapEntry) (size tombstone_count x : ℕ)
    (others : (idx : ℕ) → idx ≢ x → get_or entries idx empty_entry ≡ entry_at a idx)
    (findable : IsFindable a) where
  abbrev changed : Hashmap
  changed = record {
    entries = entries;
    capacity = a.capacity;
    size = size;
    tombstone_count = tombstone_count;
  }

  -- An entry stays findable, when the probes for its key find the entry `x` as before or go on past it.
  entry-findable :
      (idx : ℕ)
      → (entry_at changed idx).key ≡ (entry_at a idx).key
      → live (entry_at a idx) ≡ true
      → IsAlike (entry_at a idx).key (entry_at a x) (entry_at changed x)
      → probe changed (entry_at changed idx).key ≡ (true, idx)
  unfolding probe IsFindable
  entry-findable idx key l alike =
      let k = (entry_at a idx).key in
      let all : (j : ℕ) → IsAlike k (entry_at a j) (entry_at changed j) = λ j.
        let split : (j ≡ x) ⊎ (j ≢ x) = ground arith in
        elim split [
          | inl same ↦ rw same alike
          | inr other ↦
              let e : entry_at a j ≡ entry_at changed j = sym (others j other) in
              inl (
                ap (λ (t : HashmapEntry). t.occupied) e,
                ap (λ (t : HashmapEntry). t.deleted) e,
                ap (λ (t : HashmapEntry). t.key) e,
              )
        ] in
      rw key (
        probe_found-kept a changed refl k (hash_uint32 k % a.capacity) idx all a.capacity 0 none
          none (findable idx l))

  -- A key that was not there, written where its probe ended.
  pub write-IsFindable :
      (k : ℕ)
      → has_free a (hash_uint32 k % a.capacity) a.capacity 0 ≡ true
      → probe a k ≡ (false, x)
      → Holds k (entry_at changed x)
      → IsFindable changed
  unfolding IsFindable probe
  write-IsFindable k free absent (l, e) idx h =
      let split : (idx ≡ x) ⊎ (idx ≢ x) = ground arith in
      elim split [
        | inl here ↦
            rw here (
              rw e (probe_written a changed refl k _ x others (l, e) a.capacity 0 none free absent))
        | inr other ↦
            let same = others idx other in
            let alive : live (entry_at a idx) ≡ true = sym (ap live same) ∙ h in
            let new : (entry_at a idx).key ≢ k = λ f.
              absurd (ground (arith, sym absent ∙ ap (probe a) (sym f) ∙ findable idx alive)) in
            entry-findable idx (ap (λ (t : HashmapEntry). t.key) (others idx other)) alive (
              inr (
                (ground (arith, l), inr (λ f. new (sym f ∙ e))),
                λ (m, g). absurd (ground (arith, m, probe_absent a k _ x a.capacity 0 free absent)),
              ))
      ]

  pub remove-IsFindable :
      (k : ℕ)
      → probe a k ≡ (true, x)
      → (entry_at changed x).occupied ≡ true
      → (entry_at changed x).deleted ≡ true
      → IsFindable changed
  unfolding IsFindable
  remove-IsFindable k present o d idx h =
      let split : (idx ≡ x) ⊎ (idx ≢ x) = ground arith in
      elim split [
        | inl here ↦ absurd (
            let f = sym (ap (λ (t : ℕ). live (entry_at changed t)) here) ∙ h in
            ground (arith, f, d))
        | inr other ↦
            let same = others idx other in
            let alive : live (entry_at a idx) ≡ true = sym (ap live same) ∙ h in
            entry-findable idx (ap (λ (t : HashmapEntry). t.key) (others idx other)) alive
              (inr ((o, inl d), λ holds. other (Holds-once a _ idx x findable (alive, refl) holds)))
      ]

  pub update-IsFindable :
      (k : ℕ)
      → probe a k ≡ (true, x)
      → (entry_at a x).occupied ≡ (entry_at changed x).occupied
      → (entry_at a x).deleted ≡ (entry_at changed x).deleted
      → (entry_at a x).key ≡ (entry_at changed x).key
      → IsFindable changed
  unfolding IsFindable
  update-IsFindable k present o d e idx h =
      let split : (idx ≡ x) ⊎ (idx ≢ x) = ground arith in
      elim split [
        | inl here ↦
            rw here (entry-findable x (sym e) (probe-Holds a k x present).0 (inl (o, d, e)))
        | inr other ↦
            let alive : live (entry_at a idx) ≡ true = sym (ap live (others idx other)) ∙ h in
            entry-findable idx (ap (λ (t : HashmapEntry). t.key) (others idx other)) alive
              (inl (o, d, e))
      ]

pub option_ext : (o p : Option ℕ) → ((v : ℕ) → (o ≡ some v) ↔ (p ≡ some v)) → o ≡ p
option_ext none none h = refl
option_ext none (some v) h = (h v).1 refl
option_ext (some v) p h = sym ((h v).0 refl)

-- A key that the entry `x` holds neither before nor after is looked up as before.
pub hashmap_get-others :
    (a b : Hashmap) (k x : ℕ)
    → ((idx : ℕ) → idx ≢ x → entry_at b idx ≡ entry_at a idx)
    → IsFindable a
    → IsFindable b
    → ¬ Holds k (entry_at a x)
    → ¬ Holds k (entry_at b x)
    → hashmap_get b k ≡ hashmap_get a k
hashmap_get-others a b k x others f g na nb = option_ext _ _ (λ v.
    let (to, from) = hashmap_get_iff a k v f in
    let (to', from') = hashmap_get_iff b k v g in
    (
      λ h.
          let (idx, holds, value) = to' h in
          let other : idx ≢ x = λ e. nb (subst (λ (t : ℕ). Holds k (entry_at b t)) e holds) in
          let e = others idx other in
          from (idx, subst (Holds k) e holds, sym (ap (λ (t : HashmapEntry). t.value) e) ∙ value),
      λ h.
          let (idx, holds, value) = to h in
          let other : idx ≢ x = λ e. na (subst (λ (t : ℕ). Holds k (entry_at a t)) e holds) in
          let e = others idx other in
          from' (idx, subst (Holds k) (sym e) holds, ap (λ (t : HashmapEntry). t.value) e ∙ value),
    ))
