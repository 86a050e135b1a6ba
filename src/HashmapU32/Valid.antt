-- ===== src/HashmapU32/Valid.antt =====
-- The hash map of src/hashmap_u32.c as a map from keys to values: what `hashmap_put` and
-- `hashmap_remove` change, while the table does not grow.
use riscvemu.Base.{
  ℕ, zero, suc, ◌+◌, ◌*◌, ◌^◌, ◌%◌, ◌<◌, ◌≤◌, ◌≡◌, ◌≢◌, ◌∙◌, inl, inr, refl, sym, ap, Bool, true,
  false, if◌then◌else◌, Option, none, some, List, [], ◌∷◌, length, get_or, set, length-set,
  replicate, length-replicate, get_or-replicate, get_or-set_self, get_or-set_ne, Bool-cases, sub64,
  arith,
}
use native.Mathlib.Nat.{mod-lt}
use mathlib.Core.Path.{subst}
use riscvemu.HashmapU32.{
  HashmapEntry, Hashmap, empty_entry, entry_at, hash_uint32, is_loaded, put_at, probe, hashmap_put,
  hashmap_get,
}
use riscvemu.HashmapU32.Probe.{
  live, Holds, has_free, probe_absent, probe-lt, has_free_of_entry, slot_reaches,
}
use riscvemu.HashmapU32.Findable.{
  IsFindable, probe-Holds, hashmap_get_iff, write-IsFindable, update-IsFindable, hashmap_get-others,
}

abbrev pub count : (HashmapEntry → Bool) → List HashmapEntry → ℕ
count f [] = 0
count f (e ∷ es) = (if f e then 1 else 0) + count f es

abbrev pub is_deleted : HashmapEntry → Bool
is_deleted e = e.deleted

count-set :
    (f : HashmapEntry → Bool) (es : List HashmapEntry) (i : ℕ) (v : HashmapEntry)
    → i < length es
    → count f (set es i v) + (if f (get_or es i empty_entry) then 1 else 0)
      ≡ count f es + (if f v then 1 else 0)
count-set f [] i v h = absurd (omega arith)
count-set f (e ∷ es) zero v h = omega arith
count-set f (e ∷ es) (suc i) v h = omega (arith, count-set f es i v (omega arith))

pub count-le : (f : HashmapEntry → Bool) (es : List HashmapEntry) → count f es ≤ length es
count-le f [] = omega arith
count-le f (e ∷ es) = ground (arith, count-le f es)

-- An entry that was never used, in a table with fewer live and deleted ones than slots.
unused_entry :
    (es : List HashmapEntry)
    → count live es + count is_deleted es < length es
    → (j : ℕ) × (j < length es) × ((get_or es j empty_entry).occupied ≡ false)
unused_entry [] h = absurd (omega arith)
unused_entry (e ∷ es) h = elim (Bool-cases e.occupied) [
  | inr free ↦ (0, omega arith, free)
  | inl used ↦ let (j, l, f) = unused_entry es (ground arith) in (suc j, omega arith, f)
]

-- The counts are those of the table, and probes find what it holds.
unfoldable pub IsValid : Hashmap → Type 0
IsValid map =
    (length map.entries ≡ map.capacity)
    × (map.capacity < 2 ^ 64)
    × (map.size ≡ count live map.entries)
    × (map.tombstone_count ≡ count is_deleted map.entries)
    × IsFindable map

unloaded-has_free :
    (map : Hashmap) (index : ℕ)
    → IsValid map
    → 0 < map.capacity
    → is_loaded map ≡ false
    → index < map.capacity
    → has_free map index map.capacity 0 ≡ true
unfolding IsValid
unloaded-has_free map index (len, bound, s, t, findable) positive unloaded h =
    let room : 4 * (map.size + map.tombstone_count) < 3 * map.capacity = ground arith in
    let (j, l, free) = unused_entry map.entries (omega arith) in
    let (i, m, e) = slot_reaches map index j h (omega arith) in
    has_free_of_entry map index map.capacity 0 i (omega arith) (omega arith) (rw e free)

-- One entry of a valid table changes.
module _ (map : Hashmap) (x : ℕ) (v : HashmapEntry) (len : length map.entries ≡ map.capacity)
    (inside : x < map.capacity) where
  pub set_here : get_or (set map.entries x v) x empty_entry ≡ v
  set_here = get_or-set_self map.entries x v empty_entry (omega arith)

  pub set_others :
      (idx : ℕ) → idx ≢ x → get_or (set map.entries x v) idx empty_entry ≡ entry_at map idx
  set_others idx ne = get_or-set_ne map.entries x idx v empty_entry (λ e. ne (sym e))

  pub same_extent : length (set map.entries x v) ≡ map.capacity
  same_extent = length-set map.entries x v ∙ len

  pub live_total :
      count live (set map.entries x v) + (if live (entry_at map x) then 1 else 0)
      ≡ count live map.entries + (if live v then 1 else 0)
  live_total = count-set live map.entries x v (omega arith)

  pub deleted_total :
      count is_deleted (set map.entries x v) + (if (entry_at map x).deleted then 1 else 0)
      ≡ count is_deleted map.entries + (if v.deleted then 1 else 0)
  deleted_total = count-set is_deleted map.entries x v (omega arith)

-- What a map `t` is, after `key` was given `value` or taken out of `map`.
unfoldable pub IsChanged : ℕ → Option ℕ → Hashmap → Hashmap → Type 0
IsChanged key value map t =
    IsValid t
    × (hashmap_get t key ≡ value)
    × ((other : ℕ) → other ≢ key → hashmap_get t other ≡ hashmap_get map other)

pub probe-inside :
    (map : Hashmap) (key x : ℕ) (r : Bool)
    → 0 < map.capacity
    → probe map key ≡ (r, x)
    → x < map.capacity
unfolding probe
probe-inside map key x r positive h = probe-lt map key _ x map.capacity 0 none r positive h

put_at-present :
    (map : Hashmap) (key value x : ℕ)
    → IsValid map
    → 0 < map.capacity
    → probe map key ≡ (true, x)
    → IsChanged key (some value) map (put_at key value true x map)
unfolding put_at IsChanged IsValid
put_at-present map key value x (len, bound, s, t, findable) positive present =
    let (l, e) = probe-Holds map key x present in
    let inside = probe-inside map key x true positive present in
    let v : HashmapEntry = record (entry_at map x) { value = value } in
    let entries = set map.entries x v in
    let changed : Hashmap = record map { entries = entries } in
    let here : get_or entries x empty_entry ≡ v = set_here map x v len inside in
    let others = set_others map x v len inside in
    let findable' =
      update-IsFindable map entries map.size map.tombstone_count x others findable key present
        (ap (λ (t : HashmapEntry). t.occupied) (sym here))
        (ap (λ (t : HashmapEntry). t.deleted) (sym here))
        (ap (λ (t : HashmapEntry). t.key) (sym here)) in
    (
      (
        same_extent map x v len inside,
        bound,
        omega (arith, s, live_total map x v len inside),
        omega (arith, t, deleted_total map x v len inside),
        findable',
      ),
      (hashmap_get_iff changed key value findable').1
          (x, subst (Holds key) (sym here) (l, e), ap (λ (t : HashmapEntry). t.value) here),
      λ k ne.
          hashmap_get-others map changed k x others findable findable'
            (λ holds. ne (sym holds.1 ∙ e)) (λ holds. ne (sym (subst (Holds k) here holds).1 ∙ e)),
    )

pub put_at-absent :
    (map : Hashmap) (key value x : ℕ)
    → IsValid map
    → 0 < map.capacity
    → is_loaded map ≡ false
    → probe map key ≡ (false, x)
    → IsChanged key (some value) map (put_at key value false x map)
unfolding put_at IsChanged IsValid probe
put_at-absent map key value x (len, bound, s, t, findable) positive unloaded absent =
    let free =
      unloaded-has_free map (hash_uint32 key % map.capacity) (len, bound, s, t, findable) positive
        unloaded in
    let reachable = free (mod-lt (hash_uint32 key) positive) in
    let inside = probe-inside map key x false positive absent in
    let dead : live (entry_at map x) ≡ false =
      probe_absent map key _ x map.capacity 0 reachable absent in
    let v : HashmapEntry = record { key = key; value = value; occupied = true; deleted = false } in
    let entries = set map.entries x v in
    let tombs =
      if (entry_at map x).deleted then sub64 map.tombstone_count 1 else map.tombstone_count in
    let changed : Hashmap = record {
      entries = entries;
      capacity = map.capacity;
      size = map.size + 1;
      tombstone_count = tombs;
    } in
    let here : get_or entries x empty_entry ≡ v = set_here map x v len inside in
    let others = set_others map x v len inside in
    let findable' =
      write-IsFindable map entries (map.size + 1) tombs x others findable key reachable absent
        (subst (Holds key) (sym here) (refl, refl)) in
    (
      (
        same_extent map x v len inside,
        bound,
        ground (arith, s, dead, live_total map x v len inside),
        ground (arith, t, deleted_total map x v len inside, count-le is_deleted map.entries),
        findable',
      ),
      (hashmap_get_iff changed key value findable').1
          (x, subst (Holds key) (sym here) (refl, refl), ap (λ (t : HashmapEntry). t.value) here),
      λ k ne.
          hashmap_get-others map changed k x others findable findable'
            (λ holds. absurd (ground (arith, holds.0, dead)))
            (λ holds. ne (sym (subst (Holds k) here holds).1)),
    )

-- Putting a value under a key in a valid map that has slots and is not loaded makes the map find that value under
-- the key and what it found before under every other key, and leaves the map valid: its counts are
-- those of its entries, and a probe for a live entry's key finds that entry.
pub hashmap_put-IsChanged :
    (allocated : Bool) (key value : ℕ) (map : Hashmap)
    → IsValid map
    → 0 < map.capacity
    → is_loaded map ≡ false
    → IsChanged key (some value) map (hashmap_put allocated key value map)
unfolding hashmap_put
hashmap_put-IsChanged allocated key value map valid positive unloaded =
    let (found, x) = probe map key in
    rw unloaded (elim (Bool-cases found) [
      | inl e ↦ rw e (put_at-present map key value x valid positive (ap (λ (b : Bool). (b, x)) e))
      | inr e ↦
          rw e (put_at-absent map key value x valid positive unloaded (ap (λ (b : Bool). (b, x)) e))
    ])

count-replicate :
    (f : HashmapEntry → Bool) (n : ℕ)
    → f empty_entry ≡ false
    → count f (replicate n empty_entry) ≡ 0
count-replicate f zero h = refl
count-replicate f (suc n) h = ground (arith, h, count-replicate f n h)

-- A table of unused entries, as `hashmap_init` and `hashmap_clear` leave it.
pub replicate-IsValid :
    (n : ℕ)
    → n < 2 ^ 64
    → IsValid
        (record { entries = replicate n empty_entry; capacity = n; size = 0; tombstone_count = 0 })
unfolding IsValid IsFindable
replicate-IsValid n h = (
  length-replicate n empty_entry,
  h,
  sym (count-replicate live n refl),
  sym (count-replicate is_deleted n refl),
  λ idx l. absurd (ground (arith, l, ap live (get_or-replicate n idx empty_entry))),
)
