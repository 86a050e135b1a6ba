-- ===== src/HashmapU32/Grown.antt =====
-- `rehash` of src/hashmap_u32.c keeps what the map holds, so `hashmap_put` works on a loaded table too.
use riscvemu.Base.{
  ℕ, zero, suc, ◌*◌, ◌^◌, ◌<◌, ◌≤◌, ◌≡◌, ◌∙◌, inl, inr, refl, sym, ap, true, false, if◌then◌else◌,
  Option, none, some, replicate, ltb, Bool-cases, arith,
}
use riscvemu.HashmapU32.{
  Hashmap, empty_entry, initial_capacity, growth_factor, is_loaded, rehash, hashmap_put,
  hashmap_get,
}
use riscvemu.HashmapU32.Probe.{live}
use riscvemu.HashmapU32.Assoc.{assoc, entries-IsDistinct, hashmap_get-assoc}
use riscvemu.HashmapU32.Valid.{
  count-le, IsValid, IsChanged, hashmap_put-IsChanged, replicate-IsValid,
}
use riscvemu.HashmapU32.Moved.{or_else, reinsert-IsCopied}

assoc-replicate : (n k : ℕ) → assoc (replicate n empty_entry) k ≡ none
unfolding assoc
assoc-replicate zero k = refl
assoc-replicate (suc n) k = assoc-replicate n k

empty-get :
    (n : ℕ) (k : ℕ)
    → n < 2 ^ 64
    → hashmap_get
        (record { entries = replicate n empty_entry; capacity = n; size = 0; tombstone_count = 0 })
        k
      ≡ none
unfolding IsValid
empty-get n k h =
    let t : Hashmap = record {
      entries = replicate n empty_entry;
      capacity = n;
      size = 0;
      tombstone_count = 0;
    } in
    let valid : IsValid t = replicate-IsValid n h in
    hashmap_get-assoc t valid.4 k ∙ assoc-replicate n k

or_else-none : (o : Option ℕ) → or_else o none ≡ o
or_else-none none = refl
or_else-none (some v) = refl

rehash-IsCopied :
    (map : Hashmap)
    → IsValid map
    → map.capacity < 2 ^ 63
    → let t = rehash true (map.capacity * growth_factor) map in
      IsValid t
      × (0 < t.capacity)
      × (is_loaded t ≡ false)
      × ((k : ℕ) → hashmap_get t k ≡ hashmap_get map k)
unfolding rehash IsValid
rehash-IsCopied map (len, bound, size, tombs, findable) small =
    let n =
      if ltb (map.capacity * growth_factor) initial_capacity
      then initial_capacity
      else map.capacity * growth_factor in
    let wide : (n < 2 ^ 64) × (128 ≤ n) × (map.capacity * 2 ≤ n) = ground (arith, small) in
    let t : Hashmap = record {
      entries = replicate n empty_entry;
      capacity = n;
      size = 0;
      tombstone_count = 0;
    } in
    let few = count-le live map.entries in
    let ((valid, fresh, room), capacity, gets) =
      reinsert-IsCopied map.entries t
        (replicate-IsValid n wide.0, refl, omega (arith, len, few, wide))
        (entries-IsDistinct map findable) (λ k. inl (empty-get n k wide.0)) in
    (
      valid,
      omega (arith, capacity, wide),
      ground (arith, fresh, room),
      λ k.
          gets k
          ∙ ap (or_else (assoc map.entries k)) (empty-get n k wide.0)
          ∙ or_else-none (assoc map.entries k)
          ∙ sym (hashmap_get-assoc map findable k),
    )

put-rehash :
    (key value : ℕ) (map : Hashmap)
    → let t = rehash true (map.capacity * growth_factor) map in
      is_loaded map ≡ true
      → is_loaded t ≡ false
      → hashmap_put true key value map ≡ hashmap_put true key value t
unfolding hashmap_put
put-rehash key value map loaded unloaded = rw (loaded, unloaded)

-- When memory can be had, putting a value under a key in a valid map of 1 to 2 ^ 22 slots, loaded
-- or not, makes the map find that value under the key and what it found before under every other
-- key, and leaves the map valid: its counts are those of its entries, and a probe for a live
-- entry's key finds that entry.
pub hashmap_put-grown :
    (key value : ℕ) (map : Hashmap)
    → IsValid map
    → 0 < map.capacity
    → map.capacity ≤ 2 ^ 22
    → IsChanged key (some value) map (hashmap_put true key value map)
unfolding IsChanged
hashmap_put-grown key value map valid positive small = elim (Bool-cases (is_loaded map)) [
  | inr e ↦ hashmap_put-IsChanged true key value map valid positive e
  | inl e ↦
      let t = rehash true (map.capacity * growth_factor) map in
      let (valid', slots, unloaded, gets) = rehash-IsCopied map valid (omega arith) in
      let (kept, found, others) = hashmap_put-IsChanged true key value t valid' slots unloaded in
      rw (put-rehash key value map e unloaded) (kept, found, λ k ne. others k ne ∙ gets k)
]
