-- ===== src/HashmapU32/Removed.antt =====
-- What `hashmap_remove` of src/hashmap_u32.c leaves of a valid map.
use mathlib.Core.Path.{subst}
use riscvemu.Base.{
  ℕ, ◌+◌, ◌<◌, ◌≡◌, ◌≢◌, ◌∙◌, inl, inr, refl, sym, ap, Bool, true, none, get_or, set, sub64,
  Bool-cases, Option-cases, arith,
}
use riscvemu.HashmapU32.{
  HashmapEntry, Hashmap, empty_entry, entry_at, probe, hashmap_get, hashmap_remove,
}
use riscvemu.HashmapU32.Probe.{live, Holds}
use riscvemu.HashmapU32.Findable.{
  probe-Holds, Holds-once, hashmap_get_iff, remove-IsFindable, hashmap_get-others,
}
use riscvemu.HashmapU32.Valid.{
  count-le, IsValid, IsChanged, probe-inside, set_here, set_others, same_extent, live_total,
  deleted_total,
}

remove_present :
    (map : Hashmap) (key x : ℕ)
    → IsValid map
    → 0 < map.capacity
    → probe map key ≡ (true, x)
    → IsChanged key none map (hashmap_remove key map).1
unfolding hashmap_remove IsChanged IsValid
remove_present map key x (len, bound, s, t, findable) positive present =
    let (l, e) = probe-Holds map key x present in
    let inside = probe-inside map key x true positive present in
    let v : HashmapEntry = record (entry_at map x) { deleted = true } in
    let entries = set map.entries x v in
    let size = sub64 map.size 1 in
    let changed : Hashmap = record {
      entries = entries;
      capacity = map.capacity;
      size = size;
      tombstone_count = map.tombstone_count + 1;
    } in
    let here : get_or entries x empty_entry ≡ v = set_here map x v len inside in
    let others = set_others map x v len inside in
    let dead : (k : ℕ) → ¬ Holds k (get_or entries x empty_entry) =
      λ k holds. absurd (ground (arith, (subst (Holds k) here holds).0)) in
    let findable' =
      remove-IsFindable map entries size (map.tombstone_count + 1) x others findable key present
        (ap (λ (t : HashmapEntry). t.occupied) here ∙ ground (arith, l))
        (ap (λ (t : HashmapEntry). t.deleted) here) in
    rw present (
      (
        same_extent map x v len inside,
        bound,
        ground (arith, s, l, live_total map x v len inside, count-le live map.entries),
        ground (arith, t, l, deleted_total map x v len inside),
        findable',
      ),
      elim (Option-cases (hashmap_get changed key)) [
        | inl e ↦ e
        | inr (w, f) ↦
            let (y, holds, value) = (hashmap_get_iff changed key w findable').0 f in
            let other : y ≢ x =
              λ g. dead key (subst (λ (t : ℕ). Holds key (get_or entries t empty_entry)) g holds) in
            absurd (
              other
                (Holds-once map key y x findable (subst (Holds key) (others y other) holds) (l, e)))
      ],
      λ k ne.
          hashmap_get-others map changed k x others findable findable'
            (λ holds. ne (sym holds.1 ∙ e)) (dead k),
    )

-- Removing a key from a valid map that has slots makes the map find nothing under the key and what
-- it found before under every other key, and leaves the map valid.
pub hashmap_remove-IsChanged :
    (key : ℕ) (map : Hashmap)
    → IsValid map
    → 0 < map.capacity
    → IsChanged key none map (hashmap_remove key map).1
unfolding hashmap_remove hashmap_get IsChanged
hashmap_remove-IsChanged key map valid positive =
    let (found, x) = probe map key in
    elim (Bool-cases found) [
      | inl e ↦ remove_present map key x valid positive (ap (λ (b : Bool). (b, x)) e)
      | inr e ↦ rw e (valid, rw e refl, λ k ne. refl)
    ]
