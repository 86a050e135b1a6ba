-- ===== src/HashmapU32.antt =====
-- src/hashmap_u32.c: the hash map with linear probing and tombstones that holds the LR.W
-- reservations. A list stands for the array of entries.
pub mod Probe
pub mod Findable
pub mod Valid
pub mod Removed
pub mod Assoc
pub mod Moved
pub mod Grown
pub mod Empty
use riscvemu.Base.{
  nonzero, ℕ, zero, suc, ◌+◌, ◌*◌, ◌%◌, bit_xor, Bool, true, false, ◌&&◌, not, leb, ltb, ◌==◌,
  if◌then◌else◌, u32, sub64, ◌>>>◌, List, [], ◌∷◌, Option, none, some, get_or, set, replicate,
}

abbrev pub initial_capacity : ℕ
initial_capacity = 128

abbrev pub growth_factor : ℕ
growth_factor = 2

pub record HashmapEntry : Type 0 where
  pub key : ℕ
  pub value : ℕ
  pub occupied : Bool
  pub deleted : Bool

pub record Hashmap : Type 0 where
  pub entries : List HashmapEntry
  pub capacity : ℕ
  pub size : ℕ
  pub tombstone_count : ℕ

-- An entry as `calloc` and `memset` leave it.
abbrev pub empty_entry : HashmapEntry
empty_entry = record { key = 0; value = 0; occupied = false; deleted = false }

unfoldable pub hash_uint32 : ℕ → ℕ
hash_uint32 key =
    let h₁ = bit_xor key (key >>> 16) in
    let h₂ = u32 (h₁ * 0x85ebca6b) in
    let h₃ = bit_xor h₂ (h₂ >>> 13) in let h₄ = u32 (h₃ * 0xc2b2ae35) in bit_xor h₄ (h₄ >>> 16)

abbrev pub entry_at : Hashmap → ℕ → HashmapEntry
entry_at map idx = get_or map.entries idx empty_entry

-- The slot that the probe for a hash looks at in round `i`.
abbrev pub slot : Hashmap → ℕ → ℕ → ℕ
slot map index i = (index + i) % map.capacity

abbrev pub first_or : Option ℕ → ℕ → ℕ
first_or none idx = idx
first_or (some first_deleted) idx = first_deleted

abbrev pub or_first : Option ℕ → ℕ → Option ℕ
or_first none idx = some idx
or_first (some first_deleted) idx = some first_deleted

-- The loop of `probe` in round `i`, with `left` rounds to go: whether the key was found, and a slot.
unfoldable pub probe_loop : Hashmap → ℕ → ℕ → ℕ → ℕ → Option ℕ → Bool × ℕ
probe_loop map key index zero i first_deleted = (false, 0)
probe_loop map key index (suc left) i first_deleted =
    let idx = slot map index i in
    let entry = entry_at map idx in
    let past_deleted = probe_loop map key index left (i + 1) (or_first first_deleted idx) in
    let past_other = probe_loop map key index left (i + 1) first_deleted in
    if not entry.occupied
    then (false, first_or first_deleted idx)
    else if entry.deleted
    then past_deleted
    else if entry.key == key
    then (true, idx)
    else past_other

unfoldable pub probe : Hashmap → ℕ → Bool × ℕ
probe map key = probe_loop map key (hash_uint32 key % map.capacity) map.capacity 0 none

-- The loop of `rehash` over the old entries.
unfoldable pub reinsert : List HashmapEntry → Hashmap → Hashmap
reinsert [] map = map
reinsert (entry ∷ old) map = reinsert old (
    if entry.occupied && not entry.deleted
    then record map {
      entries =
          set map.entries (probe map entry.key).1
            (record entry { deleted = false; occupied = true });
      size = map.size + 1;
    }
    else map)

-- `allocated` is whether `calloc` gave memory.
unfoldable pub rehash : Bool → ℕ → Hashmap → Hashmap
rehash allocated new_capacity map =
    let capacity = if ltb new_capacity initial_capacity then initial_capacity else new_capacity in
    if allocated
    then reinsert map.entries (record {
      entries = replicate capacity empty_entry;
      capacity = capacity;
      size = 0;
      tombstone_count = 0;
    })
    else map

unfoldable pub hashmap_init : Hashmap
hashmap_init = record {
  entries = replicate initial_capacity empty_entry;
  capacity = initial_capacity;
  size = 0;
  tombstone_count = 0;
}

-- The float comparison with 0.75, which is exact up to 2 ^ 22 slots; without slots the quotient is NaN for
-- no entry, which is not loaded, and infinite otherwise.
abbrev pub is_loaded : Hashmap → Bool
is_loaded map =
    let count = map.size + map.tombstone_count in
    if map.capacity == 0 then nonzero count else leb (3 * map.capacity) (4 * count)

-- The slot that `probe` gave is written; its old tombstone is counted off.
unfoldable pub put_at : ℕ → ℕ → Bool → ℕ → Hashmap → Hashmap
put_at key value found idx map =
    let entry = entry_at map idx in
    if found
    then record map { entries = set map.entries idx (record entry { value = value }) }
    else record {
      entries =
          set map.entries idx
            (record { key = key; value = value; occupied = true; deleted = false });
      capacity = map.capacity;
      size = map.size + 1;
      tombstone_count = if entry.deleted then sub64 map.tombstone_count 1 else map.tombstone_count;
    }

unfoldable pub hashmap_put : Bool → ℕ → ℕ → Hashmap → Hashmap
hashmap_put allocated key value map =
    let grown =
      if is_loaded map then rehash allocated (map.capacity * growth_factor) map else map in
    let (found, idx) = probe grown key in put_at key value found idx grown

unfoldable pub hashmap_get : Hashmap → ℕ → Option ℕ
hashmap_get map key =
    let (found, idx) = probe map key in if found then some (entry_at map idx).value else none

unfoldable pub hashmap_remove : ℕ → Hashmap → Bool × Hashmap
hashmap_remove key map =
    let (found, idx) = probe map key in
    if found
    then (
      true,
      record {
        entries = set map.entries idx (record (entry_at map idx) { deleted = true });
        capacity = map.capacity;
        size = sub64 map.size 1;
        tombstone_count = map.tombstone_count + 1;
      },
    )
    else (false, map)

unfoldable pub hashmap_clear : Hashmap → Hashmap
hashmap_clear map = record map {
  entries = replicate map.capacity empty_entry;
  size = 0;
  tombstone_count = 0;
}

-- `free` of the entries; the map is as good as new.
unfoldable pub hashmap_destroy : Hashmap → Hashmap
hashmap_destroy map = record { entries = []; capacity = 0; size = 0; tombstone_count = 0 }
