-- ===== src/HashmapU32/Probe.antt =====
-- What `probe` of src/hashmap_u32.c finds, and how a change of one entry bears on it.
use native.Mathlib.Nat.{mod-lt, mod-eq_of_lt, add-mod_right}
use riscvemu.Base.{
  ℕ, zero, suc, ◌+◌, ◌-◌, ◌%◌, ◌<◌, ◌≤◌, ◌≡◌, ◌≢◌, ◌⊎◌, ◌∙◌, inl, inr, sym, ap, Bool, true, false,
  not, ◌&&◌, ◌||◌, Option, none, some, arith,
}
use riscvemu.HashmapU32.{HashmapEntry, Hashmap, entry_at, slot, first_or, or_first, probe_loop}

-- An entry that holds a key now.
abbrev pub live : HashmapEntry → Bool
live e = e.occupied && not e.deleted

-- A probe for `k` goes on past an entry.
abbrev pub Passes : ℕ → HashmapEntry → Type 0
Passes k e = (e.occupied ≡ true) × ((e.deleted ≡ true) ⊎ (e.key ≢ k))

abbrev pub Holds : ℕ → HashmapEntry → Type 0
Holds k e = (live e ≡ true) × (e.key ≡ k)

pub probe_found-Holds :
    (map : Hashmap) (k index left i x : ℕ) (fd : Option ℕ)
    → probe_loop map k index left i fd ≡ (true, x)
    → Holds k (entry_at map x)
unfolding probe_loop
probe_found-Holds map k index zero i x fd h = ground arith
probe_found-Holds map k index (suc left) i x fd h =
    let idx = slot map index i in
    let rest = probe_found-Holds map k index left (i + 1) x in
    ground (arith, rest (or_first fd idx), rest fd)

-- Entries alike for the probes of `k`: the same, or the probes that found `k` in `a` go on past both.
abbrev pub IsAlike : ℕ → HashmapEntry → HashmapEntry → Type 0
IsAlike k e e' =
    ((e.occupied ≡ e'.occupied) × (e.deleted ≡ e'.deleted) × (e.key ≡ e'.key))
    ⊎ (Passes k e' × ¬ Holds k e)

module _ (a b : Hashmap) (same : a.capacity ≡ b.capacity) (k index x : ℕ)
    (alike : (idx : ℕ) → IsAlike k (entry_at a idx) (entry_at b idx)) where
  pub probe_found-kept :
      (left i : ℕ) (fd fd' : Option ℕ)
      → probe_loop a k index left i fd ≡ (true, x)
      → probe_loop b k index left i fd' ≡ (true, x)
  unfolding probe_loop
  probe_found-kept zero i fd fd' h = ground arith
  probe_found-kept (suc left) i fd fd' h =
      let idx = slot a index i in
      let e : slot b index i ≡ idx = ap (λ (c : ℕ). (index + i) % c) (sym same) in
      let rest = probe_found-kept left (i + 1) in
      rw e (
        ground (
          arith,
          alike idx,
          rest (or_first fd idx) (or_first fd' idx),
          rest (or_first fd idx) fd',
          rest fd (or_first fd' idx),
          rest fd fd',
        ))

-- Whether the next rounds of a probe meet an entry that was never used.
unfoldable pub has_free : Hashmap → ℕ → ℕ → ℕ → Bool
has_free map index zero i = false
has_free map index (suc left) i =
    not (entry_at map (slot map index i)).occupied || has_free map index left (i + 1)

module _ (map : Hashmap) (k index x : ℕ) where
  probe_deleted :
      (left i d : ℕ)
      → has_free map index left i ≡ true
      → probe_loop map k index left i (some d) ≡ (false, x)
      → x ≡ d
  unfolding probe_loop has_free
  probe_deleted zero i d free h = ground arith
  probe_deleted (suc left) i d free h = ground (arith, probe_deleted left (i + 1) d)

  pub probe_absent :
      (left i : ℕ)
      → has_free map index left i ≡ true
      → probe_loop map k index left i none ≡ (false, x)
      → live (entry_at map x) ≡ false
  unfolding probe_loop has_free
  probe_absent zero i free h = ground arith
  probe_absent (suc left) i free h =
      let idx = slot map index i in
      ground (
        arith,
        probe_deleted left (i + 1) idx,
        probe_absent left (i + 1),
        ap (λ (t : ℕ). live (entry_at map t)),
      )

  pub probe-lt :
      (left i : ℕ) (fd : Option ℕ) (r : Bool)
      → first_or fd 0 < map.capacity
      → probe_loop map k index left i fd ≡ (r, x)
      → x < map.capacity
  unfolding probe_loop
  probe-lt zero i fd r bound h = ground arith
  probe-lt (suc left) i none r bound h =
      let idx = slot map index i in
      let inside : idx < map.capacity = mod-lt (index + i) bound in
      let rest = probe-lt left (i + 1) in
      ground (arith, rest (some idx) r inside, rest none r bound)
  probe-lt (suc left) i (some d) r bound h =
      let idx = slot map index i in
      let inside : idx < map.capacity = mod-lt (index + i) (omega arith) in
      let rest = probe-lt left (i + 1) in ground (arith, rest (some d) r bound)

-- A key written where the probe ended is found there.
module _ (a b : Hashmap) (same : a.capacity ≡ b.capacity) (k index x : ℕ)
    (others : (idx : ℕ) → idx ≢ x → entry_at b idx ≡ entry_at a idx)
    (written : Holds k (entry_at b x)) where
  pub probe_written :
      (left i : ℕ) (fd : Option ℕ)
      → has_free a index left i ≡ true
      → probe_loop a k index left i none ≡ (false, x)
      → probe_loop b k index left i fd ≡ (true, x)
  unfolding probe_loop has_free
  probe_written zero i fd free h = ground arith
  probe_written (suc left) i fd free h =
      let idx = slot a index i in
      let e : slot b index i ≡ idx = ap (λ (c : ℕ). (index + i) % c) (sym same) in
      let split : (idx ≡ x) ⊎ (idx ≢ x) = ground arith in
      rw e (elim split [
        | inl here ↦ rw here (ground (arith, written))
        | inr elsewhere ↦ rw (others idx elsewhere) (
            ground (
              arith,
              probe_deleted a k index x left (i + 1) idx,
              probe_written left (i + 1) (or_first fd idx),
              probe_written left (i + 1) fd,
            ))
      ])

-- An unused entry within reach is met.
pub has_free_of_entry :
    (map : Hashmap) (index left i j : ℕ)
    → i ≤ j
    → j < i + left
    → (entry_at map (slot map index j)).occupied ≡ false
    → has_free map index left i ≡ true
unfolding has_free
has_free_of_entry map index zero i j lo hi e = absurd (omega arith)
has_free_of_entry map index (suc left) i j lo hi e =
    let split : (i ≡ j) ⊎ (i + 1 ≤ j) = ground arith in
    elim split [
      | inl here ↦ rw here (ground (arith, e))
      | inr later ↦ ground (arith, has_free_of_entry map index left (i + 1) j later (omega arith) e)
    ]

-- Every slot of the table is within reach of a probe.
pub slot_reaches :
    (map : Hashmap) (index j : ℕ)
    → index < map.capacity
    → j < map.capacity
    → (i : ℕ) × (i < map.capacity) × (slot map index i ≡ j)
slot_reaches map index j h l =
    let split : (index ≤ j) ⊎ (j < index) = ground arith in
    elim split [
      | inl after ↦
          (j - index, omega arith, ap (λ (t : ℕ). t % map.capacity) (omega arith) ∙ mod-eq_of_lt l)
      | inr before ↦ (
        j + map.capacity - index,
        omega arith,
        ap (λ (t : ℕ). t % map.capacity) (omega arith)
            ∙ add-mod_right j map.capacity
            ∙ mod-eq_of_lt l,
      )
    ]
