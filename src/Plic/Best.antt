-- ===== src/Plic/Best.antt =====
-- What `plic_best_source` picks among the pending sources.
use native.Mathlib.Nat.{le_trans}
use native.Mathlib.Decide.{dec_lt}
use riscvemu.Base.{
  leb→le, &&_true, ◌↔◌, bit_and, nonzero, not, ltb→lt, lt→ltb, ◌<<<◌, ℕ, zero, suc, ◌+◌, ◌≤◌, ◌<◌,
  ◌≡◌, refl, ◌⊎◌, inl, inr, Bool, true, false, ◌&&◌, leb, arith, Bool-cases,
}
use riscvemu.Bits.{bit, nonzero-bit}
use riscvemu.Plic.{Plic, eligible, plic_best_loop, plic_best_source, plic_ndev}

-- `best` is the pick among the sources from 1 up to below `id`: no source at all, or an eligible one
-- of the highest priority and, among those, of the highest number.
pub record IsBest (p : Plic) (ctx id best pri : ℕ) : Type 0 where
  pub chosen :
      (best ≡ 0) × (pri ≡ 0)
      ⊎ (1 ≤ best) × (best < id) × (eligible p ctx best ≡ true) × (pri ≡ p.priority best)
  pub top : (j : ℕ) → 1 ≤ j → j < id → eligible p ctx j ≡ true → p.priority j ≤ pri
  pub last : (j : ℕ) → best < j → j < id → eligible p ctx j ≡ true → p.priority j < pri

module _ (p : Plic) (ctx : ℕ) where
  abbrev takes : ℕ → ℕ → Bool
  takes id pri = eligible p ctx id && leb pri (p.priority id)

  step_taken :
      (id best pri : ℕ)
      → 1 ≤ id
      → takes id pri ≡ true
      → IsBest p ctx id best pri
      → IsBest p ctx (id + 1) id (p.priority id)
  step_taken id best pri h t b = record {
    chosen = inr (h, omega arith, (&&_true (eligible p ctx id) _ t).0, refl);
    top = λ j lo hi e. elim (dec_lt j id) [
      | yes below ↦ le_trans (b.top j lo below e) (leb→le pri _ (&&_true (eligible p ctx id) _ t).1)
      | no at ↦ ground arith
    ];
    last = λ j lo hi e. absurd (omega arith);
  }

  step_passed :
      (id best pri : ℕ)
      → 1 ≤ id
      → takes id pri ≡ false
      → IsBest p ctx id best pri
      → IsBest p ctx (id + 1) best pri
  step_passed id best pri h t b = record {
    chosen = elim b.chosen [ inl z ↦ inl z | inr (x, y, z, w) ↦ inr (x, omega arith, z, w) ];
    top = λ j lo hi e. ground (arith, b.top j);
    last = λ j lo hi e. ground (arith, b.last j);
  }

  loop-IsBest :
      (left id best pri : ℕ)
      → 1 ≤ id
      → IsBest p ctx id best pri
      → (out : ℕ) × IsBest p ctx (id + left) (plic_best_loop p ctx left id best pri) out
  unfolding plic_best_loop
  loop-IsBest zero id best pri h b = let e : id + 0 ≡ id = omega arith in (pri, rw e b)
  loop-IsBest (suc left) id best pri h b =
      let e : id + suc left ≡ id + 1 + left = omega arith in
      elim (Bool-cases (takes id pri)) [
        | inl t ↦
            rw (t, e)
              (loop-IsBest left (id + 1) id (p.priority id) (omega arith)
                (step_taken id best pri h t b))
        | inr t ↦
            rw (t, e)
              (loop-IsBest left (id + 1) best pri (omega arith) (step_passed id best pri h t b))
      ]

plic_best_source-IsBest :
    (p : Plic) (ctx : ℕ) → (pri : ℕ) × IsBest p ctx (plic_ndev + 1) (plic_best_source p ctx) pri
unfolding plic_best_source
plic_best_source-IsBest p ctx = loop-IsBest p ctx plic_ndev 1 0 0 (omega arith) (record {
  chosen = inl (refl, refl);
  top = λ j lo hi e. absurd (omega arith);
  last = λ j lo hi e. absurd (omega arith);
})

-- A source that may be delivered to a context: its line is up, the context has enabled it and not
-- claimed it, and its priority is above the threshold.
pub record IsDeliverable (p : Plic) (ctx id : ℕ) : Type 0 where
  pub asserted : bit p.pending id ≡ 1
  pub enabled : bit (p.enable ctx) id ≡ 1
  pub unclaimed : p.claimed ctx id ≡ false
  pub above : p.threshold ctx < p.priority id

pub eligible_iff : (p : Plic) (ctx id : ℕ) → (eligible p ctx id ≡ true) ↔ IsDeliverable p ctx id
unfolding eligible
eligible_iff p ctx id =
    let asserted = nonzero-bit p.pending id in
    let enabled = nonzero-bit (p.enable ctx) id in
    (
      λ h.
          let t =
            &&_true
              (nonzero (bit_and p.pending (1 <<< id))
                && not (p.claimed ctx id)
                && nonzero (bit_and (p.enable ctx) (1 <<< id)))
              _ h in
          let u =
            &&_true (nonzero (bit_and p.pending (1 <<< id)) && not (p.claimed ctx id)) _ t.0 in
          let v = &&_true (nonzero (bit_and p.pending (1 <<< id))) _ u.0 in
          record {
            asserted = asserted.0 v.0;
            enabled = enabled.0 u.1;
            unclaimed = ground arith;
            above = ltb→lt _ _ t.1;
          },
      λ d. rw (asserted.1 d.asserted, enabled.1 d.enabled, d.unclaimed) (lt→ltb _ _ d.above),
    )

-- `best` is what a context is to be sent: nothing when nothing may be delivered, else the source of
-- the highest priority and, among those, of the highest number.
abbrev pub Picks : Plic → ℕ → ℕ → Type 0
Picks p ctx best =
    ((best ≡ 0) × ((j : ℕ) → 1 ≤ j → j ≤ plic_ndev → ¬ IsDeliverable p ctx j))
    ⊎ ((1 ≤ best)
        × (best ≤ plic_ndev)
        × IsDeliverable p ctx best
        × ((j : ℕ)
            → 1 ≤ j
            → j ≤ plic_ndev
            → IsDeliverable p ctx j
            → (p.priority j < p.priority best) ⊎ (p.priority j ≡ p.priority best) × (j ≤ best)))

-- The source that `plic_best_source` returns is deliverable and no deliverable source has a higher
-- priority, or the same one and a higher number; it returns 0 only when no source is deliverable.
pub plic_best_source-Picks : (p : Plic) (ctx : ℕ) → Picks p ctx (plic_best_source p ctx)
plic_best_source-Picks p ctx =
    let (pri, b) = plic_best_source-IsBest p ctx in
    elim b.chosen [
      | inl (z, w) ↦ inl (z, λ j lo hi d. ground (arith, b.last j, (eligible_iff p ctx j).1 d))
      | inr (lo, hi, e, w) ↦ inr (
        lo,
        omega arith,
        (eligible_iff p ctx _).0 e,
        λ j l h d. ground (arith, b.top j, b.last j, (eligible_iff p ctx j).1 d),
      )
    ]
