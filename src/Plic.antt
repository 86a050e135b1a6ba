-- ===== src/Plic.antt =====
-- src/device/plic.c: the interrupt controller, with context 0 for machine mode and context 1 for
-- supervisor mode. A C array is a function on its indices.
pub mod Best
pub mod Claim
pub mod Lines
use riscvemu.Base.{
  update, ℕ, zero, suc, ◌+◌, ◌-◌, ◌*◌, ◌/◌, ◌%◌, ◌^◌, bit_and, bit_or, Bool, true, false, ◌&&◌,
  ◌||◌, not, leb, ltb, ◌==◌, nonzero, if◌then◌else◌, not32, ◌<<<◌,
}

abbrev pub plic_ndev : ℕ
plic_ndev = 10

abbrev pub plic_nctx : ℕ
plic_nctx = 2

abbrev pub plic_priority_end : ℕ
plic_priority_end = 0x4 * (plic_ndev + 1)

abbrev pub plic_pending_base : ℕ
plic_pending_base = 0x001000

abbrev pub plic_enable_base : ℕ
plic_enable_base = 0x002000

abbrev pub plic_enable_stride : ℕ
plic_enable_stride = 0x80

abbrev pub plic_context_base : ℕ
plic_context_base = 0x200000

abbrev pub plic_context_stride : ℕ
plic_context_stride = 0x1000

abbrev pub plic_claim_off : ℕ
plic_claim_off = 0x4

pub record Plic : Type 0 where
  pub priority : ℕ → ℕ
  pub pending : ℕ
  pub enable : ℕ → ℕ
  pub threshold : ℕ → ℕ
  pub claimed : ℕ → ℕ → Bool

abbrev pub set_claimed : ℕ → ℕ → Bool → Plic → Plic
set_claimed ctx id b p = record p { claimed = update p.claimed ctx (update (p.claimed ctx) id b) }

unfoldable pub plic_init : Plic
plic_init = record {
  priority = λ _. 0;
  pending = 0;
  enable = λ _. 0;
  threshold = λ _. 0;
  claimed = λ _ _. false;
}

-- The four tests that a source passes in the loop of `plic_best_source`.
unfoldable pub eligible : Plic → ℕ → ℕ → Bool
eligible p ctx id =
    nonzero (bit_and p.pending (1 <<< id))
    && not (p.claimed ctx id)
    && nonzero (bit_and (p.enable ctx) (1 <<< id))
    && ltb (p.threshold ctx) (p.priority id)

-- The loop with `left` sources to come, from `id` on.
unfoldable pub plic_best_loop : Plic → ℕ → ℕ → ℕ → ℕ → ℕ → ℕ
plic_best_loop p ctx zero id best best_pri = best
plic_best_loop p ctx (suc left) id best best_pri =
    let take = eligible p ctx id && leb best_pri (p.priority id) in
    plic_best_loop p ctx left (id + 1) (if take then id else best)
      (if take then p.priority id else best_pri)

unfoldable pub plic_best_source : Plic → ℕ → ℕ
plic_best_source p ctx = plic_best_loop p ctx plic_ndev 1 0 0

-- A source number that the controller has.
abbrev pub in_range : ℕ → Bool
in_range id = leb 1 id && leb id plic_ndev

-- The claim: a source found is marked as in progress.
unfoldable pub plic_claim : ℕ → Plic → ℕ × Plic
plic_claim ctx p =
    let id = plic_best_source p ctx in
    if in_range id then (id, set_claimed ctx id true p) else (0, p)

abbrev pub in_priority : ℕ → Bool
in_priority off = leb 0x4 off && ltb off plic_priority_end

abbrev pub in_pending : ℕ → Bool
in_pending off = leb plic_pending_base off && ltb off (plic_pending_base + 4)

abbrev pub in_enable : ℕ → Bool
in_enable off =
    leb plic_enable_base off && ltb off (plic_enable_base + plic_enable_stride * plic_nctx)

abbrev pub in_context : ℕ → Bool
in_context off =
    leb plic_context_base off && ltb off (plic_context_base + plic_context_stride * plic_nctx)

unfoldable pub plic_read32 : ℕ → Plic → ℕ × Plic
plic_read32 off p =
    if in_priority off
    then (let id = off / 4 in (if in_range id then p.priority id else 0, p))
    else if in_pending off
    then (p.pending, p)
    else if in_enable off
    then (let ctx = (off - plic_enable_base) / plic_enable_stride in
        let word = (off - plic_enable_base) % plic_enable_stride / 4 in
        (if word == 0 then p.enable ctx else 0, p))
    else if in_context off
    then (let ctx = (off - plic_context_base) / plic_context_stride in
        let sub = (off - plic_context_base) % plic_context_stride in
        if sub == 0
        then (p.threshold ctx, p)
        else if sub == plic_claim_off
        then plic_claim ctx p
        else (0, p))
    else (0, p)

unfoldable pub plic_write32 : ℕ → ℕ → Plic → Plic
plic_write32 off val p =
    if in_priority off
    then (let id = off / 4 in
        if in_range id then record p { priority = update p.priority id (bit_and val 0x7) } else p)
    else if in_enable off
    then (let ctx = (off - plic_enable_base) / plic_enable_stride in
        let word = (off - plic_enable_base) % plic_enable_stride / 4 in
        if word == 0 then record p { enable = update p.enable ctx val } else p)
    else if in_context off
    then (let ctx = (off - plic_context_base) / plic_context_stride in
        let sub = (off - plic_context_base) % plic_context_stride in
        if sub == 0
        then record p { threshold = update p.threshold ctx (bit_and val 0x7) }
        else if sub == plic_claim_off
        then (let id = bit_and val 0x1F in if in_range id then set_claimed ctx id false p else p)
        else p)
    else p

unfoldable pub plic_set_irq : ℕ → Bool → Plic → Plic
plic_set_irq id level p =
    if ltb id 1 || ltb plic_ndev id
    then p
    else if level
    then record p { pending = bit_or p.pending (1 <<< id) }
    else record p { pending = bit_and p.pending (not32 (1 <<< id)) }

-- MIP.MEIP and MIP.SEIP follow these two.
unfoldable pub plic_external_pending : Plic → ℕ
plic_external_pending p = plic_best_source p 0

unfoldable pub plic_external_pending_s : Plic → ℕ
plic_external_pending_s p = plic_best_source p 1
