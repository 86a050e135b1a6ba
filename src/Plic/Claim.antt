-- ===== src/Plic/Claim.antt =====
-- The claim and complete handshake of plic.c, through the registers of a context.
use mathlib.Core.Path.{fun_ext}
use riscvemu.Base.{
  ℕ, zero, suc, ◌+◌, ◌*◌, ◌≤◌, ◌<◌, ◌≡◌, ◌≢◌, refl, sym, ◌∙◌, ◌⊎◌, inl, inr, true, false, arith,
  bit_and, le→leb,
}
use riscvemu.Bits.{bit_and-ones}
use riscvemu.Plic.{
  Plic, set_claimed, plic_best_source, plic_read32, plic_write32, plic_ndev, plic_claim,
  plic_context_base, plic_context_stride, plic_claim_off, plic_nctx,
}
use riscvemu.Plic.Best.{IsDeliverable, plic_best_source-Picks}

-- The offset of the claim/complete register of a context.
abbrev pub claim_reg : ℕ → ℕ
claim_reg ctx = plic_context_base + plic_context_stride * ctx + plic_claim_off

-- A read of the claim register claims the source that the context is to be sent.
plic_read32-plic_claim :
    (ctx : ℕ) (p : Plic) → ctx < plic_nctx → plic_read32 (claim_reg ctx) p ≡ plic_claim ctx p
unfolding plic_read32
plic_read32-plic_claim zero p h = refl
plic_read32-plic_claim (suc zero) p h = refl
plic_read32-plic_claim (suc (suc ctx)) p h = absurd (omega arith)

-- A write to it of a source that the controller has ends the claim.
plic_write32-set_claimed :
    (ctx id : ℕ) (p : Plic)
    → ctx < plic_nctx
    → 1 ≤ id
    → id ≤ plic_ndev
    → plic_write32 (claim_reg ctx) id p ≡ set_claimed ctx id false p
unfolding plic_write32
plic_write32-set_claimed zero id p h lo hi =
    let e : bit_and id 0x1F ≡ id = omega (arith, bit_and-ones 5 id) in
    rw (e, le→leb 1 id lo, le→leb id plic_ndev hi)
plic_write32-set_claimed (suc zero) id p h lo hi =
    let e : bit_and id 0x1F ≡ id = omega (arith, bit_and-ones 5 id) in
    rw (e, le→leb 1 id lo, le→leb id plic_ndev hi)
plic_write32-set_claimed (suc (suc ctx)) id p h lo hi = absurd (omega arith)

-- The result `r` of a claim: the source and the controller after it.
pub record IsClaimed (ctx : ℕ) (p : Plic) (r : ℕ × Plic) : Type 0 where
  pub returns : r.0 ≡ plic_best_source p ctx
  pub masks : r.0 ≢ 0 → ¬ IsDeliverable r.1 ctx r.0
  pub others : (c id : ℕ) → (c ≢ ctx) ⊎ (id ≢ r.0) → r.1.claimed c id ≡ p.claimed c id
  pub registers :
      (r.1.priority ≡ p.priority)
      × (r.1.pending ≡ p.pending)
      × (r.1.enable ≡ p.enable)
      × (r.1.threshold ≡ p.threshold)

plic_claim_found :
    (ctx : ℕ) (p : Plic)
    → 1 ≤ plic_best_source p ctx
    → plic_best_source p ctx ≤ plic_ndev
    → plic_claim ctx p ≡ (plic_best_source p ctx, set_claimed ctx (plic_best_source p ctx) true p)
unfolding plic_claim
plic_claim_found ctx p lo hi = rw (le→leb 1 _ lo, le→leb _ plic_ndev hi)

plic_claim-IsClaimed : (ctx : ℕ) (p : Plic) → IsClaimed ctx p (plic_claim ctx p)
unfolding plic_claim
plic_claim-IsClaimed ctx p =
    let id = plic_best_source p ctx in
    elim (plic_best_source-Picks p ctx) [
      | inl (z, w) ↦ rw z (record {
        returns = sym z;
        masks = λ h. absurd (h refl);
        others = λ c j h. refl;
        registers = (refl, refl, refl, refl);
      })
      | inr (lo, hi, d, w) ↦
          rw (le→leb 1 id lo, le→leb id plic_ndev hi)
            (record {
              returns = refl;
              masks = λ h d'. ground (arith, d'.unclaimed);
              others = λ c j h. ground arith;
              registers = (refl, refl, refl, refl);
            })
    ]

-- A read of the claim register of context 0 or 1 returns the source that `plic_best_source` finds
-- for it, 0 for none. That source is then not deliverable to this context; the claims of other
-- sources and contexts and all other registers are unchanged.
pub plic_read32-IsClaimed :
    (ctx : ℕ) (p : Plic) → ctx < plic_nctx → IsClaimed ctx p (plic_read32 (claim_reg ctx) p)
plic_read32-IsClaimed ctx p h = rw (plic_read32-plic_claim ctx p h) (plic_claim-IsClaimed ctx p)

set_claimed_undo :
    (ctx id : ℕ) (p : Plic)
    → p.claimed ctx id ≡ false
    → set_claimed ctx id false (set_claimed ctx id true p) ≡ p
set_claimed_undo ctx id p h = λ i. record p {
  claimed =
      fun_ext {f = (set_claimed ctx id false (set_claimed ctx id true p)).claimed} {g = p.claimed}
        (λ c. fun_ext (λ j. ground arith)) i;
}

-- When context 0 or 1 has a source to be sent, completing its claim, by writing back the number
-- that the claim returned, restores the controller to its state before the claim.
pub plic_complete_claim :
    (ctx : ℕ) (p : Plic)
    → ctx < plic_nctx
    → plic_best_source p ctx ≢ 0
    → let (id, q) = plic_read32 (claim_reg ctx) p in plic_write32 (claim_reg ctx) id q ≡ p
plic_complete_claim ctx p h some_source =
    let id = plic_best_source p ctx in
    elim (plic_best_source-Picks p ctx) [
      | inl (z, w) ↦ absurd (some_source z)
      | inr (lo, hi, d, w) ↦
          rw (plic_read32-plic_claim ctx p h, plic_claim_found ctx p lo hi)
            (plic_write32-set_claimed ctx id (set_claimed ctx id true p) h lo hi
              ∙ set_claimed_undo ctx id p d.unclaimed)
    ]
