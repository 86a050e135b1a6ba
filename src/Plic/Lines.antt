-- ===== src/Plic/Lines.antt =====
-- The device lines of plic.c, and the bounds that every operation keeps.
use riscvemu.Base.{
  ℕ, ◌^◌, ◌≤◌, ◌<◌, ◌≡◌, ◌∙◌, ap, Bool, true, false, ◌&&◌, arith, ◌==◌, bit_and, bit_or, not32,
  ◌<<<◌, if◌then◌else◌,
}
use native.Mathlib.Nat.{pow-le-pow_right}
use native.Mathlib.Decide.{dec_lt}
use riscvemu.Bits.{
  bit, bit-bit_or, bit-bit_and, bit-two-pow, bit-complement, bit_past, bit_and-le_right, bit_or-lt,
  bit_and-le_left,
}
use riscvemu.Plic.{
  Plic, plic_init, plic_read32, plic_write32, plic_ndev, plic_set_irq, plic_claim, in_range,
}

one_shl : (id : ℕ) → 1 <<< id ≡ 2 ^ id
one_shl id = omega arith

two_pow-lt : (id : ℕ) → id ≤ plic_ndev → 2 ^ id < 2 ^ 32
two_pow-lt id h = omega (arith, pow-le-pow_right {n = 2} (omega arith) h)

line_up : (w id j : ℕ) → bit (bit_or w (1 <<< id)) j ≡ (if j == id then 1 else bit w j)
line_up w id j =
    ap (λ (t : ℕ). bit (bit_or w t) j) (one_shl id)
    ∙ ground (arith, bit-bit_or j w (2 ^ id), bit-two-pow id j)

line_down :
    (w id j : ℕ)
    → w < 2 ^ 32
    → id ≤ plic_ndev
    → bit (bit_and w (not32 (1 <<< id))) j ≡ (if j == id then 0 else bit w j)
line_down w id j h l =
    ap (λ (t : ℕ). bit (bit_and w (not32 t)) j) (one_shl id) ∙ elim (dec_lt j 32) [
      | yes a ↦ ground (
        arith,
        bit-bit_and j w (not32 (2 ^ id)),
        bit-two-pow id j,
        bit-complement 32 (2 ^ id) j (two_pow-lt id l) a,
      )
      | no b ↦ ground (arith, bit-bit_and j w (not32 (2 ^ id)), bit_past 32 w j h (omega arith))
    ]

-- With a 32-bit pending word, the level that a device gives a source from 1 to 10 is what its
-- pending bit shows; no other bit changes, and any other source number changes nothing.
pub bit-plic_set_irq :
    (id : ℕ) (level : Bool) (p : Plic) (j : ℕ)
    → p.pending < 2 ^ 32
    → bit (plic_set_irq id level p).pending j
      ≡ (if in_range id && j == id then (if level then 1 else 0) else bit p.pending j)
unfolding plic_set_irq
bit-plic_set_irq id true p j h = ground (arith, line_up p.pending id j)
bit-plic_set_irq id false p j h = ground (arith, line_down p.pending id j h)

-- Priorities and thresholds fit three bits, and lines and claims are of sources that exist.
pub record IsValid (p : Plic) : Type 0 where
  pub priority_small : (i : ℕ) → p.priority i ≤ 7
  pub threshold_small : (c : ℕ) → p.threshold c ≤ 7
  pub pending_word : p.pending < 2 ^ 32
  pub pending_lines : (j : ℕ) → bit p.pending j ≡ 1 → (1 ≤ j) × (j ≤ plic_ndev)
  pub claimed_lines : (c j : ℕ) → p.claimed c j ≡ true → (1 ≤ j) × (j ≤ plic_ndev)

pub init-IsValid : IsValid plic_init
unfolding plic_init
init-IsValid = record {
  priority_small = λ i. omega arith;
  threshold_small = λ c. omega arith;
  pending_word = omega arith;
  pending_lines = λ j h. absurd (omega (arith, bit_past 0 0 j (omega arith) (omega arith)));
  claimed_lines = λ c j h. cc;
}

module _ {p : Plic} (v : IsValid p) where
  pending_word-set_irq : (id : ℕ) (level : Bool) → (plic_set_irq id level p).pending < 2 ^ 32
  unfolding plic_set_irq
  pending_word-set_irq id level = ground (
    arith,
    v.pending_word,
    one_shl id,
    two_pow-lt id,
    bit_or-lt 32 p.pending (1 <<< id),
    bit_and-le_left p.pending (not32 (1 <<< id)),
  )

  pub set_irq-IsValid : (id : ℕ) (level : Bool) → IsValid (plic_set_irq id level p)
  set_irq-IsValid id level = record {
    priority_small = λ i. unfold plic_set_irq in ground (arith, v.priority_small i);
    threshold_small = λ c. unfold plic_set_irq in ground (arith, v.threshold_small c);
    pending_word = pending_word-set_irq id level;
    pending_lines =
        λ j h. ground (arith, bit-plic_set_irq id level p j v.pending_word, v.pending_lines j);
    claimed_lines = λ c j. unfold plic_set_irq in ground (arith, v.claimed_lines c j);
  }

  write32-IsValid : (off val : ℕ) → IsValid (plic_write32 off val p)
  unfolding plic_write32
  write32-IsValid off val = record {
    priority_small = λ i. ground (arith, v.priority_small i, bit_and-le_right val 7);
    threshold_small = λ c. ground (arith, v.threshold_small c, bit_and-le_right val 7);
    pending_word = ground arith;
    pending_lines = λ j. ground (arith, v.pending_lines j);
    claimed_lines = λ c j. ground (arith, v.claimed_lines c j);
  }

  read32-IsValid : (off : ℕ) → IsValid (plic_read32 off p).1
  unfolding plic_read32 plic_claim
  read32-IsValid off = record {
    priority_small = λ i. ground (arith, v.priority_small i);
    threshold_small = λ c. ground (arith, v.threshold_small c);
    pending_word = ground arith;
    pending_lines = λ j. ground (arith, v.pending_lines j);
    claimed_lines = λ c j. ground (arith, v.claimed_lines c j);
  }

-- What the bus and the devices do to the controller, one access at a time.
pub data Access (p : Plic) : Plic → Type 0 where
  read32 : (off : ℕ) → Access p (plic_read32 off p).1
  write32 : (off val : ℕ) → Access p (plic_write32 off val p)
  set_irq : (id : ℕ) (level : Bool) → Access p (plic_set_irq id level p)

-- The states that the controller reaches after `plic_init`.
pub data Reachable : Plic → Type 0 where
  start : Reachable plic_init
  next : {p q : Plic} → Reachable p → Access p q → Reachable q

Access-IsValid : {p q : Plic} → IsValid p → Access p q → IsValid q
Access-IsValid v (read32 off) = read32-IsValid v off
Access-IsValid v (write32 off val) = write32-IsValid v off val
Access-IsValid v (set_irq id level) = set_irq-IsValid v id level

-- In every state that accesses of the registers and signals of the devices reach from `plic_init`,
-- priorities and thresholds are at most 7, the pending word has 32 bits, and only lines 1 to 10 are
-- pending or claimed.
pub Reachable-IsValid : {p : Plic} → Reachable p → IsValid p
Reachable-IsValid start = init-IsValid
Reachable-IsValid (next r a) = Access-IsValid (Reachable-IsValid r) a
