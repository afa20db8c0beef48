-- ===== src/Messageq/Claimants.antt =====
-- `messageq_claim` one atomic access at a time, for senders that interrupt each other.
use native.Mathlib.Nat.{mod-eq-sub-mod}
use librfn.Common.{
  ℕ, ◌+◌, ◌-◌, ◌%◌, ◌≡◌, ap, ◌∙◌, Bool, false, ◌&&◌, not, Option, none, some, length, arith, leb,
  ◌==◌, if◌then◌else◌,
}
use librfn.Messageq.{Messageq, slot, next_slot, fetch_sub, fetch_add, claim}
use librfn.Messageq.Spec.{Spec}
use librfn.Messageq.Represents.{Represents}
use librfn.Messageq.Refine.{address}

-- Where a sender stands in `messageq_claim`, with the locals that are live there.
pub data Claimant : Type 0 where
  claim_begin : Claimant
  claim_refused : Claimant  -- before the `fetch_add` that undoes the `fetch_sub`
  claim_granted : Claimant  -- before the load of `sendp`
  claim_loaded : (sendp : ℕ) → Claimant  -- before the compare-and-exchange
  claim_done : Option ℕ → Claimant

-- One access. The Boolean says whether a weak compare-and-exchange fails for no reason; a failed
-- one loads `sendp` anew.
unfoldable pub step_claim : Bool → Messageq → Claimant → Messageq × Claimant
step_claim spurious mq claim_begin =
    (fetch_sub mq, if leb mq.num_free 0 then claim_refused else claim_granted)
step_claim spurious mq claim_refused = (fetch_add mq, claim_done none)
step_claim spurious mq claim_granted = (mq, claim_loaded mq.sendp)
step_claim spurious mq (claim_loaded sendp) =
    if (mq.sendp == sendp) && not spurious
    then (record mq { sendp = next_slot mq.queue_len sendp }, claim_done (some (slot mq sendp)))
    else (mq, claim_loaded mq.sendp)
step_claim spurious mq (claim_done p) = (mq, claim_done p)

abbrev pub three : Messageq → Claimant → Messageq × Claimant
three mq c =
    let (mq, c) = step_claim false mq c in
    let (mq, c) = step_claim false mq c in step_claim false mq c

-- A sender that nobody interrupts does what `messageq_claim` does.
pub claim_alone : (mq : Messageq) → three mq claim_begin ≡ ((claim mq).1, claim_done (claim mq).0)
unfolding step_claim claim slot
claim_alone mq = ground arith

module _ {mq : Messageq} {q : Spec} (r : Represents mq q) where
  open r use {some_slots, few_slots, total, past, send_at}

  -- On a full queue the message to be claimed next would take the slot of the oldest unreleased one.
  oldest_slot :
      q.held + length q.claimed ≡ mq.queue_len
      → (q.received + length q.claimed) % mq.queue_len ≡ (q.received - q.held) % mq.queue_len
  oldest_slot full =
      ap (λ n. n % mq.queue_len) {y = q.received - q.held + mq.queue_len} (omega (arith, past))
      ∙ (mod-eq-sub-mod {n = q.received - q.held + mq.queue_len} {m = mq.queue_len} (omega arith)
          ∙ ap (λ n. n % mq.queue_len) (omega arith))

  -- On a full queue, let one sender be interrupted after its `fetch_sub`, which leaves `num_free`, an
  -- unsigned char, at 255. A second sender that then calls `messageq_claim` is not refused:
  -- it is given the slot of the oldest message that is not yet released.
  pub claim_overcommits :
      q.held + length q.claimed ≡ mq.queue_len
      → let (mq', first) = step_claim false mq claim_begin in
        (first ≡ claim_refused)
        × (mq'.num_free ≡ 255)
        × ((three mq' claim_begin).1 ≡ claim_done (some (address mq (q.received - q.held))))
  unfolding step_claim slot
  claim_overcommits full = ground (arith, oldest_slot full, send_at, total)
