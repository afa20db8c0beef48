-- ===== src/Messageq/Represents.antt =====
-- How a descriptor stands for the numbered messages of its specification.
use native.Mathlib.Nat.{mod-add-mod, mod-eq_of_lt, mod-eq-sub-mod}
use native.Mathlib.Decide.{dec_lt}
use librfn.Common.{
  ℕ, zero, suc, ◌+◌, ◌-◌, ◌/◌, ◌%◌, ◌^◌, ◌≤◌, ◌<◌, ◌≡◌, refl, ◌∙◌, Bool, false, List, [], ◌++◌,
  arith, length, replicate,
}
use librfn.Common.Bits.{bit-zero}
use librfn.Common.Cyclic.{Holds}
use librfn.Messageq.{Messageq, init, next_slot}
use librfn.Messageq.Spec.{Spec}
use librfn.Messageq.Flags.{sent}

-- The marks of the claimed messages, and no mark for the other slots.
abbrev pub marks : ℕ → List Bool → List Bool
marks depth claimed = claimed ++ replicate (depth - length claimed) false

-- Message number `t` lies in slot `t % queue_len`.
pub record Represents (mq : Messageq) (q : Spec) : Type 0 where
  pub some_slots : 0 < mq.queue_len
  pub few_slots : mq.queue_len ≤ 32
  pub some_bytes : 0 < mq.msg_len
  pub few_bytes : mq.msg_len < 2 ^ 16
  pub total : mq.num_free + q.held + length q.claimed ≡ mq.queue_len
  pub past : q.held ≤ q.received
  pub receive_at : mq.receivep ≡ q.received % mq.queue_len
  pub send_at : mq.sendp ≡ (q.received + length q.claimed) % mq.queue_len
  pub flags : Holds (sent mq.full_flags) mq.queue_len mq.receivep (marks mq.queue_len q.claimed)

pub next_slot-eq-mod : (len p : ℕ) → len ≤ 2 ^ 8 → p < len → next_slot len p ≡ (p + 1) % len
unfolding next_slot
next_slot-eq-mod len p small h = elim (dec_lt (p + 1) len) [
  | yes q ↦ ground (arith, mod-eq_of_lt q)
  | no q ↦ ground (
    arith,
    mod-eq-sub-mod {n = p + 1} {m = len} (omega arith),
    mod-eq_of_lt {n = 0} {m = len} (omega arith),
  )
]

-- The pointers go on as the numbers do.
pub next_slot-mod : (len t : ℕ) → 0 < len → len ≤ 2 ^ 8 → next_slot len (t % len) ≡ (t + 1) % len
next_slot-mod len t pos small =
    next_slot-eq-mod len (t % len) small (omega arith) ∙ mod-add-mod t len 1

abbrev pub fresh : Spec
fresh = record { received = 0; held = 0; claimed = [] }

Holds-none : (len h n : ℕ) → Holds (sent 0) len h (replicate n false)
Holds-none len h zero = tt
Holds-none len h (suc n) = (rw bit-zero refl, Holds-none len ((h + 1) % len) n)

-- `messageq_init` over a memory of one to 32 messages, with a length that fits its field, gives a
-- queue with every slot free.
pub init-Represents :
    (basep base_len msg_len : ℕ)
    → 0 < msg_len
    → msg_len < 2 ^ 16
    → 0 < base_len / msg_len
    → base_len / msg_len ≤ 32
    → Represents (init basep base_len msg_len) fresh
unfolding init
init-Represents basep base_len msg_len pos small some_slots few_slots = record {
  some_slots = omega arith;
  few_slots = omega arith;
  some_bytes = omega arith;
  few_bytes = omega arith;
  total = omega arith;
  past = omega arith;
  receive_at = omega arith;
  send_at = omega arith;
  flags = Holds-none _ 0 _;
}
