-- ===== src/Messageq/Examples.antt =====
-- Runs of a message queue on concrete inputs, and its theorems at them.
use mathlib.Core.Option
use librfn.Common.{◌+◌, ◌*◌, ◌%◌, ◌<◌, ◌≡◌, ◌≢◌, refl, false, some, [], ◌∷◌, arith}
use librfn.Messageq.{Messageq, init, slot, next_slot, next_receivep, claim, send, receive, release}
use librfn.Messageq.Spec
use librfn.Messageq.Spec.{Spec}
use librfn.Messageq.Represents.{Represents, fresh, init-Represents}
use librfn.Messageq.Refine.{address, claim_refines, send_refines, claim_fresh}
use librfn.Messageq.Receive.{receive_refines}
use librfn.Messageq.Claimants.{
  claim_begin, claim_refused, claim_done, step_claim, three, claim_overcommits,
}

-- Two messages of four bytes at address 100.
abbrev two : Messageq
two = init 100 9 4

two-Represents : Represents two fresh
two-Represents = init-Represents 100 9 4 (omega arith) (omega arith) (omega arith) (omega arith)

-- One message received and held, the next claimed but not sent.
abbrev busy : Messageq
busy = record {
  basep = 100;
  msg_len = 4;
  queue_len = 2;
  num_free = 0;
  sendp = 0;
  full_flags = 0;
  receivep = 1;
}

abbrev busy_spec : Spec
busy_spec = record { received = 1; held = 1; claimed = false ∷ [] }

busy-Represents : Represents busy busy_spec
busy-Represents = record {
  some_slots = omega arith;
  few_slots = omega arith;
  some_bytes = omega arith;
  few_bytes = omega arith;
  total = refl;
  past = omega arith;
  receive_at = refl;
  send_at = refl;
  flags = (refl, (refl, tt));
}

-- One message claimed, one slot free.
abbrev free_one : Messageq
free_one = record busy { num_free = 1; sendp = 1; receivep = 0 }

abbrev free_one_spec : Spec
free_one_spec = record { received = 0; held = 0; claimed = false ∷ [] }

free_one-Represents : Represents free_one free_one_spec
free_one-Represents = record {
  some_slots = omega arith;
  few_slots = omega arith;
  some_bytes = omega arith;
  few_bytes = omega arith;
  total = refl;
  past = omega arith;
  receive_at = refl;
  send_at = refl;
  flags = (refl, (refl, tt));
}

-- A message is claimed, sent, received at its address, and released.
round_trip :
    let (p, mq) = claim two in
    let (r, mq') = receive (send mq 100) in
    (p ≡ some 100) × (r ≡ some 100) × ((release mq' 100).num_free ≡ 2)
unfolding init claim send receive release slot next_slot next_receivep
round_trip = (refl, refl, refl)

claim_refines_example :
    let (p, mq) = claim two in
    let (t, q) = Spec.claim two.queue_len fresh in
    (p ≡ Option.map (address two) t) × Represents mq q
claim_refines_example = claim_refines two-Represents

claim_fresh_example : (claim free_one).0 ≢ some (address free_one 0)
claim_fresh_example = claim_fresh free_one-Represents 0 (omega arith) (omega arith) (omega arith)

send_refines_example :
    Represents (send busy (address busy 1)) (Spec.send busy_spec 0)
    × (address busy 1 ≡ 100 + 1 % 2 * 4)
    × (1 % 2 < 32)
send_refines_example = send_refines busy-Represents 0 (omega arith)

receive_refines_example :
    let (p, mq) = receive busy in
    let (t, q) = Spec.receive busy_spec in (p ≡ Option.map (address busy) t) × Represents mq q
receive_refines_example = receive_refines busy-Represents

claim_overcommits_example :
    let (mq, first) = step_claim false busy claim_begin in
    (first ≡ claim_refused)
    × (mq.num_free ≡ 255)
    × ((three mq claim_begin).1 ≡ claim_done (some (address busy 0)))
claim_overcommits_example = claim_overcommits busy-Represents refl
