-- ===== src/Fibre/Ask.antt =====
-- `fibre_run_atomic` adds a request behind the others, or taints the kernel when there is no room.
use librfn.Common.{
  ℕ, zero, suc, ◌+◌, ◌≡◌, ◌≢◌, ◌≤◌, ◌<◌, refl, sym, ap, ◌∙◌, subst, Bool, true, false, none, some,
  List, [], ◌∷◌, ◌++◌, arith, length, length-append, ltb, if◌then◌else◌, replicate,
  length-replicate, set, lt→ltb, le→ltb,
}
use native.Mathlib.Decide.{dec_lt}
use librfn.LinkedList.Heap.{Ptr, update}
use librfn.Messageq
use librfn.Messageq.{Messageq}
use librfn.Messageq.Spec
use librfn.Messageq.Spec.{Spec}
use librfn.Messageq.Represents.{Represents}
use librfn.Messageq.Refine.{address, claim_refines, send_refines, claim_fresh}
use librfn.Fibre.{Kernel, pure, after, add_taint}
use librfn.Fibre.Calls.{fibre_run_atomic, fill_request, send_request}
use librfn.Fibre.Requests.{
  Requests, Stored, waiting, SameSlots, Stored-SameSlots, address-SameSlots,
}
use librfn.Fibre.Runs.{Returns}

set_last : (n : ℕ) → set (replicate n true ++ (false ∷ [])) n true ≡ replicate (suc n) true
set_last zero = refl
set_last (suc n) = ap (λ l. true ∷ l) (set_last n)

claim-SameSlots : (mq : Messageq) → SameSlots mq (Messageq.claim mq).1
unfolding Messageq.claim
claim-SameSlots mq = ground arith

send-SameSlots : (mq : Messageq) (p : ℕ) → SameSlots mq (Messageq.send mq p)
unfolding Messageq.send
send-SameSlots mq p = (refl, refl, refl)

-- A slot that none of the messages uses may be written.
Stored-update :
    (slots : Ptr → Ptr) (mq : Messageq) (p f : Ptr) (t : ℕ) (fs : List Ptr)
    → ((u : ℕ) → t ≤ u → u < t + length fs → address mq u ≢ p)
    → Stored slots mq t fs
    → Stored (update slots p f) mq t fs
Stored-update slots mq p f t [] other s = tt
Stored-update slots mq p f t (x ∷ fs) other (s, ss) = (
  ground (arith, other t (omega arith) (omega arith)),
  Stored-update slots mq p f (t + 1) fs (λ u lo hi. other u (omega arith) (omega arith)) ss,
)

Stored-append :
    (slots : Ptr → Ptr) (mq : Messageq) (f : Ptr) (t : ℕ) (fs : List Ptr)
    → Stored slots mq t fs
    → slots (address mq (t + length fs)) ≡ f
    → Stored slots mq t (fs ++ (f ∷ []))
Stored-append slots mq f t [] s e = (ap (λ u. slots (address mq u)) (omega arith) ∙ e, tt)
Stored-append slots mq f t (x ∷ fs) (s, ss) e =
    (s, Stored-append slots mq f (t + 1) fs ss (ap (λ u. slots (address mq u)) (omega arith) ∙ e))

-- The requests, and what of the kernel may differ, after a call that said whether it had room.
pub record Asked (k k' : Kernel) (f : Ptr) (held : ℕ) (pending : List Ptr) (b : Bool) : Type 0 where
  pub room : b ≡ ltb (held + length pending) k.atomic_runq.queue_len
  pub requests : Requests k' held (if b then pending ++ (f ∷ []) else pending)
  pub same_depth : k'.atomic_runq.queue_len ≡ k.atomic_runq.queue_len
  pub only :
      k' ≡ record k { atomic_runq = k'.atomic_runq; slots = k'.slots; taint_flags = k'.taint_flags }

module _ (k : Kernel) (f : Ptr) (held : ℕ) (pending : List Ptr) (r : Requests k held pending) where
  marks-length : length (replicate (length pending) true) ≡ length pending
  marks-length = length-replicate (length pending) true

  -- The slot that is given out, and the message queue with that message claimed.
  claim_room :
      held + length pending < k.atomic_runq.queue_len
      → ((Messageq.claim k.atomic_runq).0
          ≡ some (address k.atomic_runq (r.received + length pending)))
        × Represents (Messageq.claim k.atomic_runq).1 (record {
          received = r.received;
          held = held;
          claimed = replicate (length pending) true ++ (false ∷ []);
        })
  unfolding Spec.claim
  claim_room room =
      let c = claim_refines r.queue in
      let ok = lt→ltb (held + length pending) k.atomic_runq.queue_len room in
      (rw (marks-length, ok) at c)

  claim_full :
      k.atomic_runq.queue_len ≤ held + length pending
      → ((Messageq.claim k.atomic_runq).0 ≡ none)
        × Represents (Messageq.claim k.atomic_runq).1 (waiting r.received held pending)
  unfolding Spec.claim
  claim_full full =
      let c = claim_refines r.queue in
      let no_room = le→ltb (held + length pending) k.atomic_runq.queue_len full in
      (rw (marks-length, no_room) at c)

  module _ (room : held + length pending < k.atomic_runq.queue_len) where
    abbrev fresh_slot : ℕ
    fresh_slot = address k.atomic_runq (r.received + length pending)

    abbrev after_claim : Messageq
    after_claim = (Messageq.claim k.atomic_runq).1

    abbrev after_send : Messageq
    after_send = Messageq.send after_claim fresh_slot

    sent_queue : Represents after_send (waiting r.received held (pending ++ (f ∷ [])))
    unfolding Spec.send
    sent_queue =
        let n = length pending in
        let same =
          address-SameSlots k.atomic_runq after_claim (r.received + n)
            (claim-SameSlots k.atomic_runq) in
        let marks : List Bool → Spec =
          λ bs. record { received = r.received; held = held; claimed = bs } in
        let longer : suc n ≡ length (pending ++ (f ∷ [])) =
          omega (arith, length-append pending (f ∷ [])) in
        let last = set_last n in
        let claimed = claim_room room in
        let within : n < length (replicate n true ++ (false ∷ [])) =
          omega (arith, length-append (replicate n true) (false ∷ []), marks-length) in
        let sent = (send_refines claimed.1 n within).0 in
        subst (λ bs. Represents after_send (marks bs)) (last ∙ ap (λ m. replicate m true) longer)
          (subst
            (λ p.
              Represents (Messageq.send after_claim p)
                (marks (set (replicate n true ++ (false ∷ [])) n true)))
            same sent)

    sent_slots : Stored (update k.slots fresh_slot f) after_send r.received (pending ++ (f ∷ []))
    sent_slots =
        let slots = update k.slots fresh_slot f in
        let other =
          λ (u : ℕ) (lo : r.received ≤ u) (hi : u < r.received + length pending)
              (e : address k.atomic_runq u ≡ fresh_slot).
            claim_fresh r.queue u (omega (arith, room, marks-length)) (omega arith)
              (omega (arith, marks-length)) ((claim_room room).0 ∙ ap (λ p. some p) (sym e)) in
        let kept =
          Stored-update k.slots k.atomic_runq fresh_slot f r.received pending other r.stored in
        let all = Stored-append slots k.atomic_runq f r.received pending kept (ground arith) in
        Stored-SameSlots slots after_claim after_send r.received (pending ++ (f ∷ []))
          (send-SameSlots after_claim fresh_slot)
          (Stored-SameSlots slots k.atomic_runq after_claim r.received (pending ++ (f ∷ []))
            (claim-SameSlots k.atomic_runq) all)

  abbrev claimed_kernel : Kernel
  claimed_kernel = record k { atomic_runq = (Messageq.claim k.atomic_runq).1 }

  run_atomic-some :
      (p : Ptr)
      → (Messageq.claim k.atomic_runq).0 ≡ some p
      → fibre_run_atomic f k ≡ send_request f p claimed_kernel
  unfolding fibre_run_atomic fill_request
  run_atomic-some p e = ap (λ slot. fill_request f slot claimed_kernel) e

  run_atomic-none :
      (Messageq.claim k.atomic_runq).0 ≡ none
      → fibre_run_atomic f k ≡ after (add_taint b'A' claimed_kernel) (λ _. pure false)
  unfolding fibre_run_atomic fill_request
  run_atomic-none e = ap (λ slot. fill_request f slot claimed_kernel) e

  -- A request is stored behind the others exactly when there is room for it.
  pub run_atomic_lem : Returns (λ b k'. Asked k k' f held pending b) (fibre_run_atomic f k)
  unfolding send_request add_taint
  run_atomic_lem = elim (dec_lt (held + length pending) k.atomic_runq.queue_len) [
    | yes room ↦ rw (run_atomic-some (fresh_slot room) (claim_room room).0) (record {
      room = sym (lt→ltb (held + length pending) k.atomic_runq.queue_len room);
      requests = record {
        received = r.received;
        queue = sent_queue room;
        stored = sent_slots room;
      };
      same_depth =
          (send-SameSlots (after_claim room) (fresh_slot room)).2
          ∙ (claim-SameSlots k.atomic_runq).2;
      only = refl;
    })
    | no full ↦ rw (run_atomic-none (claim_full (omega arith)).0) (record {
      room = sym (le→ltb (held + length pending) k.atomic_runq.queue_len (omega arith));
      requests = record {
        received = r.received;
        queue = (claim_full (omega arith)).1;
        stored =
            Stored-SameSlots k.slots k.atomic_runq (Messageq.claim k.atomic_runq).1 r.received
              pending (claim-SameSlots k.atomic_runq) r.stored;
      };
      same_depth = (claim-SameSlots k.atomic_runq).2;
      only = refl;
    })
  ]
