-- ===== src/Fibre/Requests.antt =====
-- The requests of `fibre_run_atomic` that wait in the message queue, and how they are handled.
use librfn.Common.{
  ℕ, suc, ◌+◌, ◌≡◌, ◌≤◌, refl, ap, ◌∙◌, subst, Bool, true, none, some, List, [], ◌∷◌, arith, length,
  length-append, replicate,
}
use librfn.LinkedList.Heap.{Ptr}
use librfn.Messageq
use librfn.Messageq.{Messageq, slot}
use librfn.Messageq.Spec
use librfn.Messageq.Spec.{Spec}
use librfn.Messageq.Represents.{Represents}
use librfn.Messageq.Refine.{address}
use librfn.Messageq.Receive.{receive_refines, release_refines}
use librfn.Fibre.{Kernel, done, receive_request}
use librfn.Fibre.Queues.{without, length-without}
use librfn.Fibre.Enqueue.{made_ready}

-- The slots from message number `t` on hold the fibres `fs`.
abbrev pub Stored : (Ptr → Ptr) → Messageq → ℕ → List Ptr → Type 0
Stored slots mq t [] = Unit
Stored slots mq t (f ∷ fs) = (slots (address mq t) ≡ f) × Stored slots mq (t + 1) fs

abbrev pub waiting : ℕ → ℕ → List Ptr → Spec
waiting received held pending = record {
  received = received;
  held = held;
  claimed = replicate (length pending) true;
}

-- The requests for `pending`, oldest first, have been sent and not received, and `held` others are
-- received and not released.
pub record Requests (k : Kernel) (held : ℕ) (pending : List Ptr) : Type 0 where
  pub received : ℕ
  pub queue : Represents k.atomic_runq (waiting received held pending)
  pub stored : Stored k.slots k.atomic_runq received pending

-- The parts of a message queue that fix where its slots lie.
abbrev pub SameSlots : Messageq → Messageq → Type 0
SameSlots mq mq' =
    (mq'.basep ≡ mq.basep) × (mq'.msg_len ≡ mq.msg_len) × (mq'.queue_len ≡ mq.queue_len)

pub address-SameSlots :
    (mq mq' : Messageq) (t : ℕ) → SameSlots mq mq' → address mq' t ≡ address mq t
unfolding slot
address-SameSlots mq mq' t (b, m, q) = rw (b, m, q) refl

pub Stored-SameSlots :
    (slots : Ptr → Ptr) (mq mq' : Messageq) (t : ℕ) (fs : List Ptr)
    → SameSlots mq mq'
    → Stored slots mq t fs
    → Stored slots mq' t fs
Stored-SameSlots slots mq mq' t [] same s = tt
Stored-SameSlots slots mq mq' t (f ∷ fs) same (s, ss) = (
  ap slots (address-SameSlots mq mq' t same) ∙ s,
  Stored-SameSlots slots mq mq' (t + 1) fs same ss,
)

pub receive-SameSlots : (mq : Messageq) → SameSlots mq (Messageq.receive mq).1
unfolding Messageq.receive
receive-SameSlots mq = ground arith

-- What handling the requests makes of the two queues: the last request comes first.
unfoldable pub drained : List Ptr → List Ptr → List Ptr
drained [] ready = ready
drained (f ∷ fs) ready = made_ready f (drained fs ready)

unfoldable pub drained_timed : List Ptr → List Ptr → List Ptr
drained_timed [] timed = timed
drained_timed (f ∷ fs) timed = without f (drained_timed fs timed)

pub length-made_ready : (f : Ptr) (xs : List Ptr) → length (made_ready f xs) ≤ suc (length xs)
unfolding made_ready
length-made_ready f xs = ground (arith, length-append xs (f ∷ []))

pub length-drained : (fs ready : List Ptr) → length (drained fs ready) ≤ length ready + length fs
unfolding drained
length-drained [] ready = omega arith
length-drained (f ∷ fs) ready =
    omega (arith, length-made_ready f (drained fs ready), length-drained fs ready)

pub length-drained_timed : (fs timed : List Ptr) → length (drained_timed fs timed) ≤ length timed
unfolding drained_timed
length-drained_timed [] timed = omega arith
length-drained_timed (f ∷ fs) timed =
    omega (arith, length-without f (drained_timed fs timed), length-drained_timed fs timed)

abbrev pub AllFibres : (Ptr → Bool) → List Ptr → Type 0
AllFibres fibres [] = Unit
AllFibres fibres (f ∷ fs) = (fibres f ≡ true) × AllFibres fibres fs

pub receive_none :
    {k : Kernel} {held : ℕ}
    → Requests k held []
    → (mq : Messageq) × (receive_request k ≡ done none (record k { atomic_runq = mq }))
      × Requests (record k { atomic_runq = mq }) held []
unfolding receive_request Spec.receive Spec.receive_claimed
receive_none {k} {held} r =
    let (p, kept) = receive_refines r.queue in
    (
      (Messageq.receive k.atomic_runq).1,
      ap (λ p. done p (record k { atomic_runq = (Messageq.receive k.atomic_runq).1 })) p,
      record { received = r.received; queue = kept; stored = tt },
    )

pub receive_some :
    {k : Kernel} {held : ℕ} (f : Ptr) (fs : List Ptr)
    → Requests k held (f ∷ fs)
    → (p : ℕ) × (mq : Messageq) × (receive_request k
        ≡ done (some p) (record k { atomic_runq = mq }))
      × (k.slots p ≡ f)
      × Requests (record k { atomic_runq = mq }) (held + 1) fs
unfolding receive_request Spec.receive Spec.receive_claimed
receive_some {k} {held} f fs r =
    let (p, kept) = receive_refines r.queue in
    let mq = (Messageq.receive k.atomic_runq).1 in
    (
      address k.atomic_runq r.received,
      mq,
      ap (λ p. done p (record k { atomic_runq = mq })) p,
      r.stored.0,
      record {
        received = r.received + 1;
        queue = kept;
        stored =
            Stored-SameSlots k.slots k.atomic_runq mq (r.received + 1) fs
              (receive-SameSlots k.atomic_runq) r.stored.1;
      },
    )

pub release_one :
    {k : Kernel} {held : ℕ} (p : Ptr)
    → Requests k (held + 1) []
    → Requests (record k { atomic_runq = Messageq.release k.atomic_runq p }) held []
unfolding Spec.release
release_one {k} {held} p r = record {
  received = r.received;
  queue =
      subst (λ n. Represents (Messageq.release k.atomic_runq p) (waiting r.received n []))
        (omega arith) (release_refines r.queue p (omega arith));
  stored = tt;
}
