-- ===== src/Messageq/Receive.antt =====
-- The receiver's calls of a message queue do what its specification says.
use Prim.Native.Nat.{bit_and}
use native.Mathlib.Nat.{mod-add-mod, mod-eq_of_lt, add-zero, sub-zero}
use mathlib.Core.Option
use librfn.Common.{
  length-replicate, ℕ, suc, ◌+◌, ◌^◌, ◌-◌, ◌%◌, ◌≤◌, ◌<◌, ◌≡◌, refl, sym, subst, ap, ◌∙◌, Bool,
  true, false, Option, none, some, List, [], ◌∷◌, ◌++◌, append_assoc, arith, length, replicate,
  length-append,
}
use librfn.Common.Cyclic
use librfn.Common.Cyclic.{Holds, mod_shift, mod_round}
use librfn.Messageq.{Messageq, slot, next_slot, next_receivep, all_but, receive, release, empty}
use librfn.Messageq.Spec
use librfn.Messageq.Spec.{Spec}
use librfn.Messageq.Flags.{
  sent, sent-bit_and, SameBut-bit_and, test_flag, replicate-append, replicate-pos,
}
use librfn.Messageq.Represents.{marks, Represents, next_slot-mod}
use librfn.Messageq.Refine.{address, length-marks}

abbrev pub is_none {ℓ} : {A : Type ℓ} → Option A → Bool
is_none none = true
is_none (some _) = false

is_none-map : (f : ℕ → ℕ) (o : Option ℕ) → is_none (Option.map f o) ≡ is_none o
is_none-map f none = refl
is_none-map f (some x) = refl

empty-receive : (mq : Messageq) → empty mq ≡ is_none (receive mq).0
unfolding empty receive
empty-receive mq = ground arith

next_receivep-eq-next_slot :
    (len p : ℕ) → 0 < len → len ≤ 2 ^ 8 → next_receivep len p ≡ next_slot len p
unfolding next_receivep next_slot
next_receivep-eq-next_slot len p pos small = rw same refl
  where
    same : (len + (2 ^ 32 - 1)) % 2 ^ 32 ≡ len - 1
    same = omega arith

module _ {mq : Messageq} {q : Spec} (r : Represents mq q) where
  open r use {some_slots, few_slots, some_bytes, few_bytes, total, receive_at, send_at, flags, past}

  -- The descriptor with the flag at the read pointer cleared.
  abbrev cleared : Messageq
  cleared = record mq { full_flags = bit_and mq.full_flags (all_but mq.receivep) }

  receivep_in : mq.receivep < mq.queue_len
  receivep_in = rw receive_at (omega arith)

  same_but : Cyclic.SameBut mq.queue_len mq.receivep (sent mq.full_flags) (sent cleared.full_flags)
  same_but =
      SameBut-bit_and mq.full_flags mq.receivep (omega (arith, receivep_in)) mq.queue_len few_slots

  now_clear : sent cleared.full_flags mq.receivep ≡ false
  now_clear = sent-bit_and mq.full_flags mq.receivep (omega (arith, receivep_in))

  -- The first message is not sent, or there is none: clearing its flag changes nothing.
  receive-none :
      (rest : List Bool)
      → marks mq.queue_len q.claimed ≡ false ∷ rest
      → (receive mq ≡ (none, cleared)) × Represents cleared q
  unfolding receive
  receive-none rest e = (
    rw (test_flag mq.full_flags mq.receivep head.0) refl,
    record {
      some_slots = some_slots;
      few_slots = few_slots;
      some_bytes = some_bytes;
      few_bytes = few_bytes;
      total = total;
      past = past;
      receive_at = receive_at;
      send_at = send_at;
      flags = rw e (
          Cyclic.Holds-set same_but false (false ∷ rest) mq.receivep 0 now_clear receivep_in
            (omega arith) (omega (arith, ap length e, length-marks r))
            (sym (rw add-zero (mod-eq_of_lt receivep_in))) head);
    },
  )
    where
      head : Holds (sent mq.full_flags) mq.queue_len mq.receivep (false ∷ rest)
      head = subst (Holds (sent mq.full_flags) mq.queue_len mq.receivep) e flags

  first :
      (c : List Bool)
      → q.claimed ≡ c
      → Holds (sent mq.full_flags) mq.queue_len mq.receivep (marks mq.queue_len c)
  first c e =
      subst (λ c. Holds (sent mq.full_flags) mq.queue_len mq.receivep (marks mq.queue_len c)) e
        flags

  -- Past a sent message stand the other marks, and the slot itself is free again.
  flags_past :
      (rest : List Bool)
      → q.claimed ≡ true ∷ rest
      → Holds
          (sent cleared.full_flags)
          mq.queue_len
          ((mq.receivep + 1) % mq.queue_len)
          (marks mq.queue_len rest)
  flags_past rest e = rw padded (
      Cyclic.Holds-append (sent cleared.full_flags) mq.queue_len false tail
        ((mq.receivep + 1) % mq.queue_len) (omega (arith, some_slots))
        (rw (length-tail, mod_round mq.queue_len mq.receivep receivep_in) now_clear)
        (Cyclic.Holds-away same_but tail ((mq.receivep + 1) % mq.queue_len) (mq.queue_len - 1)
          (omega (arith, some_slots)) (omega (arith, length-tail)) (omega (arith, some_slots))
          (sym (mod_round mq.queue_len mq.receivep receivep_in)) whole.1))
    where
      tail : List Bool
      tail = rest ++ replicate (mq.queue_len - suc (length rest)) false

      whole : Holds (sent mq.full_flags) mq.queue_len mq.receivep (true ∷ tail)
      whole = first (true ∷ rest) e

      short : suc (length rest) ≤ mq.queue_len
      short = omega (arith, ap length e, total)

      length-tail : length tail ≡ mq.queue_len - 1
      length-tail =
          length-append rest (replicate (mq.queue_len - suc (length rest)) false)
          ∙ (rw length-replicate (omega (arith, short)))

      padded : marks mq.queue_len rest ≡ tail ++ (false ∷ [])
      padded =
          rw (append_assoc, replicate-append)
            (ap (λ n. rest ++ replicate n false) {y = suc (mq.queue_len - suc (length rest))}
              (omega (arith, short)))

  -- The first message is sent.
  receive-some :
      (rest : List Bool)
      → q.claimed ≡ true ∷ rest
      → (receive mq ≡ (
        some (address mq q.received),
        record cleared { receivep = (q.received + 1) % mq.queue_len },
      ))
        × Represents
            (record cleared { receivep = (q.received + 1) % mq.queue_len })
            (record { received = q.received + 1; held = q.held + 1; claimed = rest })
  unfolding receive slot
  receive-some rest e = (
    ground (arith, test_flag mq.full_flags mq.receivep head, next, at),
    record {
      some_slots = some_slots;
      few_slots = few_slots;
      some_bytes = some_bytes;
      few_bytes = few_bytes;
      total = omega (arith, total, ap length e);
      past = omega (arith, past);
      receive_at = refl;
      send_at = rw send_at (ap (λ n. n % mq.queue_len) (omega (arith, ap length e)));
      flags = rw next' (flags_past rest e);
    },
  )
    where
      at : mq.receivep ≡ q.received % mq.queue_len
      at = receive_at

      next' : (q.received + 1) % mq.queue_len ≡ (mq.receivep + 1) % mq.queue_len
      next' = rw at (sym (mod-add-mod q.received mq.queue_len 1))

      next : next_receivep mq.queue_len mq.receivep ≡ (q.received + 1) % mq.queue_len
      next =
          next_receivep-eq-next_slot mq.queue_len mq.receivep some_slots (omega (arith, few_slots))
          ∙ (rw at (next_slot-mod mq.queue_len q.received some_slots (omega (arith, few_slots))))

      head : sent mq.full_flags mq.receivep ≡ true
      head = (first (true ∷ rest) e).0

  receive_of :
      (c : List Bool)
      → q.claimed ≡ c
      → let (p, mq') = receive mq in
        let (t, q') = Spec.receive_claimed c q in
        (p ≡ Option.map (address mq) t) × Represents mq' q'
  unfolding Spec.receive_claimed
  receive_of [] e =
      let (same, kept) =
        receive-none (replicate (mq.queue_len - 1) false)
          (rw (e, sub-zero) (replicate-pos false mq.queue_len some_slots)) in
      rw same (refl, kept)
  receive_of (false ∷ c) e =
      let (same, kept) =
        receive-none (c ++ replicate (mq.queue_len - suc (length c)) false) (rw e refl) in
      rw same (refl, kept)
  receive_of (true ∷ c) e = let (same, kept) = receive-some c e in rw same (refl, kept)

  -- `messageq_receive` gives the slot of the oldest claimed message if that has been sent, and NULL
  -- otherwise, whatever else has been sent.
  pub receive_refines :
      let (p, mq') = receive mq in
      let (t, q') = Spec.receive q in (p ≡ Option.map (address mq) t) × Represents mq' q'
  unfolding Spec.receive
  receive_refines = receive_of q.claimed refl

  -- `messageq_release` gives one held slot back.
  pub release_refines : (msg : ℕ) → 0 < q.held → Represents (release mq msg) (Spec.release q)
  unfolding release Spec.release
  release_refines msg h = record {
    some_slots = some_slots;
    few_slots = few_slots;
    some_bytes = some_bytes;
    few_bytes = few_bytes;
    total = omega (arith, total, few_slots);
    past = omega (arith, past);
    receive_at = receive_at;
    send_at = send_at;
    flags = flags;
  }

  -- `messageq_empty` says whether the next receive would give NULL.
  pub empty_refines : empty mq ≡ is_none (Spec.receive q).0
  empty_refines =
      empty-receive mq
      ∙ (ap is_none receive_refines.0 ∙ is_none-map (address mq) (Spec.receive q).0)
