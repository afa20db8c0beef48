-- ===== src/Messageq/Refine.antt =====
-- Every call of a message queue does what its specification says, with nobody interrupting it.
use native.Mathlib.Nat.{mod-add-mod, mul-div_cancel}
use native.Mathlib.Decide.{dec_lt}
use mathlib.Core.Option
use librfn.Common.{
  length-replicate, ℕ, ◌+◌, ◌-◌, ◌*◌, ◌/◌, ◌%◌, ◌^◌, ◌≤◌, ◌<◌, ◌≡◌, ◌≢◌, refl, sym, ap, ◌∙◌, true,
  false, none, some, [], ◌∷◌, ◌++◌, arith, length, replicate, set, length-append, length-set,
  set-append, lt→ltb, le→ltb, eq_of_some,
}
use librfn.Common.Cyclic
use librfn.Common.Cyclic.{add-mod-ne}
use librfn.Messageq.{Messageq, slot, claim, send}
use librfn.Messageq.Spec
use librfn.Messageq.Spec.{Spec}
use librfn.Messageq.Flags.{sent-bit_or, SameBut-bit_or, append-replicate}
use librfn.Messageq.Represents.{marks, Represents, next_slot-mod}

-- The address of message number `t`.
abbrev pub address : Messageq → ℕ → ℕ
address mq t = slot mq (t % mq.queue_len)

offset_lem :
    (base i len : ℕ) → i < 32 → 0 < len → len < 2 ^ 16 → (base + i * len - base) % 2 ^ 32 / len ≡ i
offset_lem base i len hi pos hl = ap (λ n. n / len) fits ∙ mul-div_cancel i pos
  where
    small : i * len ≤ 32 * len
    small = grind arith

    fits : (base + i * len - base) % 2 ^ 32 ≡ i * len
    fits = omega (arith, small)

module _ {mq : Messageq} {q : Spec} (r : Represents mq q) where
  open r use {some_slots, few_slots, some_bytes, few_bytes, total, receive_at, send_at, flags, past}

  pub claim-none : q.held + length q.claimed ≡ mq.queue_len → claim mq ≡ (none, mq)
  unfolding claim
  claim-none full = ground arith

  claim-some :
      q.held + length q.claimed < mq.queue_len
      → claim mq ≡ (
        some (address mq (q.received + length q.claimed)),
        record mq {
          num_free = mq.num_free - 1;
          sendp = (q.received + length q.claimed + 1) % mq.queue_len;
        },
      )
  unfolding claim slot
  claim-some room = ground (arith, next_slot-mod mq.queue_len (q.received + length q.claimed))

  marks-claimed :
      q.held + length q.claimed < mq.queue_len
      → marks mq.queue_len (q.claimed ++ (false ∷ [])) ≡ marks mq.queue_len q.claimed
  marks-claimed room =
      ap (λ n. (q.claimed ++ (false ∷ [])) ++ replicate n false)
        (omega (arith, length-append q.claimed (false ∷ [])))
      ∙ append-replicate false q.claimed (mq.queue_len - length q.claimed) (omega arith)

  -- `messageq_claim` gives the slot of the next message, or NULL when all are taken.
  pub claim_refines :
      let (p, mq') = claim mq in
      let (t, q') = Spec.claim mq.queue_len q in (p ≡ Option.map (address mq) t) × Represents mq' q'
  unfolding Spec.claim
  claim_refines = elim (dec_lt (q.held + length q.claimed) mq.queue_len) [
    | yes room ↦
        rw (lt→ltb (q.held + length q.claimed) mq.queue_len room, claim-some room)
          (
            refl,
            record {
              some_slots = some_slots;
              few_slots = few_slots;
              some_bytes = some_bytes;
              few_bytes = few_bytes;
              total = omega (arith, length-append q.claimed (false ∷ []));
              past = past;
              receive_at = receive_at;
              send_at =
                  ap (λ n. n % mq.queue_len) (omega (arith, length-append q.claimed (false ∷ [])));
              flags = rw (marks-claimed room) flags;
            },
          )
    | no full ↦
        rw (le→ltb (q.held + length q.claimed) mq.queue_len (omega arith), claim-none (omega arith))
          (refl, r)
  ]

  -- The slot of the `k`th claimed message.
  abbrev index : ℕ → ℕ
  index k = (q.received + k) % mq.queue_len

  offset_of_slot :
      (k : ℕ) → (address mq (q.received + k) - mq.basep) % 2 ^ 32 / mq.msg_len ≡ index k
  unfolding slot
  offset_of_slot k = offset_lem mq.basep (index k) mq.msg_len (omega arith) some_bytes few_bytes

  index_from_receivep : (k : ℕ) → index k ≡ (mq.receivep + k) % mq.queue_len
  index_from_receivep k = rw receive_at (sym (mod-add-mod q.received mq.queue_len k))

  pub length-marks : length (marks mq.queue_len q.claimed) ≡ mq.queue_len
  length-marks =
      length-append q.claimed (replicate (mq.queue_len - length q.claimed) false)
      ∙ (rw length-replicate (omega arith))

  marks-set :
      (k : ℕ)
      → k < length q.claimed
      → marks mq.queue_len (set q.claimed k true) ≡ set (marks mq.queue_len q.claimed) k true
  marks-set k h =
      ap (λ n. set q.claimed k true ++ replicate (mq.queue_len - n) false)
        (length-set q.claimed k true)
      ∙ sym (set-append q.claimed (replicate (mq.queue_len - length q.claimed) false) k true h)

  -- `messageq_send` of the slot of the `k`th claimed message marks that message as sent; its flag
  -- is one of the 32 of the word.
  pub send_refines :
      (k : ℕ)
      → k < length q.claimed
      → Represents (send mq (address mq (q.received + k))) (Spec.send q k)
        × (address mq (q.received + k) ≡ mq.basep + index k * mq.msg_len)
        × (index k < 32)
  unfolding send Spec.send slot
  send_refines k h = (
    rw (offset_of_slot k) (record {
      some_slots = some_slots;
      few_slots = few_slots;
      some_bytes = some_bytes;
      few_bytes = few_bytes;
      total = rw length-set total;
      past = past;
      receive_at = receive_at;
      send_at = rw length-set send_at;
      flags = rw (marks-set k h) (
          Cyclic.Holds-set (SameBut-bit_or mq.full_flags (index k) mq.queue_len) true
            (marks mq.queue_len q.claimed) mq.receivep k (sent-bit_or mq.full_flags (index k))
            (omega arith) (omega (arith, length-marks)) (omega (arith, length-marks))
            (index_from_receivep k) flags);
    }),
    refl,
    omega arith,
  )

  address-injective : (t u : ℕ) → address mq t ≡ address mq u → t % mq.queue_len ≡ u % mq.queue_len
  unfolding slot
  address-injective t u e =
      sym (mul-div_cancel (t % mq.queue_len) some_bytes)
      ∙ (ap (λ n. n / mq.msg_len) (omega (arith, e)) ∙ mul-div_cancel (u % mq.queue_len) some_bytes)

  -- No slot is given out twice: the address of the next message is that of no message that is
  -- claimed and not yet released.
  pub claim_fresh :
      (t : ℕ)
      → q.held + length q.claimed < mq.queue_len
      → q.received ≤ t + q.held
      → t < q.received + length q.claimed
      → (claim mq).0 ≢ some (address mq t)
  claim_fresh t room from to e = apart (
      address-injective (q.received + length q.claimed) t
        (eq_of_some (sym (ap (λ c. c.0) (claim-some room)) ∙ e)))
    where
      apart : (q.received + length q.claimed) % mq.queue_len ≢ t % mq.queue_len
      apart same =
          add-mod-ne mq.queue_len (t % mq.queue_len) (q.received + length q.claimed - t)
            (omega (arith, some_slots)) (omega arith) (omega arith)
            (mod-add-mod t mq.queue_len (q.received + length q.claimed - t)
              ∙ (ap (λ n. n % mq.queue_len) (omega arith) ∙ same))
