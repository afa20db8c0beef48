-- ===== src/Fibre/Expired.antt =====
-- The timer queue by the time that has passed since it was in order.
use librfn.Common.{
  ℕ, ◌^◌, ◌≡◌, ◌<◌, refl, sym, ap, subst, Bool, true, false, not, List, [], ◌∷◌, ◌++◌, arith,
  length, leb, ◌==◌, ◌≢◌, if◌then◌else◌, Bool-cases, inl, inr,
}
use librfn.Common.Word.{sub32}
use librfn.LinkedList.Heap.{Ptr, null, Heap, Returns}
use librfn.LinkedList.Links.{has}
use librfn.LinkedList.Keys.{SortedBy}
use librfn.Fibre.{runq, timerq}
use librfn.Fibre.Scheduler.{is_due, handle_timerq}
use librfn.Fibre.Queues.{Fibres, Queued, without}
use librfn.Fibre.Enqueue.{Returns-map}
use librfn.Fibre.Requests.{drained_timed}
use librfn.Fibre.Timers.{due_in, Clock, Timed, due_part, later_part}
use librfn.Fibre.Expiry.{due_in_time, later_ahead, Timed-later, handle_timerq_lem}

abbrev pub keep : (Ptr → Bool) → List Ptr → List Ptr
keep f [] = []
keep f (x ∷ xs) = if f x then x ∷ keep f xs else keep f xs

-- Whether the time of the fibre, seen from `before`, has been reached by `now`.
abbrev pub expired : (Ptr → ℕ) → ℕ → ℕ → Ptr → Bool
expired duetime before now p = leb (due_in duetime before p) (sub32 now before)

abbrev pub waiting : (Ptr → ℕ) → ℕ → ℕ → Ptr → Bool
waiting duetime before now p = not (expired duetime before now p)

keep_all :
    (f : Ptr → Bool) (xs : List Ptr) → ((p : Ptr) → has p xs ≡ true → f p ≡ true) → keep f xs ≡ xs
keep_all f [] h = refl
keep_all f (x ∷ xs) h = rw (h x (ground arith), keep_all f xs (λ p i. h p (ground arith))) refl

keep_none :
    (f : Ptr → Bool) (xs : List Ptr) → ((p : Ptr) → has p xs ≡ true → f p ≡ false) → keep f xs ≡ []
keep_none f [] h = refl
keep_none f (x ∷ xs) h = rw (h x (ground arith)) (keep_none f xs (λ p i. h p (ground arith)))

-- When all of the front and none of the others have the property, the front is what has it.
parts-keep :
    (due f : Ptr → Bool) (xs : List Ptr)
    → ((p : Ptr) → has p (due_part due xs) ≡ true → f p ≡ true)
    → ((p : Ptr) → has p (later_part due xs) ≡ true → f p ≡ false)
    → (due_part due xs ≡ keep f xs) × (later_part due xs ≡ keep (λ p. not (f p)) xs)
unfolding due_part later_part
parts-keep due f [] front others = (refl, refl)
parts-keep due f (x ∷ xs) front others = elim (Bool-cases (due x)) [
  | inl h ↦
      let first : f x ≡ true = ground (arith, h, front x) in
      let (e, e') =
        parts-keep due f xs (λ p i. ground (arith, h, front p, i))
          (λ p i. ground (arith, h, others p, i)) in
      rw (h, first) (ap (λ l. x ∷ l) e, e')
  | inr h ↦
      let none_kept = keep_none f (x ∷ xs) (λ p i. ground (arith, h, others p, i)) in
      let all_kept = keep_all (λ p. not (f p)) (x ∷ xs) (λ p i. ground (arith, h, others p, i)) in
      rw h (sym none_kept, sym all_kept)
]

module _ {fibres : Ptr → Bool} (w : Fibres fibres runq timerq) (duetime : Ptr → ℕ) (before now : ℕ)
    (c : Clock duetime before) (small : now < 2 ^ 32) (soon : sub32 now before < 2 ^ 31) where
  -- The two parts of a timer queue in order are those whose time has come and the others.
  pub parts-expired :
      (timed : List Ptr)
      → Timed duetime before timed
      → ((p : Ptr) → has p timed ≡ true → fibres p ≡ true)
      → (due_part (is_due duetime now) timed ≡ keep (expired duetime before now) timed)
        × (later_part (is_due duetime now) timed ≡ keep (waiting duetime before now) timed)
        × Timed duetime now (keep (waiting duetime before now) timed)
  parts-expired timed t known =
      let real : (p : Ptr) → has p timed ≡ true → p ≢ null =
        λ p i e. ground (arith, known p i, w.not_null, ap fibres e) in
      let (front, others) =
        parts-keep (is_due duetime now) (expired duetime before now) timed
          (λ p i. ground (arith, due_in_time duetime before now c small soon t real p i))
          (λ p i. ground (arith, later_ahead duetime before now c small soon t real p i)) in
      (
        front,
        others,
        subst (Timed duetime now) others (Timed-later duetime before now c small soon t real),
      )

  -- Of a timer queue in order whose times, of 32 bits, lie ahead of `before` by less than 2^31, and with the
  -- queues valid, `handle_timerq` returns and has put behind the run queue, in order, exactly the fibres whose
  -- times have been reached by `now`, less than 2^31 later, and keeps exactly the others, which are in
  -- order and ahead of `now`. The fuel is more than the length of the timer queue.
  pub expiry_lem :
      (fuel : ℕ) {h : Heap} (ready timed : List Ptr)
      → length timed < fuel
      → Timed duetime before timed
      → Queued fibres runq timerq h ready timed
      → Returns
          (λ _ g.
            Queued fibres runq timerq g
              (ready ++ keep (expired duetime before now) timed)
              (keep (waiting duetime before now) timed)
            × Timed duetime now (keep (waiting duetime before now) timed))
          (handle_timerq duetime now fuel h)
  expiry_lem fuel {h} ready timed enough t q =
      let (front, others, later) = parts-expired timed t q.second_fibres in
      let Goal = λ (xs ys : List Ptr) (_ : Unit {0}) (g : Heap).
        Queued fibres runq timerq g (ready ++ xs) ys in
      Returns-map
        (Goal (due_part (is_due duetime now) timed) (later_part (is_due duetime now) timed))
        (λ u g.
          Goal (keep (expired duetime before now) timed) (keep (waiting duetime before now) timed) u
            g
          × Timed duetime now (keep (waiting duetime before now) timed))
        (handle_timerq duetime now fuel h)
        (λ u g q'. (
          subst (λ ys. Goal (keep (expired duetime before now) timed) ys u g) others
              (subst (λ xs. Goal xs (later_part (is_due duetime now) timed) u g) front q'),
          later,
        ))
        (handle_timerq_lem w duetime now fuel ready timed enough q)

pub has-without : (p f : Ptr) (xs : List Ptr) → has p (without f xs) ≡ true → has p xs ≡ true
unfolding without
has-without p f [] i = i
has-without p f (x ∷ xs) i = ground (arith, i, has-without p f xs)

SortedBy-without :
    (key : Ptr → ℕ) (f : Ptr) (xs : List Ptr) → SortedBy key xs → SortedBy key (without f xs)
unfolding without
SortedBy-without key f [] s = tt
SortedBy-without key f (x ∷ xs) s = elim (Bool-cases (x == f)) [
  | inl h ↦ rw h s.1
  | inr h ↦ rw h (λ p i. s.0 p (has-without p f xs i), SortedBy-without key f xs s.1)
]

-- A queue in order stays so when a fibre is taken out of it.
pub Timed-without :
    (duetime : Ptr → ℕ) (before : ℕ) (f : Ptr) (xs : List Ptr)
    → Timed duetime before xs
    → Timed duetime before (without f xs)
Timed-without duetime before f xs t = record {
  sorted = SortedBy-without (due_in duetime before) f xs t.sorted;
  ahead = λ p i. t.ahead p (has-without p f xs i);
  within = λ p i. t.within p (has-without p f xs i);
}

pub Timed-drained :
    (duetime : Ptr → ℕ) (before : ℕ) (fs xs : List Ptr)
    → Timed duetime before xs
    → Timed duetime before (drained_timed fs xs)
unfolding drained_timed
Timed-drained duetime before [] xs t = t
Timed-drained duetime before (f ∷ fs) xs t =
    Timed-without duetime before f (drained_timed fs xs) (Timed-drained duetime before fs xs t)

pub has-drained :
    (p : Ptr) (fs xs : List Ptr) → has p (drained_timed fs xs) ≡ true → has p xs ≡ true
unfolding drained_timed
has-drained p [] xs i = i
has-drained p (f ∷ fs) xs i = has-drained p fs xs (has-without p f (drained_timed fs xs) i)
