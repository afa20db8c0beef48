-- ===== src/Fibre/Expiry.antt =====
-- `handle_timerq` makes exactly the fibres runnable that are due, in the order of their due times.
use librfn.Common.{
  ℕ, ◌^◌, ◌≡◌, ◌≢◌, ◌≤◌, ◌<◌, refl, ap, Bool, true, List, [], ◌∷◌, ◌++◌, arith, length, leb,
  Bool-cases, inl, inr,
}
use librfn.Common.Word.{sub32}
use librfn.Util.{cyclecmp32}
use librfn.LinkedList.{iterate}
use librfn.LinkedList.Heap.{Ptr, null, Heap, Returns}
use librfn.LinkedList.Links.{has, Links-first}
use librfn.LinkedList.Keys.{SortedBy}
use librfn.Fibre.{runq, timerq}
use librfn.Fibre.Scheduler.{is_due, handle_timerq}
use librfn.Fibre.Queues.{Fibres, Queued}
use librfn.Fibre.Timers.{due_in, Clock, Timed, due_part, later_part, timerq_from-lem}

module _ (due : Ptr → Bool) where
  pub due-append-later : (xs : List Ptr) → xs ≡ due_part due xs ++ later_part due xs
  unfolding due_part later_part
  due-append-later [] = refl
  due-append-later (x ∷ xs) = ground (arith, due-append-later xs)

  pub has-due_part :
      (p : Ptr) (xs : List Ptr)
      → has p (due_part due xs) ≡ true
      → (has p xs ≡ true) × (due p ≡ true)
  unfolding due_part
  has-due_part p [] i = cc
  has-due_part p (x ∷ xs) i = ground (arith, has-due_part p xs, λ (e : p ≡ x). ap due e)

  pub has-later_part :
      (p : Ptr) (xs : List Ptr) → has p (later_part due xs) ≡ true → has p xs ≡ true
  unfolding later_part
  has-later_part p [] i = cc
  has-later_part p (x ∷ xs) i = ground (arith, has-later_part p xs)

  pub length-later_part : (xs : List Ptr) → length (later_part due xs) ≤ length xs
  unfolding later_part
  length-later_part [] = omega arith
  length-later_part (x ∷ xs) = ground (arith, length-later_part xs)

  -- In an order in which what stands behind a fibre that is not due is not due, none of the others is due.
  later_not_due :
      (key : Ptr → ℕ) (e : ℕ) (xs : List Ptr)
      → SortedBy key xs
      → ((p : Ptr) → has p xs ≡ true → due p ≡ leb (key p) e)
      → (p : Ptr) → has p (later_part due xs) ≡ true
      → e < key p
  unfolding later_part
  later_not_due key e [] s d p i = cc
  later_not_due key e (x ∷ xs) s d p i = ground (
    arith,
    d x,
    s.0 p,
    λ (h : p ≡ x). ap key h,
    later_not_due key e xs s.1 (λ q j. d q (ground arith)) p,
  )

  SortedBy-later :
      (key : Ptr → ℕ) (xs : List Ptr) → SortedBy key xs → SortedBy key (later_part due xs)
  unfolding later_part
  SortedBy-later key [] s = tt
  SortedBy-later key (x ∷ xs) s = elim (Bool-cases (due x)) [
    | inl h ↦ rw h (SortedBy-later key xs s.1)
    | inr h ↦ rw h s
  ]

-- An order by one key is one by another that agrees with it.
pub SortedBy-agree :
    (key key' : Ptr → ℕ) (xs : List Ptr)
    → ((p q : Ptr) → has p xs ≡ true → has q xs ≡ true → key p ≤ key q → key' p ≤ key' q)
    → SortedBy key xs
    → SortedBy key' xs
SortedBy-agree key key' [] f s = tt
SortedBy-agree key key' (x ∷ xs) f s = (
  λ y i. f x y (ground arith) (ground arith) (s.0 y i),
  SortedBy-agree key key' xs (λ p q i j. f p q (ground arith) (ground arith)) s.1,
)

module _ (duetime : Ptr → ℕ) (before now : ℕ) (c : Clock duetime before) (small : now < 2 ^ 32)
    (soon : sub32 now before < 2 ^ 31) where
  is_due-leb :
      (p : Ptr)
      → p ≢ null
      → due_in duetime before p < 2 ^ 31
      → is_due duetime now p ≡ leb (due_in duetime before p) (sub32 now before)
  unfolding cyclecmp32
  is_due-leb p ne within = ground (arith, c.0 p, c.1)

  module _ {timed : List Ptr} (t : Timed duetime before timed)
      (real : (p : Ptr) → has p timed ≡ true → p ≢ null) where
    abbrev due : Ptr → Bool
    due = is_due duetime now

    pub later_ahead :
        (p : Ptr) → has p (later_part due timed) ≡ true → sub32 now before < due_in duetime before p
    later_ahead p i =
        later_not_due due (due_in duetime before) (sub32 now before) timed t.sorted
          (λ q j. is_due-leb q (real q j) (t.within q j)) p i

    pub due_in_time :
        (p : Ptr) → has p (due_part due timed) ≡ true → due_in duetime before p ≤ sub32 now before
    due_in_time p i =
        let (on, h) = has-due_part due p timed i in
        ground (arith, is_due-leb p (real p on) (t.within p on))

    pub Timed-later : Timed duetime now (later_part due timed)
    Timed-later = record {
      sorted =
          SortedBy-agree (due_in duetime before) (due_in duetime now) (later_part due timed)
            (λ p q i j le.
              let pi = later_ahead p i in
              let qi = later_ahead q j in
              let pw = t.within p (has-later_part due p timed i) in
              let qw = t.within q (has-later_part due q timed j) in
              omega (arith, c.0 p, c.0 q, c.1))
            (SortedBy-later due (due_in duetime before) timed t.sorted);
      ahead = λ p i.
          omega (arith, later_ahead p i, t.within p (has-later_part due p timed i), c.0 p, c.1);
      within = λ p i.
          omega (arith, later_ahead p i, t.within p (has-later_part due p timed i), c.0 p, c.1);
    }

-- `handle_timerq` moves the front of the timer queue to the end of the run queue.
pub handle_timerq_lem :
    {fibres : Ptr → Bool} (w : Fibres fibres runq timerq) (duetime : Ptr → ℕ) (now fuel : ℕ)
    {h : Heap} (ready timed : List Ptr)
    → length timed < fuel
    → Queued fibres runq timerq h ready timed
    → Returns
        (λ _ g.
          Queued fibres runq timerq g
            (ready ++ due_part (is_due duetime now) timed)
            (later_part (is_due duetime now) timed))
        (handle_timerq duetime now fuel h)
unfolding handle_timerq iterate
handle_timerq_lem {fibres} w duetime now fuel {h} ready timed enough q =
    rw (Links-first h.next timerq timed null q.second_list.links)
      (timerq_from-lem w duetime now fuel timed ready enough q)
