-- ===== src/Fibre/Timers.antt =====
-- The timer queue is in the order of the due times, as long as these lie less than 2^31 ahead.
use librfn.Common.{
  ℕ, zero, suc, ◌^◌, ◌≡◌, ◌<◌, subst, Bool, true, List, [], ◌∷◌, ◌++◌, append-nil, append_assoc,
  arith, length, if◌then◌else◌, Bool-cases, inl, inr,
}
use librfn.Common.Word.{sub32}
use librfn.LinkedList.{insert, iterator_remove}
use librfn.LinkedList.Heap
use librfn.LinkedList.Heap.{Ptr, null, Heap, update, Returns}
use librfn.LinkedList.Links.{has, first}
use librfn.LinkedList.Insert.{at}
use librfn.LinkedList.Extract.{Removed, iterator_remove_lem}
use librfn.LinkedList.Keys.{SortedBy, Compares}
use librfn.Fibre.{runq, timerq}
use librfn.Fibre.Calls.{duetime_cmp}
use librfn.Fibre.Scheduler.{is_due, timerq_from}
use librfn.Fibre.Queues.{Fibres, Fibres-swap, Queued, Queued-swap, Queued-remove, gone}
use librfn.Fibre.Enqueue.{and_then-Returns, insert_first}

-- How far ahead of `now` a fibre is due.
abbrev pub due_in : (Ptr → ℕ) → ℕ → Ptr → ℕ
due_in duetime now p = sub32 (duetime p) now

-- Both are `uint32_t`.
abbrev pub Clock : (Ptr → ℕ) → ℕ → Type 0
Clock duetime now = ((p : Ptr) → duetime p < 2 ^ 32) × (now < 2 ^ 32)

pub record Timed (duetime : Ptr → ℕ) (now : ℕ) (timed : List Ptr) : Type 0 where
  pub sorted : SortedBy (due_in duetime now) timed
  pub ahead : (p : Ptr) → has p timed ≡ true → 0 < due_in duetime now p
  pub within : (p : Ptr) → has p timed ≡ true → due_in duetime now p < 2 ^ 31

-- The order of two times that lie less than 2^31 ahead is that of the comparison.
pub duetime_cmp-Compares :
    (duetime : Ptr → ℕ) (now : ℕ) (xs : List Ptr)
    → Clock duetime now
    → ((p : Ptr) → has p xs ≡ true → due_in duetime now p < 2 ^ 31)
    → Compares (duetime_cmp duetime) (due_in duetime now) xs
unfolding duetime_cmp
duetime_cmp-Compares duetime now xs (small, now_small) within a b i j =
    ground (arith, small a, small b, now_small, within a i, within b j)

-- The fibres at the front that are due, and the others.
module _ (due : Ptr → Bool) where
  unfoldable pub due_part : List Ptr → List Ptr
  due_part [] = []
  due_part (x ∷ xs) = if due x then x ∷ due_part xs else []

  unfoldable pub later_part : List Ptr → List Ptr
  later_part [] = []
  later_part (x ∷ xs) = if due x then later_part xs else x ∷ xs

module _ {fibres : Ptr → Bool} (w : Fibres fibres runq timerq) (duetime : Ptr → ℕ) (now : ℕ) where
  -- One round of the loop, for a fibre that is due.
  round :
      {h : Heap} (k : Ptr → Heap.Cmd (Unit {0})) (Q : Unit {0} → Heap → Type 0) (x : Ptr)
      (ready timed : List Ptr)
      → Queued fibres runq timerq h ready (x ∷ timed)
      → ((g : Heap)
          → Queued fibres runq timerq g (ready ++ (x ∷ [])) timed
          → Returns Q (k (first timed null) g))
      → Returns Q (
          Heap.and_then
            (iterator_remove (at timerq []) h)
            (λ next. Heap.◌>>◌ (insert runq x) (k next)))
  round {h} k Q x ready timed q next =
      and_then-Returns (λ n g. (n ≡ first timed null) × Removed h timerq x [] timed g) Q
        (iterator_remove (at timerq []) h) (λ next. Heap.◌>>◌ (insert runq x) (k next))
        (iterator_remove_lem x [] timed q.second_list)
        (λ n g (e, out).
          let q' = Queued-remove (Fibres-swap w) x [] timed (Queued-swap q) out in
          let (off, missing) = gone (Fibres-swap w) x [] timed (Queued-swap q) out.1 in
          and_then-Returns (λ _ g. Queued fibres runq timerq g (ready ++ (x ∷ [])) timed) Q
            (insert runq x g) (λ _. k n)
            (insert_first w x ready timed (Queued-swap q') (q.second_fibres x (ground arith))
              missing off)
            (λ _ g' q''. rw e (next g' q'')))

  pub timerq_from-lem :
      (fuel : ℕ) {h : Heap} (timed ready : List Ptr)
      → length timed < fuel
      → Queued fibres runq timerq h ready timed
      → Returns
          (λ _ g.
            Queued fibres runq timerq g
              (ready ++ due_part (is_due duetime now) timed)
              (later_part (is_due duetime now) timed))
          (timerq_from duetime now fuel (first timed null, at timerq []) h)
  unfolding timerq_from due_part later_part
  timerq_from-lem zero timed ready enough q = absurd (omega arith)
  timerq_from-lem (suc fuel) [] ready enough q = rw append-nil q
  timerq_from-lem (suc fuel) {h} (x ∷ timed) ready enough q =
      elim (Bool-cases (is_due duetime now x)) [
        | inl yes_due ↦ rw yes_due (
            round (λ n. timerq_from duetime now fuel (n, at timerq [])) _ x ready timed q
              (λ g q'.
                subst
                  (λ xs.
                    Returns
                      (λ _ g.
                        Queued fibres runq timerq g xs (later_part (is_due duetime now) timed))
                      (timerq_from duetime now fuel (first timed null, at timerq []) g))
                  (append_assoc ready (x ∷ []) (due_part (is_due duetime now) timed))
                  (timerq_from-lem fuel timed (ready ++ (x ∷ [])) (omega arith) q')))
        | inr not_due ↦ rw not_due (rw append-nil q)
      ]
