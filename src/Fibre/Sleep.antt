-- ===== src/Fibre/Sleep.antt =====
-- `fibre_timeout` puts the running fibre where its due time belongs.
use librfn.Common.{
  ℕ, suc, ◌^◌, ◌≡◌, ◌≤◌, ◌<◌, ap, subst, Bool, true, false, not, ◌&&◌, ◌||◌, List, ◌∷◌, ◌++◌, arith,
  length, length-append, ◌==◌, Bool-cases, inl, inr,
}
use librfn.LinkedList.{insert_sorted}
use librfn.LinkedList.Heap.{Ptr, Heap, update, Returns}
use librfn.LinkedList.Links.{has, has-insert}
use librfn.LinkedList.Insert.{Inserted}
use librfn.LinkedList.Search.{contains_lem}
use librfn.LinkedList.Keys.{insert_sorted_lem}
use librfn.Fibre.{runq, timerq}
use librfn.Fibre.Calls.{duetime_cmp, sleep}
use librfn.Fibre.Queues.{Fibres, Fibres-swap, Queued, Queued-swap, Queued-IsFree, Queued-insert}
use librfn.Fibre.Enqueue.{Returns-map}
use librfn.Fibre.Timers.{due_in, Clock, Timed, duetime_cmp-Compares}
use librfn.Fibre.Expiry.{SortedBy-agree}

-- The due time of a fibre that is not on the timer queue does not matter there.
pub Timed-update :
    (duetime : Ptr → ℕ) (now : ℕ) (timed : List Ptr) (f : Ptr) (due : ℕ)
    → has f timed ≡ false
    → Timed duetime now timed
    → Timed (update duetime f due) now timed
Timed-update duetime now timed f due off t = record {
  sorted =
      SortedBy-agree (due_in duetime now) (due_in (update duetime f due) now) timed
        (λ p q i j le. rw (other p i, other q j) le) t.sorted;
  ahead = λ p i. rw (other p i) (t.ahead p i);
  within = λ p i. rw (other p i) (t.within p i);
}
  where
    other : (p : Ptr) → has p timed ≡ true → update duetime f due p ≡ duetime p
    other p i = ground (arith, λ (e : p ≡ f). ap (λ z. has z timed) e)

module _ {fibres : Ptr → Bool} (w : Fibres fibres runq timerq) (duetime : Ptr → ℕ) (now : ℕ)
    (c : Clock duetime now) where
  -- Where a fibre that is to sleep ends up.
  pub record Slept (f : Ptr) (ready timed timed' : List Ptr) (g : Heap) : Type 0 where
    pub queued : Queued fibres runq timerq g ready timed'
    pub timers : Timed duetime now timed'
    pub members : (p : Ptr) → has p timed' ≡ ((p == f) && not (has f ready) || has p timed)
    pub shorter : length timed' ≤ suc (length timed)

  pub sleep_lem :
      {h : Heap} (f : Ptr) (fuel : ℕ) (ready timed : List Ptr)
      → Queued fibres runq timerq h ready timed
      → Timed duetime now timed
      → fibres f ≡ true
      → has f timed ≡ false
      → 0 < due_in duetime now f
      → due_in duetime now f < 2 ^ 31
      → length ready < fuel
      → length timed < fuel
      → Returns (λ _ g. (timed' : List Ptr) × Slept f ready timed timed' g) (sleep duetime fuel f h)
  unfolding sleep
  sleep_lem {h} f fuel ready timed q t is_fibre off ahead within enough enough' =
      elim (Bool-cases (has f ready)) [
        | inl found ↦
            rw (contains_lem f fuel q.first_list enough, found)
              (
                timed,
                record {
                  queued = q;
                  timers = t;
                  members = λ p. ground arith;
                  shorter = omega arith;
                },
              )
        | inr missing ↦
            let key = due_in duetime now in
            let within_all = λ (p : Ptr) (i : has p (f ∷ timed) ≡ true). near p i in
            let (pre, post, split, placed, returns) =
              insert_sorted_lem key (duetime_cmp duetime) fuel q.second_list
                (Queued-IsFree (Fibres-swap w) (Queued-swap q) f is_fibre off missing) t.sorted
                (duetime_cmp-Compares duetime now (f ∷ timed) c within_all) enough' in
            rw (contains_lem f fuel q.first_list enough, missing)
              (Returns-map (Inserted h timerq f pre post)
                (λ _ g. (timed' : List Ptr) × Slept f ready timed timed' g)
                (insert_sorted (duetime_cmp duetime) fuel timerq f h)
                (λ _ g i. (
                  pre ++ (f ∷ post),
                  record {
                    queued = Queued-swap (
                        Queued-insert (Fibres-swap w) f pre post
                          (subst (λ xs. Queued fibres timerq runq h xs ready) split (Queued-swap q))
                          is_fibre missing i);
                    timers = record {
                      sorted = placed.sorted;
                      ahead = λ p i. ground (
                        arith,
                        has-insert p f pre post,
                        ap (has p) split,
                        t.ahead p,
                        λ (e : p ≡ f). ap key e,
                      );
                      within = λ p i. ground (
                        arith,
                        has-insert p f pre post,
                        ap (has p) split,
                        t.within p,
                        λ (e : p ≡ f). ap key e,
                      );
                    };
                    members = λ p. ground (arith, has-insert p f pre post, ap (has p) split);
                    shorter = omega (
                      arith,
                      length-append pre (f ∷ post),
                      length-append pre post,
                      ap length split,
                    );
                  },
                ))
                returns)
      ]
    where
      near : (p : Ptr) → has p (f ∷ timed) ≡ true → due_in duetime now p < 2 ^ 31
      near p i = ground (arith, t.within p, λ (e : p ≡ f). ap (due_in duetime now) e)
