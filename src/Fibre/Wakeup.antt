-- ===== src/Fibre/Wakeup.antt =====
-- When `fibre_scheduler_next` may skip the queues, and the time at which it wants to be called again.
use librfn.Common.{
  ℕ, ◌+◌, ◌^◌, ◌≡◌, ◌≤◌, ◌<◌, ◌*◌, ◌≢◌, refl, sym, subst, length, ap, ◌∙◌, Bool, true, false, ◌&&◌,
  List, [], ◌∷◌, arith, ◌==◌, if◌then◌else◌, Bool-cases, inl, inr,
}
use librfn.Common.Word.{u32, sub32}
use librfn.LinkedList.Heap.{Ptr, null, Heap}
use librfn.LinkedList.Links.{has, first, Links-first}
use librfn.LinkedList.IsList.{IsList}
use librfn.Messageq
use librfn.Messageq.Spec
use librfn.Messageq.Receive.{empty_refines}
use librfn.Fibre.{Kernel, runq, timerq, state_yielded, unbounded_sleep}
use librfn.Fibre.Scheduler.{update_queues, is_empty, get_next_wakeup, needs_update}
use librfn.Fibre.Queues.{Fibres, Queued, without}
use librfn.Fibre.Enqueue.{made_ready}
use librfn.Fibre.Requests.{Requests, drained, drained_timed}
use librfn.Fibre.Timers.{due_in, Timed, due_part, later_part}
use librfn.Fibre.Runs.{Returns, runs_map}
use librfn.Fibre.Requests.{AllFibres}
use librfn.Fibre.Drain.{Holds}
use librfn.Fibre.Wake.{update_queues-Picked}
use librfn.Fibre.Picked.{Picked, ready_after, timed_after, woken, asleep, rest}

abbrev pub nothing : List Ptr → Bool
nothing [] = true
nothing (x ∷ xs) = false

pub empty-Requests :
    {k : Kernel} {held : ℕ} (pending : List Ptr)
    → Requests k held pending
    → Messageq.empty k.atomic_runq ≡ nothing pending
unfolding Spec.receive Spec.receive_claimed
empty-Requests [] r = empty_refines r.queue
empty-Requests (f ∷ fs) r = empty_refines r.queue

nothing-nil : (xs : List Ptr) → nothing xs ≡ true → xs ≡ []
nothing-nil [] e = refl
nothing-nil (x ∷ xs) e = cc

-- A fibre that yields and finds nothing else to run goes on.
alone :
    (k : Kernel)
    → (k.state == state_yielded) ≡ true
    → (first (woken k [] [] []) null ≡ k.current)
      × (rest (woken k [] [] []) ≡ [])
      × (asleep k [] [] ≡ [])
unfolding ready_after timed_after drained drained_timed due_part later_part made_ready without
alone k y = ground (arith, y)

module _ {fibres : Ptr → Bool} (w : Fibres fibres runq timerq) where
  empty_list :
      {h : Heap} {l : Ptr} (xs : List Ptr)
      → IsList h l xs
      → ((p : Ptr) → has p xs ≡ true → fibres p ≡ true)
      → (h.next l == null) ≡ nothing xs
  empty_list {h} {l} [] is all = rw (Links-first h.next l [] null is.links) refl
  empty_list {h} {l} (x ∷ xs) is all =
      let real : fibres x ≡ true = all x (ground arith) in
      rw (Links-first h.next l (x ∷ xs) null is.links)
        (ground (arith, λ (e : x ≡ null). ap fibres e, w.not_null))

  module _ (k : Kernel) (held : ℕ) (pending ready timed : List Ptr)
      (q : Queued fibres runq timerq k.links ready timed) (r : Requests k held pending) where
    pub runq_empty : is_empty runq k ≡ nothing ready
    runq_empty = empty_list ready q.first_list q.first_fibres

    pub timerq_empty : is_empty timerq k ≡ nothing timed
    timerq_empty = empty_list timed q.second_list q.second_fibres

    -- The next wake-up lies now while there is something to run; otherwise it is the due time of a
    -- fibre, and no fibre is due before it.
    pub wakeup_now : nothing pending && nothing ready ≡ false → get_next_wakeup k ≡ k.now
    unfolding get_next_wakeup
    wakeup_now some = rw (empty-Requests pending r, runq_empty) (ground (arith, some))

    pub wakeup_timer :
        nothing pending && nothing ready ≡ true
        → get_next_wakeup k
          ≡ (if nothing timed then u32 (k.now + unbounded_sleep) else k.duetime (first timed null))
    unfolding get_next_wakeup
    wakeup_timer none =
        rw
          (
            empty-Requests pending r,
            runq_empty,
            timerq_empty,
            Links-first k.links.next timerq timed null q.second_list.links,
          )
          (ground (arith, none))

    -- The path that skips the queues is taken only when they are empty and the current fibre yielded.
    fast_path-woken :
        needs_update k ≡ false
        → (first (woken k pending ready timed) null ≡ k.current)
          × (rest (woken k pending ready timed) ≡ [])
          × (asleep k pending timed ≡ [])
          × (ready ≡ [])
          × (timed ≡ [])
          × (pending ≡ [])
    fast_path-woken skip =
        let p = nothing-nil pending (ground (arith, skip, empty-Requests pending r)) in
        let x = nothing-nil ready (ground (arith, skip, runq_empty)) in
        let t = nothing-nil timed (ground (arith, skip, timerq_empty)) in
        let (a, b, c) = alone k (ground (arith, skip)) in rw (p, x, t) (a, b, c, refl, refl, refl)

-- With valid queues and requests, a known current fibre or none, and a state that the API has: when
-- `fibre_scheduler_next` skips the update of the queues, both queues are empty and there are no requests, and
-- the update, with any positive fuel, would have returned with the same current fibre, state, time and
-- due times, both queues empty and no requests.
pub fast_path_lem :
    {fibres : Ptr → Bool} (w : Fibres fibres runq timerq) (k : Kernel) (held fuel : ℕ)
    (pending ready timed : List Ptr)
    → (k.current ≢ null → fibres k.current ≡ true)
    → k.state < 4
    → 0 < fuel
    → Holds fibres k k held pending ready timed
    → needs_update k ≡ false
    → Returns
        (λ _ k'.
          (k'.current ≡ k.current)
          × (k'.state ≡ k.state)
          × (k'.now ≡ k.now)
          × (k'.duetime ≡ k.duetime)
          × Queued fibres runq timerq k'.links [] []
          × Requests k' held [])
        (update_queues fuel k)
      × Queued fibres runq timerq k.links [] []
      × Requests k held []
fast_path_lem {fibres} w k held fuel pending ready timed known range some h skip =
    let (same, others, sleepers, no_ready, no_timed, no_pending) =
      fast_path-woken w k held pending ready timed h.queued h.requests skip in
    let enough : 2 * length pending + length ready + length timed < fuel =
      rw (no_ready, no_timed, no_pending) (omega (arith, some)) in
    let all : AllFibres fibres pending = subst (AllFibres fibres) (sym no_pending) tt in
    (
      runs_map
          (λ _ k'. Picked fibres k k' held (woken k pending ready timed) (asleep k pending timed)) _
          (update_queues fuel k)
          (λ _ k' p. (
            p.current_first ∙ same,
            p.same_state,
            p.same_now,
            p.same_duetime,
            subst (λ ys. Queued fibres runq timerq k'.links [] ys) sleepers
                (subst (λ xs. Queued fibres runq timerq k'.links xs (asleep k pending timed)) others
                  p.queued),
            p.requests,
          ))
          (update_queues-Picked w k held fuel pending ready timed all known range enough h),
      subst (λ ys. Queued fibres runq timerq k.links [] ys) no_timed
          (subst (λ xs. Queued fibres runq timerq k.links xs timed) no_ready h.queued),
      subst (λ ps. Requests k held ps) no_pending h.requests,
    )

-- What the returned time promises.
pub record Wakeup (k : Kernel) (pending ready timed : List Ptr) (time : ℕ) : Type 0 where
  pub in_time : (p : Ptr) → has p timed ≡ true → sub32 time k.now ≤ due_in k.duetime k.now p
  pub at_once : nothing pending && nothing ready ≡ false → time ≡ k.now
  pub not_early :
      nothing pending && nothing ready ≡ true
      → nothing timed ≡ false
      → (p : Ptr) × (has p timed ≡ true) × (time ≡ k.duetime p)
  pub unbounded :
      nothing pending && nothing ready ≡ true
      → nothing timed ≡ true
      → time ≡ u32 (k.now + unbounded_sleep)

first_least :
    (k : Kernel) (timed : List Ptr)
    → Timed k.duetime k.now timed
    → (p : Ptr) → has p timed ≡ true
    → (has (first timed null) timed ≡ true)
      × (due_in k.duetime k.now (first timed null) ≤ due_in k.duetime k.now p)
first_least k [] t p i = cc
first_least k (x ∷ xs) t p i =
    (ground arith, ground (arith, t.sorted.0 p, λ (e : p ≡ x). ap (due_in k.duetime k.now) e))

someone : (p : Ptr) (xs : List Ptr) → has p xs ≡ true → nothing xs ≡ false
someone p [] i = cc
someone p (x ∷ xs) i = refl

on_first : (xs : List Ptr) → nothing xs ≡ false → has (first xs null) xs ≡ true
on_first [] e = cc
on_first (x ∷ xs) e = ground arith

-- The time that `get_next_wakeup` gives is now while there is something to run, and never lies behind
-- the due time of a fibre that sleeps.
pub wakeup_lem :
    {fibres : Ptr → Bool} (w : Fibres fibres runq timerq) (k : Kernel) (held : ℕ)
    (pending ready timed : List Ptr)
    → Queued fibres runq timerq k.links ready timed
    → Requests k held pending
    → Timed k.duetime k.now timed
    → k.now < 2 ^ 32
    → Wakeup k pending ready timed (get_next_wakeup k)
wakeup_lem w k held pending ready timed q r t small = record {
  in_time = λ p i. elim (Bool-cases (nothing pending && nothing ready)) [
    | inl idle ↦
        rw (wakeup_timer w k held pending ready timed q r idle, someone p timed i)
          ((first_least k timed t p i).1)
    | inr busy ↦ rw (wakeup_now w k held pending ready timed q r busy) (omega (arith, small))
  ];
  at_once = wakeup_now w k held pending ready timed q r;
  not_early = λ idle others. (
    first timed null,
    on_first timed others,
    wakeup_timer w k held pending ready timed q r idle ∙ (rw others refl),
  );
  unbounded = λ idle none. wakeup_timer w k held pending ready timed q r idle ∙ (rw none refl);
}
