-- ===== src/Fibre/Wake.antt =====
-- What `fibre_scheduler_next` has done to the queues when it comes to run a fibre.
use librfn.Common.{
  ℕ, ◌+◌, ◌*◌, ◌≡◌, ◌≢◌, ◌≤◌, ◌<◌, refl, sym, subst, Bool, true, false, List, [], ◌++◌, ◌^◌,
  Bool-cases, inl, inr, arith, length, ◌==◌, if◌then◌else◌,
}
use librfn.LinkedList.{extract}
use librfn.LinkedList.Heap.{Ptr, null}
use librfn.Fibre.{Kernel, runq, timerq, state_yielded, done, after, lists, handle_atomic_runq}
use librfn.Fibre.Scheduler.{handle_timerq, update_current_state, update_queues}
use librfn.Fibre.Queues.{Fibres, without, length-without}
use librfn.Fibre.Enqueue.{made_ready}
use librfn.Fibre.Runs.{Returns, then_runs, runs_map, if_Returns}
use librfn.Fibre.Requests.{AllFibres, drained, drained_timed, length-drained, length-drained_timed}
use librfn.Fibre.Drain.{Holds, handle_lem}
use librfn.Fibre.Update.{Stage, Holds-Stage, Stage-trans, update_current_state_lem}
use librfn.Fibre.Expired.{
  keep, expired, waiting, parts-expired, Timed-without, Timed-drained, has-without, has-drained,
}
use librfn.Fibre.Timers.{Clock, Timed}
use librfn.LinkedList.Links.{has}
use librfn.Common.Word.{sub32}
use librfn.Fibre.Picked.{
  yields, ready_after, timed_after, woken, asleep, Picked, Stage-here, recast, timerq_next,
  pick_next,
}

module _ {fibres : Ptr → Bool} (w : Fibres fibres runq timerq) where
  module _ (k : Kernel) (held fuel : ℕ) (pending ready timed : List Ptr)
      (all : AllFibres fibres pending) (known : k.current ≢ null → fibres k.current ≡ true)
      (range : k.state < 4) (enough : 2 * length pending + length ready + length timed < fuel) where
    module _ (k1 : Kernel) (c : k1.current ≡ k.current) (s : k1.state ≡ k.state) where
      ready_idle : (k1.current == null) ≡ true → drained pending ready ≡ ready_after k pending ready
      unfolding ready_after
      ready_idle e = let e' : (k.current == null) ≡ true = rw⁻¹ c e in rw e' refl

      timed_idle :
          (k1.current == null) ≡ true → drained_timed pending timed ≡ timed_after k pending timed
      unfolding timed_after
      timed_idle e = let e' : (k.current == null) ≡ true = rw⁻¹ c e in rw e' refl

      ready_ran :
          (k1.current == null) ≡ false
          → (if k1.state == state_yielded
              then made_ready k1.current (drained pending ready)
              else drained pending ready)
            ≡ ready_after k pending ready
      unfolding ready_after
      ready_ran e = let e' : (k.current == null) ≡ false = rw⁻¹ c e in rw (c, s, e') refl

      timed_ran :
          (k1.current == null) ≡ false
          → (if k1.state == state_yielded
              then without k1.current (drained_timed pending timed)
              else drained_timed pending timed)
            ≡ timed_after k pending timed
      unfolding timed_after
      timed_ran e = let e' : (k.current == null) ≡ false = rw⁻¹ c e in rw (c, s, e') refl

    -- What the fibre that ran last returned is acted on.
    current_Stage :
        (k1 : Kernel)
        → Holds fibres k k1 held [] (drained pending ready) (drained_timed pending timed)
        → Returns
            (λ _ k'.
              Stage fibres k k' held [] (ready_after k pending ready) (timed_after k pending timed))
            (if k1.current == null then done tt k1 else update_current_state fuel k1)
    current_Stage k1 h =
        let xs = drained pending ready in
        let ys = drained_timed pending timed in
        let st = Holds-Stage w k k1 held [] xs ys h in
        let c = st.same_current in
        let s = st.same_state in
        let l1 = length-drained pending ready in
        let l2 = length-drained_timed pending timed in
        let goal = λ (_ : Unit {0}) (k' : Kernel).
          Stage fibres k k' held [] (ready_after k pending ready) (timed_after k pending timed) in
        if_Returns goal (k1.current == null) (done tt k1) (update_current_state fuel k1)
          (λ nobody. recast w k k1 held (ready_idle k1 c s nobody) (timed_idle k1 c s nobody) st)
          (λ ran.
            let xs' = if k1.state == state_yielded then made_ready k1.current xs else xs in
            let ys' = if k1.state == state_yielded then without k1.current ys else ys in
            runs_map (λ _ k'. Stage fibres k1 k' held [] xs' ys') goal
              (update_current_state fuel k1)
              (λ _ k2 st2.
                recast w k k2 held (ready_ran k1 c s ran) (timed_ran k1 c s ran)
                  (Stage-trans w k k1 k2 held held [] [] xs xs' ys ys' st st2))
              (update_current_state_lem w fuel k1 held xs ys
                (λ e. subst (λ f. fibres f ≡ true) (sym c) (known (λ n. ground (arith, ran, c, n))))
                (subst (λ n. n < 4) (sym s) range) (omega arith) (Stage-here w k k1 held xs ys st)))

    length-timed_after : length (timed_after k pending timed) ≤ length timed
    unfolding timed_after
    length-timed_after = ground (
      arith,
      length-drained_timed pending timed,
      length-without k.current (drained_timed pending timed),
    )

    -- Handled requests, the fibre that ran last, and then the fibres that are due, each in this order,
    -- make up the run queue, whose first fibre is taken off it.
    pub update_queues-Picked :
        Holds fibres k k held pending ready timed
        → Returns
            (λ _ k'. Picked fibres k k' held (woken k pending ready timed) (asleep k pending timed))
            (update_queues fuel k)
    unfolding update_queues
    update_queues-Picked h =
        let stage =
          λ (xs ys : List Ptr) (_ : Unit {0}) (k' : Kernel). Stage fibres k k' held [] xs ys in
        let xs = ready_after k pending ready in
        let ys = timed_after k pending timed in
        let drain = handle_atomic_runq fuel k in
        let current = λ (_ : Unit {0}) (k : Kernel).
          if k.current == null then done tt k else update_current_state fuel k in
        let timers = λ (_ : Unit {0}) (k : Kernel). lists (handle_timerq k.duetime k.now fuel) k in
        let pick = λ (_ : Unit {0}) (k : Kernel).
          after (lists (extract runq) k) (λ node k. done tt (record k { current = node })) in
        then_runs (stage (woken k pending ready timed) (asleep k pending timed))
          (λ _ k'. Picked fibres k k' held (woken k pending ready timed) (asleep k pending timed))
          (after (after drain current) timers) pick
          (then_runs (stage xs ys) (stage (woken k pending ready timed) (asleep k pending timed))
            (after drain current) timers
            (then_runs
              (λ _ k'.
                Holds fibres k k' held [] (drained pending ready) (drained_timed pending timed))
              (stage xs ys) drain current
              (handle_lem w fuel k k held pending ready timed all enough h)
              (λ _ k1 h1. current_Stage k1 h1))
            (λ _ k1 st1.
              timerq_next w k k1 held fuel xs ys (omega (arith, length-timed_after)) st1))
          (λ _ k1 st1.
            pick_next w k k1 held (woken k pending ready timed) (asleep k pending timed) st1)

    Timed-after :
        (before : ℕ)
        → Timed k.duetime before timed
        → Timed k.duetime before (timed_after k pending timed)
    unfolding timed_after
    Timed-after before t =
        let drained = Timed-drained k.duetime before pending timed t in
        elim (Bool-cases (yields k)) [
          | inl h ↦
              rw h (Timed-without k.duetime before k.current (drained_timed pending timed) drained)
          | inr h ↦ rw h drained
        ]

    has-timed_after : (p : Ptr) → has p (timed_after k pending timed) ≡ true → has p timed ≡ true
    unfolding timed_after
    has-timed_after p i = elim (Bool-cases (yields k)) [
      | inl h ↦ ground (
        arith,
        h,
        i,
        has-drained p pending timed,
        has-without p k.current (drained_timed pending timed),
      )
      | inr h ↦ ground (arith, h, i, has-drained p pending timed)
    ]

    -- With valid queues and requests, a known current fibre or none, a state that the API has, times of 32
    -- bits, a timer queue in order whose times lie ahead of `before` by less than 2^31, less than 2^31 passed
    -- since then, and more fuel than twice the requests and both queues, `update_queues` returns: behind
    -- what the requests and the fibre that ran last leave in the run queue, all fibres whose times have been
    -- reached, and no other of those that still sleep, are put in order; the first of the run queue is taken
    -- off it as the current fibre; no request is left; and the timer queue keeps just the others, in order and
    -- ahead of now.
    pub update_queues_lem :
        (before : ℕ)
        → Clock k.duetime before
        → k.now < 2 ^ 32
        → sub32 k.now before < 2 ^ 31
        → Timed k.duetime before timed
        → Holds fibres k k held pending ready timed
        → Returns
            (λ _ k'.
              Picked fibres k k' held
                (ready_after k pending ready
                  ++ keep (expired k.duetime before k.now) (timed_after k pending timed))
                (keep (waiting k.duetime before k.now) (timed_after k pending timed))
              × Timed k.duetime k.now
                  (keep (waiting k.duetime before k.now) (timed_after k pending timed)))
            (update_queues fuel k)
    update_queues_lem before c small soon t h =
        let ys = timed_after k pending timed in
        let xs = ready_after k pending ready in
        let (front, others, later) =
          parts-expired w k.duetime before k.now c small soon ys (Timed-after before t)
            (λ p i. h.queued.second_fibres p (has-timed_after p i)) in
        let Goal = λ (fs gs : List Ptr) (_ : Unit {0}) (k' : Kernel).
          Picked fibres k k' held (xs ++ fs) gs in
        runs_map
          (λ _ k'. Picked fibres k k' held (woken k pending ready timed) (asleep k pending timed))
          (λ u k'.
            Goal (keep (expired k.duetime before k.now) ys)
              (keep (waiting k.duetime before k.now) ys) u k'
            × Timed k.duetime k.now (keep (waiting k.duetime before k.now) ys))
          (update_queues fuel k)
          (λ u k' p. (
            subst (λ gs. Goal (keep (expired k.duetime before k.now) ys) gs u k') others
                (subst (λ fs. Goal fs (asleep k pending timed) u k') front p),
            later,
          ))
          (update_queues-Picked h)
