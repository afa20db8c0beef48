-- ===== src/Fibre/Update.antt =====
-- The part of `fibre_scheduler_next` that brings the queues up to date and picks the next fibre.
use Prim.Native.Nat.{bit_or}
use librfn.Common.Word.{u16}
use librfn.Common.{
  ℕ, ◌+◌, ◌*◌, ◌≡◌, ◌<◌, refl, ap, ◌∙◌, Bool, true, List, [], arith, length, ◌==◌, ◌^◌,
  if◌then◌else◌, Bool-cases, inl, inr,
}
use librfn.LinkedList.Heap.{Ptr, update}
use librfn.Fibre.{
  Kernel, runq, timerq, state_yielded, state_waiting, state_exited, state_failed, lists, add_taint,
  enqueue, handle_atomic_runq, fibre_run,
}
use librfn.Fibre.Scheduler.{update_current_state}
use librfn.Fibre.Queues.{Fibres, Queued, without}
use librfn.Fibre.Enqueue.{made_ready}
use librfn.Fibre.Runs.{Returns, then_runs, runs_map}
use librfn.Fibre.Requests.{
  Requests, AllFibres, drained, drained_timed, length-drained, length-drained_timed,
}
use librfn.Fibre.Drain.{Holds, handle_lem, enqueue_Holds}

-- The queues and the requests of `k`, whose clock is still that of `old`.
pub record Stage (fibres : Ptr → Bool) (old k : Kernel) (held : ℕ) (pending ready timed : List Ptr)
    : Type 0 where
  pub same_now : k.now ≡ old.now
  pub same_duetime : k.duetime ≡ old.duetime
  pub same_state : k.state ≡ old.state
  pub same_current : k.current ≡ old.current
  pub queued : Queued fibres runq timerq k.links ready timed
  pub requests : Requests k held pending

module _ {fibres : Ptr → Bool} (w : Fibres fibres runq timerq) where
  pub Holds-Stage :
      (old k : Kernel) (held : ℕ) (pending ready timed : List Ptr)
      → Holds fibres old k held pending ready timed
      → Stage fibres old k held pending ready timed
  Holds-Stage old k held pending ready timed h = record {
    same_now = ap (λ (z : Kernel). z.now) h.only;
    same_duetime = ap (λ (z : Kernel). z.duetime) h.only;
    same_state = ap (λ (z : Kernel). z.state) h.only;
    same_current = ap (λ (z : Kernel). z.current) h.only;
    queued = h.queued;
    requests = h.requests;
  }

  pub Stage-trans :
      (k0 k1 k2 : Kernel) (held held' : ℕ) (pending pending' ready ready' timed timed' : List Ptr)
      → Stage fibres k0 k1 held pending ready timed
      → Stage fibres k1 k2 held' pending' ready' timed'
      → Stage fibres k0 k2 held' pending' ready' timed'
  Stage-trans k0 k1 k2 held held' pending pending' ready ready' timed timed' s t = record {
    same_now = t.same_now ∙ s.same_now;
    same_duetime = t.same_duetime ∙ s.same_duetime;
    same_state = t.same_state ∙ s.same_state;
    same_current = t.same_current ∙ s.same_current;
    queued = t.queued;
    requests = t.requests;
  }

  -- A change of the members of fibres that are not in the queues.
  members_Stage :
      (k : Kernel) (held : ℕ) (ready timed : List Ptr) (s p : Ptr → ℕ) (taint : ℕ)
      → Stage fibres k k held [] ready timed
      → Stage fibres k
          (record k { fibre_state = s; priv = p; taint_flags = taint })
          held
          []
          ready
          timed
  members_Stage k held ready timed s p taint st = record {
    same_now = refl;
    same_duetime = refl;
    same_state = refl;
    same_current = refl;
    queued = st.queued;
    requests = record { received = st.requests.received; queue = st.requests.queue; stored = tt };
  }

  pub fibre_run_lem :
      (fuel : ℕ) (k : Kernel) (held : ℕ) (f : Ptr) (pending ready timed : List Ptr)
      → fibres f ≡ true
      → AllFibres fibres pending
      → 2 * length pending + length ready + length timed < fuel
      → Holds fibres k k held pending ready timed
      → Returns
          (λ _ k'.
            Holds fibres k k' held []
              (made_ready f (drained pending ready))
              (without f (drained_timed pending timed)))
          (fibre_run fuel f k)
  unfolding fibre_run
  fibre_run_lem fuel k held f pending ready timed is_fibre all enough h =
      let l1 = length-drained pending ready in
      let l2 = length-drained_timed pending timed in
      then_runs
        (λ _ k'. Holds fibres k k' held [] (drained pending ready) (drained_timed pending timed))
        (λ _ k'.
          Holds fibres k k' held [] (made_ready f (drained pending ready))
            (without f (drained_timed pending timed)))
        (handle_atomic_runq fuel k) (λ _. lists (enqueue fuel f))
        (handle_lem w fuel k k held pending ready timed all enough h)
        (λ _ k' h'.
          enqueue_Holds w k k' held fuel f [] (drained pending ready) (drained_timed pending timed)
            is_fibre (omega arith) (omega arith) h')

  -- A fibre that yielded goes to the end of the run queue; the other results leave the queues alone.
  pub update_current_state_lem :
      (fuel : ℕ) (k : Kernel) (held : ℕ) (ready timed : List Ptr)
      → (k.state ≡ state_yielded → fibres k.current ≡ true)
      → k.state < 4
      → length ready + length timed < fuel
      → Stage fibres k k held [] ready timed
      → Returns
          (λ _ k'.
            Stage fibres k k' held []
              (if k.state == state_yielded then made_ready k.current ready else ready)
              (if k.state == state_yielded then without k.current timed else timed))
          (update_current_state fuel k)
  unfolding update_current_state add_taint drained drained_timed
  update_current_state_lem fuel k held ready timed known range enough st =
      let written = update k.fibre_state k.current (u16 k.state) in
      let k1 = record k { fibre_state = written } in
      let st1 = members_Stage k held ready timed written k.priv k.taint_flags st in
      let cleared = update k.priv k.current 0 in
      elim (Bool-cases (k.state == state_yielded)) [
        | inl y ↦ rw y (
            runs_map
              (λ _ k'.
                Holds fibres k1 k' held [] (made_ready k.current ready) (without k.current timed))
              (λ _ k'.
                Stage fibres k k' held [] (made_ready k.current ready) (without k.current timed))
              (fibre_run fuel k.current k1)
              (λ _ k' h.
                Stage-trans k k1 k' held held [] [] ready (made_ready k.current ready) timed
                  (without k.current timed) st1
                  (Holds-Stage k1 k' held [] (made_ready k.current ready) (without k.current timed)
                    h))
              (fibre_run_lem fuel k1 held k.current [] ready timed (known (ground arith)) tt
                (omega arith)
                (record { only = refl; queued = st1.queued; requests = st1.requests })))
        | inr n ↦ elim (Bool-cases (k.state == state_failed)) [
          | inl failed ↦
              rw (n, failed)
                (members_Stage k held ready timed written cleared (bit_or k.taint_flags (2 ^ 5)) st)
          | inr n' ↦ elim (Bool-cases (k.state == state_exited)) [
            | inl exited ↦
                rw (n, n', exited)
                  (members_Stage k held ready timed written cleared k.taint_flags st)
            | inr n'' ↦
                let waits : (k.state == state_waiting) ≡ true = ground (arith, n, n', n'', range) in
                rw (n, n', n'', waits) st1
          ]
        ]
      ]
