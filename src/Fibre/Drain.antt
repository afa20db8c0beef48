-- ===== src/Fibre/Drain.antt =====
-- `handle_atomic_runq` makes every requested fibre runnable, the one requested last first.
use librfn.Common.{
  ℕ, zero, suc, ◌+◌, ◌*◌, ◌≡◌, ◌<◌, refl, sym, subst, Bool, true, List, [], ◌∷◌, arith, length,
}
use librfn.LinkedList.Heap.{Ptr}
use librfn.Messageq
use librfn.Fibre.{Kernel, runq, timerq, ◌>>◌, lists, enqueue, release_request, handle_atomic_runq}
use librfn.Fibre.Queues.{Fibres, Queued, without, length-without}
use librfn.Fibre.Enqueue.{made_ready, enqueue_lem}
use librfn.Fibre.Runs.{
  Returns, then_runs, runs_map, lists-Returns, OnlyQueues, OnlyQueues-trans, OnlyQueues-links,
}
use librfn.Fibre.Requests.{
  Requests, AllFibres, drained, drained_timed, length-made_ready, length-drained,
  length-drained_timed, receive_none, receive_some, release_one,
}

-- The kernel's two lists and its requests, over the fibres of the program, where `k` only has its
-- queues changed from `old`.
pub record Holds (fibres : Ptr → Bool) (old k : Kernel) (held : ℕ) (pending ready timed : List Ptr)
    : Type 0 where
  pub only : OnlyQueues old k
  pub queued : Queued fibres runq timerq k.links ready timed
  pub requests : Requests k held pending

module _ {fibres : Ptr → Bool} (w : Fibres fibres runq timerq) where
  pub enqueue_Holds :
      (old k : Kernel) (held fuel : ℕ) (f : Ptr) (pending ready timed : List Ptr)
      → fibres f ≡ true
      → length ready < fuel
      → length timed < fuel
      → Holds fibres old k held pending ready timed
      → Returns
          (λ _ k'. Holds fibres old k' held pending (made_ready f ready) (without f timed))
          (lists (enqueue fuel f) k)
  enqueue_Holds old k held fuel f pending ready timed is_fibre enough enough' h =
      runs_map
        (λ _ k'.
          (k' ≡ record k { links = k'.links })
          × Queued fibres runq timerq k'.links (made_ready f ready) (without f timed))
        (λ _ k'. Holds fibres old k' held pending (made_ready f ready) (without f timed))
        (lists (enqueue fuel f) k)
        (λ _ k' (e, q). record {
          only = OnlyQueues-trans old k k' h.only (OnlyQueues-links k k' e);
          queued = q;
          requests =
              subst (λ z. Requests z held pending) (sym e)
                (record {
                  received = h.requests.received;
                  queue = h.requests.queue;
                  stored = h.requests.stored;
                });
        })
        (lists-Returns (λ _ g. Queued fibres runq timerq g (made_ready f ready) (without f timed))
          (enqueue fuel f) k (enqueue_lem w h.queued f fuel enough enough' is_fibre))

  released :
      (old k : Kernel) (held : ℕ) (p : Ptr) (ready timed : List Ptr)
      → Holds fibres old k (held + 1) [] ready timed
      → Returns (λ _ k'. Holds fibres old k' held [] ready timed) (release_request p k)
  unfolding release_request
  released old k held p ready timed h =
      let k' = record k { atomic_runq = Messageq.release k.atomic_runq p } in
      record {
        only = OnlyQueues-trans old k k' h.only refl;
        queued = h.queued;
        requests = release_one p h.requests;
      }

  pub handle_lem :
      (fuel : ℕ) (old k : Kernel) (held : ℕ) (pending ready timed : List Ptr)
      → AllFibres fibres pending
      → 2 * length pending + length ready + length timed < fuel
      → Holds fibres old k held pending ready timed
      → Returns
          (λ _ k'.
            Holds fibres old k' held [] (drained pending ready) (drained_timed pending timed))
          (handle_atomic_runq fuel k)
  unfolding handle_atomic_runq drained drained_timed
  handle_lem zero old k held pending ready timed all enough h = absurd (omega arith)
  handle_lem (suc fuel) old k held [] ready timed all enough h =
      let (mq, e, r) = receive_none h.requests in
      rw e (record {
        only = OnlyQueues-trans old k (record k { atomic_runq = mq }) h.only refl;
        queued = h.queued;
        requests = r;
      })
  handle_lem (suc fuel) old k held (f ∷ fs) ready timed (is_fibre, all) enough h =
      let (p, mq, e, at, r) = receive_some f fs h.requests in
      let k1 = record k { atomic_runq = mq } in
      let ready' = drained fs ready in
      let timed' = drained_timed fs timed in
      let ready'' = made_ready f ready' in
      let timed'' = without f timed' in
      let first = handle_lem fuel old k1 (held + 1) fs ready timed all (omega arith) (record {
        only = OnlyQueues-trans old k k1 h.only refl;
        queued = h.queued;
        requests = r;
      }) in
      let l1 = length-drained fs ready in
      let l2 = length-drained_timed fs timed in
      let l3 = length-made_ready f ready' in
      let l4 = length-without f timed' in
      rw (e, at)
        (then_runs (λ _ k'. Holds fibres old k' held [] ready'' timed'')
          (λ _ k'. Holds fibres old k' held [] ready'' timed'')
          (((handle_atomic_runq fuel >> lists (enqueue fuel f)) >> release_request p) k1)
          (λ _. handle_atomic_runq fuel)
          (then_runs (λ _ k'. Holds fibres old k' (held + 1) [] ready'' timed'')
            (λ _ k'. Holds fibres old k' held [] ready'' timed'')
            ((handle_atomic_runq fuel >> lists (enqueue fuel f)) k1) (λ _. release_request p)
            (then_runs (λ _ k'. Holds fibres old k' (held + 1) [] ready' timed')
              (λ _ k'. Holds fibres old k' (held + 1) [] ready'' timed'')
              (handle_atomic_runq fuel k1) (λ _. lists (enqueue fuel f)) first
              (λ _ k' h'.
                enqueue_Holds old k' (held + 1) fuel f [] ready' timed' is_fibre (omega arith)
                  (omega arith) h'))
            (λ _ k' h'. released old k' held p ready'' timed'' h'))
          (λ _ k' h'. handle_lem fuel old k' held [] ready'' timed'' tt (omega arith) h'))
