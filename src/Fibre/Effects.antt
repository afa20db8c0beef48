-- ===== src/Fibre/Effects.antt =====
-- What `fibre_kill` and `fibre_timeout` do to the kernel.
use librfn.Common.{
  ℕ, ◌+◌, ◌*◌, ◌^◌, ◌≡◌, ◌<◌, refl, sym, ap, subst, Bool, true, false, not, ◌&&◌, ◌||◌, List, [],
  arith, length, ltb, ◌==◌, Bool-cases, inl, inr,
}
use librfn.Common.Int.{nonpos}
use librfn.Common.Word.{sub32}
use librfn.Util.{cyclecmp32}
use librfn.LinkedList.Heap.{Ptr, null, update}
use librfn.LinkedList.Links.{has}
use librfn.Fibre.{Kernel, runq, timerq, pure, lists, handle_atomic_runq}
use librfn.Fibre.Calls.{dequeue, fibre_kill, sleep, fibre_timeout}
use librfn.Fibre.Queues.{Fibres, Queued, without}
use librfn.Fibre.Enqueue.{dequeue_lem}
use librfn.Fibre.Runs.{
  Returns, then_runs, runs_map, lists-Returns, OnlyQueues-trans, OnlyQueues-links,
}
use librfn.Fibre.Requests.{
  Requests, AllFibres, drained, drained_timed, length-drained, length-drained_timed,
}
use librfn.Fibre.Drain.{Holds, handle_lem}
use librfn.Fibre.Timers.{Clock, Timed}
use librfn.Fibre.Sleep.{Slept, sleep_lem, Timed-update}

-- `due` lies ahead of `now`, by less than half of the clock's range.
abbrev pub lies_ahead : ℕ → ℕ → Bool
lies_ahead due now = ltb 0 (sub32 due now) && ltb (sub32 due now) (2 ^ 31)

module _ {fibres : Ptr → Bool} (w : Fibres fibres runq timerq) where
  dequeue_Holds :
      (old k : Kernel) (held fuel : ℕ) (f : Ptr) (ready timed : List Ptr)
      → length ready < fuel
      → length timed < fuel
      → Holds fibres old k held [] ready timed
      → Returns
          (λ b k'.
            (b ≡ (has f ready || has f timed))
            × Holds fibres old k' held [] (without f ready) (without f timed))
          (lists (dequeue fuel f) k)
  dequeue_Holds old k held fuel f ready timed enough enough' h =
      runs_map
        (λ b k'.
          (k' ≡ record k { links = k'.links })
          × ((b ≡ (has f ready || has f timed))
              × Queued fibres runq timerq k'.links (without f ready) (without f timed)))
        (λ b k'.
          (b ≡ (has f ready || has f timed))
          × Holds fibres old k' held [] (without f ready) (without f timed))
        (lists (dequeue fuel f) k)
        (λ b k' (e, (found, q)). (
          found,
          record {
            only = OnlyQueues-trans old k k' h.only (OnlyQueues-links k k' e);
            queued = q;
            requests =
                subst (λ z. Requests z held []) (sym e)
                  (record {
                    received = h.requests.received;
                    queue = h.requests.queue;
                    stored = tt;
                  });
          },
        ))
        (lists-Returns
          (λ b g.
            (b ≡ (has f ready || has f timed))
            × Queued fibres runq timerq g (without f ready) (without f timed))
          (dequeue fuel f) k (dequeue_lem w h.queued f fuel enough enough'))

  -- After `fibre_kill` the fibre is on neither queue, and the result says whether it was on one.
  pub fibre_kill_lem :
      (k : Kernel) (held fuel : ℕ) (f : Ptr) (pending ready timed : List Ptr)
      → AllFibres fibres pending
      → 2 * length pending + length ready + length timed < fuel
      → Holds fibres k k held pending ready timed
      → Returns
          (λ b k'.
            (b ≡ (has f (drained pending ready) || has f (drained_timed pending timed)))
            × Holds fibres k k' held []
                (without f (drained pending ready))
                (without f (drained_timed pending timed)))
          (fibre_kill fuel f k)
  unfolding fibre_kill
  fibre_kill_lem k held fuel f pending ready timed all enough h =
      let xs = drained pending ready in
      let ys = drained_timed pending timed in
      let l1 = length-drained pending ready in
      let l2 = length-drained_timed pending timed in
      then_runs (λ _ k'. Holds fibres k k' held [] xs ys)
        (λ b k'.
          (b ≡ (has f xs || has f ys)) × Holds fibres k k' held [] (without f xs) (without f ys))
        (handle_atomic_runq fuel k) (λ _. lists (dequeue fuel f))
        (handle_lem w fuel k k held pending ready timed all enough h)
        (λ _ k' h'. dequeue_Holds k k' held fuel f xs ys (omega arith) (omega arith) h')

  -- What a call of `fibre_timeout` that returned `b` has done.
  pub record Timeout (k k' : Kernel) (due : ℕ) (ready timed : List Ptr)
      (clock : Clock (update k.duetime k.current due) k.now) (b : Bool) : Type 0 where
    pub passed : b ≡ not (lies_ahead due k.now)
    pub unchanged : b ≡ true → k' ≡ k
    pub only :
        b ≡ false → k' ≡ record k { links = k'.links; duetime = update k.duetime k.current due }
    pub slept :
        b ≡ false
        → (timed' : List Ptr) × Slept w
            (update k.duetime k.current due)
            k.now
            clock
            k.current
            ready
            timed
            timed'
            k'.links

  cyclecmp32-lies_ahead :
      (due now : ℕ)
      → due < 2 ^ 32
      → now < 2 ^ 32
      → nonpos (cyclecmp32 due now) ≡ not (lies_ahead due now)
  unfolding cyclecmp32
  cyclecmp32-lies_ahead due now small small' = ground (arith, small, small')

  -- A due time that has come is reported and nothing changes; otherwise the running fibre, unless it
  -- is runnable, sleeps in the order of the due times.
  pub fibre_timeout_lem :
      (k : Kernel) (fuel due : ℕ) (ready timed : List Ptr)
      → Queued fibres runq timerq k.links ready timed
      → Timed k.duetime k.now timed
      → (clock : Clock (update k.duetime k.current due) k.now) → due < 2 ^ 32
      → fibres k.current ≡ true
      → has k.current timed ≡ false
      → length ready < fuel
      → length timed < fuel
      → Returns (λ b k'. Timeout k k' due ready timed clock b) (fibre_timeout fuel due k)
  unfolding fibre_timeout
  fibre_timeout_lem k fuel due ready timed q t clock small is_fibre off enough enough' =
      let cmp = cyclecmp32-lies_ahead due k.now small clock.1 in
      let here : update k.duetime k.current due k.current ≡ due = ground arith in
      let key = update k.duetime k.current due in
      let k1 = record k { duetime = key } in
      elim (Bool-cases (lies_ahead due k.now)) [
        | inl ahead ↦
            let real : (k.current == null) ≡ false =
              ground (arith, λ (e : k.current ≡ null). ap fibres e, w.not_null) in
            let sleeps =
              sleep_lem w key k.now clock k.current fuel ready timed q
                (Timed-update k.duetime k.now timed k.current due off t) is_fibre off
                (ground (arith, ahead, here)) (ground (arith, ahead, here)) enough enough' in
            rw (cmp, ahead, real)
              (then_runs
                (λ _ k'.
                  (k' ≡ record k1 { links = k'.links })
                  × ((timed' : List Ptr) × Slept w key k.now clock k.current ready timed timed'
                        k'.links))
                (λ b k'. Timeout k k' due ready timed clock b) (lists (sleep key fuel k.current) k1)
                (λ _. pure false)
                (lists-Returns
                  (λ _ g.
                    (timed' : List Ptr) × Slept w key k.now clock k.current ready timed timed' g)
                  (sleep key fuel k.current) k1 sleeps)
                (λ _ k' (e, s). record {
                  passed = rw ahead refl;
                  unchanged = λ e. cc;
                  only = λ _. e;
                  slept = λ _. s;
                }))
        | inr behind ↦
            rw (cmp, behind)
              (record {
                passed = rw behind refl;
                unchanged = λ _. refl;
                only = λ e. cc;
                slept = λ e. cc;
              })
      ]
