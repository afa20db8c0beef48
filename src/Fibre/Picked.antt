-- ===== src/Fibre/Picked.antt =====
-- The last calls of the update of the queues: the fibres that are due wake up and the next is picked.
use librfn.Common.{
  ℕ, ◌≡◌, ◌<◌, refl, sym, ap, ◌∙◌, subst, Bool, not, ◌&&◌, List, [], ◌∷◌, ◌++◌, length, ◌==◌,
  if◌then◌else◌,
}
use librfn.LinkedList.{extract}
use librfn.LinkedList.Heap
use librfn.LinkedList.Heap.{Ptr, null, Heap}
use librfn.LinkedList.Links.{first}
use librfn.LinkedList.Extract.{Extracted, extract_lem}
use librfn.Fibre.{Kernel, runq, timerq, state_yielded, done, after, lists}
use librfn.Fibre.Scheduler.{is_due, handle_timerq}
use librfn.Fibre.Queues.{Fibres, Queued, Queued-remove, without}
use librfn.Fibre.Enqueue.{made_ready, Returns-map}
use librfn.Fibre.Runs.{Returns, then_runs, runs_map, lists-Returns}
use librfn.Fibre.Requests.{Requests, drained, drained_timed}
use librfn.Fibre.Update.{Stage, Stage-trans}
use librfn.Fibre.Timers.{due_part, later_part}
use librfn.Fibre.Expiry.{handle_timerq_lem}

abbrev pub yields : Kernel → Bool
yields k = not (k.current == null) && (k.state == state_yielded)

-- The run queue once the requests and the current fibre have been seen to.
unfoldable pub ready_after : Kernel → List Ptr → List Ptr → List Ptr
ready_after k pending ready =
    if yields k then made_ready k.current (drained pending ready) else drained pending ready

unfoldable pub timed_after : Kernel → List Ptr → List Ptr → List Ptr
timed_after k pending timed =
    if yields k
    then without k.current (drained_timed pending timed)
    else drained_timed pending timed

abbrev pub rest : List Ptr → List Ptr
rest [] = []
rest (x ∷ xs) = xs

-- The run queue from which the next fibre is taken, and the timer queue: `k` is the kernel before.
abbrev pub woken : Kernel → List Ptr → List Ptr → List Ptr → List Ptr
woken k pending ready timed =
    ready_after k pending ready ++ due_part (is_due k.duetime k.now) (timed_after k pending timed)

abbrev pub asleep : Kernel → List Ptr → List Ptr → List Ptr
asleep k pending timed = later_part (is_due k.duetime k.now) (timed_after k pending timed)

-- The first of `queue` is current, the others are in the run queue, and all requests are handled.
pub record Picked (fibres : Ptr → Bool) (k k' : Kernel) (held : ℕ) (queue timed : List Ptr)
    : Type 0 where
  pub same_now : k'.now ≡ k.now
  pub same_duetime : k'.duetime ≡ k.duetime
  pub same_state : k'.state ≡ k.state
  pub current_first : k'.current ≡ first queue null
  pub queued : Queued fibres runq timerq k'.links (rest queue) timed
  pub requests : Requests k' held []

module _ {fibres : Ptr → Bool} (w : Fibres fibres runq timerq) where
  extract-Queued :
      {h : Heap} (xs ys : List Ptr)
      → Queued fibres runq timerq h xs ys
      → Heap.Returns
          (λ n g. (n ≡ first xs null) × Queued fibres runq timerq g (rest xs) ys)
          (extract runq h)
  extract-Queued {h} [] ys q =
      Returns-map (Extracted h runq []) (λ n g. (n ≡ null) × Queued fibres runq timerq g [] ys)
        (extract runq h)
        (λ n g (e, same). (e, subst (λ z. Queued fibres runq timerq z [] ys) (sym same) q))
        (extract_lem [] q.first_list)
  extract-Queued {h} (x ∷ xs) ys q =
      Returns-map (Extracted h runq (x ∷ xs)) (λ n g. (n ≡ x) × Queued fibres runq timerq g xs ys)
        (extract runq h) (λ n g (e, out). (e, Queued-remove w x [] xs q out))
        (extract_lem (x ∷ xs) q.first_list)

  -- The call of `handle_timerq`.
  timerq_Stage :
      (k : Kernel) (held fuel : ℕ) (ready timed : List Ptr)
      → length timed < fuel
      → Stage fibres k k held [] ready timed
      → Returns
          (λ _ k'.
            Stage fibres k k' held []
              (ready ++ due_part (is_due k.duetime k.now) timed)
              (later_part (is_due k.duetime k.now) timed))
          (lists (handle_timerq k.duetime k.now fuel) k)
  timerq_Stage k held fuel ready timed enough st =
      let due = is_due k.duetime k.now in
      runs_map
        (λ _ k'.
          (k' ≡ record k { links = k'.links })
          × Queued fibres runq timerq k'.links (ready ++ due_part due timed) (later_part due timed))
        (λ _ k'. Stage fibres k k' held [] (ready ++ due_part due timed) (later_part due timed))
        (lists (handle_timerq k.duetime k.now fuel) k)
        (λ _ k' (e, q). record {
          same_now = ap (λ (z : Kernel). z.now) e;
          same_duetime = ap (λ (z : Kernel). z.duetime) e;
          same_state = ap (λ (z : Kernel). z.state) e;
          same_current = ap (λ (z : Kernel). z.current) e;
          queued = q;
          requests =
              subst (λ z. Requests z held []) (sym e)
                (record {
                  received = st.requests.received;
                  queue = st.requests.queue;
                  stored = tt;
                });
        })
        (lists-Returns
          (λ _ g. Queued fibres runq timerq g (ready ++ due_part due timed) (later_part due timed))
          (handle_timerq k.duetime k.now fuel) k
          (handle_timerq_lem w k.duetime k.now fuel ready timed enough st.queued))

  -- The call of `list_extract`.
  pick_Stage :
      (k : Kernel) (held : ℕ) (queue timed : List Ptr)
      → Stage fibres k k held [] queue timed
      → Returns
          (λ _ k'. Picked fibres k k' held queue timed)
          (after (lists (extract runq) k) (λ node k. done tt (record k { current = node })))
  pick_Stage k held queue timed st =
      then_runs
        (λ n k'.
          (k' ≡ record k { links = k'.links })
          × ((n ≡ first queue null) × Queued fibres runq timerq k'.links (rest queue) timed))
        (λ _ k'. Picked fibres k k' held queue timed) (lists (extract runq) k)
        (λ node k. done tt (record k { current = node }))
        (lists-Returns
          (λ n g. (n ≡ first queue null) × Queued fibres runq timerq g (rest queue) timed)
          (extract runq) k (extract-Queued queue timed st.queued))
        (λ n k' (e, (n_first, q)). record {
          same_now = ap (λ (z : Kernel). z.now) e;
          same_duetime = ap (λ (z : Kernel). z.duetime) e;
          same_state = ap (λ (z : Kernel). z.state) e;
          current_first = n_first;
          queued = q;
          requests =
              subst (λ z. Requests (record z { current = n }) held []) (sym e)
                (record {
                  received = st.requests.received;
                  queue = st.requests.queue;
                  stored = tt;
                });
        })

  Stage-Picked :
      (k k1 k2 : Kernel) (held : ℕ) (ready queue timed timed' : List Ptr)
      → Stage fibres k k1 held [] ready timed
      → Picked fibres k1 k2 held queue timed'
      → Picked fibres k k2 held queue timed'
  Stage-Picked k k1 k2 held ready queue timed timed' s p = record {
    same_now = p.same_now ∙ s.same_now;
    same_duetime = p.same_duetime ∙ s.same_duetime;
    same_state = p.same_state ∙ s.same_state;
    current_first = p.current_first;
    queued = p.queued;
    requests = p.requests;
  }

  pub Stage-here :
      (k k1 : Kernel) (held : ℕ) (ready timed : List Ptr)
      → Stage fibres k k1 held [] ready timed
      → Stage fibres k1 k1 held [] ready timed
  Stage-here k k1 held ready timed s = record {
    same_now = refl;
    same_duetime = refl;
    same_state = refl;
    same_current = refl;
    queued = s.queued;
    requests = s.requests;
  }

  pub recast :
      (k k1 : Kernel) (held : ℕ) {xs xs' ys ys' : List Ptr}
      → xs ≡ xs'
      → ys ≡ ys'
      → Stage fibres k k1 held [] xs ys
      → Stage fibres k k1 held [] xs' ys'
  recast k k1 held {xs} {xs'} {ys} {ys'} e e' st =
      subst (λ zs. Stage fibres k k1 held [] zs ys') e
        (subst (λ zs. Stage fibres k k1 held [] xs zs) e' st)

  -- The two calls, on the way from the kernel `k`.
  pub timerq_next :
      (k k1 : Kernel) (held fuel : ℕ) (ready timed : List Ptr)
      → length timed < fuel
      → Stage fibres k k1 held [] ready timed
      → Returns
          (λ _ k'.
            Stage fibres k k' held []
              (ready ++ due_part (is_due k.duetime k.now) timed)
              (later_part (is_due k.duetime k.now) timed))
          (lists (handle_timerq k1.duetime k1.now fuel) k1)
  timerq_next k k1 held fuel ready timed enough st =
      let queue = λ (due : Ptr → Bool). ready ++ due_part due timed in
      let later = λ (due : Ptr → Bool). later_part due timed in
      let due1 = is_due k1.duetime k1.now in
      let due = is_due k.duetime k.now in
      let same : due1 ≡ due = rw (st.same_duetime, st.same_now) refl in
      runs_map (λ _ k'. Stage fibres k1 k' held [] (queue due1) (later due1))
        (λ _ k'. Stage fibres k k' held [] (queue due) (later due))
        (lists (handle_timerq k1.duetime k1.now fuel) k1)
        (λ _ k2 st2.
          Stage-trans w k k1 k2 held held [] [] ready (queue due) timed (later due) st
            (subst (λ d. Stage fibres k1 k2 held [] (queue d) (later d)) same st2))
        (timerq_Stage k1 held fuel ready timed enough (Stage-here k k1 held ready timed st))

  pub pick_next :
      (k k1 : Kernel) (held : ℕ) (queue timed : List Ptr)
      → Stage fibres k k1 held [] queue timed
      → Returns
          (λ _ k'. Picked fibres k k' held queue timed)
          (after (lists (extract runq) k1) (λ node k. done tt (record k { current = node })))
  pick_next k k1 held queue timed st =
      runs_map (λ _ k'. Picked fibres k1 k' held queue timed)
        (λ _ k'. Picked fibres k k' held queue timed)
        (after (lists (extract runq) k1) (λ node k. done tt (record k { current = node })))
        (λ _ k2 p. Stage-Picked k k1 k2 held queue queue timed timed st p)
        (pick_Stage k1 held queue timed (Stage-here k k1 held queue timed st))
