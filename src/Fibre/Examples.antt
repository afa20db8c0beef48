-- ===== src/Fibre/Examples.antt =====
-- Runs of the scheduler on a concrete kernel, and its theorems there.
use librfn.Common.{ℕ, ◌≡◌, refl, Bool, false, ◌||◌, [], ◌∷◌, ◌++◌, arith, ◌==◌, if◌then◌else◌}
use librfn.LinkedList.Heap.{Ptr, null, Heap, update}
use librfn.Messageq.{Messageq, slot}
use librfn.Fibre.{Kernel, runq, timerq, handle_atomic_runq}
use librfn.Fibre.Calls.{fibre_timeout}
use librfn.Fibre.Scheduler.{handle_timerq, update_queues, get_next_wakeup, needs_update}
use librfn.Fibre.Queues.{Fibres, Queued}
use librfn.Fibre.Runs.{Returns}
use librfn.Fibre.Requests.{Requests, drained, drained_timed}
use librfn.Fibre.Drain.{Holds, handle_lem}
use librfn.Fibre.Timers.{Clock, Timed}
use librfn.LinkedList.Heap
use librfn.Fibre.Expired.{keep, expired, waiting, expiry_lem}
use librfn.Fibre.Picked.{Picked, ready_after, timed_after}
use librfn.Fibre.Wake.{update_queues_lem}
use librfn.Fibre.Wakeup.{Wakeup, fast_path_lem, wakeup_lem}
use librfn.Fibre.Effects.{Timeout, fibre_timeout_lem}

-- Fibre 10 is current, 20 is runnable, 30 sleeps until 150, and 40 is requested.
abbrev some_fibres : Ptr → Bool
some_fibres p = (p == 10) || (p == 20) || (p == 30) || (p == 40)

abbrev some_queue : Messageq
some_queue = record {
  basep = 1000;
  msg_len = 8;
  queue_len = 8;
  num_free = 7;
  sendp = 1;
  full_flags = 1;
  receivep = 0;
}

abbrev some_heap : Heap
some_heap = record {
  next = λ p. if p == 1 then 20 else (if p == 2 then 30 else 0);
  tail = λ p. if p == 1 then 20 else 30;
}

abbrev some_times : Ptr → ℕ
some_times p = if p == 30 then 150 else 120

abbrev some_kernel : Kernel
some_kernel = record {
  current = 10;
  state = 0;
  now = 100;
  atomic_runq = some_queue;
  taint_flags = 0;
  links = some_heap;
  slots = λ p. if p == 1000 then 40 else 0;
  fibre_state = λ p. 0;
  priv = λ p. 0;
  duetime = some_times;
}

fibres_apart : Fibres some_fibres runq timerq
fibres_apart = record {
  differ = λ e. absurd (omega (arith, e));
  not_null = refl;
  not_first = refl;
  not_second = refl;
}

some_Queued : Queued some_fibres runq timerq some_heap (20 ∷ []) (30 ∷ [])
some_Queued = record {
  first_list = record {
    not_null = omega arith;
    distinct = (refl, (refl, tt));
    links = (refl, omega arith, refl);
    tail_at = refl;
  };
  second_list = record {
    not_null = omega arith;
    distinct = (refl, (refl, tt));
    links = (refl, omega arith, refl);
    tail_at = refl;
  };
  first_fibres = λ p i. ground arith;
  second_fibres = λ p i. ground arith;
  apart = λ p i. ground arith;
  idle = λ p f i j. ground arith;
}

some_Requests : Requests some_kernel 0 (40 ∷ [])
unfolding slot
some_Requests = record {
  received = 0;
  queue = record {
    some_slots = omega arith;
    few_slots = omega arith;
    some_bytes = omega arith;
    few_bytes = omega arith;
    total = refl;
    past = omega arith;
    receive_at = refl;
    send_at = refl;
    flags = (refl, (refl, (refl, (refl, (refl, (refl, (refl, (refl, tt))))))));
  };
  stored = (refl, tt);
}

some_Clock : Clock some_times 100
some_Clock = (λ p. ground arith, omega arith)

some_Timed : Timed some_times 100 (30 ∷ [])
some_Timed = record {
  sorted = (λ p i. absurd (ground arith), tt);
  ahead = λ p i. ground arith;
  within = λ p i. ground arith;
}

some_Holds : Holds some_fibres some_kernel some_kernel 0 (40 ∷ []) (20 ∷ []) (30 ∷ [])
some_Holds = record { only = refl; queued = some_Queued; requests = some_Requests }

-- The same kernel without its request.
abbrev idle_kernel : Kernel
idle_kernel = record some_kernel {
  atomic_runq = record some_queue { num_free = 8; sendp = 0; full_flags = 0 };
  links = record some_heap { next = λ p. 0 };
}

idle_Queued : Queued some_fibres runq timerq idle_kernel.links [] []
idle_Queued = record {
  first_list = record { not_null = omega arith; distinct = (refl, tt); links = refl; tail_at = tt };
  second_list = record {
    not_null = omega arith;
    distinct = (refl, tt);
    links = refl;
    tail_at = tt;
  };
  first_fibres = λ p i. ground arith;
  second_fibres = λ p i. ground arith;
  apart = λ p i. refl;
  idle = λ p f i j. refl;
}

idle_Requests : Requests idle_kernel 0 []
idle_Requests = record {
  received = 0;
  queue = record {
    some_slots = omega arith;
    few_slots = omega arith;
    some_bytes = omega arith;
    few_bytes = omega arith;
    total = refl;
    past = omega arith;
    receive_at = refl;
    send_at = refl;
    flags = (refl, (refl, (refl, (refl, (refl, (refl, (refl, (refl, tt))))))));
  };
  stored = tt;
}

handle_lem_example :
    Returns
      (λ _ k'.
        Holds some_fibres some_kernel k' 0 []
          (drained (40 ∷ []) (20 ∷ []))
          (drained_timed (40 ∷ []) (30 ∷ [])))
      (handle_atomic_runq 9 some_kernel)
handle_lem_example =
    handle_lem fibres_apart 9 some_kernel some_kernel 0 (40 ∷ []) (20 ∷ []) (30 ∷ []) (refl, tt)
      (omega arith) some_Holds

expiry_lem_example :
    Heap.Returns
      (λ _ g. Queued some_fibres runq timerq g (20 ∷ 30 ∷ []) [] × Timed some_times 160 [])
      (handle_timerq some_times 160 2 some_heap)
expiry_lem_example =
    expiry_lem fibres_apart some_times 100 160 some_Clock (omega arith) (omega arith) 2 (20 ∷ [])
      (30 ∷ []) (omega arith) some_Timed some_Queued

later_clock : Clock (update some_times 10 170) 100
later_clock = (λ p. ground arith, omega arith)

fibre_timeout_lem_example :
    Returns
      (λ b k'. Timeout fibres_apart some_kernel k' 170 (20 ∷ []) (30 ∷ []) later_clock b)
      (fibre_timeout 3 170 some_kernel)
fibre_timeout_lem_example =
    fibre_timeout_lem fibres_apart some_kernel 3 170 (20 ∷ []) (30 ∷ []) some_Queued some_Timed
      later_clock (omega arith) refl refl (omega arith) (omega arith)

update_queues_lem_example :
    Returns
      (λ _ k'.
        Picked some_fibres some_kernel k' 0
          (ready_after some_kernel (40 ∷ []) (20 ∷ [])
            ++ keep (expired some_times 100 100) (timed_after some_kernel (40 ∷ []) (30 ∷ [])))
          (keep (waiting some_times 100 100) (timed_after some_kernel (40 ∷ []) (30 ∷ [])))
        × Timed some_times 100
            (keep (waiting some_times 100 100) (timed_after some_kernel (40 ∷ []) (30 ∷ []))))
      (update_queues 9 some_kernel)
update_queues_lem_example =
    update_queues_lem fibres_apart some_kernel 0 9 (40 ∷ []) (20 ∷ []) (30 ∷ []) (refl, tt)
      (λ n. refl) (omega arith) (omega arith) 100 some_Clock (omega arith) (omega arith) some_Timed
      some_Holds

wakeup_lem_example : Wakeup some_kernel (40 ∷ []) (20 ∷ []) (30 ∷ []) (get_next_wakeup some_kernel)
wakeup_lem_example =
    wakeup_lem fibres_apart some_kernel 0 (40 ∷ []) (20 ∷ []) (30 ∷ []) some_Queued some_Requests
      some_Timed (omega arith)

skips : needs_update idle_kernel ≡ false
unfolding librfn.Messageq.empty
skips = refl

idle_Holds : Holds some_fibres idle_kernel idle_kernel 0 [] [] []
idle_Holds = record { only = refl; queued = idle_Queued; requests = idle_Requests }

fast_path_lem_example :
    Returns
      (λ _ k'.
        (k'.current ≡ 10)
        × (k'.state ≡ 0)
        × (k'.now ≡ 100)
        × (k'.duetime ≡ some_times)
        × Queued some_fibres runq timerq k'.links [] []
        × Requests k' 0 [])
      (update_queues 1 idle_kernel)
    × Queued some_fibres runq timerq idle_kernel.links [] []
    × Requests idle_kernel 0 []
fast_path_lem_example =
    fast_path_lem fibres_apart idle_kernel 0 1 [] [] [] (λ n. refl) (omega arith) (omega arith)
      idle_Holds skips
