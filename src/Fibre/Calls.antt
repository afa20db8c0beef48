-- ===== src/Fibre/Calls.antt =====
-- librfn/fibre.c: the other calls that a fibre makes, and the event queues.
use librfn.Common.{ℕ, Bool, true, false, not, ◌||◌, Option, none, some, ◌==◌, if◌then◌else◌}
use librfn.Common.Int.{ℤ, nonpos, signed32}
use librfn.Common.Word.{sub32}
use librfn.Util.{cyclecmp32}
use librfn.LinkedList.{contains, remove, insert_sorted}
use librfn.LinkedList.Heap
use librfn.LinkedList.Heap.{Ptr, null, update}
use librfn.Messageq
use librfn.Messageq.{Messageq}
use librfn.Fibre.{
  Kernel, runq, timerq, done, fault, Cmd, pure, ◌>>=◌, ◌>>◌, lists, add_taint, handle_atomic_runq,
}

-- `memset(f, 0, sizeof(*f))`; the entry point is the client's.
unfoldable pub fibre_init : Ptr → Cmd (Unit {0})
fibre_init f k = done tt (record k {
  fibre_state = update k.fibre_state f 0;
  priv = update k.priv f 0;
  duetime = update k.duetime f 0;
  links = record k.links { next = update k.links.next f null };
})

-- What `fibre_run_atomic` does with the slot that it was given.
unfoldable pub send_request : Ptr → Ptr → Cmd Bool
send_request f p k =
    done true (record k { slots = update k.slots p f; atomic_runq = Messageq.send k.atomic_runq p })

-- The branches on what `messageq_claim` returned.
unfoldable pub fill_request : Ptr → Option Ptr → Cmd Bool
unfolding send_request add_taint
fill_request f none = add_taint b'A' >> pure false
fill_request f (some p) = send_request f p

unfoldable pub fibre_run_atomic : Ptr → Cmd Bool
unfolding fill_request
fibre_run_atomic f k =
    let (queued_fibre, mq) = Messageq.claim k.atomic_runq in
    fill_request f queued_fibre (record k { atomic_runq = mq })

-- The part of `fibre_kill` behind its call of `handle_atomic_runq`.
unfoldable pub dequeue : ℕ → Ptr → Heap.Cmd Bool
dequeue fuel f =
    Heap.◌>>=◌ (remove fuel runq f)
      λ res. Heap.◌>>=◌ (remove fuel timerq f) λ res'. Heap.pure (res || res')

unfoldable pub fibre_kill : ℕ → Ptr → Cmd Bool
unfolding dequeue
fibre_kill fuel f = handle_atomic_runq fuel >> lists (dequeue fuel f)

-- Of two due times the difference is converted to `int`.
unfoldable pub duetime_cmp : (Ptr → ℕ) → Ptr → Ptr → ℤ
duetime_cmp duetime f1 f2 = signed32 (sub32 (duetime f1) (duetime f2))

-- What `fibre_timeout` does to the lists.
unfoldable pub sleep : (Ptr → ℕ) → ℕ → Ptr → Heap.Cmd (Unit {0})
unfolding duetime_cmp
sleep duetime fuel f = Heap.◌>>=◌ (contains fuel runq f) λ (found, iter).
    if not found then insert_sorted (duetime_cmp duetime) fuel timerq f else Heap.pure tt

unfoldable pub fibre_timeout : ℕ → ℕ → Cmd Bool
unfolding sleep
fibre_timeout fuel due k =
    if nonpos (cyclecmp32 due k.now)
    then done true k
    else (if k.current == null
        then fault
        else (let duetime = update k.duetime k.current due in
            (lists (sleep duetime fuel k.current) >> pure false) (record k { duetime = duetime })))

unfoldable pub fibre_self : Kernel → Ptr
fibre_self k = k.current

-- `fibre_eventq_t`: a fibre with a queue of its own.
pub record Eventq : Type 0 where
  pub fibre : Ptr
  pub eventq : Messageq

unfoldable pub fibre_eventq_init : Ptr → ℕ → ℕ → ℕ → Cmd Eventq
unfolding fibre_init
fibre_eventq_init f basep base_len msg_len =
    fibre_init f >> pure (record { fibre = f; eventq = Messageq.init basep base_len msg_len })

unfoldable pub fibre_eventq_claim : Eventq → Cmd (Option ℕ × Eventq)
unfolding add_taint
fibre_eventq_claim evtq k =
    let (evtp, mq) = Messageq.claim evtq.eventq in
    let result : Option ℕ × Eventq = (evtp, record evtq { eventq = mq }) in
    elim evtp [ none ↦ (add_taint b'E' >> pure result) k | some p ↦ done result k ]

unfoldable pub fibre_eventq_send : Eventq → ℕ → Cmd (Bool × Eventq)
unfolding fibre_run_atomic
fibre_eventq_send evtq evtp = fibre_run_atomic evtq.fibre >>= λ sent.
    pure (sent, record evtq { eventq = Messageq.send evtq.eventq evtp })

unfoldable pub fibre_eventq_empty : Eventq → Bool
fibre_eventq_empty evtq = Messageq.empty evtq.eventq

unfoldable pub fibre_eventq_receive : Eventq → Option ℕ × Eventq
fibre_eventq_receive evtq =
    let (evtp, mq) = Messageq.receive evtq.eventq in (evtp, record evtq { eventq = mq })

unfoldable pub fibre_eventq_release : Eventq → ℕ → Eventq
fibre_eventq_release evtq evtp = record evtq { eventq = Messageq.release evtq.eventq evtp }
