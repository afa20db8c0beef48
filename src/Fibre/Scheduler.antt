-- ===== src/Fibre/Scheduler.antt =====
-- librfn/fibre.c: the scheduler proper. What a fibre does in one activation is a client's: the calls
-- that it makes, each depending on what the calls before it returned, and the state that it
-- returns in the end.
use librfn.Common.{ℕ, zero, suc, ◌+◌, Bool, not, ◌&&◌, ◌||◌, ◌==◌, if◌then◌else◌}
use librfn.Common.Int.{nonpos}
use librfn.Common.Word.{u16, u32}
use librfn.Util.{cyclecmp32}
use librfn.LinkedList.{Iterator, insert, extract, iterate, iterator_remove}
use librfn.LinkedList.Heap
use librfn.LinkedList.Heap.{Ptr, null, Heap, update}
use librfn.Messageq
use librfn.Messageq.{Messageq}
use librfn.Fibre.{
  Kernel, runq, timerq, state_yielded, state_waiting, state_exited, state_failed, unbounded_sleep,
  done, fault, Cmd, pure, after, ◌>>=◌, ◌>>◌, lists, add_taint, handle_atomic_runq, fibre_run,
}
use librfn.Fibre.Calls.{fibre_run_atomic, fibre_kill, fibre_timeout}

-- `NULL != node && cyclecmp32(timeout_fibre->duetime, kernel.now) <= 0`
abbrev pub is_due : (Ptr → ℕ) → ℕ → Ptr → Bool
is_due duetime now node = not (node == null) && nonpos (cyclecmp32 (duetime node) now)

module _ (duetime : Ptr → ℕ) (now : ℕ) where
  unfoldable pub timerq_from : ℕ → Ptr × Iterator → Heap.Cmd (Unit {0})
  timerq_from zero (node, iter) h = Heap.out_of_fuel
  timerq_from (suc fuel) (node, iter) h =
      let rest =
        (Heap.◌>>=◌ (iterator_remove iter)
            (λ next. Heap.◌>>◌ (insert runq node) (timerq_from fuel (next, iter))))
          h in
      if is_due duetime now node then rest else Heap.ok tt h

  unfoldable pub handle_timerq : ℕ → Heap.Cmd (Unit {0})
  unfolding timerq_from
  handle_timerq fuel = Heap.◌>>=◌ (iterate timerq) (timerq_from fuel)

-- `PT_INIT(&kernel.current->priv)`
abbrev pub pt_init : Cmd (Unit {0})
pt_init k = done tt (record k { priv = update k.priv k.current 0 })

unfoldable pub update_current_state : ℕ → Cmd (Unit {0})
update_current_state fuel k =
    let k = record k { fibre_state = update k.fibre_state k.current (u16 k.state) } in
    if k.state == state_yielded
    then fibre_run fuel k.current k
    else (if k.state == state_failed
        then (add_taint b'F' >> pt_init) k
        else (if k.state == state_exited
            then pt_init k
            else (if k.state == state_waiting then done tt k else fault)))

-- `list_empty` of a list of the kernel.
abbrev pub is_empty : Ptr → Kernel → Bool
is_empty l k = k.links.next l == null

unfoldable pub get_next_wakeup : Kernel → ℕ
get_next_wakeup k =
    if not (Messageq.empty k.atomic_runq) || not (is_empty runq k)
    then k.now
    else (if is_empty timerq k
        then u32 (k.now + unbounded_sleep)
        else k.duetime (k.links.next timerq))

-- One activation of a fibre.
pub data Program : Type 0 where
  finish : ℕ → Program
  run : Ptr → Program → Program
  run_atomic : Ptr → (Bool → Program) → Program
  kill : Ptr → (Bool → Program) → Program
  timeout : ℕ → (Bool → Program) → Program

unfoldable pub exec : ℕ → Program → Cmd ℕ
exec fuel (finish state) = pure state
exec fuel (run f p) = fibre_run fuel f >> exec fuel p
exec fuel (run_atomic f p) = fibre_run_atomic f >>= λ b. exec fuel (p b)
exec fuel (kill f p) = fibre_kill fuel f >>= λ b. exec fuel (p b)
exec fuel (timeout due p) = fibre_timeout fuel due >>= λ b. exec fuel (p b)

-- The part that the fast path skips.
unfoldable pub update_queues : ℕ → Cmd (Unit {0})
unfolding update_current_state
update_queues fuel =
    handle_atomic_runq fuel
    >> (λ k. if k.current == null then done tt k else update_current_state fuel k)
    >> (λ k. lists (handle_timerq k.duetime k.now fuel) k)
    >> (λ k. after (lists (extract runq) k) (λ node k. done tt (record k { current = node })))

abbrev pub needs_update : Kernel → Bool
needs_update k =
    not (k.state == state_yielded)
    || not (is_empty runq k)
    || not (is_empty timerq k)
    || not (Messageq.empty k.atomic_runq)

-- The fibre's activation and the result.
unfoldable pub activate : ℕ → (Ptr → Program) → Cmd ℕ
unfolding exec get_next_wakeup
activate fuel fn k =
    let idle = done (get_next_wakeup k) k in
    if k.current == null
    then idle
    else after (exec fuel (fn k.current) k) (λ state k.
      let k' = record k { state = state } in
      if state == state_yielded then done k'.now k' else done (get_next_wakeup k') k')

unfoldable pub fibre_scheduler_next : ℕ → (Ptr → Program) → ℕ → Cmd ℕ
unfolding update_queues activate
fibre_scheduler_next fuel fn time k =
    let k' = record k { now = time } in
    if needs_update k' then (update_queues fuel >> activate fuel fn) k' else activate fuel fn k'
