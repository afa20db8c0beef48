-- ===== src/Fibre.antt =====
-- librfn/fibre.c and include/librfn/fibre.h: a scheduler that runs fibres to completion. It is built
-- from two lists and a message queue; a fibre is known by the address of its `link`, which `containerof`
-- takes to the fibre and back. Nobody interrupts a call. The loops and the recursion run on fuel.
pub mod Calls
pub mod Scheduler
pub mod Queues
pub mod Runs
pub mod Enqueue
pub mod Requests
pub mod Drain
pub mod Timers
pub mod Expiry
pub mod Expired
pub mod Sleep
pub mod Ask
pub mod Update
pub mod Picked
pub mod Wake
pub mod Wakeup
pub mod Effects
mod Examples
use Prim.Native.Nat.{bit_or}
use librfn.Common.{
  ℕ, zero, suc, ◌+◌, ◌-◌, ◌^◌, Bool, true, false, not, ◌&&◌, ◌||◌, Option, none, some, ltb, ◌==◌,
  if◌then◌else◌,
}
use librfn.Common.Int.{ℤ, nonpos, signed32}
use librfn.Common.Word.{u8, u32, sub32}
use librfn.Util.{cyclecmp32}
use librfn.LinkedList
use librfn.LinkedList.{
  Iterator, insert, extract, iterate, iterator_remove, contains, remove, insert_sorted,
}
use librfn.LinkedList.Heap
use librfn.LinkedList.Heap.{Ptr, null, Heap, update}
use librfn.Messageq
use librfn.Messageq.{Messageq}

-- The addresses of `kernel.runq` and `kernel.timerq`: any two that differ.
abbrev pub runq : Ptr
runq = 1

abbrev pub timerq : Ptr
timerq = 2

-- `FIBRE_STATE_YIELDED` and so on; `fn` may return any other number.
abbrev pub state_yielded : ℕ
state_yielded = 0

abbrev pub state_waiting : ℕ
state_waiting = 1

abbrev pub state_exited : ℕ
state_exited = 2

abbrev pub state_failed : ℕ
state_failed = 3

abbrev pub unbounded_sleep : ℕ
unbounded_sleep = 0x7fffffff

-- `kernel`, with the memory that its pointers lead to: the links of the lists, the slots of
-- `atomic_runq_buf`, and the members of every fibre.
pub record Kernel : Type 0 where
  pub current : Ptr
  pub state : ℕ
  pub now : ℕ
  pub atomic_runq : Messageq
  pub taint_flags : ℕ
  pub links : Heap
  pub slots : Ptr → Ptr
  pub fibre_state : Ptr → ℕ  -- uint16_t
  pub priv : Ptr → ℕ  -- uint16_t
  pub duetime : Ptr → ℕ  -- uint32_t

-- A fault is a failed assertion or an access through NULL.
pub data Run (A : Type 0) : Type 0 where
  fault : Run A
  out_of_fuel : Run A
  done : A → Kernel → Run A

abbrev pub Cmd : Type 0 → Type 0
Cmd A = Kernel → Run A

abbrev pub pure : {A : Type 0} → A → Cmd A
pure a k = done a k

module _ {A B : Type 0} where
  abbrev pub after : Run A → (A → Cmd B) → Run B
  after (done a k) f = f a k
  after fault f = fault
  after out_of_fuel f = out_of_fuel

  infixl 5 ◌>>=◌ ◌>>◌
  abbrev pub ◌>>=◌ : Cmd A → (A → Cmd B) → Cmd B
  ◌>>=◌ m f k = after (m k) f

  abbrev pub ◌>>◌ : Cmd A → Cmd B → Cmd B
  ◌>>◌ m n k = after (m k) (λ _. n)

abbrev pub with_links : {A : Type 0} → Kernel → Heap.Run A → Run A
with_links k (Heap.ok a h) = done a (record k { links = h })
with_links k Heap.fault = fault
with_links k Heap.out_of_fuel = out_of_fuel

-- A call of list.c.
abbrev pub lists : {A : Type 0} → Heap.Cmd A → Cmd A
lists c k = with_links k (c k.links)

unfoldable pub add_taint : ℕ → Cmd (Unit {0})
add_taint char k =
    let id = u8 (char + (2 ^ 8 - 65)) in
    if ltb id 32 then done tt (record k { taint_flags = bit_or k.taint_flags (2 ^ id) }) else fault

-- What `fibre_run` does to the lists behind its call of `handle_atomic_runq`.
unfoldable pub enqueue : ℕ → Ptr → Heap.Cmd (Unit {0})
enqueue fuel f = Heap.◌>>=◌ (contains fuel runq f) λ (found, iter).
    if found then Heap.pure tt else Heap.◌>>◌ (remove fuel timerq f) (insert runq f)

unfoldable pub receive_request : Cmd (Option Ptr)
receive_request k =
    let (p, mq) = Messageq.receive k.atomic_runq in done p (record k { atomic_runq = mq })

unfoldable pub release_request : Ptr → Cmd (Unit {0})
release_request p k = done tt (record k { atomic_runq = Messageq.release k.atomic_runq p })

-- The loop, whose body calls `fibre_run`, which begins by calling this function again.
unfoldable pub handle_atomic_runq : ℕ → Cmd (Unit {0})
unfolding enqueue receive_request release_request
handle_atomic_runq zero k = out_of_fuel
handle_atomic_runq (suc fuel) k = after (receive_request k) λ request. elim request [
  | none ↦ pure tt
  | some p ↦ λ k.
      (handle_atomic_runq fuel
          >> lists (enqueue fuel (k.slots p))
          >> release_request p
          >> handle_atomic_runq fuel)
        k
]

unfoldable pub fibre_run : ℕ → Ptr → Cmd (Unit {0})
unfolding handle_atomic_runq enqueue
fibre_run fuel f = handle_atomic_runq fuel >> lists (enqueue fuel f)
