-- ===== src/Ringbuf/Examples.antt =====
-- Runs of the ring buffer on concrete inputs, and its theorems at them.
use librfn.Common.{ℕ, ◌<◌, ◌≡◌, refl, true, false, none, some, List, [], ◌∷◌, ◌++◌, arith, length}
use librfn.Ringbuf.{Ringbuf, init, next_index, returned, get, put, putchar}
use librfn.Ringbuf.Queue
use librfn.Ringbuf.Queue.{Op, put_op, get_op, empty_op, accepted, byte, is_empty}
use librfn.Ringbuf.Stores.{Stores}
use librfn.Ringbuf.Refine.{run, run_refines}
use librfn.Ringbuf.Putchar.{putchar_full}
use librfn.Ringbuf.Steps.{put_room, step_put, step_get}
use librfn.Ringbuf.Threads.{System, start, call_put, call_get, write, read, Reach, here, later}
use librfn.Ringbuf.Threads.Fifo.{Safe, fifo, Reach-Safe}

abbrev storage : List ℕ
storage = 0 ∷ 0 ∷ 0 ∷ []

-- 8, then 9, round the end of the storage
abbrev wrapped : Ringbuf
wrapped = record { bufp = 9 ∷ 7 ∷ 8 ∷ []; buf_len = 3; readi = 2; writei = 1 }

abbrev script : List Op
script = put_op 1 ∷ get_op ∷ put_op 1 ∷ get_op ∷ get_op ∷ get_op ∷ empty_op ∷ []

run-wrapped :
    run wrapped script
    ≡ accepted false
      ∷ byte (some 8)
      ∷ accepted true
      ∷ byte (some 9)
      ∷ byte (some 1)
      ∷ byte none
      ∷ is_empty true
      ∷ []
unfolding run put get next_index librfn.Ringbuf.empty
run-wrapped = refl

wrapped-Stores : Stores wrapped (8 ∷ 9 ∷ [])
wrapped-Stores = record {
  storage = omega arith;
  small = omega arith;
  read_in = omega arith;
  fits = omega arith;
  write_at = refl;
  held = (refl, (refl, tt));
}

run_refines_example : run wrapped script ≡ Queue.run 2 (8 ∷ 9 ∷ []) script
run_refines_example = run_refines script wrapped-Stores

putchar_full_example : putchar 5 wrapped 0x141 ≡ none
putchar_full_example = putchar_full 5 0x141 wrapped-Stores refl

-- The writer has published 7 and is about to write 8, while the reader is about to read 7.
passing : (s : System) × Reach (start storage 3) s
unfolding init step_put step_get next_index
passing = (
  _,
  later
      (later
        (later
          (later
            (later
              (later (later (later (later (later here (call_put true 7 refl)) write) write) write)
                write)
              (call_put true 8 refl))
            write)
          write)
        (call_get none refl))
      read,
)

passing_state :
    (passing.0.sent ≡ 7 ∷ []) × (passing.0.received ≡ []) × (passing.0.writer ≡ put_room 8 1 2)
unfolding passing
passing_state = (refl, refl, refl)

fifo_example :
    (xs : List ℕ) × (passing.0.sent ≡ passing.0.received ++ xs)
    × (length xs < passing.0.ring.buf_len)
    × Stores passing.0.ring xs
fifo_example = fifo storage 3 (omega arith) (omega arith) (omega arith) passing.1

Reach-Safe_example : Safe passing.0.ring passing.0.writer passing.0.reader
Reach-Safe_example = Reach-Safe storage 3 (omega arith) (omega arith) (omega arith) passing.1
