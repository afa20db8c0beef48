-- ===== src/Ringbuf/Steps.antt =====
-- `ringbuf_put` and `ringbuf_get` one shared access at a time, for a writer and a reader that
-- interrupt each other. Each shared access of the code is a step: the atomic loads and stores, and
-- the plain access of the byte, which the fences keep in place.
use librfn.Common.{
  ℕ, ◌≡◌, Bool, true, false, Option, none, some, arith, ltb, ◌==◌, if◌then◌else◌, get_or, set,
}
use librfn.Ringbuf.{Ringbuf, next_index, Get, returned, assert_failed, get, put}

-- Where a writer stands, with the locals that are live there.
pub data Writer : Type 0 where
  put_begin : (d : ℕ) → Writer
  put_loaded : (d old_writei writei : ℕ) → Writer  -- before the load of `readi`
  put_room : (d old_writei writei : ℕ) → Writer  -- before the write of the byte
  put_written : (d writei : ℕ) → Writer  -- before the store of `writei`
  put_done : Bool → Writer

-- Where a reader stands.
pub data Reader : Type 0 where
  get_begin : Reader
  get_loaded : (readi : ℕ) → Reader  -- before the load of `writei`
  get_some : (readi : ℕ) → Reader  -- before the read of the byte
  get_read : (d readi : ℕ) → Reader  -- before the store of `readi`
  get_done : Option ℕ → Reader
  get_failed : Reader  -- the assertion failed

unfoldable pub step_put : Ringbuf → Writer → Ringbuf × Writer
step_put rb (put_begin d) = (rb, put_loaded d rb.writei (next_index rb.buf_len rb.writei))
step_put rb (put_loaded d old writei) =
    (rb, if writei == rb.readi then put_done false else put_room d old writei)
step_put rb (put_room d old writei) = (record rb { bufp = set rb.bufp old d }, put_written d writei)
step_put rb (put_written d writei) = (record rb { writei = writei }, put_done true)
step_put rb (put_done b) = (rb, put_done b)

-- The assertion reads only a local and the constant length, so it belongs to the first load; the
-- increment of the local belongs to the read of the byte.
unfoldable pub step_get : Ringbuf → Reader → Ringbuf × Reader
step_get rb get_begin = (rb, if ltb rb.readi rb.buf_len then get_loaded rb.readi else get_failed)
step_get rb (get_loaded readi) = (rb, if readi == rb.writei then get_done none else get_some readi)
step_get rb (get_some readi) = (rb, get_read (get_or rb.bufp readi 0) (next_index rb.buf_len readi))
step_get rb (get_read d readi) = (record rb { readi = readi }, get_done (some d))
step_get rb (get_done b) = (rb, get_done b)
step_get rb get_failed = (rb, get_failed)

abbrev pub four {ℓ} : {A B : Type ℓ} → (A → B → A × B) → A → B → A × B
four step a b = let (a, b) = step a b in let (a, b) = step a b in let (a, b) = step a b in step a b

-- A writer that nobody interrupts does what `ringbuf_put` does.
pub put_alone :
    (rb : Ringbuf) (d : ℕ) → four step_put rb (put_begin d) ≡ ((put rb d).1, put_done (put rb d).0)
unfolding step_put put
put_alone rb d = ground arith

-- Where a whole call of `ringbuf_get` leaves the descriptor and the reader.
abbrev pub ended : Ringbuf → Get → Ringbuf × Reader
ended rb assert_failed = (rb, get_failed)
ended rb (returned b rb') = (rb', get_done b)

-- A reader that nobody interrupts does what `ringbuf_get` does.
pub get_alone : (rb : Ringbuf) → four step_get rb get_begin ≡ ended rb (get rb)
unfolding step_get get
get_alone rb = ground arith
