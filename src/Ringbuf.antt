-- ===== src/Ringbuf.antt =====
-- librfn/ringbuf.c and include/librfn/ringbuf.h: a byte ring with a read and a write index.
-- A function that changes `*rb` returns the new descriptor beside its result.
pub mod Queue
mod Index
pub mod Stores
pub mod Refine
pub mod Putchar
pub mod Steps
pub mod Threads
mod Examples
use librfn.Common.{
  ℕ, zero, suc, ◌+◌, ◌^◌, ◌%◌, Bool, true, false, Option, none, some, List, ltb, leb, ◌==◌,
  if◌then◌else◌, get_or, set,
}
use librfn.Common.Word.{u8, u32, sub_size}

-- `ringbuf_t`. The storage behind `bufp` is the list of its bytes.
pub record Ringbuf : Type 0 where
  pub bufp : List ℕ
  pub buf_len : ℕ
  pub readi : ℕ
  pub writei : ℕ

-- `memset` leaves both indices at zero.
unfoldable pub init : List ℕ → ℕ → Ringbuf
init bufp buf_len = record { bufp = bufp; buf_len = buf_len; readi = 0; writei = 0 }

-- `if (++i >= rb->buf_len) i -= rb->buf_len;` on an `unsigned int` against a `size_t`.
unfoldable pub next_index : ℕ → ℕ → ℕ
next_index buf_len i =
    let i' = u32 (i + 1) in if leb buf_len i' then u32 (sub_size i' buf_len) else i'

-- What a call of `ringbuf_get` comes to: a failed assertion, or the returned `int` (`none` is -1)
-- with the descriptor after it.
pub data Get : Type 0 where
  assert_failed : Get
  returned : Option ℕ → Ringbuf → Get

unfoldable pub get : Ringbuf → Get
get rb =
    if ltb rb.readi rb.buf_len
    then (if rb.readi == rb.writei
        then returned none rb
        else returned (some (get_or rb.bufp rb.readi 0))
            (record rb { readi = next_index rb.buf_len rb.readi }))
    else assert_failed

unfoldable pub empty : Ringbuf → Bool
empty rb = rb.readi == rb.writei

-- A `set` out of range changes nothing; `Stores.in_bounds` rules it out.
unfoldable pub put : Ringbuf → ℕ → Bool × Ringbuf
put rb d =
    let old_writei = rb.writei in
    let writei = next_index rb.buf_len rb.writei in
    if writei == rb.readi
    then (false, rb)
    else (true, record rb { bufp = set rb.bufp old_writei d; writei = writei })

-- The busy wait, with as many rounds as the first argument; `none` is a wait that goes on. The
-- `char` is converted to `uint8_t` by the call.
unfoldable pub putchar : ℕ → Ringbuf → ℕ → Option Ringbuf
unfolding put
putchar zero rb c = none
putchar (suc rounds) rb c =
    let (done, rb') = put rb (u8 c) in
    let again = putchar rounds rb' c in if done then some rb' else again
