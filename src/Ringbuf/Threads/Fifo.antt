-- ===== src/Ringbuf/Threads/Fifo.antt =====
-- What holds of a shared ring buffer in every reachable state.
use librfn.Common.{ℕ, ◌^◌, ◌≤◌, ◌<◌, ◌≡◌, ◌≢◌, refl, sym, List, [], ◌++◌, arith, length}
use librfn.Ringbuf.{Ringbuf}
use librfn.Ringbuf.Stores.{Stores, init-Stores, write_in, eq_iff_nil}
use librfn.Ringbuf.Steps.{Writer, put_room, Reader, get_some, get_failed}
use librfn.Ringbuf.Threads.{
  System, Step, call_put, call_get, write, read, start, Reach, here, later, WriterKnows,
  ReaderKnows, Inv,
}
use librfn.Ringbuf.Threads.Keeps.{After, write_keeps, read_keeps}

Step-After : {s t : System} (xs : List ℕ) → Step s t → Inv s xs → After t
Step-After xs (call_put b d e) v =
    (xs, record { stores = v.stores; queued = v.queued; writer = tt; reader = v.reader })
Step-After xs (call_get b e) v =
    (xs, record { stores = v.stores; queued = v.queued; writer = v.writer; reader = tt })
Step-After {s} xs write v =
    write_keeps s.sent s.received v.stores v.queued s.writer s.reader v.writer v.reader
Step-After {s} xs read v =
    read_keeps s.sent s.received v.stores v.queued s.writer s.reader v.writer v.reader

-- No byte outside the storage is about to be written or read, the two are not the same byte, and
-- the assertion has not failed.
abbrev pub Safe : Ringbuf → Writer → Reader → Type 0
Safe rb w get_failed = ⊥
Safe rb (put_room d old i) (get_some j) = (old < length rb.bufp) × (j < length rb.bufp) × (old ≢ j)
Safe rb (put_room d old i) _ = old < length rb.bufp
Safe rb _ (get_some j) = j < length rb.bufp
Safe rb _ _ = Unit

module _ {rb : Ringbuf} {xs : List ℕ} (s : Stores rb xs) where
  apart : rb.writei ≡ rb.readi → length xs ≡ 0
  apart e = (eq_iff_nil s).0 (sym e)

  Safe-knows :
      (w : Writer) (r : Reader) → WriterKnows rb (length xs) w → ReaderKnows rb xs r → Safe rb w r
  Safe-knows w r p q = ground (arith, apart, write_in s, s.storage, s.read_in)

module _ (bufp : List ℕ) (buf_len : ℕ) (pos : 0 < buf_len) (small : buf_len ≤ 2 ^ 32)
    (storage : buf_len ≤ length bufp) where
  Reach-After : {s : System} → Reach (start bufp buf_len) s → After s
  Reach-After here = (
    [],
    record {
      stores = init-Stores bufp buf_len pos small storage;
      queued = refl;
      writer = tt;
      reader = tt;
    },
  )
  Reach-After (later r st) = let (xs, v) = Reach-After r in Step-After xs st v

  -- From a fresh descriptor over enough storage, in every state that one writer and one reader
  -- reach: the bytes received are a prefix of the bytes sent, and the rest, fewer than `buf_len`,
  -- are held by the buffer. So no byte is lost, repeated, reordered or overwritten.
  pub fifo :
      {s : System}
      → Reach (start bufp buf_len) s
      → (xs : List ℕ) × (s.sent ≡ s.received ++ xs)
        × (length xs < s.ring.buf_len)
        × Stores s.ring xs
  fifo r = let (xs, v) = Reach-After r in (xs, v.queued, v.stores.fits, v.stores)

  -- In every state that one writer and one reader reach from a fresh descriptor over enough
  -- storage, the assertion of `ringbuf_get` has not failed, and neither the byte that the writer is
  -- about to write nor the byte that the reader is about to read lies outside the storage; nor are
  -- they the same byte.
  pub Reach-Safe : {s : System} → Reach (start bufp buf_len) s → Safe s.ring s.writer s.reader
  Reach-Safe {s} r =
      let (xs, v) = Reach-After r in Safe-knows v.stores s.writer s.reader v.writer v.reader
