-- ===== src/Ringbuf/Threads.antt =====
-- One writer and one reader over a shared ring buffer, interleaved in any order.
mod Keeps
pub mod Fifo
use native.Mathlib.Nat.{mod-add-mod, mod-eq_of_lt}
use librfn.Common.{
  ℕ, zero, suc, ◌+◌, ◌%◌, ◌^◌, ◌≤◌, ◌<◌, ◌≡◌, ◌≢◌, refl, sym, ap, ◌∙◌, Bool, true, false, Option,
  none, some, List, [], ◌∷◌, ◌++◌, append-nil, append_assoc, arith, length, get_or, set, ltb, ◌==◌,
  if◌then◌else◌, Bool-cases, inl, inr, ==_iff,
}
use librfn.Ringbuf.{Ringbuf, init, next_index}
use librfn.Ringbuf.Stores.{Stores}
use librfn.Ringbuf.Steps.{
  Writer, put_begin, put_loaded, put_room, put_written, put_done, Reader, get_begin, get_loaded,
  get_some, get_read, get_done, get_failed, step_put, step_get,
}

-- The shared descriptor, where each side stands, and the bytes that have passed: those whose
-- `ringbuf_put` has published them, and those whose `ringbuf_get` has released them.
pub record System : Type 0 where
  pub ring : Ringbuf
  pub writer : Writer
  pub reader : Reader
  pub sent : List ℕ
  pub received : List ℕ

abbrev pub publishes : Writer → List ℕ
publishes (put_written d writei) = d ∷ []
publishes _ = []

abbrev pub releases : Reader → List ℕ
releases (get_read d readi) = d ∷ []
releases _ = []

-- A side that is between two calls may begin another; any side may make its next access.
pub data Step (s : System) : System → Type 0 where
  call_put : (b : Bool) (d : ℕ) → s.writer ≡ put_done b → Step s (record s { writer = put_begin d })
  call_get : (b : Option ℕ) → s.reader ≡ get_done b → Step s (record s { reader = get_begin })
  write : Step s (record s {
    ring = (step_put s.ring s.writer).0;
    writer = (step_put s.ring s.writer).1;
    sent = s.sent ++ publishes s.writer;
  })
  read : Step s (record s {
    ring = (step_get s.ring s.reader).0;
    reader = (step_get s.ring s.reader).1;
    received = s.received ++ releases s.reader;
  })

abbrev pub start : List ℕ → ℕ → System
start bufp buf_len = record {
  ring = init bufp buf_len;
  writer = put_done true;
  reader = get_done none;
  sent = [];
  received = [];
}

pub data Reach (s : System) : System → Type 0 where
  here : Reach s s
  later : {t u : System} → Reach s t → Step t u → Reach s u

-- What the locals of the writer mean while the buffer holds `n` bytes.
abbrev pub WriterKnows : Ringbuf → ℕ → Writer → Type 0
WriterKnows rb n (put_loaded d old writei) =
    (old ≡ rb.writei) × (writei ≡ next_index rb.buf_len rb.writei)
WriterKnows rb n (put_room d old writei) =
    (old ≡ rb.writei) × (writei ≡ next_index rb.buf_len rb.writei) × (suc n < rb.buf_len)
WriterKnows rb n (put_written d writei) =
    (get_or rb.bufp rb.writei 0 ≡ d)
    × (writei ≡ next_index rb.buf_len rb.writei)
    × (suc n < rb.buf_len)
WriterKnows rb n _ = Unit

-- What the locals of the reader mean while the buffer holds `xs`.
abbrev pub ReaderKnows : Ringbuf → List ℕ → Reader → Type 0
ReaderKnows rb xs (get_loaded readi) = readi ≡ rb.readi
ReaderKnows rb xs (get_some readi) = (readi ≡ rb.readi) × (0 < length xs)
ReaderKnows rb xs (get_read d readi) =
    (readi ≡ next_index rb.buf_len rb.readi) × (0 < length xs) × (get_or rb.bufp rb.readi 0 ≡ d)
ReaderKnows rb xs get_failed = ⊥
ReaderKnows rb xs _ = Unit

-- The bytes in the buffer are those sent and not yet received.
pub record Inv (s : System) (xs : List ℕ) : Type 0 where
  pub stores : Stores s.ring xs
  pub queued : s.sent ≡ s.received ++ xs
  pub writer : WriterKnows s.ring (length xs) s.writer
  pub reader : ReaderKnows s.ring xs s.reader
