-- ===== src/Ringbuf/Refine.antt =====
-- A ring buffer behaves as the queue of the bytes that it holds.
use native.Mathlib.Decide.{dec_lt}
use librfn.Common.{
  ℕ, suc, ◌+◌, ◌-◌, ◌%◌, ◌<◌, ◌≡◌, ◌≢◌, refl, ap, ◌∙◌, sym, eq→==, ne→==, lt→ltb, le→ltb, true,
  false, List, [], ◌∷◌, ◌++◌, arith, length, get_or, set, length-set, get_or-set_self,
  length-append,
}
use librfn.Ringbuf.{Ringbuf, next_index, assert_failed, returned, get, empty, put}
use librfn.Ringbuf.Queue
use librfn.Ringbuf.Queue.{
  Queue, Op, put_op, get_op, empty_op, Reply, accepted, byte, is_empty, fault, none?,
}
use librfn.Ringbuf.Index.{next_index-eq-mod, Holds-set}
use librfn.Common.Cyclic.{Holds-append, mod_shift}
use librfn.Ringbuf.Stores.{Stores, write_in, eq_iff_nil, next_write, next_write-ne, next_write-eq}

-- The most bytes that a buffer of `buf_len` bytes holds at once.
abbrev pub capacity : Ringbuf → ℕ
capacity rb = rb.buf_len - 1

-- The descriptor after a byte was stored at the write index and the index moved on.
abbrev pub filled : Ringbuf → ℕ → Ringbuf
filled rb d = record rb { bufp = set rb.bufp rb.writei d; writei = next_index rb.buf_len rb.writei }

pub filled-Stores :
    {rb : Ringbuf} {xs : List ℕ} (d : ℕ)
    → Stores rb xs
    → suc (length xs) < rb.buf_len
    → Stores (filled rb d) (xs ++ (d ∷ []))
filled-Stores {rb} {xs} d s room = record {
  storage = rw length-set s.storage;
  small = s.small;
  read_in = s.read_in;
  fits = omega (arith, length-append xs (d ∷ []));
  write_at =
      next_write s
      ∙ ap (λ n. (rb.readi + n) % rb.buf_len) (omega (arith, length-append xs (d ∷ [])));
  held =
      Holds-append (λ i. get_or (set rb.bufp rb.writei d) i 0) rb.buf_len d xs rb.readi s.read_in
        (rw (← s.write_at)
          (get_or-set_self rb.bufp rb.writei d 0 (omega (arith, write_in s, s.storage))))
        (Holds-set rb.bufp rb.buf_len d xs rb.readi (length xs) rb.writei s.read_in (omega arith)
          s.fits s.write_at s.held);
}

-- The descriptor after the oldest byte was taken.
abbrev pub taken : Ringbuf → Ringbuf
taken rb = record rb { readi = next_index rb.buf_len rb.readi }

pub taken-Stores : {rb : Ringbuf} {x : ℕ} {xs : List ℕ} → Stores rb (x ∷ xs) → Stores (taken rb) xs
taken-Stores {rb} {x} {xs} s = record {
  storage = s.storage;
  small = s.small;
  read_in = rw next (omega (arith, s.read_in));
  fits = omega (arith, s.fits);
  write_at = rw next (s.write_at ∙ sym (mod_shift rb.buf_len rb.readi (length xs)));
  held = rw next s.held.1;
}
  where
    next : next_index rb.buf_len rb.readi ≡ (rb.readi + 1) % rb.buf_len
    next = next_index-eq-mod rb.buf_len rb.readi s.small s.read_in

-- The two outcomes of `ringbuf_put`.
pub put_of_room :
    {rb : Ringbuf} {xs : List ℕ} (d : ℕ)
    → Stores rb xs
    → suc (length xs) < rb.buf_len
    → put rb d ≡ (true, filled rb d)
unfolding put
put_of_room {rb} d s room =
    rw (ne→== (next_index rb.buf_len rb.writei) rb.readi (next_write-ne s room))

pub put_of_full :
    {rb : Ringbuf} {xs : List ℕ} (d : ℕ)
    → Stores rb xs
    → suc (length xs) ≡ rb.buf_len
    → put rb d ≡ (false, rb)
unfolding put
put_of_full {rb} d s full =
    rw (eq→== (next_index rb.buf_len rb.writei) rb.readi (next_write-eq s full))

-- `ringbuf_put` answers as the bounded queue does, and leaves the descriptor holding its queue.
pub put_refines :
    {rb : Ringbuf} {xs : List ℕ} (d : ℕ)
    → Stores rb xs
    → let (b, rb') = put rb d in
      let (b', q) = Queue.put (capacity rb) xs d in (b ≡ b') × Stores rb' q
unfolding Queue.put
put_refines {rb} {xs} d s = elim (dec_lt (suc (length xs)) rb.buf_len) [
  | yes room ↦
      rw (put_of_room d s room, lt→ltb (length xs) (rb.buf_len - 1) (omega arith))
        (refl, filled-Stores d s room)
  | no full ↦
      rw
        (put_of_full d s (omega (arith, s.fits)), le→ltb (length xs) (rb.buf_len - 1) (omega arith))
        (refl, s)
]

-- `ringbuf_get` never fails its assertion, returns what the queue returns, and leaves the
-- descriptor holding the rest.
pub get_refines :
    {rb : Ringbuf} (xs : List ℕ)
    → Stores rb xs
    → (rb' : Ringbuf) × (get rb ≡ returned (Queue.get xs).0 rb')
      × Stores rb' (Queue.get xs).1
      × (rb'.buf_len ≡ rb.buf_len)
unfolding get Queue.get
get_refines {rb} [] s = (rb, rw (lt→ltb _ _ s.read_in, eq→== _ _ ((eq_iff_nil s).1 refl)), s, refl)
get_refines {rb} (x ∷ xs) s = (
  taken rb,
  rw (lt→ltb _ _ s.read_in, ne→== rb.readi rb.writei differ, s.held.0),
  taken-Stores s,
  refl,
)
  where
    differ : rb.readi ≢ rb.writei
    differ e = absurd (omega (arith, (eq_iff_nil s).0 e))

-- `ringbuf_empty` says whether the queue is empty.
pub empty_refines : {rb : Ringbuf} (xs : List ℕ) → Stores rb xs → empty rb ≡ none? xs
unfolding empty
empty_refines [] s = eq→== _ _ ((eq_iff_nil s).1 refl)
empty_refines {rb} (x ∷ xs) s =
    ne→== rb.readi rb.writei λ e. absurd (omega (arith, (eq_iff_nil s).0 e))

buf_len-put : (rb : Ringbuf) (d : ℕ) → (put rb d).1.buf_len ≡ rb.buf_len
unfolding put
buf_len-put rb d = ground arith

-- A client's calls in order, with what each returns. Nothing runs after a failed assertion.
unfoldable pub run : Ringbuf → List Op → List Reply
run rb [] = []
run rb (put_op d ∷ ops) = let (b, rb') = put rb d in accepted b ∷ run rb' ops
run rb (get_op ∷ ops) = elim (get rb) [
  | assert_failed ↦ fault ∷ []
  | returned b rb' ↦ byte b ∷ run rb' ops
]
run rb (empty_op ∷ ops) = is_empty (empty rb) ∷ run rb ops

-- No sequence of calls tells a valid ring buffer from the bounded queue of its bytes; in
-- particular no call fails its assertion.
pub run_refines :
    (ops : List Op) {rb : Ringbuf} {xs : List ℕ}
    → Stores rb xs
    → run rb ops ≡ Queue.run (capacity rb) xs ops
unfolding run Queue.run
run_refines [] s = refl
run_refines (put_op d ∷ ops) {rb} {xs} s =
    let (same, s') = put_refines d s in rw (same, run_refines ops s', buf_len-put)
run_refines (get_op ∷ ops) {rb} {xs} s =
    let (rb', e, s', len) = get_refines xs s in rw (e, run) (rw (run_refines ops s', len))
run_refines (empty_op ∷ ops) {xs} s = rw (empty_refines xs s, run_refines ops s)
