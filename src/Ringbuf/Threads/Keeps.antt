-- ===== src/Ringbuf/Threads/Keeps.antt =====
-- Every access of either side keeps the invariant of the shared ring buffer.
use native.Mathlib.Decide.{dec_lt}
use librfn.Common.{
  ℕ, suc, ◌+◌, ◌%◌, ◌<◌, ◌≡◌, ◌≢◌, refl, sym, ap, ◌∙◌, some, List, [], ◌∷◌, ◌++◌, append-nil,
  append_assoc, arith, length, get_or, set, ◌==◌, Bool-cases, inl, inr, length-append, length-set,
  lt→ltb, eq→==, get_or-set_self, get_or-set_ne,
}
use librfn.Ringbuf.{Ringbuf, next_index}
use librfn.Ringbuf.Index.{Holds-set}
use librfn.Common.Cyclic.{Holds-append}
use librfn.Ringbuf.Stores.{Stores, write_in, eq_iff_nil, next_write, next_write-eq}
use librfn.Ringbuf.Refine.{taken, taken-Stores}
use librfn.Ringbuf.Steps.{
  Writer, put_begin, put_loaded, put_room, put_written, put_done, Reader, get_begin, get_loaded,
  get_some, get_read, get_done, get_failed, step_put, step_get,
}
use librfn.Ringbuf.Threads.{System, publishes, releases, WriterKnows, ReaderKnows, Inv}

module _ {rb : Ringbuf} {xs : List ℕ} (s : Stores rb xs) where
  -- The byte is written, and not yet published.
  abbrev written : ℕ → Ringbuf
  written d = record rb { bufp = set rb.bufp rb.writei d }

  Stores-written : (d : ℕ) → Stores (written d) xs
  Stores-written d = record {
    storage = rw length-set s.storage;
    small = s.small;
    read_in = s.read_in;
    fits = s.fits;
    write_at = s.write_at;
    held =
        Holds-set rb.bufp rb.buf_len d xs rb.readi (length xs) rb.writei s.read_in (omega arith)
          s.fits s.write_at s.held;
  }

  -- A reader that has its byte in hand still sees it.
  ReaderKnows-written : (d : ℕ) (r : Reader) → ReaderKnows rb xs r → ReaderKnows (written d) xs r
  ReaderKnows-written d get_begin h = tt
  ReaderKnows-written d (get_loaded i) h = h
  ReaderKnows-written d (get_some i) h = h
  ReaderKnows-written d (get_read b i) h =
      (h.0, h.1, get_or-set_ne rb.bufp rb.writei rb.readi d 0 apart ∙ h.2)
    where
      apart : rb.writei ≢ rb.readi
      apart e = absurd (omega (arith, (eq_iff_nil s).0 (sym e)))
  ReaderKnows-written d (get_done b) h = tt
  ReaderKnows-written d get_failed h = h

  -- The write index moves over the byte.
  abbrev published : Ringbuf
  published = record rb { writei = next_index rb.buf_len rb.writei }

  Stores-published :
      (d : ℕ)
      → get_or rb.bufp rb.writei 0 ≡ d
      → suc (length xs) < rb.buf_len
      → Stores published (xs ++ (d ∷ []))
  Stores-published d at room = record {
    storage = s.storage;
    small = s.small;
    read_in = s.read_in;
    fits = omega (arith, length-append xs (d ∷ []));
    write_at =
        next_write s
        ∙ ap (λ n. (rb.readi + n) % rb.buf_len) (omega (arith, length-append xs (d ∷ [])));
    held =
        Holds-append (λ i. get_or rb.bufp i 0) rb.buf_len d xs rb.readi s.read_in
          (rw (← s.write_at) at) s.held;
  }

  ReaderKnows-published :
      (d : ℕ) (r : Reader) → ReaderKnows rb xs r → ReaderKnows published (xs ++ (d ∷ [])) r
  ReaderKnows-published d get_begin h = tt
  ReaderKnows-published d (get_loaded i) h = h
  ReaderKnows-published d (get_some i) h = (h.0, omega (arith, length-append xs (d ∷ [])))
  ReaderKnows-published d (get_read b i) h = (h.0, omega (arith, length-append xs (d ∷ [])), h.2)
  ReaderKnows-published d (get_done b) h = tt
  ReaderKnows-published d get_failed h = h

  -- The writer found the advanced index free of the read index.
  room_of_ne : next_index rb.buf_len rb.writei ≢ rb.readi → suc (length xs) < rb.buf_len
  room_of_ne ne = elim (dec_lt (suc (length xs)) rb.buf_len) [
    | yes room ↦ room
    | no full ↦ absurd (ne (next_write-eq s (omega (arith, s.fits))))
  ]

-- What one side's access is shown to do.
abbrev pub After : System → Type 0
After t = (xs : List ℕ) × Inv t xs

-- The writer does not look at the read index, and has at least as much room as it knew of.
WriterKnows-taken :
    (rb : Ringbuf) (n : ℕ) (w : Writer) → WriterKnows rb (suc n) w → WriterKnows (taken rb) n w
WriterKnows-taken rb n (put_begin d) h = tt
WriterKnows-taken rb n (put_loaded d old w) h = h
WriterKnows-taken rb n (put_room d old w) h = (h.0, h.1, omega arith)
WriterKnows-taken rb n (put_written d w) h = (h.0, h.1, omega arith)
WriterKnows-taken rb n (put_done b) h = tt

-- Releasing the oldest byte.
release :
    {rb : Ringbuf} (xs sent received : List ℕ) (b : ℕ) (w : Writer)
    → Stores rb xs
    → sent ≡ received ++ xs
    → 0 < length xs
    → get_or rb.bufp rb.readi 0 ≡ b
    → WriterKnows rb (length xs) w
    → After (record {
      ring = taken rb;
      writer = w;
      reader = get_done (some b);
      sent = sent;
      received = received ++ (b ∷ []);
    })
release [] sent received b w s q pos at hw = absurd (omega arith)
release {rb} (x ∷ xs) sent received b w s q pos at hw = (
  xs,
  record {
    stores = taken-Stores s;
    queued = rw (append_assoc, ← at, s.held.0) q;
    writer = WriterKnows-taken rb (length xs) w hw;
    reader = tt;
  },
)

module _ {rb : Ringbuf} {xs : List ℕ} (sent received : List ℕ) (s : Stores rb xs)
    (q : sent ≡ received ++ xs) where
  pub write_keeps :
      (w : Writer) (r : Reader)
      → WriterKnows rb (length xs) w
      → ReaderKnows rb xs r
      → After (record {
        ring = (step_put rb w).0;
        writer = (step_put rb w).1;
        reader = r;
        sent = sent ++ publishes w;
        received = received;
      })
  unfolding step_put
  write_keeps (put_begin d) r hw hr =
      (xs, record { stores = s; queued = append-nil sent ∙ q; writer = (refl, refl); reader = hr })
  write_keeps (put_loaded d old w) r hw hr = elim (Bool-cases (w == rb.readi)) [
    | inl full ↦
        (xs, record { stores = s; queued = append-nil sent ∙ q; writer = rw full tt; reader = hr })
    | inr room ↦ (
      xs,
      record {
        stores = s;
        queued = append-nil sent ∙ q;
        writer = rw room (hw.0, hw.1, room_of_ne s (rw (← hw.1) (ground arith)));
        reader = hr;
      },
    )
  ]
  write_keeps (put_room d old w) r hw hr = (
    xs,
    rw hw.0 (record {
      stores = Stores-written s d;
      queued = append-nil sent ∙ q;
      writer = (
        get_or-set_self rb.bufp rb.writei d 0 (omega (arith, write_in s, s.storage)),
        hw.1,
        hw.2,
      );
      reader = ReaderKnows-written s d r hr;
    }),
  )
  write_keeps (put_written d w) r hw hr = (
    xs ++ (d ∷ []),
    rw hw.1 (record {
      stores = Stores-published s d hw.0 hw.2;
      queued = ap (λ l. l ++ (d ∷ [])) q ∙ append_assoc received xs (d ∷ []);
      writer = tt;
      reader = ReaderKnows-published s d r hr;
    }),
  )
  write_keeps (put_done b) r hw hr =
      (xs, record { stores = s; queued = append-nil sent ∙ q; writer = tt; reader = hr })

  pub read_keeps :
      (w : Writer) (r : Reader)
      → WriterKnows rb (length xs) w
      → ReaderKnows rb xs r
      → After (record {
        ring = (step_get rb r).0;
        writer = w;
        reader = (step_get rb r).1;
        sent = sent;
        received = received ++ releases r;
      })
  unfolding step_get
  read_keeps w get_begin hw hr =
      rw (lt→ltb rb.readi rb.buf_len s.read_in)
        (xs, record { stores = s; queued = same; writer = hw; reader = refl })
    where
      same : sent ≡ (received ++ []) ++ xs
      same = rw append-nil q
  read_keeps w (get_loaded i) hw hr = elim (Bool-cases (i == rb.writei)) [
    | inl nothing ↦
        (xs, record { stores = s; queued = rw append-nil q; writer = hw; reader = rw nothing tt })
    | inr something ↦ (
      xs,
      record {
        stores = s;
        queued = rw append-nil q;
        writer = hw;
        reader = rw something (hr, pos_of_ne (λ e. cc (eq→== i rb.writei (hr ∙ e))));
      },
    )
  ]
    where
      pos_of_ne : rb.readi ≢ rb.writei → 0 < length xs
      pos_of_ne ne = elim (dec_lt 0 (length xs)) [
        | yes p ↦ p
        | no z ↦ absurd (ne ((eq_iff_nil s).1 (omega arith)))
      ]
  read_keeps w (get_some i) hw hr = (
    xs,
    record {
      stores = s;
      queued = rw append-nil q;
      writer = hw;
      reader = (ap (next_index rb.buf_len) hr.0, hr.1, ap (λ n. get_or rb.bufp n 0) (sym hr.0));
    },
  )
  read_keeps w (get_read b i) hw hr = rw hr.0 (release xs sent received b w s q hr.1 hr.2 hw)
  read_keeps w (get_done b) hw hr =
      (xs, record { stores = s; queued = rw append-nil q; writer = hw; reader = tt })
  read_keeps w get_failed hw hr = absurd hr
