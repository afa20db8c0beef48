-- ===== src/Ringbuf/Stores.antt =====
-- The representation invariant of `ringbuf_t`, and the bytes that a descriptor stands for.
use native.Mathlib.Nat.{mod-add-mod, mod-eq_of_lt, mod-eq-sub-mod, add-zero}
use librfn.Common.{
  ℕ, suc, ◌+◌, ◌-◌, ◌%◌, ◌^◌, ◌≤◌, ◌<◌, ◌≡◌, ◌≢◌, ap, ◌∙◌, sym, List, [], arith, length,
}
use librfn.Ringbuf.{Ringbuf, init, next_index}
use librfn.Ringbuf.Index.{next_index-eq-mod, Holds}
use librfn.Common.Cyclic.{add-mod-ne}

-- The bytes `xs`, oldest first, are those between the read and the write index; one byte of the
-- storage stays free, which tells a full ring from an empty one.
pub record Stores (rb : Ringbuf) (xs : List ℕ) : Type 0 where
  pub storage : rb.buf_len ≤ length rb.bufp
  pub small : rb.buf_len ≤ 2 ^ 32
  pub read_in : rb.readi < rb.buf_len
  pub fits : length xs < rb.buf_len
  pub write_at : rb.writei ≡ (rb.readi + length xs) % rb.buf_len
  pub held : Holds rb.bufp rb.buf_len rb.readi xs

-- A fresh descriptor over a storage that is large enough holds nothing.
pub init-Stores :
    (bufp : List ℕ) (buf_len : ℕ)
    → 0 < buf_len
    → buf_len ≤ 2 ^ 32
    → buf_len ≤ length bufp
    → Stores (init bufp buf_len) []
unfolding init
init-Stores bufp buf_len pos small storage = record {
  storage = storage;
  small = small;
  read_in = pos;
  fits = pos;
  write_at = sym (mod-eq_of_lt {n = 0} {m = buf_len} pos);
  held = tt;
}

module _ {rb : Ringbuf} {xs : List ℕ} (s : Stores rb xs) where
  open s use {small, read_in, fits, write_at, held}

  pub write_in : rb.writei < rb.buf_len
  write_in = rw write_at (omega arith)

  -- The two indices agree exactly when nothing is held.
  pub eq_iff_nil : (rb.readi ≡ rb.writei → length xs ≡ 0) × (length xs ≡ 0 → rb.readi ≡ rb.writei)
  eq_iff_nil = (
    λ e. grind (
      arith,
      λ (p : 0 < length xs).
          add-mod-ne rb.buf_len rb.readi (length xs) read_in p fits (sym (e ∙ write_at)),
    ),
    λ e. sym (write_at ∙ (rw (e, add-zero) (mod-eq_of_lt read_in))),
  )

  pub next_write : next_index rb.buf_len rb.writei ≡ (rb.readi + suc (length xs)) % rb.buf_len
  next_write =
      next_index-eq-mod rb.buf_len rb.writei small write_in
      ∙ (rw (write_at, mod-add-mod) (ap (λ n. n % rb.buf_len) (omega arith)))

  -- With one free byte the advanced write index is not the read index, and with none it is.
  pub next_write-ne : suc (length xs) < rb.buf_len → next_index rb.buf_len rb.writei ≢ rb.readi
  next_write-ne room e =
      add-mod-ne rb.buf_len rb.readi (suc (length xs)) read_in (omega arith) room
        (sym next_write ∙ e)

  pub next_write-eq : suc (length xs) ≡ rb.buf_len → next_index rb.buf_len rb.writei ≡ rb.readi
  next_write-eq full =
      next_write
      ∙ (rw full
          (mod-eq-sub-mod {n = rb.readi + rb.buf_len} {m = rb.buf_len} (omega arith) ∙ wrapped))
    where
      wrapped : (rb.readi + rb.buf_len - rb.buf_len) % rb.buf_len ≡ rb.readi
      wrapped = ap (λ n. n % rb.buf_len) (omega arith) ∙ mod-eq_of_lt read_in
