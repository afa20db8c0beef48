-- ===== src/Ringbuf/Putchar.antt =====
-- `ringbuf_putchar`, with nobody else running.
use librfn.Common.{ℕ, zero, suc, ◌<◌, ◌≡◌, refl, some, none, List, [], ◌∷◌, ◌++◌, length}
use librfn.Common.Word.{u8}
use librfn.Ringbuf.{Ringbuf, putchar}
use librfn.Ringbuf.Stores.{Stores}
use librfn.Ringbuf.Refine.{filled, filled-Stores, put_of_room, put_of_full}

-- On a full buffer that nobody reads `ringbuf_putchar` waits for ever, whatever number of rounds
-- it is given.
pub putchar_full :
    {rb : Ringbuf} {xs : List ℕ} (rounds c : ℕ)
    → Stores rb xs
    → suc (length xs) ≡ rb.buf_len
    → putchar rounds rb c ≡ none
unfolding putchar
putchar_full zero c s full = refl
putchar_full (suc n) c s full = rw (put_of_full (u8 c) s full) (putchar_full n c s full)

-- With room, `ringbuf_putchar` returns in its first round with the converted byte appended.
pub putchar_room :
    {rb : Ringbuf} {xs : List ℕ} (rounds c : ℕ)
    → Stores rb xs
    → suc (length xs) < rb.buf_len
    → (rb' : Ringbuf) × (putchar (suc rounds) rb c ≡ some rb') × Stores rb' (xs ++ (u8 c ∷ []))
unfolding putchar
putchar_room {rb} {xs} rounds c s room =
    (filled rb (u8 c), rw (put_of_room (u8 c) s room) refl, filled-Stores (u8 c) s room)
