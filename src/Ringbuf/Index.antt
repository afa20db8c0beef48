-- ===== src/Ringbuf/Index.antt =====
-- Indices that go round at `len`, and the bytes found along them.
use native.Mathlib.Nat.{mod-eq_of_lt, mod-eq-sub-mod}
use native.Mathlib.Decide.{dec_lt}
use librfn.Common.Cyclic
use librfn.Common.{
  ℕ, ◌+◌, ◌%◌, ◌^◌, ◌≤◌, ◌<◌, ◌≡◌, sym, List, arith, length, get_or, set, get_or-set_ne,
}
use librfn.Ringbuf.{next_index}

-- The increment with its conditional subtraction is addition modulo the length.
pub next_index-eq-mod : (len i : ℕ) → len ≤ 2 ^ 32 → i < len → next_index len i ≡ (i + 1) % len
unfolding next_index
next_index-eq-mod len i small h = elim (dec_lt (i + 1) len) [
  | yes p ↦ ground (arith, mod-eq_of_lt p)
  | no p ↦ ground (
    arith,
    mod-eq-sub-mod {n = i + 1} {m = len} (omega arith),
    mod-eq_of_lt {n = 0} {m = len} (omega arith),
  )
]

-- From index `h` on the storage holds the bytes `xs`.
abbrev pub Holds : List ℕ → ℕ → ℕ → List ℕ → Type 0
Holds buf = Cyclic.Holds (λ i. get_or buf i 0)

-- A write behind the bytes leaves them alone.
pub Holds-set :
    (buf : List ℕ) (len v : ℕ) (xs : List ℕ) (h k i : ℕ)
    → h < len
    → length xs ≤ k
    → k < len
    → i ≡ (h + k) % len
    → Holds buf len h xs
    → Holds (set buf i v) len h xs
Holds-set buf len v xs h k i hh hn hk e held =
    Cyclic.Holds-away (λ j hj ne. get_or-set_ne buf i j v 0 (λ back. ne (sym back))) xs h k hh hn hk
      e held
