-- ===== src/Util/Rates.antt =====
-- A rate limiter lets at most the first `n` events of a window through.
use Prim.Native.Nat.{min}
use librfn.Common.{
  ℕ, ◌+◌, ◌-◌, ◌*◌, ◌^◌, ◌≡◌, ◌≤◌, ◌<◌, ap, ◌∙◌, Bool, true, false, List, [], ◌∷◌, arith, length,
  ltb,
}
use librfn.Common.Word.{u32, sub32}
use librfn.Util.{RatelimitState, ratelimit_check}

abbrev pub counted : Bool → ℕ
counted true = 1
counted false = 0

-- The number of events let through, of events at the given times.
unfoldable pub let_through : RatelimitState → ℕ → ℕ → List ℕ → ℕ
let_through rs n window [] = 0
let_through rs n window (t ∷ ts) =
    let (ok, rs') = ratelimit_check rs n window t t in counted ok + let_through rs' n window ts

-- The times lie between the start of a window and its end.
abbrev pub Inside : ℕ → ℕ → List ℕ → Type 0
Inside start span [] = Unit
Inside start span (t ∷ ts) = (t < 2 ^ 32) × (sub32 t start ≤ span) × Inside start span ts

module _ (n window start : ℕ) (small : window * 1000000 < 2 ^ 31) (small' : start < 2 ^ 32) where
  abbrev span : ℕ
  span = u32 (window * 1000000)

  in_window :
      (t count : ℕ)
      → t < 2 ^ 32
      → sub32 t start ≤ span
      → ratelimit_check (record { time = u32 (start + span); count = count }) n window t t
        ≡ (ltb count n, record { time = u32 (start + span); count = u32 (count + 1) })
  unfolding ratelimit_check
  in_window t count h inside = ground (arith, small, small', h, inside)

  through :
      (ts : List ℕ) (count : ℕ)
      → Inside start span ts
      → count + length ts < 2 ^ 32
      → let_through (record { time = u32 (start + span); count = count }) n window ts
        ≡ min (length ts) (n - count)
  unfolding let_through
  through [] count i room = omega arith
  through (t ∷ ts) count (h, inside, i) room =
      let next : u32 (count + 1) ≡ count + 1 = omega (arith, room) in
      let later = through ts (count + 1) i (omega (arith, room)) in
      ap (λ r. counted r.0 + let_through r.1 n window ts) (in_window t count h inside)
      ∙ (ap
            (λ c.
              counted (ltb count n)
              + let_through (record { time = u32 (start + span); count = c }) n window ts)
            next
          ∙ (ap (λ m. counted (ltb count n) + m) later ∙ ground arith))

  fresh_window :
      (rs : RatelimitState)
      → span < sub32 rs.time start
      → ratelimit_check rs n window start start
        ≡ (true, record { time = u32 (start + span); count = 1 })
  unfolding ratelimit_check
  fresh_window rs expired = ground (arith, small, small', expired)

  -- An event whose time lies outside the last window begins a window and is let through, and of the
  -- others in its window as many as the limit still allows.
  pub ratelimit_check_lem :
      (rs : RatelimitState) (ts : List ℕ)
      → span < sub32 rs.time start
      → Inside start span ts
      → 1 + length ts < 2 ^ 32
      → let_through rs n window (start ∷ ts) ≡ 1 + min (length ts) (n - 1)
  unfolding let_through
  ratelimit_check_lem rs ts expired i room =
      ap (λ r. counted r.0 + let_through r.1 n window ts) (fresh_window rs expired)
      ∙ ap (λ m. 1 + m) (through ts 1 i room)
