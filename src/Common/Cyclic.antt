-- ===== src/Common/Cyclic.antt =====
-- Indices that go round at `len`, and the values found along them.
use Prim.Native.Nat.{ℕ, zero, suc, ◌+◌, ◌-◌, ◌%◌, ◌≤◌, ◌<◌}
use mathlib.Core.Path.{◌≡◌, sym, ap, ◌∙◌}
use mathlib.Core.Logic.{◌≢◌}
use mathlib.Core.List.{List, [], ◌∷◌, ◌++◌}
use native.Mathlib.Nat.{mod-add-mod, mod-eq_of_lt, mod-eq-sub-mod, add-zero}
use native.Mathlib.Decide.{dec_lt}
use native.Mathlib.Omega.{arith}
use librfn.Common.Lists.{length, set}

-- Between one and `len - 1` steps round the ring do not come back to the start.
pub add-mod-ne : (len h k : ℕ) → h < len → 0 < k → k < len → (h + k) % len ≢ h
add-mod-ne len h k hh pos hk = elim (dec_lt (h + k) len) [
  | yes p ↦ omega (arith, mod-eq_of_lt p)
  | no p ↦ omega (
    arith,
    mod-eq-sub-mod {n = h + k} {m = len} (omega arith),
    mod-eq_of_lt {n = h + k - len} {m = len} (omega arith),
  )
]

pub mod_shift : (len h k : ℕ) → ((h + 1) % len + k) % len ≡ (h + suc k) % len
mod_shift len h k = rw mod-add-mod (ap (λ n. n % len) (omega arith))

-- All the way round but one step.
pub mod_round : (len h : ℕ) → h < len → ((h + 1) % len + (len - 1)) % len ≡ h
mod_round len h hh = rw mod-add-mod (
    ap (λ n. n % len) (omega arith)
    ∙ mod-eq-sub-mod {n = h + len} {m = len} (omega arith)
    ∙ (ap (λ n. n % len) (omega arith) ∙ mod-eq_of_lt hh))

module _ {ℓ} {A : Type ℓ} where
  -- From index `h` on the cells hold the values `xs`.
  abbrev pub Holds : (ℕ → A) → ℕ → ℕ → List A → Type ℓ
  Holds cell len h [] = Unit
  Holds cell len h (x ∷ xs) = (cell h ≡ x) × Holds cell len ((h + 1) % len) xs

  -- Below `len`, `new` differs from `cell` at most at `i`.
  abbrev pub SameBut : ℕ → ℕ → (ℕ → A) → (ℕ → A) → Type ℓ
  SameBut len i cell new = (j : ℕ) → j < len → j ≢ i → new j ≡ cell j

  -- A value that stands just behind them is one more.
  pub Holds-append :
      (cell : ℕ → A) (len : ℕ) (v : A) (xs : List A) (h : ℕ)
      → h < len
      → cell ((h + length xs) % len) ≡ v
      → Holds cell len h xs
      → Holds cell len h (xs ++ (v ∷ []))
  Holds-append cell len v [] h hh e held = (rw (add-zero, mod-eq_of_lt hh) at e, tt)
  Holds-append cell len v (x ∷ xs) h hh e held =
      (held.0, Holds-append cell len v xs ((h + 1) % len) (omega arith) (rw mod_shift e) held.1)

module _ {ℓ} {A : Type ℓ} {cell new : ℕ → A} {len i : ℕ} (same : SameBut len i cell new) where
  -- A change behind the values leaves them alone.
  pub Holds-away :
      (xs : List A) (h k : ℕ)
      → h < len
      → length xs ≤ k
      → k < len
      → i ≡ (h + k) % len
      → Holds cell len h xs
      → Holds new len h xs
  Holds-away [] h k hh hn hk e held = tt
  Holds-away (x ∷ xs) h zero hh hn hk e held = absurd (omega arith)
  Holds-away (x ∷ xs) h (suc k) hh hn hk e held = (
    same h hh (λ back. add-mod-ne len h (suc k) hh (omega arith) hk (sym e ∙ sym back)) ∙ held.0,
    Holds-away xs ((h + 1) % len) k (omega arith) (omega arith) (omega arith) (rw mod_shift e)
        held.1,
  )

  -- A change at the `k`th value changes that one.
  pub Holds-set :
      (v : A) (xs : List A) (h k : ℕ)
      → new i ≡ v
      → h < len
      → k < length xs
      → length xs ≤ len
      → i ≡ (h + k) % len
      → Holds cell len h xs
      → Holds new len h (set xs k v)
  Holds-set v [] h k at hh hk hn e held = absurd (omega arith)
  Holds-set v (x ∷ xs) h zero at hh hk hn e held = (
    rw (← here) at,
    Holds-away xs ((h + 1) % len) (len - 1) (omega arith) (omega arith) (omega arith)
        (here ∙ sym (mod_round len h hh)) held.1,
  )
    where
      here : i ≡ h
      here = e ∙ (rw add-zero (mod-eq_of_lt hh))
  Holds-set v (x ∷ xs) h (suc k) at hh hk hn e held = (
    same h hh (λ back. add-mod-ne len h (suc k) hh (omega arith) (omega arith) (sym e ∙ sym back))
        ∙ held.0,
    Holds-set v xs ((h + 1) % len) k at (omega arith) (omega arith) (omega arith) (rw mod_shift e)
        held.1,
  )
