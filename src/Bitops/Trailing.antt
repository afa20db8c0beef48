-- ===== src/Bitops/Trailing.antt =====
-- `ctz` is the number of zeros behind the last bit that is set.
use Prim.Native.Nat.{bit_and}
use native.Mathlib.Nat.{pow-suc}
use librfn.Common.{ℕ, zero, suc, ◌-◌, ◌*◌, ◌/◌, ◌%◌, ◌^◌, ◌≡◌, ◌≤◌, ◌<◌, refl, ap, ap₂, ◌∙◌, arith}
use librfn.Common.Bits.{and-lowest}
use librfn.Common.Word.{sub32}
use librfn.Bitops.{bitcnt, ctz}
use librfn.Bitops.Count.{ones, bitcnt_lem}

-- `m` moved up by `s` places.
abbrev pub scaled : ℕ → ℕ → ℕ
scaled m zero = m
scaled m (suc s) = scaled m s * 2

complement-and : (k x : ℕ) → x < 2 ^ k → bit_and (2 ^ k - 1 - x) x ≡ 0
complement-and zero x h =
    let none : x ≡ 0 = omega (arith, h) in ap (λ n. bit_and (2 ^ 0 - 1 - n) n) none
complement-and (suc k) x h =
    let half : (2 ^ suc k - 1 - x) / 2 ≡ 2 ^ k - 1 - x / 2 = omega (arith, pow-suc 2 k, h) in
    omega (
      arith,
      pow-suc 2 k,
      h,
      and-lowest (2 ^ suc k - 1 - x) x,
      ap (λ n. bit_and n (x / 2)) half,
      complement-and k (x / 2) (omega (arith, pow-suc 2 k, h)),
    )

pub scaled_bounds : (m s : ℕ) → 0 < m → 2 ^ s ≤ scaled m s
scaled_bounds m zero pos = omega (arith, pos)
scaled_bounds m (suc s) pos = omega (arith, pow-suc 2 s, scaled_bounds m s pos)

pub pow_pos : (s : ℕ) → 0 < 2 ^ s
pow_pos zero = omega arith
pow_pos (suc s) = omega (arith, pow-suc 2 s, pow_pos s)

shift_small : (s k m : ℕ) → 0 < m → scaled m s < 2 ^ k → s < k
shift_small s zero m pos h = absurd (omega (arith, h, scaled_bounds m s pos, pow_pos s))
shift_small zero (suc k) m pos h = omega arith
shift_small (suc s) (suc k) m pos h =
    omega (arith, shift_small s k m pos (omega (arith, pow-suc 2 k, h)))

-- All bits below the last that is set, and no others.
below_last :
    (s k m : ℕ)
    → m % 2 ≡ 1
    → scaled m s < 2 ^ k
    → bit_and (2 ^ k - 1 - scaled m s) (scaled m s - 1) ≡ 2 ^ s - 1
below_last s zero m odd h =
    absurd (omega (arith, h, odd, scaled_bounds m s (omega (arith, odd)), pow_pos s))
below_last zero (suc k) m odd h =
    let half : (2 ^ suc k - 1 - m) / 2 ≡ 2 ^ k - 1 - m / 2 = omega (arith, pow-suc 2 k, h) in
    let half' : (m - 1) / 2 ≡ m / 2 = omega (arith, odd) in
    omega (
      arith,
      pow-suc 2 k,
      h,
      odd,
      and-lowest (2 ^ suc k - 1 - m) (m - 1),
      ap₂ bit_and half half',
      complement-and k (m / 2) (omega (arith, pow-suc 2 k, h)),
    )
below_last (suc s) (suc k) m odd h =
    let x = scaled m s in
    let pos : 0 < x = omega (arith, scaled_bounds m s (omega (arith, odd)), pow_pos s) in
    let half : (2 ^ suc k - 1 - x * 2) / 2 ≡ 2 ^ k - 1 - x = omega (arith, pow-suc 2 k, h) in
    let half' : (x * 2 - 1) / 2 ≡ x - 1 = omega (arith, pos) in
    omega (
      arith,
      pow-suc 2 k,
      pow-suc 2 s,
      pow_pos s,
      h,
      pos,
      and-lowest (2 ^ suc k - 1 - x * 2) (x * 2 - 1),
      ap₂ bit_and half half',
      below_last s k m odd (omega (arith, pow-suc 2 k, h)),
    )

ones-zero : (k : ℕ) → ones k 0 ≡ 0
ones-zero zero = refl
ones-zero (suc k) = omega (arith, ones-zero k)

ones-below : (k s : ℕ) → s ≤ k → ones k (2 ^ s - 1) ≡ s
ones-below zero s h = omega (arith, h)
ones-below (suc k) zero h = omega (arith, ones-zero k)
ones-below (suc k) (suc s) h =
    let half : (2 ^ suc s - 1) / 2 ≡ 2 ^ s - 1 = omega (arith, pow-suc 2 s, pow_pos s) in
    omega (arith, pow-suc 2 s, pow_pos s, ap (ones k) half, ones-below k s (omega (arith, h)))

-- Of a word that is an odd number moved up by `s` places, as every word but zero is, `ctz` is `s`.
pub ctz_lem : (m s : ℕ) → m % 2 ≡ 1 → scaled m s < 2 ^ 32 → ctz (scaled m s) ≡ s
unfolding ctz
ctz_lem m s odd h =
    let pos : 0 < scaled m s = omega (arith, scaled_bounds m s (omega (arith, odd)), pow_pos s) in
    let one_less : sub32 (scaled m s) 1 ≡ scaled m s - 1 = ground (arith, pos, h) in
    let small : 2 ^ s ≤ scaled m s = scaled_bounds m s (omega (arith, odd)) in
    ap (λ n. bitcnt (bit_and (2 ^ 32 - 1 - scaled m s) n)) one_less
    ∙ ap bitcnt (below_last s 32 m odd h)
    ∙ bitcnt_lem (2 ^ s - 1) (omega (arith, small, h))
    ∙ ones-below 32 s (omega (arith, shift_small s 32 m (omega (arith, odd)) h))
