-- ===== src/Stats/Samples.antt =====
-- What the statistics say of the samples that were added.
use native.Mathlib.Nat.{le-div_iff_mul-le, div-lt_iff_lt-mul}
use librfn.Common.{
  ℕ, ◌+◌, ◌*◌, ◌/◌, ◌%◌, ◌^◌, ◌≡◌, ◌≤◌, ◌<◌, refl, true, some, List, [], ◌∷◌, arith, length,
}
use librfn.Common.Word.{u32}
use librfn.LinkedList.Links.{has}
use librfn.Stats.{Stats, stats_init, stats_add, stats_mean}

-- The samples are listed with the last one first.
abbrev pub collected : List ℕ → Stats
collected [] = stats_init
collected (d ∷ ds) = stats_add (collected ds) d

abbrev pub sum : List ℕ → ℕ
sum [] = 0
sum (d ∷ ds) = d + sum ds

abbrev pub Words : List ℕ → Type 0
Words [] = Unit
Words (d ∷ ds) = (d < 2 ^ 32) × Words ds

pub record Counts (ds : List ℕ) (s : Stats) : Type 0 where
  pub least_bound : (d : ℕ) → has d ds ≡ true → s.least ≤ d
  pub greatest_bound : (d : ℕ) → has d ds ≡ true → d ≤ s.greatest
  pub total : s.accumulator ≡ sum ds % 2 ^ 32
  pub number : s.count ≡ length ds % 2 ^ 32

counts : (ds : List ℕ) → Counts ds (collected ds)
unfolding stats_init stats_add
counts [] = record {
  least_bound = λ d i. cc;
  greatest_bound = λ d i. cc;
  total = refl;
  number = refl;
}
counts (d ∷ ds) =
    let c = counts ds in
    record {
      least_bound = λ x i. ground (arith, c.least_bound x);
      greatest_bound = λ x i. ground (arith, c.greatest_bound x);
      total = omega (arith, c.total);
      number = omega (arith, c.number);
    }

attained :
    (d : ℕ) (ds : List ℕ)
    → Words (d ∷ ds)
    → (has (collected (d ∷ ds)).least (d ∷ ds) ≡ true)
      × (has (collected (d ∷ ds)).greatest (d ∷ ds) ≡ true)
unfolding stats_init stats_add
attained d [] (small, w) = (ground (arith, small), ground arith)
attained d (e ∷ ds) (small, w) =
    let (low, high) = attained e ds w in (ground (arith, low), ground (arith, high))

-- The least and the greatest are samples and bound all samples; the sum and the number are exact modulo 2^32.
pub stats_lem :
    (d : ℕ) (ds : List ℕ)
    → Words (d ∷ ds)
    → Counts (d ∷ ds) (collected (d ∷ ds))
      × (has (collected (d ∷ ds)).least (d ∷ ds) ≡ true)
      × (has (collected (d ∷ ds)).greatest (d ∷ ds) ≡ true)
stats_lem d ds w = let (low, high) = attained d ds w in (counts (d ∷ ds), low, high)

sum-bounds :
    (ds : List ℕ) (low high : ℕ)
    → ((d : ℕ) → has d ds ≡ true → low ≤ d)
    → ((d : ℕ) → has d ds ≡ true → d ≤ high)
    → (length ds * low ≤ sum ds) × (sum ds ≤ length ds * high)
sum-bounds [] low high l h = (omega arith, omega arith)
sum-bounds (d ∷ ds) low high l h =
    let (a, b) = sum-bounds ds low high (λ e i. l e (ground arith)) (λ e i. h e (ground arith)) in
    (omega (arith, a, l d (ground arith)), omega (arith, b, h d (ground arith)))

mean_between :
    (n t low high : ℕ)
    → 0 < n
    → n * low ≤ t
    → t ≤ n * high
    → (low ≤ (t + n / 2) / n) × ((t + n / 2) / n ≤ high)
mean_between n t low high some_samples a b =
    let strict : (t + n / 2) / n < high + 1 = (div-lt_iff_lt-mul some_samples).1 (grind arith) in
    ((le-div_iff_mul-le some_samples).1 (grind arith), omega (arith, strict))

-- The mean of samples whose sum is well inside 32 bits is their sum over their number, rounded to the
-- nearest, and lies between the least and the greatest.
pub mean_lem :
    (d : ℕ) (ds : List ℕ)
    → Words (d ∷ ds)
    → sum (d ∷ ds) + length (d ∷ ds) < 2 ^ 32
    → let s = collected (d ∷ ds) in
      let n = length (d ∷ ds) in
      (m : ℕ) × (stats_mean s ≡ some m)
      × (m ≡ (sum (d ∷ ds) + n / 2) / n)
      × (s.least ≤ m)
      × (m ≤ s.greatest)
unfolding stats_mean
mean_lem d ds w room =
    let c = counts (d ∷ ds) in
    let n = length (d ∷ ds) in
    let t = sum (d ∷ ds) in
    let s = collected (d ∷ ds) in
    let same_count : s.count ≡ n = omega (arith, c.number, room) in
    let same_sum : s.accumulator ≡ t = omega (arith, c.total, room) in
    let fits : u32 (t + n / 2) ≡ t + n / 2 = omega (arith, room) in
    let (a, b) = sum-bounds (d ∷ ds) s.least s.greatest c.least_bound c.greatest_bound in
    let (low, high) = mean_between n t s.least s.greatest (omega arith) a b in
    ((t + n / 2) / n, (rw (same_count, same_sum, fits) (ground arith)), refl, low, high)
