-- ===== src/Rand/Minimal.antt =====
-- The generator is the minimal standard one of Park and Miller.
use librfn.Common.{ℕ, ◌+◌, ◌-◌, ◌*◌, ◌/◌, ◌^◌, ◌%◌, ◌<◌, ◌≡◌, refl, arith, ltb, if◌then◌else◌}
use librfn.Common.Bits.{masked}
use librfn.Rand.{rand31_r}

-- The sum before its reduction, which stays in its word.
sum : ℕ → ℕ
sum seed =
    16807 * (seed % 2 ^ 16)
    + 16807 * (seed / 2 ^ 16) % 2 ^ 15 * 2 ^ 16
    + 16807 * (seed / 2 ^ 16) / 2 ^ 15

rand31_r-sum :
    (seed : ℕ)
    → seed < 2 ^ 31 - 1
    → rand31_r seed ≡ (if ltb 0x7fffffff (sum seed) then sum seed - 0x7fffffff else sum seed)
unfolding rand31_r sum
rand31_r-sum seed h = ground (arith, masked 16 seed, masked 15 (16807 * (seed / 2 ^ 16) % 2 ^ 32))

-- From a seed that is not zero and less than 2^31 - 1 the next number is the seed times 16807 modulo
-- 2^31 - 1, which is again such a seed; 2^31 - 1 itself is not changed by the generator.
pub rand31_r-mod :
    (seed : ℕ)
    → 0 < seed
    → seed < 2 ^ 31 - 1
    → (rand31_r seed ≡ 16807 * seed % (2 ^ 31 - 1))
      × (0 < rand31_r seed)
      × (rand31_r seed < 2 ^ 31 - 1)
      × (rand31_r (2 ^ 31 - 1) ≡ 2 ^ 31 - 1)
unfolding sum rand31_r
rand31_r-mod seed pos h = (
  ground (arith, rand31_r-sum seed h),
  ground (arith, rand31_r-sum seed h),
  ground (arith, rand31_r-sum seed h),
  refl,
)
