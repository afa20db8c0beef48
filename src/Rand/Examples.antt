-- ===== src/Rand/Examples.antt =====
-- The first numbers from the seed 1, as the source's comment gives them, and the theorem at it.
use librfn.Common.{◌*◌, ◌-◌, ◌%◌, ◌^◌, ◌<◌, ◌≡◌, refl, arith}
use librfn.Rand.{rand31_r}
use librfn.Rand.Minimal.{rand31_r-mod}

third : rand31_r (rand31_r (rand31_r 1)) ≡ 1622650073
unfolding rand31_r
third = refl

rand31_r-mod_example :
    (rand31_r 1 ≡ 16807 * 1 % (2 ^ 31 - 1))
    × (0 < rand31_r 1)
    × (rand31_r 1 < 2 ^ 31 - 1)
    × (rand31_r (2 ^ 31 - 1) ≡ 2 ^ 31 - 1)
rand31_r-mod_example = rand31_r-mod 1 (omega arith) (omega arith)
