-- ===== src/Rgb/Fading.antt =====
-- A fade to a greater value goes in equal steps; one to a smaller value is over after the first.
use Prim.Native.Nat.{bit_and, bit_xor, min}
use librfn.Common.{
  ℕ, zero, suc, ◌+◌, ◌-◌, ◌*◌, ◌/◌, ◌%◌, ◌^◌, ◌≡◌, ◌≤◌, ◌<◌, refl, ap, ◌∙◌, true, false, some,
  arith, ltb, leb, ◌==◌,
}
use native.Mathlib.Decide.{dec_lt}
use native.Mathlib.Nat.{div-le_self}
use librfn.Common.Bits.{bit_and-pow, bit-small, bit_xor-lt}
use librfn.Common.Int.{pos, negsuc, signed32}
use librfn.Common.Word.{u32, sub32}
use librfn.Rgb.{RgbFader, rgb_fader_init, start_fade, div_int, word32, minus, or_one, rgb_fade}

-- What `n` calls of `rgb_fade` make of a value.
unfoldable pub faded : RgbFader → ℕ → ℕ → ℕ
faded f zero val = val
faded f (suc n) val = (rgb_fade f (faded f n val)).1

same_half : (a b : ℕ) → a < 2 ^ 31 → b < 2 ^ 31 → bit_and (bit_xor a b) 0x80000000 ≡ 0
same_half a b h h' =
    omega (arith, bit_and-pow 31 (bit_xor a b), bit-small 31 (bit_xor a b) (bit_xor-lt 31 a b h h'))

-- The step of a fade over `distance` in `steps` steps.
abbrev pub stride : ℕ → ℕ → ℕ
stride distance steps = or_one (distance / steps)

div_int-pos :
    (a b : ℕ)
    → (b == 0) ≡ false
    → ltb (a / b) (2 ^ 31) ≡ true
    → div_int (pos a) (pos b) ≡ some (pos (a / b))
unfolding div_int
div_int-pos a b e e' = rw (e, e') refl

div_int-negsuc :
    (a b : ℕ) → (b == 0) ≡ false → div_int (negsuc a) (pos b) ≡ some (minus ((a + 1) / b))
unfolding div_int
div_int-negsuc a b e = rw e refl

init_up :
    (from to nsteps : ℕ)
    → from ≤ to
    → to < 2 ^ 31
    → 0 < nsteps
    → rgb_fader_init from to (pos nsteps)
      ≡ some (record { goal = to; step = stride (to - from) nsteps })
unfolding rgb_fader_init start_fade
init_up from to nsteps le small some_steps =
    let distance : signed32 (sub32 to from) ≡ pos (to - from) = ground (arith, le, small) in
    let few : (to - from) / nsteps < 2 ^ 31 = omega (arith, div-le_self (to - from) nsteps) in
    let positive : (nsteps == 0) ≡ false = ground (arith, some_steps) in
    let fits : ltb ((to - from) / nsteps) (2 ^ 31) ≡ true = ground (arith, few) in
    let same : u32 ((to - from) / nsteps) ≡ (to - from) / nsteps = omega (arith, few) in
    ap (λ a. start_fade to (div_int a (pos nsteps))) distance
    ∙ (ap (start_fade to) (div_int-pos (to - from) nsteps positive fits)
        ∙ ap (λ q. some (record { goal = to; step = or_one q })) same)

fade_up :
    (goal step val : ℕ)
    → 0 < step
    → val ≤ goal
    → goal < 2 ^ 31
    → step < 2 ^ 31
    → rgb_fade (record { goal = goal; step = step }) val
      ≡ (leb goal (val + step), min goal (val + step))
unfolding rgb_fade
fade_up goal step val some_step le small small' =
    let sum : u32 (val + step) ≡ val + step = omega (arith, le, small, small') in
    elim (dec_lt (val + step) (2 ^ 31)) [
      | yes low ↦
          rw (sum, same_half val (val + step) (omega arith) low) (ground (arith, some_step, le))
      | no high ↦ rw sum (ground (arith, some_step, le))
    ]

module _ (from to nsteps : ℕ) (le : from ≤ to) (small : to < 2 ^ 31) where
  abbrev step : ℕ
  step = stride (to - from) nsteps

  abbrev fader : RgbFader
  fader = record { goal = to; step = step }

  some_step : 0 < step
  some_step = ground arith

  step_small : step < 2 ^ 31
  step_small = ground (arith, div-le_self (to - from) nsteps)

  faded-min : (n : ℕ) → faded fader n from ≡ min to (from + n * step)
  unfolding faded
  faded-min zero = omega (arith, le)
  faded-min (suc n) =
      ap (λ v. (rgb_fade fader v).1) (faded-min n)
      ∙ (ap (λ c. c.1)
            (fade_up to step (min to (from + n * step)) some_step (omega arith) small step_small)
          ∙ omega arith)

  -- A fade upwards takes equal steps of at least 1, never passes its goal, and says when it is there.
  pub fade_lem :
      (n : ℕ)
      → 0 < nsteps
      → (rgb_fader_init from to (pos nsteps) ≡ some fader)
        × (faded fader n from ≡ min to (from + n * step))
        × ((rgb_fade fader (faded fader n from)).0 ≡ leb to (from + suc n * step))
  fade_lem n some_steps = (
    init_up from to nsteps le small some_steps,
    faded-min n,
    (rw (faded-min n) (
        ap (λ c. c.0)
          (fade_up to step (min to (from + n * step)) some_step (omega arith) small step_small)
        ∙ ground (arith, some_step))),
  )

word32-minus : (q : ℕ) → q < 2 ^ 32 → word32 (minus q) ≡ (2 ^ 32 - q) % 2 ^ 32
word32-minus zero h = refl
word32-minus (suc q) h = omega arith

-- A fade downwards reaches its goal in the first step, however many were asked for.
pub fade_down_lem :
    (from to nsteps : ℕ)
    → to < from
    → from < 2 ^ 31
    → 0 < nsteps
    → (f : RgbFader) × (rgb_fader_init from to (pos nsteps) ≡ some f)
      × (rgb_fade f from ≡ (true, to))
unfolding rgb_fader_init start_fade rgb_fade
fade_down_lem from to nsteps less small some_steps =
    let q = (from - to) / nsteps in
    let distance : signed32 (sub32 to from) ≡ negsuc (from - to - 1) =
      ground (arith, less, small) in
    let back : from - to - 1 + 1 ≡ from - to = omega (arith, less) in
    let positive : (nsteps == 0) ≡ false = ground (arith, some_steps) in
    let bound = div-le_self (from - to) nsteps in
    let word = word32-minus q (omega (arith, bound)) in
    let step = or_one (word32 (minus q)) in
    let stepped : leb to (u32 (from + step)) ≡ true = ground (arith, word, bound, less, small) in
    let some_step : ltb 0 step ≡ true = ground arith in
    (
      record { goal = to; step = step },
      ap (λ a. start_fade to (div_int a (pos nsteps))) distance
          ∙ (ap (start_fade to) (div_int-negsuc (from - to - 1) nsteps positive)
              ∙ ap (λ d. start_fade to (some (minus (d / nsteps)))) back),
      (rw (stepped, some_step) (ground arith)),
    )
