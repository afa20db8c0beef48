-- ===== src/Util.antt =====
-- librfn/util.c and include/librfn/util.h: the comparison of cyclic times, rate limiting, and checked allocation.
pub mod Rates
mod Examples
use librfn.Common.{
  ℕ, Option, none, some, ◌+◌, ◌-◌, ◌*◌, ◌^◌, Bool, true, false, not, ◌||◌, ltb, if◌then◌else◌,
}
use librfn.Common.Int.{ℤ, pos, negsuc, nonneg, signed32}
use librfn.Common.Word.{u32, sub32}

unfoldable pub cyclecmp32 : ℕ → ℕ → ℤ
cyclecmp32 a b = signed32 (sub32 a b)

pub record RatelimitState : Type 0 where
  pub time : ℕ
  pub count : ℕ

-- `x > y`
abbrev pub greater : ℤ → ℤ → Bool
greater (pos a) (pos b) = ltb b a
greater (pos a) (negsuc b) = true
greater (negsuc a) (pos b) = false
greater (negsuc a) (negsuc b) = ltb a b

-- `now` and `later` are what the two calls of `time_now` return, of which the second is made only on
-- the first branch.
unfoldable pub ratelimit_check : RatelimitState → ℕ → ℕ → ℕ → ℕ → Bool × RatelimitState
ratelimit_check rs n window now later =
    let delta = signed32 (sub32 rs.time now) in
    let span = u32 (window * 1000000) in
    if not (nonneg delta) || greater delta (signed32 span)
    then (true, record { time = u32 (later + span); count = 1 })
    else (ltb rs.count n, record rs { count = u32 (rs.count + 1) })

-- `rf_internal_out_of_memory` does not return.
pub data Allocated : Type 0 where
  out_of_memory : Allocated
  memory : ℕ → Allocated

-- The argument is what `malloc` returns; `none` is NULL.
unfoldable pub xmalloc : Option ℕ → Allocated
xmalloc none = out_of_memory
xmalloc (some p) = memory p

-- The same of `calloc`.
unfoldable pub xzalloc : Option ℕ → Allocated
xzalloc none = out_of_memory
xzalloc (some p) = memory p
