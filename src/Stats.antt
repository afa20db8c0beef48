-- ===== src/Stats.antt =====
-- librfn/stats.c and include/librfn/stats.h: running statistics, of which `statval_t` is `uint32_t`.
pub mod Samples
mod Examples
use librfn.Common.{ℕ, ◌+◌, ◌-◌, ◌*◌, ◌/◌, ◌%◌, ◌^◌, Option, none, some, ltb, ◌==◌, if◌then◌else◌}
use librfn.Common.Word.{u32}

pub record Stats : Type 0 where
  pub least : ℕ  -- min
  pub greatest : ℕ  -- max
  pub accumulator : ℕ
  pub count : ℕ

unfoldable pub stats_init : Stats
stats_init = record { least = 2 ^ 32 - 1; greatest = 0; accumulator = 0; count = 0 }

unfoldable pub stats_add : Stats → ℕ → Stats
stats_add s d = record {
  least = if ltb d s.least then d else s.least;
  greatest = if ltb s.greatest d then d else s.greatest;
  accumulator = u32 (s.accumulator + d);
  count = u32 (s.count + 1);
}

-- A division by zero has no result.
unfoldable pub stats_mean : Stats → Option ℕ
stats_mean s = if s.count == 0 then none else some (u32 (s.accumulator + s.count / 2) / s.count)

-- The product is one of 64 bits.
unfoldable pub stats_per_million : Stats → ℕ → Option ℕ
stats_per_million s total =
    if total == 0 then none else some (u32 (1000000 * s.accumulator % 2 ^ 64 / total))
