-- ===== src/Common/Int.antt =====
-- The `int` results that the code only compares with zero, and the signed reading of a word.
use Prim.Native.Nat.{ℕ, ◌-◌, ◌^◌}
use mathlib.Core.Bool.{Bool, true, false}
use librfn.Common.Tests.{ltb, if◌then◌else◌}

-- `negsuc n` is -(n + 1).
pub data ℤ : Type 0 where
  pos : ℕ → ℤ
  negsuc : ℕ → ℤ

-- `0 <= x`
abbrev pub nonneg : ℤ → Bool
nonneg (pos n) = true
nonneg (negsuc n) = false

-- `x <= 0`
abbrev pub nonpos : ℤ → Bool
nonpos (pos n) = if ltb 0 n then false else true
nonpos (negsuc n) = true

-- The `int32_t` that has the bits of a number below `2 ^ 32`.
abbrev pub signed32 : ℕ → ℤ
signed32 w = if ltb w (2 ^ 31) then pos w else negsuc (2 ^ 32 - w - 1)
