-- ===== src/Rand.antt =====
-- librfn/rand.c and include/librfn/rand.h: a generator of 31-bit random numbers without division.
pub mod Minimal
mod Examples
use Prim.Native.Nat.{bit_and}
use librfn.Common.{ℕ, ◌+◌, ◌-◌, ◌*◌, ◌/◌, ◌^◌, ◌%◌, ltb, if◌then◌else◌}
use librfn.Common.Word.{u32, ◌<<<◌, ◌>>>◌}

-- The result is also the new value of `*seedp`.
unfoldable pub rand31_r : ℕ → ℕ
rand31_r seed =
    let lo = u32 (16807 * bit_and seed 0xffff) in
    let hi = u32 (16807 * (seed >>> 16)) in
    let lo = u32 (lo + u32 (bit_and hi 0x7fff <<< 16)) in
    let lo = u32 (lo + (hi >>> 15)) in if ltb 0x7fffffff lo then lo - 0x7fffffff else lo
