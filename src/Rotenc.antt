-- ===== src/Rotenc.antt =====
-- librfn/rotenc.c and include/librfn/rotenc.h: the decoding of a two-bit rotary encoder.
pub mod Tracks
mod Examples
use Prim.Native.Nat.{bit_and, bit_or}
use librfn.Common.{ℕ, ◌+◌, ◌-◌, ◌*◌, ◌/◌, ◌^◌, ◌%◌, Bool, true, false, ◌||◌, ◌==◌, if◌then◌else◌}
use librfn.Common.Word.{u8, u16, ◌<<<◌, ◌>>>◌}

-- `rotenc_t`
pub record Rotenc : Type 0 where
  pub last_state : ℕ  -- uint8_t
  pub count : ℕ  -- uint8_t
  pub internal_count : ℕ  -- uint16_t

-- The macros FROM and TO, of bits.
abbrev pub from : ℕ → ℕ → ℕ
from x y = (x <<< 3) + (y <<< 2)

abbrev pub to : ℕ → ℕ → ℕ
to x y = (x <<< 1) + y

abbrev pub clockwise : ℕ → Bool
clockwise fromto =
    (fromto == bit_or (from 0 0) (to 0 1))
    || (fromto == bit_or (from 0 1) (to 1 1))
    || (fromto == bit_or (from 1 1) (to 1 0))
    || (fromto == bit_or (from 1 0) (to 0 0))

abbrev pub anticlockwise : ℕ → Bool
anticlockwise fromto =
    (fromto == bit_or (from 0 0) (to 1 0))
    || (fromto == bit_or (from 1 0) (to 1 1))
    || (fromto == bit_or (from 1 1) (to 0 1))
    || (fromto == bit_or (from 0 1) (to 0 0))

unfoldable pub decode : Rotenc → ℕ → Rotenc
decode r state =
    let fromto = u8 ((r.last_state <<< 2) + state) in
    let internal_count =
      if clockwise fromto
      then u16 (r.internal_count + 1)
      else (if anticlockwise fromto
          then u16 (r.internal_count + (2 ^ 16 - 1))
          else r.internal_count) in
    record r {
      last_state = state;
      internal_count = internal_count;
      count = if state == 0 then u8 (internal_count >>> 2) else r.count;
    }

unfoldable pub count14 : Rotenc → ℕ
count14 r = u16 (bit_and (r.internal_count >>> 2) 0x3f00 + r.count)
