-- ===== src/Rgb.antt =====
-- librfn/rgb.c and include/librfn/rgb.h: fading from one value to another, and gamma correction.
pub mod Fading
pub mod Bytes
mod Examples
use Prim.Native.Nat.{bit_and, bit_or, bit_xor}
use librfn.Common.{
  ℕ, zero, suc, ◌+◌, ◌-◌, ◌*◌, ◌/◌, ◌%◌, ◌^◌, Bool, true, false, not, ◌&&◌, ◌||◌, Option, none,
  some, List, [], ◌∷◌, ltb, leb, ◌==◌, if◌then◌else◌, get_or,
}
use librfn.Common.Int.{ℤ, pos, negsuc, nonneg, signed32}
use librfn.Common.Word.{u8, u32, sub32, ◌<<<◌, ◌>>>◌}

pub record RgbFader : Type 0 where
  pub goal : ℕ
  pub step : ℕ

-- Division in C goes towards zero.
abbrev pub magnitude : ℤ → ℕ
magnitude (pos n) = n
magnitude (negsuc n) = n + 1

abbrev pub minus : ℕ → ℤ
minus zero = pos zero
minus (suc n) = negsuc n

-- The division traps by zero and where its result is no `int`.
unfoldable pub div_int : ℤ → ℤ → Option ℤ
div_int a b =
    let q = magnitude a / magnitude b in
    if magnitude b == 0
    then none
    else (if nonneg a && nonneg b || not (nonneg a) && not (nonneg b)
        then (if ltb q (2 ^ 31) then some (pos q) else none)
        else some (minus q))

-- The conversion to `uint32_t`.
abbrev pub word32 : ℤ → ℕ
word32 (pos n) = u32 n
word32 (negsuc n) = sub32 (2 ^ 32 - 1) (u32 n)

abbrev pub or_one : ℕ → ℕ
or_one step = if 0 == step then 1 else step

-- A quotient of which there is none is a trap.
unfoldable pub start_fade : ℕ → Option ℤ → Option RgbFader
start_fade to none = none
start_fade to (some q) = some (record { goal = to; step = or_one (word32 q) })

unfoldable pub rgb_fader_init : ℕ → ℕ → ℤ → Option RgbFader
unfolding div_int start_fade
rgb_fader_init from to nsteps = start_fade to (div_int (signed32 (sub32 to from)) nsteps)

-- The result, and the new value of `*val`. The step is unsigned, and never less than 0.
unfoldable pub rgb_fade : RgbFader → ℕ → Bool × ℕ
rgb_fade f from =
    let to = u32 (from + f.step) in
    if not (bit_and (bit_xor from to) 0x80000000 == 0)
      || (ltb 0 f.step && leb f.goal to)
      || (ltb f.step 0 && leb to f.goal)
    then (true, f.goal)
    else (false, to)

abbrev pub rgb_gamma_default : List ℕ
rgb_gamma_default =
    (0 ∷ 1 ∷ 1 ∷ 1 ∷ 1 ∷ 1 ∷ 1 ∷ 1 ∷ 1 ∷ 1 ∷ 1 ∷ 1 ∷ 1 ∷ 1 ∷ 1 ∷ 1 ∷ 2 ∷ 2 ∷ 2 ∷ 2 ∷ 2 ∷ 2 ∷ 2 ∷ 2
      ∷ 2 ∷ 2 ∷ 3 ∷ 3 ∷ 3 ∷ 3 ∷ 3 ∷ 3 ∷ 3 ∷ 4 ∷ 4 ∷ 4 ∷ 4 ∷ 4 ∷ 5 ∷ 5 ∷ 5 ∷ 5 ∷ 6 ∷ 6 ∷ 6 ∷ 6 ∷ 7
      ∷ 7 ∷ 7 ∷ 8 ∷ 8 ∷ 8 ∷ 8 ∷ 9 ∷ 9 ∷ 9 ∷ 10 ∷ 10 ∷ 10 ∷ 11 ∷ 11 ∷ 12 ∷ 12 ∷ 12 ∷ 13 ∷ 13 ∷ 14
      ∷ 14 ∷ 15 ∷ 15 ∷ 15 ∷ 16 ∷ 16 ∷ 17 ∷ 17 ∷ 18 ∷ 18 ∷ 19 ∷ 19 ∷ 20 ∷ 20 ∷ 21 ∷ 22 ∷ 22 ∷ 23 ∷ 23
      ∷ 24 ∷ 24 ∷ 25 ∷ 26 ∷ 26 ∷ 27 ∷ 28 ∷ 28 ∷ 29 ∷ 30 ∷ 30 ∷ 31 ∷ 32 ∷ 32 ∷ 33 ∷ 34 ∷ 34 ∷ 35 ∷ 36
      ∷ 37 ∷ 37 ∷ 38 ∷ 39 ∷ 40 ∷ 40 ∷ 41 ∷ 42 ∷ 43 ∷ 44 ∷ 45 ∷ 45 ∷ 46 ∷ 47 ∷ 48 ∷ 49 ∷ 50 ∷ 51 ∷ 52
      ∷ 53 ∷ 53 ∷ 54 ∷ 55 ∷ 56 ∷ 57 ∷ 58 ∷ 59 ∷ 60 ∷ 61 ∷ 62 ∷ 63 ∷ 64 ∷ 65 ∷ 66 ∷ 67 ∷ 68 ∷ 69 ∷ 71
      ∷ 72 ∷ 73 ∷ 74 ∷ 75 ∷ 76 ∷ 77 ∷ 78 ∷ 80 ∷ 81 ∷ 82 ∷ 83 ∷ 84 ∷ 85 ∷ 87 ∷ 88 ∷ 89 ∷ 90 ∷ 92 ∷ 93
      ∷ 94 ∷ 95 ∷ 97 ∷ 98 ∷ 99 ∷ 101 ∷ 102 ∷ 103 ∷ 105 ∷ 106 ∷ 107 ∷ 109 ∷ 110 ∷ 112 ∷ 113 ∷ 114
      ∷ 116 ∷ 117 ∷ 119 ∷ 120 ∷ 122 ∷ 123 ∷ 124 ∷ 126 ∷ 127 ∷ 129 ∷ 130 ∷ 132 ∷ 134 ∷ 135 ∷ 137
      ∷ 138 ∷ 140 ∷ 141 ∷ 143 ∷ 145 ∷ 146 ∷ 148 ∷ 149 ∷ 151 ∷ 153 ∷ 154 ∷ 156 ∷ 158 ∷ 160 ∷ 161
      ∷ 163 ∷ 165 ∷ 166 ∷ 168 ∷ 170 ∷ 172 ∷ 173 ∷ 175 ∷ 177 ∷ 179 ∷ 181 ∷ 182 ∷ 184 ∷ 186 ∷ 188
      ∷ 190 ∷ 192 ∷ 194 ∷ 196 ∷ 197 ∷ 199 ∷ 201 ∷ 203 ∷ 205 ∷ 207 ∷ 209 ∷ 211 ∷ 213 ∷ 215 ∷ 217
      ∷ 219 ∷ 221 ∷ 223 ∷ 225 ∷ 227 ∷ 229 ∷ 231 ∷ 234 ∷ 236 ∷ 238 ∷ 240 ∷ 242 ∷ 244 ∷ 246 ∷ 248
      ∷ 251 ∷ 253 ∷ 255 ∷ [])

-- `table` is `g->table`.
unfoldable pub rgb_correct : List ℕ → ℕ → ℕ
rgb_correct table val =
    bit_or (bit_or (get_or table (u8 val) 0) (get_or table (u8 (val >>> 8)) 0 <<< 8))
      (get_or table (u8 (val >>> 16)) 0 <<< 16)
