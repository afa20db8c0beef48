-- ===== src/Rgb/Bytes.antt =====
-- Gamma correction looks each of the three colours up on its own.
use Prim.Native.Nat.{bit_or}
use librfn.Common.{
  ℕ, zero, suc, ◌+◌, ◌*◌, ◌/◌, ◌%◌, ◌^◌, ◌≡◌, ◌<◌, ap, ◌∙◌, Bool, true, ◌&&◌, List, [], ◌∷◌, arith,
  get_or, ltb,
}
use librfn.Common.Bits.{shifted_in}
use librfn.Common.Word.{u8, ◌>>>◌}
use librfn.Rgb.{rgb_correct}

abbrev pub all_bytes : List ℕ → Bool
all_bytes [] = true
all_bytes (x ∷ xs) = ltb x (2 ^ 8) && all_bytes xs

all_bytes-get_or : (table : List ℕ) (i : ℕ) → all_bytes table ≡ true → get_or table i 0 < 2 ^ 8
all_bytes-get_or [] i h = omega arith
all_bytes-get_or (x ∷ xs) zero h = ground arith
all_bytes-get_or (x ∷ xs) (suc i) h = all_bytes-get_or xs i (ground arith)

module _ (table : List ℕ) (val : ℕ) (bytes : all_bytes table ≡ true) where
  abbrev red : ℕ
  red = get_or table (u8 val) 0

  abbrev green : ℕ
  green = get_or table (u8 (val >>> 8)) 0

  abbrev blue : ℕ
  blue = get_or table (u8 (val >>> 16)) 0

  correct-sum : rgb_correct table val ≡ red + green * 2 ^ 8 + blue * 2 ^ 16
  unfolding rgb_correct
  correct-sum =
      let r = all_bytes-get_or table (u8 val) bytes in
      let g = all_bytes-get_or table (u8 (val >>> 8)) bytes in
      ap (λ n. bit_or n (blue * 2 ^ 16)) (shifted_in 8 red green r)
      ∙ shifted_in 16 (red + green * 2 ^ 8) blue (omega arith)

  -- Each of the three low bytes is that of the table, and the result has no other bits.
  pub rgb_correct_lem :
      (rgb_correct table val % 2 ^ 8 ≡ get_or table (u8 val) 0)
      × (rgb_correct table val / 2 ^ 8 % 2 ^ 8 ≡ get_or table (u8 (val >>> 8)) 0)
      × (rgb_correct table val / 2 ^ 16 ≡ get_or table (u8 (val >>> 16)) 0)
  rgb_correct_lem =
      let r = all_bytes-get_or table (u8 val) bytes in
      let g = all_bytes-get_or table (u8 (val >>> 8)) bytes in
      let b = all_bytes-get_or table (u8 (val >>> 16)) bytes in
      let s = correct-sum in (omega arith, omega arith, omega arith)
