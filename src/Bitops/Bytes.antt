-- ===== src/Bitops/Bytes.antt =====
-- A word of four bytes, and what masking does to each of them.
use Prim.Native.Nat.{bit_and, min}
use native.Mathlib.Nat.{pow-suc}
use librfn.Common.{ℕ, zero, suc, ◌+◌, ◌*◌, ◌/◌, ◌%◌, ◌^◌, ◌≡◌, ◌<◌, refl, ap₂, ◌∙◌, arith}
use librfn.Common.Bits.{and-lowest}

double : (b k : ℕ) → b * 2 ^ suc k ≡ b * 2 ^ k * 2
double b k = grind (arith, pow-suc 2 k)

pub halved : (a b k : ℕ) → (a + b * 2 ^ suc k) / 2 ≡ a / 2 + b * 2 ^ k
halved a b k = omega (arith, double b k)

pub odd : (a b k : ℕ) → (a + b * 2 ^ suc k) % 2 ≡ a % 2
odd a b k = omega (arith, double b k)

-- The low bits and the high bits are masked apart.
pub and-split :
    (k a b c d : ℕ)
    → a < 2 ^ k
    → c < 2 ^ k
    → bit_and (a + b * 2 ^ k) (c + d * 2 ^ k) ≡ bit_and a c + bit_and b d * 2 ^ k
and-split zero a b c d h h' =
    let left : a + b * 2 ^ 0 ≡ b = omega (arith, h) in
    let right : c + d * 2 ^ 0 ≡ d = omega (arith, h') in
    let no_a : a ≡ 0 = omega (arith, h) in
    let no_c : c ≡ 0 = omega (arith, h') in
    let low : bit_and a c ≡ 0 = rw (no_a, no_c) refl in ap₂ bit_and left right ∙ omega (arith, low)
and-split (suc k) a b c d h h' =
    let x = a + b * 2 ^ suc k in
    let y = c + d * 2 ^ suc k in
    let p = pow-suc 2 k in
    let ih = and-split k (a / 2) b (c / 2) d (omega (arith, p, h)) (omega (arith, p, h')) in
    let halves = ap₂ bit_and (halved a b k) (halved c d k) ∙ ih in
    let odds = ap₂ min (odd a b k) (odd c d k) in
    omega (arith, and-lowest x y, and-lowest a c, halves, odds, double (bit_and b d) k)

-- The number that has these four bytes, the lowest first.
abbrev pub word : ℕ → ℕ → ℕ → ℕ → ℕ
word a b c d = a + (b + (c + d * 2 ^ 8) * 2 ^ 8) * 2 ^ 8

pub and-word :
    (a b c d m : ℕ)
    → a < 2 ^ 8
    → b < 2 ^ 8
    → c < 2 ^ 8
    → m < 2 ^ 8
    → bit_and (word a b c d) (word m m m m)
      ≡ word (bit_and a m) (bit_and b m) (bit_and c m) (bit_and d m)
and-word a b c d m ha hb hc hm =
    let third = and-split 8 c d m m hc hm in
    let second = and-split 8 b (c + d * 2 ^ 8) m (m + m * 2 ^ 8) hb hm in
    let first = and-split 8 a (b + (c + d * 2 ^ 8) * 2 ^ 8) m (m + (m + m * 2 ^ 8) * 2 ^ 8) ha hm in
    omega (arith, first, second, third)

-- Every word has four bytes.
pub word-bytes :
    (x : ℕ)
    → x < 2 ^ 32
    → (x ≡ word (x % 2 ^ 8) (x / 2 ^ 8 % 2 ^ 8) (x / 2 ^ 16 % 2 ^ 8) (x / 2 ^ 24))
      × (x / 2 ^ 24 < 2 ^ 8)
word-bytes x h = (omega (arith, h), omega (arith, h))
