-- ===== src/Common/Bits.antt =====
-- Single bits of `bit_and` and `bit_or`, and the bound of `bit_xor`, at every number.
use Prim.Native.Nat.{
  ℕ, zero, suc, ◌+◌, ◌-◌, ◌*◌, ◌/◌, ◌%◌, ◌^◌, ◌<◌, ◌≤◌, min, max, bit_and, bit_or, bit_xor, differ,
  digits, bitwise, bit_and-bitwise, bit_or-bitwise, bit_xor-bitwise,
}
use mathlib.Core.Path.{◌≡◌, refl, ap, sym, subst, ◌∙◌}
use mathlib.Core.Logic.{◌≢◌}
use native.Mathlib.Nat.{add-mul-mod_self_left, mod-eq_of_lt, mod-lt, mod-add-div, le_refl, pow-suc}
use native.Mathlib.Omega.{arith}

module _ (end : ℕ → ℕ) (op : ℕ → ℕ → ℕ) where
  ended : (n b : ℕ) → digits end op n zero b ≡ end b
  ended zero b = refl
  ended (suc n) b = refl

  -- A count above the number itself changes nothing.
  spare_count : (k n a b : ℕ) → a ≤ n → digits end op (n + k) a b ≡ digits end op n a b
  spare_count k n zero b h = ended (n + k) b ∙ sym (ended n b)
  spare_count k zero (suc a) b h = absurd (omega arith)
  spare_count k (suc n) (suc a) b h =
      ap (λ count. digits end op count (suc a) b) {y = suc (n + k)} (omega arith)
      ∙ ap (λ rest. rest * 2 + op (suc a % 2) (b % 2))
          (spare_count k n (suc a / 2) (b / 2) (omega arith))

  -- An operation whose rule for the other number's digits agrees with `op` splits off the lowest.
  lowest :
      ((b : ℕ) → end b ≡ end (b / 2) * 2 + op 0 (b % 2))
      → (a b : ℕ) → bitwise end op a b ≡ bitwise end op (a / 2) (b / 2) * 2 + op (a % 2) (b % 2)
  lowest ends zero b = ends b
  lowest ends (suc a) b =
      ap (λ rest. rest * 2 + op (suc a % 2) (b % 2))
        (ap (λ n. digits end op n (suc a / 2) (b / 2)) (omega arith)
          ∙ spare_count (a - suc a / 2) (suc a / 2) (suc a / 2) (b / 2) (omega arith))

or-lowest : (a b : ℕ) → bit_or a b ≡ bit_or (a / 2) (b / 2) * 2 + max (a % 2) (b % 2)
or-lowest a b = omega (
  arith,
  bit_or-bitwise a b,
  bit_or-bitwise (a / 2) (b / 2),
  lowest (λ b. b) max (λ b. omega arith) a b,
)

pub and-lowest : (a b : ℕ) → bit_and a b ≡ bit_and (a / 2) (b / 2) * 2 + min (a % 2) (b % 2)
and-lowest a b = omega (
  arith,
  bit_and-bitwise a b,
  bit_and-bitwise (a / 2) (b / 2),
  lowest (λ b. 0) min (λ b. omega arith) a b,
)

-- The bit of `a` at place `i`.
abbrev pub bit : ℕ → ℕ → ℕ
bit a zero = a % 2
bit a (suc i) = bit (a / 2) i

-- What an operation does to each bit, from what it does to the lowest.
module _ (whole op : ℕ → ℕ → ℕ) (small : (a b : ℕ) → op (a % 2) (b % 2) ≤ 1)
    (split : (a b : ℕ) → whole a b ≡ whole (a / 2) (b / 2) * 2 + op (a % 2) (b % 2)) where
  each_bit : (i a b : ℕ) → bit (whole a b) i ≡ op (bit a i) (bit b i)
  each_bit zero a b = omega (arith, split a b, small a b)
  each_bit (suc i) a b =
      ap (λ n. bit n i) (omega (arith, split a b, small a b)) ∙ each_bit i (a / 2) (b / 2)

pub bit-bit_or : (i a b : ℕ) → bit (bit_or a b) i ≡ max (bit a i) (bit b i)
bit-bit_or = each_bit bit_or max (λ a b. omega arith) or-lowest

pub bit-bit_and : (i a b : ℕ) → bit (bit_and a b) i ≡ min (bit a i) (bit b i)
bit-bit_and = each_bit bit_and min (λ a b. omega arith) and-lowest

pub bit-le : (i a : ℕ) → bit a i ≤ 1
bit-le zero a = omega arith
bit-le (suc i) a = bit-le i (a / 2)

pub bit-zero : (i : ℕ) → bit 0 i ≡ 0
bit-zero zero = refl
bit-zero (suc i) = bit-zero i

half_pow : (i : ℕ) → 2 ^ suc i / 2 ≡ 2 ^ i
half_pow i = omega (arith, pow-suc 2 i)

-- A power of two has one bit.
pub bit-pow_self : (i : ℕ) → bit (2 ^ i) i ≡ 1
bit-pow_self zero = refl
bit-pow_self (suc i) = rw (half_pow i) (bit-pow_self i)

pub bit-pow_ne : (i j : ℕ) → i ≢ j → bit (2 ^ i) j ≡ 0
bit-pow_ne zero zero h = absurd (h refl)
bit-pow_ne zero (suc j) h = bit-zero j
bit-pow_ne (suc i) zero h = omega (arith, pow-suc 2 i)
bit-pow_ne (suc i) (suc j) h = rw (half_pow i) (bit-pow_ne i j (λ e. h (ap suc e)))

nothing_masked : (n a : ℕ) → a ≤ n → bit_and a 0 ≡ 0
nothing_masked zero a h = ap (λ a. bit_and a 0) {y = 0} (omega arith)
nothing_masked (suc n) a h = omega (arith, and-lowest a 0, nothing_masked n (a / 2) (omega arith))

-- A mask of one bit tests that bit.
pub bit_and-pow : (i a : ℕ) → bit_and a (2 ^ i) ≡ bit a i * 2 ^ i
bit_and-pow zero a = omega (arith, and-lowest a 1, nothing_masked (a / 2) (a / 2) (le_refl _))
bit_and-pow (suc i) a = omega (
  arith,
  pow-suc 2 i,
  and-lowest a (2 ^ suc i),
  ap (λ n. bit_and (a / 2) n) (half_pow i),
  bit_and-pow i (a / 2),
  ap (λ (t : ℕ). bit (a / 2) i * t) (pow-suc 2 i),
)

pos_pow : (k : ℕ) → 0 < 2 ^ k
pos_pow zero = omega arith
pos_pow (suc k) = omega (arith, pow-suc 2 k, pos_pow k)

-- A number above `k` low bits does not meet them.
pub shifted_in : (k a b : ℕ) → a < 2 ^ k → bit_or a (b * 2 ^ k) ≡ a + b * 2 ^ k
shifted_in zero a b h =
    ap (λ a. bit_or a (b * 2 ^ 0)) {y = 0} (omega arith) ∙ (bit_or-bitwise 0 (b * 1) ∙ omega arith)
shifted_in (suc k) a b h = omega (
  arith,
  or-lowest a (b * 2 ^ suc k),
  ap (bit_or (a / 2)) {x = b * 2 ^ suc k / 2} {y = b * 2 ^ k} (omega (arith, doubled)),
  shifted_in k (a / 2) b (omega (arith, pow-suc 2 k)),
  doubled,
)
  where
    doubled : b * 2 ^ suc k ≡ b * 2 ^ k * 2
    doubled = ap (λ n. b * n) (pow-suc 2 k) ∙ grind arith

half-mod : (a m : ℕ) → 0 < m → a % (m * 2) ≡ a / 2 % m * 2 + a % 2
half-mod a m pos =
    ap (λ n. n % (m * 2)) split
    ∙ (add-mul-mod_self_left (a / 2 % m * 2 + a % 2) (m * 2) (a / 2 / m)
        ∙ mod-eq_of_lt (omega (arith, mod-lt (a / 2) pos)))
  where
    split : a ≡ a / 2 % m * 2 + a % 2 + m * 2 * (a / 2 / m)
    split = grind (arith, mod-add-div (a / 2) m)

-- A mask of `k` ones keeps the `k` low bits.
pub masked : (k a : ℕ) → bit_and a (2 ^ k - 1) ≡ a % 2 ^ k
masked zero a = nothing_masked a a (le_refl _) ∙ omega arith
masked (suc k) a = omega (
  arith,
  and-lowest a (2 ^ suc k - 1),
  ap (bit_and (a / 2)) {x = (2 ^ suc k - 1) / 2} {y = 2 ^ k - 1} (omega (arith, pow-suc 2 k)),
  masked k (a / 2),
  pow-suc 2 k,
  pos_pow k,
  half-mod a (2 ^ k) (pos_pow k),
  ap (λ n. a % n) (pow-suc 2 k),
)

xor-lowest : (a b : ℕ) → bit_xor a b ≡ bit_xor (a / 2) (b / 2) * 2 + differ (a % 2) (b % 2)
xor-lowest a b = omega (
  arith,
  bit_xor-bitwise a b,
  bit_xor-bitwise (a / 2) (b / 2),
  lowest (λ b. b) differ (λ b. omega arith) a b,
)

pub bit-small : (k a : ℕ) → a < 2 ^ k → bit a k ≡ 0
bit-small zero a h = omega arith
bit-small (suc k) a h = bit-small k (a / 2) (omega (arith, pow-suc 2 k))

differ-le_one : (x y : ℕ) → x ≤ 1 → y ≤ 1 → differ x y ≤ 1
differ-le_one zero y h h' = h'
differ-le_one (suc x) zero h h' = h
differ-le_one (suc x) (suc y) h h' = differ-le_one x y (omega arith) (omega arith)

pub bit_xor-lt : (k a b : ℕ) → a < 2 ^ k → b < 2 ^ k → bit_xor a b < 2 ^ k
bit_xor-lt zero a b h h' =
    subst (λ (n : ℕ). bit_xor n b < 1) {x = 0} (omega arith)
      (subst (λ (n : ℕ). bit_xor 0 n < 1) {x = 0} (omega arith) (omega arith))
bit_xor-lt (suc k) a b h h' = omega (
  arith,
  xor-lowest a b,
  pow-suc 2 k,
  bit_xor-lt k (a / 2) (b / 2) (omega (arith, pow-suc 2 k)) (omega (arith, pow-suc 2 k)),
  differ-le_one (a % 2) (b % 2) (omega arith) (omega arith),
)
