-- ===== src/Messageq/Flags.antt =====
-- The flag word of a message queue, bit by bit.
use Prim.Native.Nat.{bit_and, bit_or}
use native.Mathlib.Nat.{one-le-pow}
use librfn.Common.{
  ℕ, zero, suc, ◌-◌, ◌*◌, ◌^◌, ◌≤◌, ◌<◌, ◌≡◌, refl, sym, ap, ◌∙◌, Bool, true, false, ◌&&◌, List, [],
  ◌∷◌, ◌++◌, append_assoc, arith, ◌==◌, ==_iff, eq→==, ne→==, replicate, if◌then◌else◌,
}
use librfn.Common.Bits.{bit, bit-le, bit-bit_or, bit-bit_and, bit-pow_self, bit-pow_ne, bit_and-pow}
use librfn.Common.Cyclic.{SameBut}
use librfn.Messageq.{flag, all_but}

abbrev pub sent : ℕ → ℕ → Bool
sent full_flags p = bit full_flags p == 1

module _ (full_flags p : ℕ) where
  -- `|= 1 << p` marks `p` and nothing else.
  pub sent-bit_or : sent (bit_or full_flags (flag p)) p ≡ true
  sent-bit_or =
      eq→== (bit (bit_or full_flags (flag p)) p) 1
        (omega (arith, bit-bit_or p full_flags (2 ^ p), bit-pow_self p, bit-le p full_flags))

  pub SameBut-bit_or :
      (len : ℕ) → SameBut len p (sent full_flags) (sent (bit_or full_flags (flag p)))
  SameBut-bit_or len j hj ne =
      ap (λ b. b == 1)
        (omega (arith, bit-bit_or j full_flags (2 ^ p), bit-pow_ne p j (λ e. ne (sym e))))

-- Over the 32 bits of a word, check every bit by evaluation.
all_below : ℕ → (ℕ → Bool) → Bool
all_below zero ok = true
all_below (suc n) ok = ok n && all_below n ok

all_below_sound : (n : ℕ) (ok : ℕ → Bool) (x : ℕ) → all_below n ok ≡ true → x < n → ok x ≡ true
unfolding all_below
all_below_sound zero ok x h lt = absurd (omega arith)
all_below_sound (suc n) ok x h lt = ground (arith, all_below_sound n ok x)

abbrev mask_bit : ℕ → ℕ → Bool
mask_bit p j = bit (all_but p) j == (if j == p then 0 else 1)

mask_table : all_below 32 (λ p. all_below 32 (mask_bit p)) ≡ true
unfolding all_below
mask_table = refl

bit-all_but : (p j : ℕ) → p < 32 → j < 32 → bit (all_but p) j ≡ (if j == p then 0 else 1)
bit-all_but p j hp hj = (==_iff _ _).0 (
    all_below_sound 32 (mask_bit p) j
      (all_below_sound 32 (λ p. all_below 32 (mask_bit p)) p mask_table hp) hj)

module _ (full_flags p : ℕ) (hp : p < 32) where
  -- `&= ~(1 << p)` clears `p` and nothing else.
  pub sent-bit_and : sent (bit_and full_flags (all_but p)) p ≡ false
  sent-bit_and =
      ne→== (bit (bit_and full_flags (all_but p)) p) 1
        (ground (arith, bit-bit_and p full_flags (all_but p), bit-all_but p p hp hp))

  pub SameBut-bit_and :
      (len : ℕ) → len ≤ 32 → SameBut len p (sent full_flags) (sent (bit_and full_flags (all_but p)))
  SameBut-bit_and len small j hj ne =
      ap (λ b. b == 1)
        (ground (
          arith,
          bit-bit_and j full_flags (all_but p),
          bit-all_but p j hp (omega arith),
          bit-le j full_flags,
        ))

-- The test `0 == (full_flags & (1 << p))`.
pub test_flag :
    (full_flags p : ℕ) {b : Bool}
    → sent full_flags p ≡ b
    → (0 == bit_and full_flags (flag p)) ≡ (if b then false else true)
test_flag full_flags p {b = true} h =
    rw (bit_and-pow p full_flags, (==_iff _ _).0 h)
      (ne→== 0 (1 * 2 ^ p) (λ e. absurd (omega (arith, e, one-le-pow p 2 (omega arith)))))
test_flag full_flags p {b = false} h =
    rw (bit_and-pow p full_flags)
      (eq→== 0 (bit full_flags p * 2 ^ p) (omega (arith, ap (λ (t : ℕ). t * 2 ^ p) clear)))
  where
    clear : bit full_flags p ≡ 0
    clear = ground (arith, bit-le p full_flags)

module _ {ℓ} {A : Type ℓ} (a : A) where
  pub replicate-append : (n : ℕ) → replicate n a ++ (a ∷ []) ≡ a ∷ replicate n a
  replicate-append zero = refl
  replicate-append (suc n) = ap (λ l. a ∷ l) (replicate-append n)

  pub replicate-pos : (n : ℕ) → 0 < n → replicate n a ≡ a ∷ replicate (n - 1) a
  replicate-pos zero h = absurd (omega arith)
  replicate-pos (suc n) h = ap (λ k. a ∷ replicate k a) (omega arith)

  -- One more value in front of the padding.
  pub append-replicate :
      (xs : List A) (n : ℕ) → 0 < n → (xs ++ (a ∷ [])) ++ replicate (n - 1) a ≡ xs ++ replicate n a
  append-replicate xs n h =
      append_assoc xs (a ∷ []) (replicate (n - 1) a) ∙ ap (λ l. xs ++ l) (sym (replicate-pos n h))
