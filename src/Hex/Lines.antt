-- ===== src/Hex/Lines.antt =====
-- Reading a byte comes to an end, whatever the string is.
use librfn.Common.{
  ℕ, zero, suc, ◌≡◌, ◌≤◌, ◌<◌, refl, Bool, true, false, Option, none, some, List, [], ◌∷◌, arith,
  length, ◌==◌, Bool-cases, inl, inr,
}
use librfn.Hex.{
  newline, strchr, behind, behind_colon, skip_space, skip_prefix, Got, out_of_fuel, digits,
  conclude, get_line, next_line, hex_get_byte,
}

abbrev pub is_stuck : Got → Bool
is_stuck out_of_fuel = true
is_stuck _ = false

abbrev pub Shorter : ℕ → Option (List ℕ) → Type 0
Shorter n none = Unit
Shorter n (some q) = length (behind q) < n

Shorter-weaken : (m n : ℕ) (q : Option (List ℕ)) → m ≤ n → Shorter m q → Shorter n q
Shorter-weaken m n none le h = tt
Shorter-weaken m n (some q) le h = omega (arith, le, h)

length-strchr : (s : List ℕ) (c : ℕ) → Shorter (length s) (strchr s c)
unfolding strchr
length-strchr [] c = tt
length-strchr (x ∷ s) c = elim (Bool-cases (x == c)) [
  | inl here ↦ rw here (omega arith)
  | inr there ↦
      rw there
        (Shorter-weaken (length s) (suc (length s)) (strchr s c) (omega arith) (length-strchr s c))
]

length-behind_colon :
    (q : Option (List ℕ)) (s : List ℕ) → Shorter (length s) q → length (behind_colon q s) ≤ length s
length-behind_colon none s h = omega arith
length-behind_colon (some q) s h = omega (arith, h)

length-skip_space :
    (s : List ℕ)
    → let (ended, rest) = skip_space s in
      (length rest ≤ length s) × (ended ≡ true → length rest < length s)
unfolding skip_space
length-skip_space [] = (omega arith, λ e. cc)
length-skip_space (c ∷ s) = ground (arith, length-skip_space s)

length-skip_prefix : (s : List ℕ) → length (skip_prefix s) ≤ length s
length-skip_prefix [] = omega arith
length-skip_prefix (a ∷ []) = omega arith
length-skip_prefix (a ∷ b ∷ s) = ground arith

-- `next` comes to an end for every string shorter than `n`.
abbrev Ends : (List ℕ → Got) → ℕ → Type 0
Ends next n = (s : List ℕ) → length s < n → is_stuck (next s) ≡ false

conclude-Ends :
    (next : List ℕ → Got) (n : ℕ) (d : Option (ℕ × List ℕ)) (q : Option (List ℕ))
    → Ends next n
    → Shorter n q
    → is_stuck (conclude next d q) ≡ false
conclude-Ends next n (some (b, rest)) q ends h = refl
conclude-Ends next n none none ends h = refl
conclude-Ends next n none (some q) ends h = ends (behind q) h

get_line-Ends :
    (next : List ℕ → Got) (n : ℕ) (s : List ℕ)
    → Ends next n
    → length s ≤ n
    → is_stuck (get_line next s) ≡ false
unfolding get_line
get_line-Ends next n s ends le =
    let (weak, strict) = length-skip_space s in
    let rest = (skip_space s).1 in
    let start = skip_prefix rest in
    elim (Bool-cases (skip_space s).0) [
      | inl ended ↦ rw ended (ends rest (omega (arith, strict ended)))
      | inr here ↦ rw here (
          conclude-Ends next n (digits start) (strchr start newline) ends (
            Shorter-weaken (length start) n (strchr start newline)
              (omega (arith, length-skip_prefix rest)) (length-strchr start newline)))
    ]

next_line-Ends : (fuel : ℕ) → Ends (λ s. next_line fuel s) fuel
unfolding next_line
next_line-Ends zero s h = absurd (omega arith)
next_line-Ends (suc fuel) s h =
    get_line-Ends (λ s. next_line fuel s) fuel (behind_colon (strchr s b':') s)
      (next_line-Ends fuel)
      (omega (arith, length-behind_colon (strchr s b':') s (length-strchr s b':'), h))

-- Whatever `s` and `*p` are, the call returns.
pub hex_get_byte-ends : (s p : Option (List ℕ)) → is_stuck (hex_get_byte s p) ≡ false
unfolding hex_get_byte
hex_get_byte-ends (some s) p = next_line-Ends (suc (length s)) s (omega arith)
hex_get_byte-ends none none = refl
hex_get_byte-ends none (some s) =
    get_line-Ends (λ t. next_line (suc (length s)) t) (suc (length s)) s
      (next_line-Ends (suc (length s))) (omega arith)
