-- ===== src/Enum/Names.antt =====
-- Names that differ and the numbers that they stand for are found from one another.
use librfn.Common.{
  ℕ, ◌≡◌, refl, ap, Bool, true, false, ◌||◌, some, List, [], ◌∷◌, arith, Bool-cases, inl, inr,
  eq_of_some,
}
use librfn.Common.Int.{ℤ, pos, negsuc}
use librfn.Enum.{Entry, same_int, same_string, out_of_range, enum2string, string2enum}

abbrev pub named : List ℕ → List Entry → Bool
named s [] = false
named s (x ∷ t) = same_string x.s s || named s t

-- No name stands twice in the table.
abbrev pub Distinct : List Entry → Type 0
Distinct [] = Unit
Distinct (x ∷ t) = (named x.s t ≡ false) × Distinct t

same_int-eq : (a b : ℤ) → same_int a b ≡ true → a ≡ b
same_int-eq (pos a) (pos b) h = ap (λ n. pos n) (ground arith)
same_int-eq (pos a) (negsuc b) h = cc
same_int-eq (negsuc a) (pos b) h = cc
same_int-eq (negsuc a) (negsuc b) h = ap (λ n. negsuc n) (ground arith)

same_string-eq : (a b : List ℕ) → same_string a b ≡ true → a ≡ b
same_string-eq [] [] h = refl
same_string-eq [] (y ∷ b) h = cc
same_string-eq (x ∷ a) [] h = cc
same_string-eq (x ∷ a) (y ∷ b) h =
    let same : x ≡ y = ground arith in
    let rest = same_string-eq a b (ground arith) in rw (same, rest) refl

same_string_refl : (a : List ℕ) → same_string a a ≡ true
same_string_refl [] = refl
same_string_refl (x ∷ a) = ground (arith, same_string_refl a)

same_int_refl : (a : ℤ) → same_int a a ≡ true
same_int_refl (pos a) = ground arith
same_int_refl (negsuc a) = ground arith

found-named : (t : List Entry) (e : ℤ) (s : List ℕ) → enum2string t e ≡ some s → named s t ≡ true
unfolding enum2string
found-named [] e s h = cc
found-named (x ∷ t) e s h = elim (Bool-cases (same_int x.e e)) [
  | inl here ↦ let same : x.s ≡ s = eq_of_some (rw here at h) in rw (same, same_string_refl s) refl
  | inr there ↦
      let behind : enum2string t e ≡ some s = rw there at h in
      ground (arith, found-named t e s behind)
]

-- A name that a number is given leads back to that number.
pub string2enum-enum2string :
    (t : List Entry) (e : ℤ) (s : List ℕ)
    → Distinct t
    → enum2string t e ≡ some s
    → string2enum t s ≡ e
unfolding enum2string string2enum
string2enum-enum2string [] e s d h = cc
string2enum-enum2string (x ∷ t) e s (new, d) h = elim (Bool-cases (same_int x.e e)) [
  | inl here ↦
      let same : x.s ≡ s = eq_of_some (rw here at h) in
      rw (same, same_string_refl s) (same_int-eq x.e e here)
  | inr there ↦
      let behind : enum2string t e ≡ some s = rw there at h in
      elim (Bool-cases (same_string x.s s)) [
        | inl clash ↦
            let e1 = same_string-eq x.s s clash in
            let on = found-named t e s behind in
            absurd (ground (arith, new, on, ap (λ n. named n t) e1))
        | inr other ↦ rw other (string2enum-enum2string t e s d behind)
      ]
]

-- A name that is not in the table has no number of the table.
pub string2enum_absent :
    (t : List Entry) (s : List ℕ) → named s t ≡ false → string2enum t s ≡ out_of_range
unfolding string2enum
string2enum_absent [] s h = refl
string2enum_absent (x ∷ t) s h = ground (arith, string2enum_absent t s)
