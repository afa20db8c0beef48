-- ===== src/Strings/Case.antt =====
-- Changing the case of a string changes its characters one by one, and nothing behind its NUL.
use librfn.Common.{ℕ, zero, suc, ◌≡◌, ◌<◌, refl, ap, ◌∙◌, true, List, [], ◌∷◌, ◌++◌, arith}
use librfn.Strings.{
  tolower, toupper, change_string, strtolower, strtoupper, c_string, strdup_tolower, text,
  xstrdup_tolower, xtest,
}

abbrev pub each : (ℕ → ℕ) → List ℕ → List ℕ
each f [] = []
each f (c ∷ s) = f c ∷ each f s

-- No character is NUL.
abbrev pub NoNul : List ℕ → Type 0
NoNul [] = Unit
NoNul (c ∷ s) = (0 < c) × NoNul s

change_string-each :
    (f : ℕ → ℕ) (s rest : List ℕ)
    → NoNul s
    → change_string f (s ++ (0 ∷ rest)) ≡ each f s ++ (0 ∷ rest)
unfolding change_string
change_string-each f [] rest n = refl
change_string-each f (zero ∷ s) rest (pos, n) = absurd (omega arith)
change_string-each f (suc c ∷ s) rest (pos, n) =
    ap (λ p. f (suc c) ∷ p) (change_string-each f s rest n)

each-each : (f g h : ℕ → ℕ) (s : List ℕ) → ((c : ℕ) → f (g c) ≡ h c) → each f (each g s) ≡ each h s
each-each f g h [] e = refl
each-each f g h (c ∷ s) e = rw (e c, each-each f g h s e) refl

NoNul-each : (f : ℕ → ℕ) (s : List ℕ) → ((c : ℕ) → 0 < c → 0 < f c) → NoNul s → NoNul (each f s)
NoNul-each f [] p n = tt
NoNul-each f (c ∷ s) p (pos, n) = (p c pos, NoNul-each f s p n)

c_string-append : (s rest : List ℕ) → NoNul s → c_string (s ++ (0 ∷ rest)) ≡ s
c_string-append [] rest n = refl
c_string-append (zero ∷ s) rest (pos, n) = absurd (omega arith)
c_string-append (suc c ∷ s) rest (pos, n) = ap (λ p. suc c ∷ p) (c_string-append s rest n)

tolower_pos : (c : ℕ) → 0 < c → 0 < tolower c
tolower_pos c h = ground (arith, h)

toupper_pos : (c : ℕ) → 0 < c → 0 < toupper c
toupper_pos c h = ground (arith, h)

-- `strtolower` changes each character of the string and nothing from its NUL on; a second call changes
-- nothing, and `strtoupper` gives then what it would have given at first.
pub strtolower_lem :
    (s rest : List ℕ)
    → NoNul s
    → (strtolower (s ++ (0 ∷ rest)) ≡ each tolower s ++ (0 ∷ rest))
      × (strtolower (strtolower (s ++ (0 ∷ rest))) ≡ strtolower (s ++ (0 ∷ rest)))
      × (strtoupper (strtolower (s ++ (0 ∷ rest))) ≡ strtoupper (s ++ (0 ∷ rest)))
unfolding strtolower strtoupper
strtolower_lem s rest n =
    let low = change_string-each tolower s rest n in
    let n' = NoNul-each tolower s tolower_pos n in
    let again = change_string-each tolower (each tolower s) rest n' in
    let up = change_string-each toupper (each tolower s) rest n' in
    let up' = change_string-each toupper s rest n in
    let same = each-each tolower tolower tolower s (λ c. ground arith) in
    let same' = each-each toupper tolower toupper s (λ c. ground arith) in
    (low, (rw (low, again, same) refl), (rw (low, up, up', same') refl))

-- `xstrdup_tolower` returns, when there is memory, the string with each character changed.
pub xstrdup_tolower_lem : (s : List ℕ) → NoNul s → xstrdup_tolower true s ≡ text (each tolower s)
unfolding xstrdup_tolower strdup_tolower strtolower xtest
xstrdup_tolower_lem s n =
    ap (λ p. text (c_string p)) (change_string-each tolower s [] n)
    ∙ ap (λ p. text p) (c_string-append (each tolower s) [] (NoNul-each tolower s tolower_pos n))
