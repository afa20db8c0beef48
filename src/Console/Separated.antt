-- ===== src/Console/Separated.antt =====
-- `do_tokenize` finds the words of a line one after another.
use librfn.Common.{
  ℕ, zero, suc, ◌+◌, ◌≡◌, ◌≤◌, ◌<◌, refl, sym, ap, ◌∙◌, List, [], ◌∷◌, ◌++◌, append_assoc,
  append-nil, arith, length, length-append, length-replicate, inl, inr, Bool-cases, replicate, leb,
  ◌==◌,
}
use librfn.Console.Tokens.{tokenize_from}
use librfn.Console.Words.{
  Word, AllWords, joined, starts, at, last, last-snoc, char_first, goes_on, breaks_off, run, one_on,
  run_spaces, run_word,
}

last-nuls : (g : ℕ) (pre : List ℕ) → last (pre ++ replicate (suc g) 0) ≡ 0
last-nuls zero pre = last-snoc pre 0
last-nuls (suc g) pre =
    ap last (sym (append_assoc pre (0 ∷ []) (replicate (suc g) 0))) ∙ last-nuls g (pre ++ (0 ∷ []))

-- A word is taken off the front.
pub joined-front :
    (c g x : ℕ) (w : List ℕ) (ws : List Word) (tail : List ℕ)
    → joined c ((g, x, w) ∷ ws) ++ tail ≡ replicate (suc g) c ++ (x ∷ (w ++ (joined c ws ++ tail)))
joined-front c g x w ws tail =
    append_assoc (replicate (suc g) c) (x ∷ (w ++ joined c ws)) tail
    ∙ ap (λ l. replicate (suc g) c ++ (x ∷ l)) (append_assoc w (joined c ws) tail)

pub joined-behind :
    (g x : ℕ) (w : List ℕ) (ws : List Word) (pre tail : List ℕ)
    → pre ++ (joined 0 ((g, x, w) ∷ ws) ++ tail)
      ≡ (pre ++ replicate (suc g) 0) ++ (x ∷ (w ++ (joined 0 ws ++ tail)))
joined-behind g x w ws pre tail =
    ap (λ l. pre ++ l) (joined-front 0 g x w ws tail)
    ∙ sym (append_assoc pre (replicate (suc g) 0) (x ∷ (w ++ (joined 0 ws ++ tail))))

pub length-joined :
    (c g x : ℕ) (w : List ℕ) (ws : List Word)
    → length (joined c ((g, x, w) ∷ ws)) ≡ suc g + suc (length w + length (joined c ws))
length-joined c g x w ws = omega (
  arith,
  length-append (replicate (suc g) c) (x ∷ (w ++ joined c ws)),
  length-replicate (suc g) c,
  length-append w (joined c ws),
)

pub length-nuls : (g : ℕ) (pre : List ℕ) → length (pre ++ replicate (suc g) 0) ≡ length pre + suc g
length-nuls g pre =
    omega (arith, length-append pre (replicate (suc g) 0), length-replicate {A = ℕ} (suc g) 0)

none_left :
    (ws : List Word) (n : ℕ) → length ws ≡ 0 → (joined 32 ws ≡ joined 0 ws) × (starts n ws ≡ [])
none_left [] n h = (refl, refl)
none_left (w ∷ ws) n h = absurd (omega (arith, h))

-- The words are found one after another, and the separators become NULs.
pub run_words :
    (ws : List Word) (pre tail argv : List ℕ)
    → AllWords ws
    → length argv < 4
    → length argv + length ws ≤ 4
    → run (length (joined 32 ws)) pre (joined 32 ws ++ tail) argv
      ≡ at (pre ++ (joined 0 ws ++ tail)) (argv ++ starts (length pre) ws)
unfolding tokenize_from
run_words [] pre tail argv plain room fits = ap (at (pre ++ tail)) (sym (append-nil argv))
run_words ((g, x, w) ∷ ws) pre tail argv (first, others, plain) room fits =
    let nuls = pre ++ replicate (suc g) 0 in
    let rest = joined 32 ws ++ tail in
    let more = length (joined 32 ws) in
    let now = at (nuls ++ (x ∷ (w ++ rest))) argv in
    let argv' = argv ++ (length nuls ∷ []) in
    let one_more : length argv' ≡ length argv + 1 = length-append argv (length nuls ∷ []) in
    let place : length nuls ≡ length pre + suc g = length-nuls g pre in
    let found = char_first nuls (w ++ rest) argv x first (omega (arith, place)) (last-nuls g pre) in
    let here : starts (length pre) ((g, x, w) ∷ ws)
        ≡ length nuls ∷ starts (length nuls + suc (length w)) ws =
      ap (λ n. n ∷ starts (n + suc (length w)) ws) (sym place) in
    let spaces =
      ap (λ n. run n pre (joined 32 ((g, x, w) ∷ ws) ++ tail) argv) (length-joined 32 g x w ws)
      ∙ ap (λ l. run (suc g + suc (length w + more)) pre l argv) (joined-front 32 g x w ws tail)
      ∙ run_spaces (suc g) (suc (length w + more)) pre (x ∷ (w ++ rest)) argv room in
    elim (Bool-cases (leb 4 (length argv'))) [
      | inl over ↦
          let full : 4 ≤ length argv' = ground (arith, over) in
          let (same, nowhere) =
            none_left ws (length nuls + suc (length w)) (omega (arith, full, one_more, fits)) in
          spaces
          ∙ breaks_off (length w + more) (length nuls) now _ found full
          ∙ ap (λ l. at (nuls ++ (x ∷ (w ++ (l ++ tail)))) argv') same
          ∙ ap (λ l. at l argv') (sym (joined-behind g x w ws pre tail))
          ∙ ap (λ js. at (pre ++ (joined 0 ((g, x, w) ∷ ws) ++ tail)) (argv ++ js))
              (sym (here ∙ ap (λ js. length nuls ∷ js) nowhere))
      | inr under ↦
          let more_room : length argv' < 4 = ground (arith, under) in
          let pre' = (nuls ++ (x ∷ [])) ++ w in
          let long : length pre' ≡ length nuls + suc (length w) =
            omega (arith, length-append (nuls ++ (x ∷ [])) w, length-append nuls (x ∷ [])) in
          spaces
          ∙ goes_on (length w + more) (length nuls) now _
              (found ∙ ap (λ l. at l argv') (sym (append_assoc nuls (x ∷ []) (w ++ rest))))
              more_room
          ∙ one_on (length w + more) nuls (w ++ rest) argv' x
          ∙ run_word w more (nuls ++ (x ∷ [])) rest argv' others
              (omega (arith, length-append nuls (x ∷ [])))
              (ap (λ n. n == 0) (last-snoc nuls x) ∙ first.1) more_room
          ∙ run_words ws pre' tail argv' plain more_room (omega (arith, one_more, fits))
          ∙ ap (λ l. at l (argv' ++ starts (length pre') ws))
              (append_assoc (nuls ++ (x ∷ [])) w (joined 0 ws ++ tail)
                ∙ append_assoc nuls (x ∷ []) (w ++ (joined 0 ws ++ tail))
                ∙ sym (joined-behind g x w ws pre tail))
          ∙ ap (at (pre ++ (joined 0 ((g, x, w) ∷ ws) ++ tail))) (
              append_assoc argv (length nuls ∷ []) (starts (length pre') ws)
              ∙ ap (λ n. argv ++ (length nuls ∷ starts n ws)) long
              ∙ ap (λ js. argv ++ js) (sym here))
    ]
