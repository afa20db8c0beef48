-- ===== src/Console/Words.antt =====
-- The arguments of a line of plain words.
use librfn.Common.{
  ℕ, zero, suc, ◌+◌, ◌-◌, ◌≡◌, ◌≤◌, ◌<◌, refl, sym, ap, ◌∙◌, true, false, List, [], ◌∷◌, ◌++◌,
  append_assoc, append-nil, arith, length, length-append, get_or, set, replicate, leb, ◌==◌,
}
use native.Mathlib.Numerals.{unary_clauses}
use librfn.Hex.{isspace}
use librfn.Console.{string_at}
use librfn.Console.Tokens.{Tokens, is_quote, tokenize_char, tokenize_from}

-- A character that is no white space, no NUL and no quote.
abbrev pub Plain : ℕ → Type 0
Plain x = (isspace x ≡ false) × ((x == 0) ≡ false) × (is_quote x ≡ false)

abbrev pub AllPlain : List ℕ → Type 0
AllPlain [] = Unit
AllPlain (x ∷ xs) = Plain x × AllPlain xs

-- A word behind the first: the number of separators in front of it but one, its first character, and the
-- others.
abbrev pub Word : Type 0
Word = ℕ × ℕ × List ℕ

abbrev pub text : Word → List ℕ
text (g, x, w) = x ∷ w

abbrev pub AllWords : List Word → Type 0
AllWords [] = Unit
AllWords ((g, x, w) ∷ ws) = Plain x × AllPlain w × AllWords ws

-- The words, each behind its separators.
abbrev pub joined : ℕ → List Word → List ℕ
joined c [] = []
joined c ((g, x, w) ∷ ws) = replicate (suc g) c ++ (x ∷ (w ++ joined c ws))

abbrev pub texts : List Word → List (List ℕ)
texts [] = []
texts (w ∷ ws) = text w ∷ texts ws

-- The strings that start at the places.
abbrev pub strings : List ℕ → List ℕ → List (List ℕ)
strings buf [] = []
strings buf (i ∷ is) = string_at buf i ∷ strings buf is

-- Where the words start, behind `n` characters.
abbrev pub starts : ℕ → List Word → List ℕ
starts n [] = []
starts n ((g, x, w) ∷ ws) = (n + suc g) ∷ starts (n + suc g + suc (length w)) ws

abbrev pub at : List ℕ → List ℕ → Tokens
at buf argv = record { buf = buf; quote = 0; argv = argv }

abbrev pub last : List ℕ → ℕ
last pre = get_or pre (length pre - 1) 0

get_or-middle : (pre post : List ℕ) (x : ℕ) → get_or (pre ++ (x ∷ post)) (length pre) 0 ≡ x
get_or-middle [] post x = refl
get_or-middle (y ∷ pre) post x = get_or-middle pre post x

set-middle :
    (pre post : List ℕ) (x y : ℕ)
    → set (pre ++ (x ∷ post)) (length pre) y ≡ (pre ++ (y ∷ [])) ++ post
set-middle [] post x y = refl
set-middle (z ∷ pre) post x y = ap (λ l. z ∷ l) (set-middle pre post x y)

get_or-last :
    (pre post : List ℕ) → 0 < length pre → get_or (pre ++ post) (length pre - 1) 0 ≡ last pre
get_or-last [] post h = absurd (omega (arith, h))
get_or-last (x ∷ []) post h = refl
get_or-last (x ∷ y ∷ pre) post h =
    let rest = get_or-last (y ∷ pre) post (omega arith) in
    simp unary_clauses (simp unary_clauses at rest)

pub last-snoc : (pre : List ℕ) (x : ℕ) → last (pre ++ (x ∷ [])) ≡ x
last-snoc pre x =
    let long = length-append pre (x ∷ []) in
    ap (λ n. get_or (pre ++ (x ∷ [])) n 0) (omega (arith, long)) ∙ get_or-middle pre [] x

char_space :
    (pre post argv : List ℕ)
    → tokenize_char (length pre) (at (pre ++ (32 ∷ post)) argv)
      ≡ at ((pre ++ (0 ∷ [])) ++ post) argv
unfolding tokenize_char
char_space pre post argv = rw (get_or-middle pre post 32, set-middle pre post 32 0) refl

char_inside :
    (pre post argv : List ℕ) (x : ℕ)
    → Plain x
    → 0 < length pre
    → (last pre == 0) ≡ false
    → tokenize_char (length pre) (at (pre ++ (x ∷ post)) argv) ≡ at (pre ++ (x ∷ post)) argv
unfolding tokenize_char
char_inside pre post argv x (space, nul, quote) long inside =
    rw
      (tokenize_char, get_or-middle pre post x, get_or-last pre (x ∷ post) long, space, nul, inside)
      refl

pub char_first :
    (pre post argv : List ℕ) (x : ℕ)
    → Plain x
    → 0 < length pre
    → last pre ≡ 0
    → tokenize_char (length pre) (at (pre ++ (x ∷ post)) argv)
      ≡ at (pre ++ (x ∷ post)) (argv ++ (length pre ∷ []))
unfolding tokenize_char
char_first pre post argv x (space, nul, quote) long behind =
    rw
      (
        tokenize_char,
        get_or-middle pre post x,
        get_or-last pre (x ∷ post) long,
        space,
        nul,
        behind,
        quote,
      )
      refl

pub goes_on :
    (count i : ℕ) (t t' : Tokens)
    → tokenize_char i t ≡ t'
    → length t'.argv < 4
    → tokenize_from (suc count) i t ≡ tokenize_from count (i + 1) t'
unfolding tokenize_from
goes_on count i t t' done room =
    let more : leb 4 (length t'.argv) ≡ false = ground (arith, room) in
    rw (tokenize_from, done, more) refl

pub breaks_off :
    (count i : ℕ) (t t' : Tokens)
    → tokenize_char i t ≡ t'
    → 4 ≤ length t'.argv
    → tokenize_from (suc count) i t ≡ t'
unfolding tokenize_from
breaks_off count i t t' done full =
    let over : leb 4 (length t'.argv) ≡ true = ground (arith, full) in
    rw (tokenize_from, done, over) refl

-- The loop, at the end of `pre`.
abbrev pub run : ℕ → List ℕ → List ℕ → List ℕ → Tokens
run count pre post argv = tokenize_from count (length pre) (at (pre ++ post) argv)

pub one_on :
    (count : ℕ) (pre post argv : List ℕ) (y : ℕ)
    → tokenize_from count (length pre + 1) (at ((pre ++ (y ∷ [])) ++ post) argv)
      ≡ run count (pre ++ (y ∷ [])) post argv
one_on count pre post argv y =
    ap (λ n. tokenize_from count n (at ((pre ++ (y ∷ [])) ++ post) argv))
      (sym (length-append pre (y ∷ [])))

pub run_spaces :
    (g count : ℕ) (pre post argv : List ℕ)
    → length argv < 4
    → run (g + count) pre (replicate g 32 ++ post) argv ≡ run count (pre ++ replicate g 0) post argv
run_spaces zero count pre post argv room =
    ap (λ n. run n pre post argv) {x = 0 + count} {y = count} (omega arith)
    ∙ ap (λ p. run count p post argv) (sym (append-nil pre))
run_spaces (suc g) count pre post argv room =
    ap (λ n. run n pre (32 ∷ (replicate g 32 ++ post)) argv) {x = suc g + count}
      {y = suc (g + count)} (omega arith)
    ∙ goes_on (g + count) (length pre) _ _ (char_space pre (replicate g 32 ++ post) argv) room
    ∙ one_on (g + count) pre (replicate g 32 ++ post) argv 0
    ∙ run_spaces g count (pre ++ (0 ∷ [])) post argv room
    ∙ ap (λ p. run count p post argv) (append_assoc pre (0 ∷ []) (replicate g 0))

pub run_word :
    (w : List ℕ) (count : ℕ) (pre post argv : List ℕ)
    → AllPlain w
    → 0 < length pre
    → (last pre == 0) ≡ false
    → length argv < 4
    → run (length w + count) pre (w ++ post) argv ≡ run count (pre ++ w) post argv
run_word [] count pre post argv plain long inside room =
    ap (λ n. run n pre post argv) {x = 0 + count} {y = count} (omega arith)
    ∙ ap (λ p. run count p post argv) (sym (append-nil pre))
run_word (x ∷ w) count pre post argv (first, plain) long inside room =
    let pre' = pre ++ (x ∷ []) in
    ap (λ n. run n pre (x ∷ (w ++ post)) argv) {x = suc (length w) + count}
      {y = suc (length w + count)} (omega arith)
    ∙ goes_on (length w + count) (length pre) _ _
        (char_inside pre (w ++ post) argv x first long inside
          ∙ ap (λ b. at b argv) (sym (append_assoc pre (x ∷ []) (w ++ post))))
        room
    ∙ one_on (length w + count) pre (w ++ post) argv x
    ∙ run_word w count pre' post argv plain (omega (arith, length-append pre (x ∷ [])))
        (ap (λ n. n == 0) (last-snoc pre x) ∙ first.1) room
    ∙ ap (λ p. run count p post argv) (append_assoc pre (x ∷ []) w)
