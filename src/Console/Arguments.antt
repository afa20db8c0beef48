-- ===== src/Console/Arguments.antt =====
-- What the arguments are that `do_tokenize` makes of a line of plain words.
use librfn.Common.{
  ℕ, zero, suc, ◌+◌, ◌-◌, ◌≡◌, ◌≤◌, refl, sym, ap, ◌∙◌, List, [], ◌∷◌, ◌++◌, append_assoc,
  append-nil, arith, length, length-append, replicate, drop,
}
use librfn.Strings.{c_string}
use librfn.Console.{Console, string_at}
use librfn.Console.Tokens.{do_tokenize}
use librfn.Console.Words.{
  Plain, AllPlain, Word, AllWords, joined, texts, strings, starts, at, run, run_word,
}
use librfn.Console.Separated.{joined-front, joined-behind, length-joined, length-nuls, run_words}

drop-front : (pre post : List ℕ) → drop (length pre) (pre ++ post) ≡ post
drop-front [] post = refl
drop-front (x ∷ pre) post = drop-front pre post

-- A string goes over plain characters and over spaces.
c_string-plain : (w rest : List ℕ) → AllPlain w → c_string (w ++ rest) ≡ w ++ c_string rest
c_string-plain [] rest plain = refl
c_string-plain (zero ∷ w) rest ((space, nul, quote), plain) = absurd (ground (arith, nul))
c_string-plain (suc x ∷ w) rest (first, plain) = ap (λ l. suc x ∷ l) (c_string-plain w rest plain)

c_string-spaces :
    (n : ℕ) (rest : List ℕ) → c_string (replicate n 32 ++ rest) ≡ replicate n 32 ++ c_string rest
c_string-spaces zero rest = refl
c_string-spaces (suc n) rest = ap (λ l. 32 ∷ l) (c_string-spaces n rest)

c_string-joined :
    (ws : List Word) (tail : List ℕ)
    → AllWords ws
    → c_string (joined 32 ws ++ (0 ∷ tail)) ≡ joined 32 ws
c_string-joined [] tail plain = refl
c_string-joined ((g, x, w) ∷ ws) tail (first, others, plain) =
    let rest = joined 32 ws ++ (0 ∷ tail) in
    ap c_string (joined-front 32 g x w ws (0 ∷ tail))
    ∙ c_string-spaces (suc g) (x ∷ (w ++ rest))
    ∙ ap (λ l. replicate (suc g) 32 ++ l)
        (c_string-plain (x ∷ w) rest (first, others)
          ∙ ap (λ l. x ∷ (w ++ l)) (c_string-joined ws tail plain))

-- Behind each word there is a NUL.
c_string-behind : (ws : List Word) (tail : List ℕ) → c_string (joined 0 ws ++ (0 ∷ tail)) ≡ []
c_string-behind [] tail = refl
c_string-behind ((g, x, w) ∷ ws) tail = refl

string_at-word :
    (pre w rest : List ℕ)
    → AllPlain w
    → c_string rest ≡ []
    → string_at (pre ++ (w ++ rest)) (length pre) ≡ w
string_at-word pre w rest plain ends =
    ap c_string (drop-front pre (w ++ rest))
    ∙ c_string-plain w rest plain
    ∙ ap (λ l. w ++ l) ends
    ∙ append-nil w

strings-starts :
    (ws : List Word) (pre tail : List ℕ)
    → AllWords ws
    → strings (pre ++ (joined 0 ws ++ (0 ∷ tail))) (starts (length pre) ws) ≡ texts ws
strings-starts [] pre tail plain = refl
strings-starts ((g, x, w) ∷ ws) pre tail (first, others, plain) =
    let nuls = pre ++ replicate (suc g) 0 in
    let rest = joined 0 ws ++ (0 ∷ tail) in
    let buf = pre ++ (joined 0 ((g, x, w) ∷ ws) ++ (0 ∷ tail)) in
    let pre' = nuls ++ (x ∷ w) in
    let place : length nuls ≡ length pre + suc g = length-nuls g pre in
    let split : buf ≡ nuls ++ (x ∷ (w ++ rest)) = joined-behind g x w ws pre (0 ∷ tail) in
    let behind : length pre' ≡ length pre + suc g + suc (length w) =
      omega (arith, length-append nuls (x ∷ w), place) in
    let word : string_at buf (length pre + suc g) ≡ x ∷ w =
      ap (string_at buf) (sym place)
      ∙ ap (λ b. string_at b (length nuls)) split
      ∙ string_at-word nuls (x ∷ w) rest (first, others) (c_string-behind ws tail) in
    let others_found : strings buf (starts (length pre + suc g + suc (length w)) ws) ≡ texts ws =
      ap (λ n. strings buf (starts n ws)) (sym behind)
      ∙ ap (λ b. strings b (starts (length pre') ws)) (split ∙ sym (append_assoc nuls (x ∷ w) rest))
      ∙ strings-starts ws pre' tail plain in
    ap (λ s. s ∷ strings buf (starts (length pre + suc g + suc (length w)) ws)) word
    ∙ ap (λ l. (x ∷ w) ∷ l) others_found

strings-append : (buf is js : List ℕ) → strings buf (is ++ js) ≡ strings buf is ++ strings buf js
strings-append buf [] js = refl
strings-append buf (i ∷ is) js = ap (λ l. string_at buf i ∷ l) (strings-append buf is js)

strings-replicate :
    (buf : List ℕ) (n i : ℕ) → string_at buf i ≡ [] → strings buf (replicate n i) ≡ replicate n []
strings-replicate buf zero i empty = refl
strings-replicate buf (suc n) i empty =
    ap (λ s. s ∷ strings buf (replicate n i)) empty
    ∙ ap (λ l. [] ∷ l) (strings-replicate buf n i empty)

length-starts : (ws : List Word) (n : ℕ) → length (starts n ws) ≡ length ws
length-starts [] n = refl
length-starts ((g, x, w) ∷ ws) n = ap suc (length-starts ws (n + suc g + suc (length w)))

same_length : (ws : List Word) → length (joined 32 ws) ≡ length (joined 0 ws)
same_length [] = refl
same_length ((g, x, w) ∷ ws) =
    omega (arith, length-joined 32 g x w ws, length-joined 0 g x w ws, same_length ws)

-- The loop over a line of words, from its second character on.
run_line :
    (x : ℕ) (w : List ℕ) (ws : List Word) (tail : List ℕ)
    → Plain x
    → AllPlain w
    → AllWords ws
    → length ws ≤ 3
    → run (length w + length (joined 32 ws)) (x ∷ []) (w ++ (joined 32 ws ++ (0 ∷ tail))) (0 ∷ [])
      ≡ at ((x ∷ w) ++ (joined 0 ws ++ (0 ∷ tail))) (0 ∷ starts (suc (length w)) ws)
run_line x w ws tail first others plain few =
    run_word w (length (joined 32 ws)) (x ∷ []) (joined 32 ws ++ (0 ∷ tail)) (0 ∷ []) others
      (omega arith) first.1 (omega arith)
    ∙ run_words ws (x ∷ w) (0 ∷ tail) (0 ∷ []) plain (omega arith) (omega (arith, few))

-- Of a line of one to four plain words, with one or more spaces in front of each but the first and nothing
-- behind the last but the NUL, `do_tokenize` makes as many arguments as there are words: the strings of the
-- arguments are the words, in order, and the rest of the four are empty strings. Plain characters are those
-- that are neither white space nor a quote nor a NUL.
pub do_tokenize_lem :
    (c : Console) (x : ℕ) (w : List ℕ) (ws : List Word) (tail : List ℕ)
    → Plain x
    → AllPlain w
    → AllWords ws
    → length ws ≤ 3
    → c.scratch ≡ (x ∷ w) ++ (joined 32 ws ++ (0 ∷ tail))
    → ((do_tokenize c).argc ≡ suc (length ws))
      × (strings (do_tokenize c).scratch (do_tokenize c).argv
          ≡ (x ∷ w) ∷ (texts ws ++ replicate (3 - length ws) []))
unfolding do_tokenize
do_tokenize_lem c x w ws tail first others plain few line =
    let rest = joined 32 ws ++ (0 ∷ tail) in
    let buf = (x ∷ w) ++ (joined 0 ws ++ (0 ∷ tail)) in
    let len = length (x ∷ w) + length (joined 32 ws) in
    let argv = 0 ∷ starts (suc (length w)) ws in
    let argc : length argv ≡ suc (length ws) = ap suc (length-starts ws (suc (length w))) in
    let whole : string_at c.scratch 0 ≡ (x ∷ w) ++ joined 32 ws =
      ap c_string line
      ∙ c_string-plain (x ∷ w) rest (first, others)
      ∙ ap (λ l. (x ∷ w) ++ l) (c_string-joined ws tail plain) in
    let long : length (string_at c.scratch 0) ≡ len =
      ap length whole ∙ length-append (x ∷ w) (joined 32 ws) in
    let count : length (string_at c.scratch 0) - 1 ≡ length w + length (joined 32 ws) =
      omega (arith, long) in
    let front : List ℕ = (x ∷ w) ++ joined 0 ws in
    let empty : string_at buf len ≡ [] =
      ap (string_at buf) {y = length front}
        (omega (arith, length-append (x ∷ w) (joined 0 ws), same_length ws))
      ∙ ap (λ b. string_at b (length front)) (sym (append_assoc (x ∷ w) (joined 0 ws) (0 ∷ tail)))
      ∙ ap c_string (drop-front front (0 ∷ tail)) in
    let word : string_at buf 0 ≡ x ∷ w =
      string_at-word [] (x ∷ w) (joined 0 ws ++ (0 ∷ tail)) (first, others)
        (c_string-behind ws tail) in
    rw (count, long, line, run_line x w ws tail first others plain few)
      (
        argc,
        strings-append buf argv (replicate (4 - length argv) len)
            ∙ ap (λ l. strings buf argv ++ l) (strings-replicate buf (4 - length argv) len empty)
            ∙ ap
                (λ s.
                  s ∷ (strings buf (starts (suc (length w)) ws) ++ replicate (4 - length argv) []))
                word
            ∙ ap (λ l. (x ∷ w) ∷ (l ++ replicate (4 - length argv) []))
                (strings-starts ws (x ∷ w) tail plain)
            ∙ ap (λ n. (x ∷ w) ∷ (texts ws ++ replicate n [])) (omega (arith, argc)),
      )
