-- ===== src/Mlog/Dump.antt =====
-- What the log shows: one line by its number, and all of them.
use native.Mathlib.Decide.{dec_lt}
use librfn.Common.{
  ℕ, zero, suc, ◌+◌, ◌-◌, ◌%◌, ◌^◌, ◌≤◌, ◌<◌, ◌≡◌, refl, sym, ap, ◌∙◌, none, some, List, [], ◌∷◌,
  arith, length, get_or, drop,
}
use librfn.Common.Int.{pos, negsuc}
use librfn.Mlog.{
  Mlog, MlogLine, zero_line, get_line, dump_from, mlog_dump, mlog_get_line, static_log,
}
use librfn.Mlog.History.{History, recent, get_elem?, Op, record_op, apply, after}
use librfn.Mlog.Keeps.{Logs, log-Logs}

get_elem?-in :
    (xs : History) (n : ℕ) → n < length xs → get_elem? xs n ≡ some (get_or xs n zero_line)
get_elem?-in [] n h = absurd (omega arith)
get_elem?-in (x ∷ xs) zero h = refl
get_elem?-in (x ∷ xs) (suc n) h = get_elem?-in xs n (omega arith)

get_elem?-out : (xs : History) (n : ℕ) → length xs ≤ n → get_elem? xs n ≡ none
get_elem?-out [] n h = refl
get_elem?-out (x ∷ xs) zero h = absurd (omega arith)
get_elem?-out (x ∷ xs) (suc n) h = get_elem?-out xs n (omega arith)

get_elem?-drop : (k : ℕ) (xs : History) (n : ℕ) → get_elem? (drop k xs) n ≡ get_elem? xs (n + k)
get_elem?-drop zero xs n = ap (get_elem? xs) {y = n + 0} (omega arith)
get_elem?-drop (suc k) [] n = refl
get_elem?-drop (suc k) (x ∷ xs) n =
    get_elem?-drop k xs n ∙ ap (get_elem? (x ∷ xs)) {x = suc (n + k)} (omega arith)

-- A log whose lines from `i` on are `ls` prints them.
dump_from-ok :
    (m : Mlog) (fuel i : ℕ) (ls : List MlogLine)
    → ((n : ℕ) → get_line m (n + i) ≡ get_elem? ls n)
    → length ls < fuel
    → dump_from fuel m i ≡ some ls
unfolding dump_from
dump_from-ok m zero i ls same enough = absurd (omega arith)
dump_from-ok m (suc fuel) i [] same enough =
    rw (dump_from, ap (get_line m) {x = i} {y = 0 + i} (omega arith) ∙ same 0) refl
dump_from-ok m (suc fuel) i (l ∷ ls) same enough =
    rw
      (
        dump_from,
        ap (get_line m) {x = i} {y = 0 + i} (omega arith) ∙ same 0,
        dump_from-ok m fuel (i + 1) ls
            (λ n. ap (get_line m) {x = n + (i + 1)} {y = suc n + i} (omega arith) ∙ same (suc n))
            (omega arith),
      )
      refl

length-drop : (k : ℕ) (xs : History) → length (drop k xs) ≡ length xs - k
length-drop zero xs = omega arith
length-drop (suc k) [] = omega arith
length-drop (suc k) (x ∷ xs) = omega (arith, length-drop k xs)

module _ {m : Mlog} {xs : History} (s : Logs m xs) where
  -- Where line `n` of what is remembered stands in the whole history.
  abbrev place : ℕ → ℕ
  place n = n + (length xs - 256)

  get_line-none : (n : ℕ) → length xs ≤ place n → get_line m n ≡ none
  unfolding get_line
  get_line-none n h = ground (arith, s.exact)

  get_line-some :
      (n : ℕ) → place n < length xs → get_line m n ≡ some (get_or m.line (place n % 256) zero_line)
  unfolding get_line
  get_line-some n h = ground (arith, s.exact, s.small, s.counts, s.wrapped)

  -- Line `n` is the `n`th oldest of the messages that are remembered, and NULL beyond them.
  get_line-Logs : (n : ℕ) → get_line m n ≡ get_elem? (recent xs) n
  get_line-Logs n = elim (dec_lt (place n) (length xs)) [
    | yes h ↦
        get_line-some n h
        ∙ (ap some (s.held (place n) h (omega arith))
            ∙ sym (get_elem?-drop (length xs - 256) xs n ∙ get_elem?-in xs (place n) h))
    | no h ↦
        get_line-none n (omega arith)
        ∙ sym (get_elem?-drop (length xs - 256) xs n ∙ get_elem?-out xs (place n) (omega arith))
  ]

-- After any calls that log or clear, line `n` is the `n`th oldest of the last 256 messages since
-- the last clearing, and NULL beyond them; a nice message counts only while there are less.
pub mlog_get_line_lem :
    (ops : List Op) (n : ℕ)
    → n < 2 ^ 31
    → let log = after apply static_log ops in
      (mlog_get_line log (pos n) ≡ get_elem? (recent (after record_op [] ops)) n)
      × (mlog_get_line log (negsuc n) ≡ none)
unfolding mlog_get_line
mlog_get_line_lem ops n h = (
  ap (get_line (after apply static_log ops)) {y = n} (omega arith) ∙ get_line-Logs (log-Logs ops) n,
  get_line-none (log-Logs ops) ((2 ^ 32 - 1 - n) % 2 ^ 32) (omega arith),
)

-- After any calls that log or clear, `mlog_dump` ends after at most 257 rounds and prints exactly
-- the last 256 messages since the last clearing, oldest first.
pub mlog_dump_lem :
    (ops : List Op) (fuel : ℕ)
    → 256 < fuel
    → mlog_dump fuel (after apply static_log ops) ≡ some (recent (after record_op [] ops))
unfolding mlog_dump
mlog_dump_lem ops fuel enough =
    dump_from-ok (after apply static_log ops) fuel 0 (recent (after record_op [] ops))
      (λ n.
        ap (get_line (after apply static_log ops)) {x = n + 0} {y = n} (omega arith)
        ∙ get_line-Logs (log-Logs ops) n)
      (omega (
        arith,
        length-drop (length (after record_op [] ops) - 256) (after record_op [] ops),
        enough,
      ))
