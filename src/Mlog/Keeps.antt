-- ===== src/Mlog/Keeps.antt =====
-- The log holds the last 256 messages, through every call.
use native.Mathlib.Decide.{dec_lt}
use librfn.Common.{
  ℕ, zero, suc, ◌+◌, ◌%◌, ◌≤◌, ◌<◌, ◌≡◌, refl, sym, ap, ◌∙◌, List, [], ◌∷◌, ◌++◌, arith, length,
  get_or, set, length-append, length-set, get_or-set_self, get_or-set_ne, lt→ltb, le→ltb,
}
use librfn.Mlog.{Mlog, MlogLine, zero_line, static_log, vmlog, vmlog_nice, mlog_clear}
use librfn.Mlog.History.{History, Op, log_op, nice_op, clear_op, record_op, apply, after}

-- Below 256 messages `head` counts them; from then on it counts them modulo 256.
pub record Logs (m : Mlog) (xs : History) : Type 0 where
  pub lines : length m.line ≡ 256
  pub small : m.head < 0x7fffffff
  pub counts : m.head % 256 ≡ length xs % 256
  pub exact : m.head < 256 → m.head ≡ length xs
  pub wrapped : 256 ≤ m.head → 256 ≤ length xs
  pub held :
      (j : ℕ)
      → j < length xs
      → length xs ≤ j + 256
      → get_or m.line (j % 256) zero_line ≡ get_or xs j zero_line

get_or-append_left :
    (xs ys : History) (j : ℕ)
    → j < length xs
    → get_or (xs ++ ys) j zero_line ≡ get_or xs j zero_line
get_or-append_left [] ys j h = absurd (omega arith)
get_or-append_left (x ∷ xs) ys zero h = refl
get_or-append_left (x ∷ xs) ys (suc j) h = get_or-append_left xs ys j (omega arith)

get_or-append_end :
    (xs : History) (l : MlogLine) → get_or (xs ++ (l ∷ [])) (length xs) zero_line ≡ l
get_or-append_end [] l = refl
get_or-append_end (x ∷ xs) l = get_or-append_end xs l

-- `vmlog` appends to the history.
pub vmlog-Logs :
    {m : Mlog} {xs : History} (l : MlogLine) → Logs m xs → Logs (vmlog m l) (xs ++ (l ∷ []))
unfolding vmlog
vmlog-Logs {m} {xs} l s = record {
  lines = length-set m.line (m.head % 256) l ∙ s.lines;
  small = ground (arith, s.small);
  counts = ground (arith, s.small, s.counts, length-append xs (l ∷ []));
  exact = λ h. ground (arith, s.small, s.exact, length-append xs (l ∷ []));
  wrapped = λ h. ground (arith, s.small, s.exact, s.wrapped, length-append xs (l ∷ []));
  held = λ j below near. elim (dec_lt j (length xs)) [
    | yes old ↦
        get_or-set_ne m.line (m.head % 256) (j % 256) l zero_line
          (λ e. absurd (omega (arith, s.counts, length-append xs (l ∷ []))))
        ∙ (s.held j old (omega (arith, length-append xs (l ∷ [])))
            ∙ sym (get_or-append_left xs (l ∷ []) j old))
    | no new ↦ added j (omega (arith, length-append xs (l ∷ [])))
  ];
}
  where
    added :
        (j : ℕ)
        → j ≡ length xs
        → get_or (set m.line (m.head % 256) l) (j % 256) zero_line
          ≡ get_or (xs ++ (l ∷ [])) j zero_line
    added j e =
        ap (λ i. get_or (set m.line (m.head % 256) l) i zero_line) {y = m.head % 256}
          (omega (arith, s.counts))
        ∙ (get_or-set_self m.line (m.head % 256) l zero_line (omega (arith, s.lines))
            ∙ (rw e (sym (get_or-append_end xs l))))

-- `vmlog_nice` appends to a history of less than 256 messages, and else changes nothing.
pub vmlog_nice-Logs :
    {m : Mlog} {xs : History} (l : MlogLine)
    → Logs m xs
    → Logs (vmlog_nice m l) (record_op xs (nice_op l))
unfolding vmlog_nice record_op
vmlog_nice-Logs {m} {xs} l s = elim (dec_lt m.head 256) [
  | yes room ↦
      rw (lt→ltb m.head 256 room, lt→ltb (length xs) 256 (omega (arith, s.exact))) (vmlog-Logs l s)
  | no full ↦
      rw (le→ltb m.head 256 (omega arith), le→ltb (length xs) 256 (s.wrapped (omega arith))) s
]

pub mlog_clear-Logs : {m : Mlog} {xs : History} → Logs m xs → Logs (mlog_clear m) []
unfolding mlog_clear
mlog_clear-Logs s = record {
  lines = s.lines;
  small = omega arith;
  counts = refl;
  exact = λ h. refl;
  wrapped = λ h. absurd (omega arith);
  held = λ j below near. absurd (omega arith);
}

static_log-Logs : Logs static_log []
static_log-Logs = record {
  lines = refl;
  small = omega arith;
  counts = refl;
  exact = λ h. refl;
  wrapped = λ h. absurd (omega arith);
  held = λ j below near. absurd (omega arith);
}

apply-Logs : {m : Mlog} {xs : History} (op : Op) → Logs m xs → Logs (apply m op) (record_op xs op)
unfolding apply record_op
apply-Logs (log_op l) s = vmlog-Logs l s
apply-Logs (nice_op l) s = vmlog_nice-Logs l s
apply-Logs clear_op s = mlog_clear-Logs s

after-Logs :
    (ops : List Op) {m : Mlog} {xs : History}
    → Logs m xs
    → Logs (after apply m ops) (after record_op xs ops)
unfolding after
after-Logs [] s = s
after-Logs (op ∷ ops) s = after-Logs ops (apply-Logs op s)

-- After any calls from the start of the program, the log holds the last 256 of the messages that
-- were logged since the last clearing.
pub log-Logs : (ops : List Op) → Logs (after apply static_log ops) (after record_op [] ops)
log-Logs ops = after-Logs ops static_log-Logs
