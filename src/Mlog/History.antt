-- ===== src/Mlog/History.antt =====
-- What a log promises: it remembers the last 256 of the messages since it was cleared.
use librfn.Common.{
  ℕ, zero, suc, ◌-◌, Option, none, some, List, [], ◌∷◌, ◌++◌, ltb, if◌then◌else◌, length, drop,
}
use librfn.Mlog.{Mlog, MlogLine, vmlog, vmlog_nice, mlog_clear}

-- Every message since the log was cleared, oldest first.
abbrev pub History : Type 0
History = List MlogLine

abbrev pub recent : History → List MlogLine
recent xs = drop (length xs - 256) xs

abbrev pub get_elem? : List MlogLine → ℕ → Option MlogLine
get_elem? [] n = none
get_elem? (x ∷ xs) zero = some x
get_elem? (x ∷ xs) (suc n) = get_elem? xs n

-- A client's calls that change the log.
pub data Op : Type 0 where
  log_op : MlogLine → Op
  nice_op : MlogLine → Op
  clear_op : Op

-- A nice message is dropped when the log is full.
unfoldable pub record_op : History → Op → History
record_op xs (log_op l) = xs ++ (l ∷ [])
record_op xs (nice_op l) = if ltb (length xs) 256 then xs ++ (l ∷ []) else xs
record_op xs clear_op = []

unfoldable pub apply : Mlog → Op → Mlog
apply log (log_op l) = vmlog log l
apply log (nice_op l) = vmlog_nice log l
apply log clear_op = mlog_clear log

module _ {ℓ} {A : Type ℓ} (act : A → Op → A) where
  unfoldable pub after : A → List Op → A
  after a [] = a
  after a (op ∷ ops) = after (act a op) ops
