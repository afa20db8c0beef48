-- ===== src/Mlog/Examples.antt =====
-- Runs of the log on concrete messages, and its theorems at them.
use librfn.Common.{ℕ, ◌≡◌, refl, none, some, List, [], ◌∷◌, arith}
use librfn.Common.Int.{pos, negsuc}
use librfn.Mlog.{MlogLine, static_log, vmlog, vmlog_nice, mlog_clear, mlog_dump, mlog_get_line}
use librfn.Mlog.History.{recent, get_elem?, Op, log_op, nice_op, clear_op, record_op, apply, after}
use librfn.Mlog.Dump.{mlog_get_line_lem}

abbrev line : ℕ → MlogLine
line n = record { fmt = n; arg0 = 1; arg1 = 2; arg2 = 3 }

abbrev calls : List Op
calls = log_op (line 10) ∷ clear_op ∷ log_op (line 20) ∷ nice_op (line 30) ∷ []

abbrev printed : List MlogLine
printed = line 20 ∷ line 30 ∷ []

dump_run : mlog_dump 3 (after apply static_log calls) ≡ some printed
unfolding mlog_dump after apply vmlog vmlog_nice mlog_clear
dump_run = refl

mlog_get_line_lem_example :
    let log = after apply static_log calls in
    (mlog_get_line log (pos 1) ≡ get_elem? (recent (after record_op [] calls)) 1)
    × (mlog_get_line log (negsuc 1) ≡ none)
mlog_get_line_lem_example = mlog_get_line_lem calls 1 (omega arith)
