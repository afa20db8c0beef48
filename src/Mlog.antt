-- ===== src/Mlog.antt =====
-- librfn/mlog.c and include/librfn/mlog.h: a log of the last 256 messages, kept unformatted.
-- The static `log` is passed in and returned; formatting is the C library's and not modelled.
pub mod History
pub mod Keeps
pub mod Dump
mod Examples
use librfn.Common.{
  ℕ, zero, suc, ◌+◌, ◌-◌, ◌%◌, ◌^◌, Bool, true, false, ◌||◌, Option, none, some, List, [], ◌∷◌, leb,
  ltb, if◌then◌else◌, get_or, set, replicate,
}
use librfn.Common.Int.{ℤ, pos, negsuc}
use librfn.Common.Word.{u32}

-- `struct mlog_line`: the address of the format, and three machine words.
pub record MlogLine : Type 0 where
  pub fmt : ℕ
  pub arg0 : ℕ
  pub arg1 : ℕ
  pub arg2 : ℕ

abbrev pub zero_line : MlogLine
zero_line = record { fmt = 0; arg0 = 0; arg1 = 0; arg2 = 0 }

-- `lengthof(log.line)`
abbrev pub lengthof_line : ℕ
lengthof_line = 256

-- `struct mlog`
pub record Mlog : Type 0 where
  pub line : List MlogLine
  pub head : ℕ

-- The static log as a program starts.
abbrev pub static_log : Mlog
static_log = record { line = replicate lengthof_line zero_line; head = 0 }

-- The format and the arguments come as the line that they fill. `mlog` is the same call.
unfoldable pub vmlog : Mlog → MlogLine → Mlog
vmlog log l =
    let head = log.head % lengthof_line in
    let line = set log.line head l in
    let next = u32 (log.head + 1) in
    record { line = line; head = if leb 0x7fffffff next then next - lengthof_line else next }

unfoldable pub vmlog_nice : Mlog → MlogLine → Mlog
unfolding vmlog
vmlog_nice log l = if ltb log.head lengthof_line then vmlog log l else log

unfoldable pub mlog_clear : Mlog → Mlog
mlog_clear log = record log { head = 0 }

-- The line that the returned pointer points at; `none` is NULL.
unfoldable pub get_line : Mlog → ℕ → Option MlogLine
get_line log n =
    if leb log.head n || leb lengthof_line n
    then none
    else (let n' = if leb lengthof_line log.head then u32 (n + log.head) else n in
        some (get_or log.line (n' % lengthof_line) zero_line))

-- The lines that the loop of `mlog_dump` prints from line `i` on, on fuel.
unfoldable pub dump_from : ℕ → Mlog → ℕ → Option (List MlogLine)
unfolding get_line
dump_from zero log i = none
dump_from (suc fuel) log i =
    let rest = dump_from fuel log (i + 1) in
    elim (get_line log i) [
      | none ↦ some []
      | some l ↦ elim rest [ none ↦ none | some ls ↦ some (l ∷ ls) ]
    ]

unfoldable pub mlog_dump : ℕ → Mlog → Option (List MlogLine)
unfolding dump_from
mlog_dump fuel log = dump_from fuel log 0

-- `mlog_get_line`, up to the formatting of the line; the `int` is converted to `unsigned int`.
unfoldable pub mlog_get_line : Mlog → ℤ → Option MlogLine
unfolding get_line
mlog_get_line log (pos n) = get_line log (u32 n)
mlog_get_line log (negsuc n) = get_line log (u32 (2 ^ 32 - 1 - n))
