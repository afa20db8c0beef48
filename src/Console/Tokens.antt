-- ===== src/Console/Tokens.antt =====
-- librfn/console.c: a line taken apart into its arguments, in place.
use librfn.Common.{
  ℕ, zero, suc, ◌+◌, ◌-◌, Bool, not, ◌&&◌, ◌||◌, List, [], ◌∷◌, ◌++◌, leb, length, get_or, set,
  replicate, ◌==◌, if◌then◌else◌,
}
use librfn.Hex.{isspace}
use librfn.Console.{Console, string_at}

abbrev pub lengthof_argv : ℕ
lengthof_argv = 4

-- The buffer, the quote that is open (NUL if none is) and the arguments so far.
pub record Tokens : Type 0 where
  pub buf : List ℕ
  pub quote : ℕ
  pub argv : List ℕ

abbrev pub is_quote : ℕ → Bool
is_quote ch = (ch == b'\'') || (ch == b'"')

-- The body of the loop.
unfoldable pub tokenize_char : ℕ → Tokens → Tokens
tokenize_char i t =
    let ch = get_or t.buf i 0 in
    if isspace ch && (t.quote == 0)
    then record t { buf = set t.buf i 0 }
    else if ch == t.quote
    then record t { quote = 0; buf = set t.buf i 0 }
    else if not (get_or t.buf (i - 1) 0 == 0)
    then t
    else if is_quote ch
    then record t { quote = ch; buf = set t.buf i 0 }
    else record t { argv = t.argv ++ (i ∷ []) }

-- The loop, with `count` rounds to go.
unfoldable pub tokenize_from : ℕ → ℕ → Tokens → Tokens
unfolding tokenize_char
tokenize_from zero i t = t
tokenize_from (suc count) i t =
    let t' = tokenize_char i t in
    let rest = tokenize_from count (i + 1) t' in
    if leb lengthof_argv (length t'.argv) then t' else rest

unfoldable pub do_tokenize : Console → Console
unfolding tokenize_from
do_tokenize c =
    let len = length (string_at c.scratch 0) in
    let t = tokenize_from (len - 1) 1 (record { buf = c.scratch; quote = 0; argv = 0 ∷ [] }) in
    let argc = length t.argv in
    record c { scratch = t.buf; argc = argc; argv = t.argv ++ replicate (lengthof_argv - argc) len }
