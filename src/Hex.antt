-- ===== src/Hex.antt =====
-- librfn/hex.c and include/librfn/hex.h: hexadecimal dumps, and reading bytes from them. A string is the
-- sequence of its characters before the NUL, and NULL is `none`.
pub mod Lines
pub mod Reading
pub mod RoundTrip
mod Examples
use Prim.Native.Nat.{bit_and, bit_or}
use librfn.Common.{
  ℕ, zero, suc, ◌+◌, ◌-◌, ◌*◌, ◌^◌, Bool, true, false, not, ◌&&◌, ◌||◌, Option, none, some, List,
  [], ◌∷◌, ◌++◌, ltb, leb, ◌==◌, if◌then◌else◌, length, get_or,
}
use librfn.Common.Int.{ℤ, signed32}
use librfn.Common.Word.{u32, ◌>>>◌}

abbrev pub newline : ℕ
newline = 10

unfoldable pub hexchar : ℕ → ℕ
hexchar h = if ltb h 10 then b'0' + h else b'a' - 10 + h

-- The inner loop of `hex_dump_to_file`: the output, and the bytes that are left.
unfoldable pub dump_row : ℕ → List ℕ → List ℕ × List ℕ
unfolding hexchar
dump_row zero bytes = ([], bytes)
dump_row (suc i) [] = ([], [])
dump_row (suc i) (b ∷ bytes) =
    let (out, rest) = dump_row i bytes in (hexchar (b >>> 4) ∷ hexchar (bit_and b 0xf) ∷ out, rest)

unfoldable pub dump_rows : ℕ → List ℕ → List ℕ
dump_rows zero bytes = []
dump_rows (suc fuel) [] = []
dump_rows (suc fuel) (b ∷ bytes) =
    let (out, rest) = dump_row 16 (b ∷ bytes) in out ++ (newline ∷ dump_rows fuel rest)

-- What is written, and the result, an `int` that has the low bits of the `size_t`. Every row takes a
-- byte at least.
unfoldable pub hex_dump_to_file : List ℕ → List ℕ × ℤ
unfolding dump_rows
hex_dump_to_file p = (dump_rows (length p) p, signed32 (u32 (length p)))

-- `strchr`, of a character that is not NUL.
unfoldable pub strchr : List ℕ → ℕ → Option (List ℕ)
strchr [] c = none
strchr (x ∷ s) c = if x == c then some (x ∷ s) else strchr s c

abbrev pub isspace : ℕ → Bool
isspace c = (c == 32) || (leb 9 c && leb c 13)

abbrev pub isxdigit : ℕ → Bool
isxdigit c = (leb b'0' c && leb c b'9') || (leb b'a' c && leb c b'f') || (leb b'A' c && leb c b'F')

unfoldable pub nibble : ℕ → ℕ
nibble h = if leb h b'9' then h - b'0' else bit_and h (2 ^ 32 - 1 - 32) - b'A' + 10

-- `s + 1` for a pointer into the string.
abbrev pub behind : List ℕ → List ℕ
behind [] = []
behind (x ∷ s) = s

abbrev pub behind_colon : Option (List ℕ) → List ℕ → List ℕ
behind_colon none s = s
behind_colon (some q) s = behind q

-- The loop over white space, and whether it ends behind a newline.
unfoldable pub skip_space : List ℕ → Bool × List ℕ
skip_space [] = (false, [])
skip_space (c ∷ s) =
    let rest = skip_space s in
    if isspace c then (if c == newline then (true, s) else rest) else (false, c ∷ s)

abbrev pub skip_prefix : List ℕ → List ℕ
skip_prefix (a ∷ b ∷ s) = if (b'0' == a) && (b'x' == b) then s else a ∷ b ∷ s
skip_prefix s = s

-- `-1`, which goes with `*p == NULL`, or a byte and the string at `*p`.
pub data Got : Type 0 where
  none_left : Got
  out_of_fuel : Got
  byte : ℕ → List ℕ → Got

-- The two digits at the front, if they are there.
unfoldable pub digits : List ℕ → Option (ℕ × List ℕ)
unfolding nibble
digits (a ∷ b ∷ s) =
    if isxdigit a && isxdigit b then some (bit_or (16 * nibble a) (nibble b), s) else none
digits s = none

-- What follows a digit pair, or the lack of one: `q` is `strchr(s, '\n')`.
abbrev pub conclude : (List ℕ → Got) → Option (ℕ × List ℕ) → Option (List ℕ) → Got
conclude next (some (b, rest)) q = byte b rest
conclude next none none = none_left
conclude next none (some q) = next (behind q)

-- The code behind the assignment of `s`, where `next` is the jump to `next_line`.
unfoldable pub get_line : (List ℕ → Got) → List ℕ → Got
unfolding skip_space digits strchr
get_line next s =
    let (ended, s') = skip_space s in
    let start = skip_prefix s' in
    if ended then next s' else conclude next (digits start) (strchr start newline)

-- From `next_line` on, with a string in `s`.
unfoldable pub next_line : ℕ → List ℕ → Got
unfolding get_line strchr
next_line zero s = out_of_fuel
next_line (suc fuel) s = get_line (λ s. next_line fuel s) (behind_colon (strchr s b':') s)

-- The arguments are `s` and `*p`. Every jump leaves a shorter string.
unfoldable pub hex_get_byte : Option (List ℕ) → Option (List ℕ) → Got
hex_get_byte (some s) p = next_line (suc (length s)) s
hex_get_byte none none = none_left
hex_get_byte none (some s) = get_line (λ t. next_line (suc (length s)) t) s
