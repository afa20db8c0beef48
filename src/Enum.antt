-- ===== src/Enum.antt =====
-- librfn/enum.c and include/librfn/enum.h: a table of the names of numbers. A string is the sequence
-- of its characters, and the table ends before its terminator, whose name is NULL.
pub mod Names
mod Examples
use librfn.Common.{
  ℕ, Bool, true, false, ◌&&◌, Option, none, some, List, [], ◌∷◌, ◌==◌, if◌then◌else◌,
}
use librfn.Common.Int.{ℤ, pos, negsuc}

abbrev pub same_int : ℤ → ℤ → Bool
same_int (pos a) (pos b) = a == b
same_int (negsuc a) (negsuc b) = a == b
same_int _ _ = false

-- `0 == strcmp(a, b)`
abbrev pub same_string : List ℕ → List ℕ → Bool
same_string [] [] = true
same_string (x ∷ a) (y ∷ b) = (x == y) && same_string a b
same_string _ _ = false

-- `rf_enumtable_t`
pub record Entry : Type 0 where
  pub s : List ℕ
  pub e : ℤ

-- -19830927
abbrev pub out_of_range : ℤ
out_of_range = negsuc 19830926

unfoldable pub enum2string : List Entry → ℤ → Option (List ℕ)
enum2string [] e = none
enum2string (x ∷ t) e = if same_int x.e e then some x.s else enum2string t e

unfoldable pub string2enum : List Entry → List ℕ → ℤ
string2enum [] s = out_of_range
string2enum (x ∷ t) s = if same_string x.s s then x.e else string2enum t s
