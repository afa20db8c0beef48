-- ===== src/Strings.antt =====
-- librfn/string.c: copies of strings. A string is the sequence of its characters before the NUL; NULL is
-- `none`. Whether `malloc` has memory is an argument, and so is the text that a format prints to.
pub mod Case
mod Examples
use librfn.Common.{
  ℕ, zero, suc, ◌+◌, ◌-◌, Bool, true, false, ◌&&◌, Option, none, some, List, [], ◌∷◌, ◌++◌, leb,
  if◌then◌else◌,
}

-- `rf_internal_out_of_memory` does not return.
pub data Checked : Type 0 where
  no_memory : Checked
  text : List ℕ → Checked

unfoldable pub xtest : Option (List ℕ) → Checked
xtest none = no_memory
xtest (some p) = text p

abbrev pub strdup : Bool → List ℕ → Option (List ℕ)
strdup memory s = if memory then some s else none

unfoldable pub xstrdup : Bool → List ℕ → Checked
unfolding xtest
xstrdup memory s = xtest (strdup memory s)

-- The memory is as long as what the first call of `vsnprintf` counts, and a NUL, so that the printing
-- fits.
unfoldable pub strdup_vprintf : Bool → List ℕ → Option (List ℕ)
strdup_vprintf memory printed = if memory then some printed else none

unfoldable pub strdup_printf : Bool → List ℕ → Option (List ℕ)
unfolding strdup_vprintf
strdup_printf memory printed = strdup_vprintf memory printed

unfoldable pub xstrdup_vprintf : Bool → List ℕ → Checked
xstrdup_vprintf memory printed = if memory then text printed else no_memory

unfoldable pub xstrdup_printf : Bool → List ℕ → Checked
unfolding xstrdup_vprintf
xstrdup_printf memory printed = xstrdup_vprintf memory printed

-- The format is `"%s%s"`.
unfoldable pub strdup_join : Bool → List ℕ → List ℕ → Option (List ℕ)
unfolding strdup_printf
strdup_join memory head tail = strdup_printf memory (head ++ tail)

unfoldable pub xstrdup_join : Bool → List ℕ → List ℕ → Checked
unfolding strdup_join xtest
xstrdup_join memory head tail = xtest (strdup_join memory head tail)

-- `tolower` and `toupper` of an `unsigned char`, in the C locale.
abbrev pub tolower : ℕ → ℕ
tolower c = if leb b'A' c && leb c b'Z' then c + 32 else c

abbrev pub toupper : ℕ → ℕ
toupper c = if leb b'a' c && leb c b'z' then c - 32 else c

-- The loop over memory, up to the NUL.
module _ (change : ℕ → ℕ) where
  unfoldable pub change_string : List ℕ → List ℕ
  change_string [] = []
  change_string (zero ∷ p) = zero ∷ p
  change_string (suc c ∷ p) = change (suc c) ∷ change_string p

unfoldable pub strtolower : List ℕ → List ℕ
unfolding change_string
strtolower s = change_string tolower s

unfoldable pub strtoupper : List ℕ → List ℕ
unfolding change_string
strtoupper s = change_string toupper s

-- The string that lies in a memory.
abbrev pub c_string : List ℕ → List ℕ
c_string [] = []
c_string (zero ∷ p) = []
c_string (suc c ∷ p) = suc c ∷ c_string p

-- A copy of a string, in memory with its NUL, is changed in place.
unfoldable pub strdup_tolower : Bool → List ℕ → Option (List ℕ)
unfolding strtolower
strdup_tolower memory s = if memory then some (c_string (strtolower (s ++ (0 ∷ [])))) else none

unfoldable pub strdup_toupper : Bool → List ℕ → Option (List ℕ)
unfolding strtoupper
strdup_toupper memory s = if memory then some (c_string (strtoupper (s ++ (0 ∷ [])))) else none

unfoldable pub xstrdup_tolower : Bool → List ℕ → Checked
unfolding strdup_tolower xtest
xstrdup_tolower memory s = xtest (strdup_tolower memory s)

unfoldable pub xstrdup_toupper : Bool → List ℕ → Checked
unfolding strdup_toupper xtest
xstrdup_toupper memory s = xtest (strdup_toupper memory s)
