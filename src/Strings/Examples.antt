-- ===== src/Strings/Examples.antt =====
-- A string with upper-case letters in front of other characters.
use librfn.Common.{ℕ, List, [], ◌∷◌}

abbrev mixed : List ℕ
mixed = b'R' ∷ b'f' ∷ b'N' ∷ b'1' ∷ []

abbrev behind_it : List ℕ
behind_it = b'X' ∷ []
