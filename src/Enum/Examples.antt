-- ===== src/Enum/Examples.antt =====
-- A table of two names.
use librfn.Common.{◌≡◌, refl, some, List, [], ◌∷◌}
use librfn.Common.Int.{pos, negsuc}
use librfn.Enum.{Entry, enum2string}

abbrev two_names : List Entry
two_names =
    record { s = b'o' ∷ b'n' ∷ []; e = pos 1 }
    ∷ record { s = b'o' ∷ b'f' ∷ b'f' ∷ []; e = negsuc 0 }
    ∷ []

finds_off : enum2string two_names (negsuc 0) ≡ some (b'o' ∷ b'f' ∷ b'f' ∷ [])
unfolding enum2string
finds_off = refl
