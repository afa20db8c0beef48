-- ===== src/Util/Examples.antt =====
-- Five events in one window of which three are allowed.
use librfn.Common.{ℕ, List, [], ◌∷◌}
use librfn.Util.{RatelimitState}

abbrev no_window : RatelimitState
no_window = record { time = 0; count = 0 }

abbrev others : List ℕ
others = 6 ∷ 7 ∷ 8 ∷ 9 ∷ []
