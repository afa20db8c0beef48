-- ===== src/Rotenc/Examples.antt =====
-- Runs of the decoder on concrete turns, and its theorems at them.
use librfn.Common.{◌+◌, ◌≡◌, refl, List, [], ◌∷◌, arith}
use librfn.Rotenc.{Rotenc, decode, count14}
use librfn.Rotenc.Tracks.{
  Tracks, contacts, Move, stay, turn, back, follow, position, last_click, follow-Tracks,
  count14_torn,
}

abbrev zero_rotenc : Rotenc
zero_rotenc = record { last_state = 0; count = 0; internal_count = 0 }

zero-Tracks : Tracks zero_rotenc 65536 65536
zero-Tracks = record { seen = refl; quarters = refl; clicks = refl }

-- After 256 clicks.
abbrev far_rotenc : Rotenc
far_rotenc = record { last_state = 0; count = 0; internal_count = 1024 }

far-Tracks : Tracks far_rotenc 1024 1024
far-Tracks = record { seen = refl; quarters = refl; clicks = refl }

abbrev moves : List Move
moves = turn ∷ stay ∷ back ∷ back ∷ turn ∷ turn ∷ turn ∷ turn ∷ turn ∷ []

follow-Tracks_example :
    Tracks (follow zero_rotenc 65536 moves) (position 65536 moves) (last_click 65536 65536 moves)
follow-Tracks_example = follow-Tracks moves zero_rotenc 65536 65536 (omega arith) zero-Tracks

count14_torn_example : count14 (decode far_rotenc (contacts 1023)) + 256 ≡ count14 far_rotenc
count14_torn_example = count14_torn far_rotenc 1024 refl (omega arith) far-Tracks
