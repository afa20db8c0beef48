-- ===== src/Rgb/Examples.antt =====
-- The theorems on fading and gamma correction at concrete values.
use librfn.Common.{◌-◌, ◌≡◌, true, some, arith}
use librfn.Common.Int.{pos}
use librfn.Rgb.{RgbFader, rgb_fader_init, rgb_fade}
use librfn.Rgb.Fading.{stride, fade_down_lem}

abbrev up : RgbFader
up = record { goal = 100; step = stride (100 - 10) 4 }

fade_down_lem_example :
    (f : RgbFader) × (rgb_fader_init 100 10 (pos 4) ≡ some f) × (rgb_fade f 100 ≡ (true, 10))
fade_down_lem_example = fade_down_lem 100 10 4 (omega arith) (omega arith) (omega arith)
