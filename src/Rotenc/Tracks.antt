-- ===== src/Rotenc/Tracks.antt =====
-- The counts follow the position of the knob.
use librfn.Common.{
  ℕ, ◌+◌, ◌-◌, ◌*◌, ◌/◌, ◌^◌, ◌%◌, ◌<◌, ◌≤◌, ◌≡◌, refl, ap, List, [], ◌∷◌, arith, ◌==◌,
  if◌then◌else◌, length,
}
use Prim.Native.Nat.{bit_and}
use librfn.Common.Bits.{and-lowest, masked}
use librfn.Rotenc.{Rotenc, decode, count14}

-- The state of the two contacts at a position, in quarters of a click.
abbrev pub contacts : ℕ → ℕ
contacts p = if p % 4 == 0 then 0 else (if p % 4 == 1 then 1 else (if p % 4 == 2 then 3 else 2))

-- The internal count is the position modulo 2^16, and the count is that of the last click, at
-- position `c`.
pub record Tracks (r : Rotenc) (p c : ℕ) : Type 0 where
  pub seen : r.last_state ≡ contacts p
  pub quarters : r.internal_count ≡ p % 2 ^ 16
  pub clicks : r.count ≡ c / 4 % 2 ^ 8

-- What a poll of the contacts finds.
pub data Move : Type 0 where
  stay : Move
  turn : Move  -- clockwise, by a quarter of a click
  back : Move  -- anticlockwise

abbrev pub moved : ℕ → Move → ℕ
moved p stay = p
moved p turn = p + 1
moved p back = p - 1

abbrev pub clicked : ℕ → ℕ → ℕ
clicked p c = if p % 4 == 0 then p else c

-- One poll after a turn by at most a quarter in either direction.
decode-Tracks :
    (r : Rotenc) (p c : ℕ) (m : Move)
    → 0 < p
    → Tracks r p c
    → Tracks (decode r (contacts (moved p m))) (moved p m) (clicked (moved p m) c)
unfolding decode
decode-Tracks r p c stay pos t = record {
  seen = refl;
  quarters = ground (arith, t.seen, t.quarters);
  clicks = ground (arith, t.seen, t.quarters, t.clicks);
}
decode-Tracks r p c turn pos t = record {
  seen = refl;
  quarters = ground (arith, t.seen, t.quarters);
  clicks = ground (arith, t.seen, t.quarters, t.clicks);
}
decode-Tracks r p c back pos t = record {
  seen = refl;
  quarters = ground (arith, t.seen, t.quarters);
  clicks = ground (arith, t.seen, t.quarters, t.clicks);
}

-- The polls of a knob that starts at `p`, the positions that it takes, and its last click.
unfoldable pub follow : Rotenc → ℕ → List Move → Rotenc
unfolding decode
follow r p [] = r
follow r p (m ∷ ms) = follow (decode r (contacts (moved p m))) (moved p m) ms

abbrev pub position : ℕ → List Move → ℕ
position p [] = p
position p (m ∷ ms) = position (moved p m) ms

abbrev pub last_click : ℕ → ℕ → List Move → ℕ
last_click p c [] = c
last_click p c (m ∷ ms) = last_click (moved p m) (clicked (moved p m) c) ms

-- Polled at least once for every quarter turned, in whatever directions, the internal count is the
-- position modulo 2^16 and the count is that of the last click; positions start high enough that
-- none is negative.
pub follow-Tracks :
    (ms : List Move) (r : Rotenc) (p c : ℕ)
    → length ms < p
    → Tracks r p c
    → Tracks (follow r p ms) (position p ms) (last_click p c ms)
unfolding follow
follow-Tracks [] r p c high t = t
follow-Tracks (m ∷ ms) r p c high t =
    follow-Tracks ms (decode r (contacts (moved p m))) (moved p m) (clicked (moved p m) c)
      (still_high m) (decode-Tracks r p c m (omega arith) t)
  where
    still_high : (m : Move) → length ms < moved p m
    still_high stay = omega arith
    still_high turn = omega arith
    still_high back = omega arith

even_mask : (x m : ℕ) → bit_and x (m * 2) ≡ bit_and (x / 2) m * 2
even_mask x m =
    omega (arith, and-lowest x (m * 2), ap (bit_and (x / 2)) {x = m * 2 / 2} {y = m} (omega arith))

by_16 : (x m : ℕ) → bit_and x (m * 16) ≡ bit_and (x / 16) m * 16
by_16 x m = omega (
  arith,
  ap (bit_and x) {x = m * 16} {y = m * 2 * 2 * 2 * 2} (omega arith),
  even_mask x (m * 2 * 2 * 2),
  even_mask (x / 2) (m * 2 * 2),
  even_mask (x / 2 / 2) (m * 2),
  even_mask (x / 2 / 2 / 2) m,
  ap (λ y. bit_and y m) {x = x / 2 / 2 / 2 / 2} {y = x / 16} (omega arith),
)

high_bits : (x : ℕ) → bit_and x 0x3f00 ≡ x / 256 % 64 * 256
high_bits x = omega (arith, by_16 x 0x3f0, by_16 (x / 16) 0x3f, masked 6 (x / 16 / 16))

-- At a click `rotenc_count14` is the number of clicks modulo 2^14.
pub count14_at_click : (r : Rotenc) (p : ℕ) → p % 4 ≡ 0 → Tracks r p p → count14 r ≡ p / 4 % 2 ^ 14
unfolding count14
count14_at_click r p whole t =
    omega (arith, t.quarters, t.clicks, high_bits (r.internal_count / 2 ^ 2))

-- Away from a click it need not be: a quarter of a click back from a multiple of 256 clicks, at a
-- position that is at least 1024 modulo 2^16, it falls by 256, since its high bits are taken from the
-- internal count and its low bits from the last click.
pub count14_torn :
    (r : Rotenc) (p : ℕ)
    → p % 1024 ≡ 0
    → 1024 ≤ p % 2 ^ 16
    → Tracks r p p
    → count14 (decode r (contacts (p - 1))) + 256 ≡ count14 r
unfolding count14
count14_torn r p whole far t =
    let t' = decode-Tracks r p p back (omega arith) t in
    omega (
      arith,
      t.quarters,
      t.clicks,
      t'.quarters,
      kept_click t'.clicks,
      high_bits (r.internal_count / 2 ^ 2),
      high_bits ((decode r (contacts (p - 1))).internal_count / 2 ^ 2),
    )
  where
    kept_click :
        (decode r (contacts (p - 1))).count ≡ clicked (p - 1) p / 4 % 2 ^ 8
        → (decode r (contacts (p - 1))).count ≡ p / 4 % 2 ^ 8
    kept_click e = ground (arith, e)
