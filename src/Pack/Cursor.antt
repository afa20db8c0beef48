-- ===== src/Pack/Cursor.antt =====
-- What packing a sequence of fields does to the buffer and to the cursor.
use native.Mathlib.Decide.{dec_le}
use librfn.Common.{
  length-replicate, ℕ, ◌+◌, ◌≤◌, ◌<◌, ◌≡◌, refl, sym, ap, ◌∙◌, none, some, List, [], ◌∷◌, arith,
  length, get_or, take, replicate, leb,
}
use librfn.Common.Int.{nonneg}
use librfn.Pack.{
  RfPack, init, consumed, remaining, pack_macro, pack_bytes, pack_u16be, pack_u16le, pack_u32le,
  le16, be16, le32,
}
use librfn.Pack.Layout.{length-write, write_before, write_behind}

-- A call of one of the packing functions.
pub data Field : Type 0 where
  u16be_field : ℕ → Field
  u16le_field : ℕ → Field
  u32le_field : ℕ → Field
  bytes_field : List ℕ → Field
  zeros_field : ℕ → Field

unfoldable pub pack_field : RfPack → Field → RfPack
pack_field pack (u16be_field x) = pack_u16be pack x
pack_field pack (u16le_field x) = pack_u16le pack x
pack_field pack (u32le_field x) = pack_u32le pack x
pack_field pack (bytes_field bs) = pack_bytes pack (some bs) (length bs)
pack_field pack (zeros_field n) = pack_bytes pack none n

unfoldable pub pack_all : RfPack → List Field → RfPack
pack_all pack [] = pack
pack_all pack (f ∷ fs) = pack_all (pack_field pack f) fs

abbrev pub stored : Field → List ℕ
stored (u16be_field x) = be16 x
stored (u16le_field x) = le16 x
stored (u32le_field x) = le32 x
stored (bytes_field bs) = bs
stored (zeros_field n) = replicate n 0

abbrev pub width : Field → ℕ
width f = length (stored f)

abbrev pub total : List Field → ℕ
total [] = 0
total (f ∷ fs) = width f + total fs

take-length : (bs : List ℕ) → take (length bs) bs ≡ bs
take-length [] = refl
take-length (b ∷ bs) = ap (λ l. b ∷ l) (take-length bs)

-- Each function moves the cursor by the width of its field, and stores the bytes if they fit.
pub pack_field-ok :
    (f : Field) (pack : RfPack) → pack_field pack f ≡ pack_macro pack (width f) (stored f)
unfolding pack_field pack_u16be pack_u16le pack_u32le pack_bytes
pack_field-ok (u16be_field x) pack = refl
pack_field-ok (u16le_field x) pack = refl
pack_field-ok (u32le_field x) pack = refl
pack_field-ok (bytes_field bs) pack = ap (pack_macro pack (length bs)) (take-length bs)
pack_field-ok (zeros_field n) pack =
    ap (λ w. pack_macro pack w (replicate n 0)) (sym (length-replicate n 0))

-- What packing leaves alone, whether or not it fits.
pub record Bounded (pack after : RfPack) (n : ℕ) : Type 0 where
  pub same_end : after.endp ≡ pack.endp
  pub moved : after.p ≡ pack.p + n
  pub same_length : length after.bytes ≡ length pack.bytes
  pub same_before : (j : ℕ) → j < pack.p → get_or after.bytes j 0 ≡ get_or pack.bytes j 0
  pub same_behind : (j : ℕ) → pack.endp ≤ j → get_or after.bytes j 0 ≡ get_or pack.bytes j 0

macro-Bounded :
    (pack : RfPack) (bs : List ℕ) → Bounded pack (pack_macro pack (length bs) bs) (length bs)
unfolding pack_macro
macro-Bounded pack bs = elim (dec_le (pack.p + length bs) pack.endp) [
  | yes fits ↦ record {
    same_end = refl;
    moved = refl;
    same_length = ground (arith, length-write bs pack.bytes pack.p);
    same_before = λ j h. ground (arith, write_before bs pack.bytes pack.p j);
    same_behind = λ j h. ground (arith, write_behind bs pack.bytes pack.p j);
  }
  | no over ↦ record {
    same_end = refl;
    moved = refl;
    same_length = ground arith;
    same_before = λ j h. ground arith;
    same_behind = λ j h. ground arith;
  }
]

pub field-Bounded : (pack : RfPack) (f : Field) → Bounded pack (pack_field pack f) (width f)
field-Bounded pack f = rw (pack_field-ok f pack) (macro-Bounded pack (stored f))

-- Whatever is packed, fitting or not, the cursor moves on by the total width and no byte before
-- the cursor, or at or behind the end, changes.
pub pack_all-Bounded :
    (fs : List Field) (pack : RfPack) → Bounded pack (pack_all pack fs) (total fs)
unfolding pack_all
pack_all-Bounded [] pack = record {
  same_end = refl;
  moved = omega arith;
  same_length = refl;
  same_before = λ j h. refl;
  same_behind = λ j h. refl;
}
pack_all-Bounded (f ∷ fs) pack =
    let one = field-Bounded pack f in
    let rest = pack_all-Bounded fs (pack_field pack f) in
    record {
      same_end = rest.same_end ∙ one.same_end;
      moved = omega (arith, rest.moved, one.moved);
      same_length = rest.same_length ∙ one.same_length;
      same_before = λ j h. rest.same_before j (omega (arith, one.moved)) ∙ one.same_before j h;
      same_behind = λ j h. rest.same_behind j (omega (arith, one.same_end)) ∙ one.same_behind j h;
    }

-- After packing into a fresh buffer `rf_pack_consumed` gives the total width, stored or not, and
-- `rf_pack_remaining` is negative exactly when that is more than the buffer holds.
pub consumed-remaining :
    (bytes : List ℕ) (sz : ℕ) (fs : List Field)
    → let pack = pack_all (init bytes sz) fs in
      (consumed pack ≡ total fs) × (nonneg (remaining pack) ≡ leb (total fs) sz)
unfolding consumed remaining init
consumed-remaining bytes sz fs =
    let b = pack_all-Bounded fs (init bytes sz) in
    (omega (arith, b.moved), ground (arith, b.moved, b.same_end))
