-- ===== src/Pack/Reads.antt =====
-- The unpacking of a packed buffer one call at a time, for clients that decide as they go.
use librfn.Common.{
  length-replicate, ℕ, ◌+◌, ◌^◌, ◌≤◌, ◌<◌, ◌≡◌, refl, sym, ap, subst, ◌∙◌, List, [], ◌∷◌, ◌++◌,
  arith, length, replicate,
}
use librfn.Pack.{RfPack, unpack_bytes, unpack_u16le, unpack_u32le}
use librfn.Pack.Cursor.{
  Field, u16le_field, u32le_field, bytes_field, zeros_field, pack_field, pack_all, width, total,
  field-Bounded,
}
use librfn.Pack.RoundTrip.{
  Value, number, bytes, kind, value, map, rewound, unpack_kind, unpack_first,
}

-- What a client stores, with the number of bytes that it names.
pub data Item : Type 0 where
  u16 : ℕ → Item
  u32 : ℕ → Item
  chunk : ℕ → List ℕ → Item
  gap : ℕ → Item

abbrev pub field : Item → Field
field (u16 x) = u16le_field x
field (u32 x) = u32le_field x
field (chunk n bs) = bytes_field bs
field (gap n) = zeros_field n

abbrev pub item_width : Item → ℕ
item_width (u16 x) = 2
item_width (u32 x) = 4
item_width (chunk n bs) = n
item_width (gap n) = n

abbrev pub total_width : List Item → ℕ
total_width [] = 0
total_width (i ∷ is) = item_width i + total_width is

abbrev pub Fits : Item → Type 0
Fits (u16 x) = x < 2 ^ 16
Fits (u32 x) = x < 2 ^ 32
Fits (chunk n bs) = length bs ≡ n
Fits (gap n) = Unit

abbrev pub AllFit : List Item → Type 0
AllFit [] = Unit
AllFit (i ∷ is) = Fits i × AllFit is

-- The next call gives the item.
abbrev pub Reads : RfPack → Item → Type 0
Reads pack (u16 x) = unpack_u16le pack ≡ (x, rewound pack (pack.p + 2))
Reads pack (u32 x) = unpack_u32le pack ≡ (x, rewound pack (pack.p + 4))
Reads pack (chunk n bs) = unpack_bytes pack n ≡ (bs, rewound pack (pack.p + n))
Reads pack (gap n) = unpack_bytes pack n ≡ (replicate n 0, rewound pack (pack.p + n))

abbrev pub AllRead : RfPack → List Item → Type 0
AllRead pack [] = Unit
AllRead pack (i ∷ is) = Reads pack i × AllRead (rewound pack (pack.p + item_width i)) is

pub AllRead-append :
    (is js : List Item) (pack : RfPack)
    → AllRead pack (is ++ js)
    → AllRead pack is × AllRead (rewound pack (pack.p + total_width is)) js
AllRead-append [] js pack r = (tt, subst (λ p. AllRead (rewound pack p) js) (omega arith) r)
AllRead-append (i ∷ is) js pack (first, r) =
    let (these, those) = AllRead-append is js (rewound pack (pack.p + item_width i)) r in
    ((first, these), subst (λ p. AllRead (rewound pack p) js) (omega arith) those)

item_width-field : (i : Item) → Fits i → width (field i) ≡ item_width i
item_width-field (u16 x) h = refl
item_width-field (u32 x) h = refl
item_width-field (chunk n bs) h = h
item_width-field (gap n) h = length-replicate n 0

pub total_width-map : (is : List Item) → AllFit is → total (map field is) ≡ total_width is
total_width-map [] h = refl
total_width-map (i ∷ is) (h, hs) = omega (arith, item_width-field i h, total_width-map is hs)

abbrev the_number : Value → ℕ
the_number (number x) = x
the_number (bytes bs) = 0

abbrev the_bytes : Value → List ℕ
the_bytes (number x) = []
the_bytes (bytes bs) = bs

Reads-kind :
    (i : Item) (pack : RfPack) (p : ℕ)
    → Fits i
    → unpack_kind pack (kind (field i)) ≡ (value (field i), rewound pack p)
    → p ≡ pack.p + item_width i
    → Reads pack i
unfolding unpack_kind
Reads-kind (u16 x) pack p h e at =
    ap (λ r. (the_number r.0, r.1)) e ∙ ap (λ p. (x, rewound pack p)) at
Reads-kind (u32 x) pack p h e at =
    ap (λ r. (the_number r.0, r.1)) e ∙ ap (λ p. (x, rewound pack p)) at
Reads-kind (chunk n bs) pack p h e at =
    ap (unpack_bytes pack) (sym h)
    ∙ (ap (λ r. (the_bytes r.0, r.1)) e ∙ ap (λ p. (bs, rewound pack p)) at)
Reads-kind (gap n) pack p h e at =
    ap (λ r. (the_bytes r.0, r.1)) e ∙ ap (λ p. (replicate n 0, rewound pack p)) at

-- A buffer into which items were packed gives them back, one call after the other.
pub AllRead-pack_all :
    (is : List Item) (pack : RfPack)
    → AllFit is
    → pack.p + total_width is ≤ pack.endp
    → pack.endp ≤ length pack.bytes
    → AllRead (rewound (pack_all pack (map field is)) pack.p) is
unfolding pack_all
AllRead-pack_all [] pack h fits room = tt
AllRead-pack_all (i ∷ is) pack (h, hs) fits room =
    let one = field-Bounded pack (field i) in
    let w = item_width-field i h in
    (
      Reads-kind i (rewound (pack_all (pack_field pack (field i)) (map field is)) pack.p)
          (pack_field pack (field i)).p h
          (unpack_first (field i) (map field is) pack (unpackable i h)
            (omega (arith, w, total_width-map is hs)) room)
          (omega (arith, one.moved, w)),
      subst (λ p. AllRead (rewound (pack_all (pack_field pack (field i)) (map field is)) p) is)
          (omega (arith, one.moved, w))
          (AllRead-pack_all is (pack_field pack (field i)) hs
            (omega (arith, one.moved, one.same_end, w))
            (omega (arith, one.same_length, one.same_end))),
    )
  where
    unpackable : (i : Item) → Fits i → librfn.Pack.RoundTrip.Unpackable (field i)
    unpackable (u16 x) h = h
    unpackable (u32 x) h = h
    unpackable (chunk n bs) h = tt
    unpackable (gap n) h = tt
