-- ===== src/Pack/Examples.antt =====
-- Runs of packing and unpacking on concrete buffers, and their theorems there.
use librfn.Common.{ℕ, zero, suc, ◌<◌, get_or, ◌≡◌, refl, List, [], ◌∷◌, arith}
use librfn.Pack.{RfPack, init, consumed, remaining}
use librfn.Pack.Cursor.{
  Field, u16le_field, u32le_field, bytes_field, zeros_field, pack_field, pack_all, Bounded,
  pack_all-Bounded,
}
use librfn.Pack.RoundTrip.{
  u16le_kind, u32le_kind, bytes_kind, value, kind, map, rewound, unpack_all, unpack_all-pack_all,
}
use librfn.Pack.Inside.{over, unpack_all-inside}

abbrev buffer : List ℕ
buffer = 9 ∷ 9 ∷ 9 ∷ 9 ∷ 9 ∷ 9 ∷ 9 ∷ 9 ∷ 9 ∷ 9 ∷ []

abbrev fields : List Field
fields = u32le_field 0x80706050 ∷ bytes_field (82 ∷ []) ∷ zeros_field 1 ∷ u16le_field 0x1234 ∷ []

packed :
    (pack_all (init buffer 10) fields).bytes
    ≡ 0x50 ∷ 0x60 ∷ 0x70 ∷ 0x80 ∷ 82 ∷ 0 ∷ 0x34 ∷ 0x12 ∷ 9 ∷ 9 ∷ []
unfolding pack_all pack_field init librfn.Pack.pack_u32le librfn.Pack.pack_u16le
    librfn.Pack.pack_bytes librfn.Pack.pack_macro
packed = refl

abbrev fresh : RfPack
fresh = record { bytes = buffer; endp = 10; p = 0 }

abbrev short : RfPack
short = record { bytes = buffer; endp = 3; p = 0 }

pack_all-Bounded_example : Bounded short (pack_all short fields) 8
pack_all-Bounded_example = pack_all-Bounded fields short

unpack_all-pack_all_example :
    unpack_all (rewound (pack_all fresh fields) 0) (map kind fields)
    ≡ (map value fields, pack_all fresh fields)
unpack_all-pack_all_example =
    unpack_all-pack_all fields fresh (omega arith, (tt, (tt, (omega arith, tt)))) (omega arith)
      (omega arith)

-- Two bytes of the four that are asked for lie behind the end, and then two more are asked for.
unpack_all-inside_example :
    unpack_all (over short (9 ∷ 9 ∷ 9 ∷ 7 ∷ [])) (u16le_kind ∷ u32le_kind ∷ bytes_kind 2 ∷ []) ≡ (
      (unpack_all short (u16le_kind ∷ u32le_kind ∷ bytes_kind 2 ∷ [])).0,
      over (rewound short 8) (9 ∷ 9 ∷ 9 ∷ 7 ∷ []),
    )
unpack_all-inside_example =
    unpack_all-inside (u16le_kind ∷ u32le_kind ∷ bytes_kind 2 ∷ []) short (9 ∷ 9 ∷ 9 ∷ 7 ∷ [])
      (λ j h. agree j h)
  where
    agree : (j : ℕ) → j < 3 → get_or (9 ∷ 9 ∷ 9 ∷ 7 ∷ []) j 0 ≡ get_or buffer j 0
    agree zero h = refl
    agree (suc zero) h = refl
    agree (suc (suc zero)) h = refl
    agree (suc (suc (suc j))) h = absurd (omega (arith, h))
