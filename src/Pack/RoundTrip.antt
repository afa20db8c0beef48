-- ===== src/Pack/RoundTrip.antt =====
-- What was packed into a buffer that is large enough is unpacked again.
use librfn.Common.{
  length-replicate, ℕ, ◌+◌, ◌^◌, ◌≤◌, ◌<◌, ◌≡◌, refl, sym, ap, ◌∙◌, List, [], ◌∷◌, arith, length,
  replicate, le→ltb,
}
use librfn.Pack.{
  RfPack, read, pack_macro, unpack_macro, unpack_bytes, unpack_u16le, unpack_u32le, of_le16,
  of_le32,
}
use librfn.Pack.Layout.{read_same, read-write, of_le16-le16, of_le32-le32}
use librfn.Pack.Cursor.{
  Field, u16be_field, u16le_field, u32le_field, bytes_field, zeros_field, pack_field, pack_all,
  stored, width, total, pack_field-ok, Bounded, field-Bounded, pack_all-Bounded,
}

-- A call of one of the unpacking functions.
pub data Kind : Type 0 where
  u16le_kind : Kind
  u32le_kind : Kind
  bytes_kind : ℕ → Kind

-- What a call gives back: a number or bytes.
pub data Value : Type 0 where
  number : ℕ → Value
  bytes : List ℕ → Value

unfoldable pub unpack_kind : RfPack → Kind → Value × RfPack
unpack_kind pack u16le_kind = let (x, pack') = unpack_u16le pack in (number x, pack')
unpack_kind pack u32le_kind = let (x, pack') = unpack_u32le pack in (number x, pack')
unpack_kind pack (bytes_kind n) = let (bs, pack') = unpack_bytes pack n in (bytes bs, pack')

unfoldable pub unpack_all : RfPack → List Kind → List Value × RfPack
unpack_all pack [] = ([], pack)
unpack_all pack (k ∷ ks) =
    let (v, pack') = unpack_kind pack k in
    let (vs, pack'') = unpack_all pack' ks in (v ∷ vs, pack'')

-- The fields that can be unpacked, each with the value of the source's type.
abbrev pub Unpackable : Field → Type 0
Unpackable (u16be_field x) = ⊥
Unpackable (u16le_field x) = x < 2 ^ 16
Unpackable (u32le_field x) = x < 2 ^ 32
Unpackable _ = Unit

abbrev pub AllUnpackable : List Field → Type 0
AllUnpackable [] = Unit
AllUnpackable (f ∷ fs) = Unpackable f × AllUnpackable fs

abbrev pub kind : Field → Kind
kind (u32le_field x) = u32le_kind
kind (bytes_field bs) = bytes_kind (length bs)
kind (zeros_field n) = bytes_kind n
kind _ = u16le_kind

abbrev pub value : Field → Value
value (u16be_field x) = number x
value (u16le_field x) = number x
value (u32le_field x) = number x
value (bytes_field bs) = bytes bs
value (zeros_field n) = bytes (replicate n 0)

module _ {A B : Type 0} where
  abbrev pub map : (A → B) → List A → List B
  map f [] = []
  map f (x ∷ xs) = f x ∷ map f xs

-- The buffer holds the field at the cursor.
unpack_stored :
    (f : Field) (pack : RfPack)
    → Unpackable f
    → pack.p + width f ≤ pack.endp
    → read pack.bytes pack.p (width f) ≡ stored f
    → unpack_kind pack (kind f) ≡ (value f, record pack { p = pack.p + width f })
unfolding unpack_kind unpack_u16le unpack_u32le unpack_bytes unpack_macro
unpack_stored (u16be_field x) pack ok fits same = absurd ok
unpack_stored (u16le_field x) pack ok fits same =
    rw (le→ltb pack.endp (pack.p + 2) fits)
      (ap (λ n. (number n, record pack { p = pack.p + 2 })) (ap of_le16 same ∙ of_le16-le16 x ok))
unpack_stored (u32le_field x) pack ok fits same =
    rw (le→ltb pack.endp (pack.p + 4) fits)
      (ap (λ n. (number n, record pack { p = pack.p + 4 })) (ap of_le32 same ∙ of_le32-le32 x ok))
unpack_stored (bytes_field bs) pack ok fits same = ground arith
unpack_stored (zeros_field n) pack ok fits same =
    let len = length-replicate {A = ℕ} n 0 in ground (arith, len, ap (read pack.bytes pack.p) len)

-- The descriptor with its cursor put back.
abbrev pub rewound : RfPack → ℕ → RfPack
rewound pack p = record pack { p = p }

field_read :
    (f : Field) (pack : RfPack)
    → pack.p + width f ≤ pack.endp
    → pack.endp ≤ length pack.bytes
    → read (pack_field pack f).bytes pack.p (width f) ≡ stored f
unfolding pack_macro
field_read f pack fits room =
    rw (pack_field-ok f pack) (ground (arith, read-write (stored f) pack.bytes pack.p))

-- The first field is read back, whatever else was packed behind it.
pub unpack_first :
    (f : Field) (fs : List Field) (pack : RfPack)
    → Unpackable f
    → pack.p + (width f + total fs) ≤ pack.endp
    → pack.endp ≤ length pack.bytes
    → unpack_kind (rewound (pack_all (pack_field pack f) fs) pack.p) (kind f)
      ≡ (value f, rewound (pack_all (pack_field pack f) fs) (pack_field pack f).p)
unpack_first f fs pack ok fits room =
    unpack_stored f (rewound done pack.p) ok (omega (arith, rest.same_end, one.same_end)) (
      read_same done.bytes (pack_field pack f).bytes pack.p (width f)
        (λ j p q. rest.same_before j (omega (arith, one.moved)))
      ∙ field_read f pack (omega arith) room)
    ∙ ap (λ p. (value f, rewound done p)) (sym one.moved)
  where
    done : RfPack
    done = pack_all (pack_field pack f) fs

    one : Bounded pack (pack_field pack f) (width f)
    one = field-Bounded pack f

    rest : Bounded (pack_field pack f) done (total fs)
    rest = pack_all-Bounded fs (pack_field pack f)

-- Any sequence of numbers and byte strings that fits is read back as it was written, by the calls
-- that correspond to its fields, and leaves the cursor where the packing left it.
pub unpack_all-pack_all :
    (fs : List Field) (pack : RfPack)
    → AllUnpackable fs
    → pack.p + total fs ≤ pack.endp
    → pack.endp ≤ length pack.bytes
    → unpack_all (rewound (pack_all pack fs) pack.p) (map kind fs)
      ≡ (map value fs, pack_all pack fs)
unfolding unpack_all pack_all
unpack_all-pack_all [] pack ok fits room = refl
unpack_all-pack_all (f ∷ fs) pack (ok, oks) fits room =
    let one = field-Bounded pack f in
    rw
      (
        unpack_first f fs pack ok fits room,
        unpack_all-pack_all fs (pack_field pack f) oks (omega (arith, one.moved, one.same_end))
            (omega (arith, one.same_length, one.same_end)),
      )
      refl
