-- ===== src/Pack/Inside.antt =====
-- Unpacking never looks behind the end of the buffer.
use librfn.Common.{
  ℕ, ◌+◌, ◌≤◌, ◌<◌, ◌≡◌, refl, ap, List, [], ◌∷◌, arith, ltb, leb, get_or, Bool-cases, inl, inr,
}
use librfn.Pack.{
  RfPack, read, unpack_macro, unpack_bytes, unpack_u16le, unpack_u32le, of_le16, of_le32,
}
use librfn.Pack.Layout.{read_same}
use librfn.Pack.RoundTrip.{
  Kind, u16le_kind, u32le_kind, bytes_kind, number, bytes, unpack_kind, unpack_all, rewound,
}

abbrev pub kind_width : Kind → ℕ
kind_width u16le_kind = 2
kind_width u32le_kind = 4
kind_width (bytes_kind n) = n

abbrev pub kinds_width : List Kind → ℕ
kinds_width [] = 0
kinds_width (k ∷ ks) = kind_width k + kinds_width ks

-- The descriptor over another buffer.
abbrev pub over : RfPack → List ℕ → RfPack
over pack other = record pack { bytes = other }

same_read :
    (pack : RfPack) (other : List ℕ) (sz : ℕ)
    → ((j : ℕ) → j < pack.endp → get_or other j 0 ≡ get_or pack.bytes j 0)
    → pack.p + sz ≤ pack.endp
    → read other pack.p sz ≡ read pack.bytes pack.p sz
same_read pack other sz same fits =
    read_same other pack.bytes pack.p sz (λ j p q. same j (omega (arith, q, fits)))

macro-inside :
    (pack : RfPack) (other : List ℕ) (sz : ℕ) (body : List ℕ → ℕ)
    → ((j : ℕ) → j < pack.endp → get_or other j 0 ≡ get_or pack.bytes j 0)
    → (unpack_macro (over pack other) sz body).0 ≡ (unpack_macro pack sz body).0
unfolding unpack_macro
macro-inside pack other sz body same = elim (Bool-cases (ltb pack.endp (pack.p + sz))) [
  | inl past ↦ rw past refl
  | inr fits ↦ rw fits (ap body (same_read pack other sz same (ground (arith, fits))))
]

bytes-inside :
    (pack : RfPack) (other : List ℕ) (sz : ℕ)
    → ((j : ℕ) → j < pack.endp → get_or other j 0 ≡ get_or pack.bytes j 0)
    → (unpack_bytes (over pack other) sz).0 ≡ (unpack_bytes pack sz).0
unfolding unpack_bytes
bytes-inside pack other sz same = elim (Bool-cases (leb (pack.p + sz) pack.endp)) [
  | inl fits ↦ rw fits (same_read pack other sz same (ground (arith, fits)))
  | inr past ↦ rw past refl
]

-- One call: the value, and the cursor.
kind-inside :
    (k : Kind) (pack : RfPack) (other : List ℕ)
    → ((j : ℕ) → j < pack.endp → get_or other j 0 ≡ get_or pack.bytes j 0)
    → unpack_kind (over pack other) k
      ≡ ((unpack_kind pack k).0, over (rewound pack (pack.p + kind_width k)) other)
unfolding unpack_kind unpack_u16le unpack_u32le unpack_macro unpack_bytes
kind-inside u16le_kind pack other same =
    ap (λ x. (number x, over (rewound pack (pack.p + 2)) other))
      (macro-inside pack other 2 of_le16 same)
kind-inside u32le_kind pack other same =
    ap (λ x. (number x, over (rewound pack (pack.p + 4)) other))
      (macro-inside pack other 4 of_le32 same)
kind-inside (bytes_kind n) pack other same =
    ap (λ x. (bytes x, over (rewound pack (pack.p + n)) other)) (bytes-inside pack other n same)

-- No sequence of unpackings reads at or behind the end, wherever the cursor is: over two buffers that
-- agree before the end it gives the same values, and moves the cursor on by all their widths.
pub unpack_all-inside :
    (ks : List Kind) (pack : RfPack) (other : List ℕ)
    → ((j : ℕ) → j < pack.endp → get_or other j 0 ≡ get_or pack.bytes j 0)
    → unpack_all (over pack other) ks
      ≡ ((unpack_all pack ks).0, over (rewound pack (pack.p + kinds_width ks)) other)
unfolding unpack_all
unpack_all-inside [] pack other same =
    ap (λ p. ([], over (rewound pack p) other)) {x = pack.p} {y = pack.p + 0} (omega arith)
unpack_all-inside (k ∷ ks) pack other same =
    let next = rewound pack (pack.p + kind_width k) in
    let moved : (unpack_kind pack k).1 ≡ next =
      ap (λ r. r.1) (kind-inside k pack pack.bytes (λ j h. refl)) in
    let rest = unpack_all-inside ks next other same in
    let place : pack.p + kind_width k + kinds_width ks ≡ pack.p + (kind_width k + kinds_width ks) =
      omega arith in
    rw (kind-inside k pack other same, rest, moved)
      (ap (λ p. ((unpack_kind pack k).0 ∷ (unpack_all next ks).0, over (rewound pack p) other))
        place)
