-- ===== src/Wavheader/RoundTrip.antt =====
-- A header that is encoded into a buffer is decoded from it again.
use librfn.Common.{
  ℕ, ◌+◌, ◌^◌, ◌≤◌, ◌<◌, ◌≡◌, refl, ap, subst, ◌∙◌, Bool, true, false, Option, some, List, [], ◌∷◌,
  arith, length,
}
use librfn.Common.Int.{ℤ, pos}
use librfn.Pack
use librfn.Pack.{RfPack, remaining, pack_bytes, pack_u32le, unpack_u32le}
use librfn.Pack.Cursor.{pack_all, pack_all-Bounded}
use librfn.Pack.RoundTrip.{map, rewound}
use librfn.Pack.Reads.{
  u32, field, total_width, AllRead, AllRead-append, AllRead-pack_all, total_width-map,
}
use librfn.Wavheader.{
  RfWavheader, riff, wave, fact, same_bytes, zeroed, used, too_small, conclude, decode, encode,
  decode_extension, decode_fact,
}
use librfn.Wavheader.Fields.{
  head_items, extension_items, fact_items, items, is_extended, is_full, has_fact, Sized,
  keep_extension, keep_fact, kept,
}
use librfn.Wavheader.Encoding.{
  total_width-append, used-pos, behind_extension, behind_head, fit, encode-items,
}
use librfn.Wavheader.Stages.{
  head_of, extension_of, fact_of, decode_head-ok, decode_extension-ok, decode_fact-ok,
}

kept-parts :
    (wh : RfWavheader) (b c d : Bool)
    → record (fact_of d (extension_of b c (head_of zeroed wh) wh) wh) {
      data_chunk_size = wh.data_chunk_size;
    }
      ≡ keep_fact d (keep_extension b c wh)
kept-parts wh true true true = refl
kept-parts wh true true false = refl
kept-parts wh true false true = refl
kept-parts wh true false false = refl
kept-parts wh false true true = refl
kept-parts wh false true false = refl
kept-parts wh false false true = refl
kept-parts wh false false false = refl

kept-ids :
    (wh : RfWavheader) (b c d : Bool)
    → ((keep_fact d (keep_extension b c wh)).chunk_id ≡ wh.chunk_id)
      × ((keep_fact d (keep_extension b c wh)).format ≡ wh.format)
kept-ids wh true true true = (refl, refl)
kept-ids wh true true false = (refl, refl)
kept-ids wh true false true = (refl, refl)
kept-ids wh true false false = (refl, refl)
kept-ids wh false true true = (refl, refl)
kept-ids wh false true false = (refl, refl)
kept-ids wh false false true = (refl, refl)
kept-ids wh false false false = (refl, refl)

-- What `decode` does behind each part.
module _ (sz : ℕ) where
  abbrev behind_fact_of : RfWavheader → RfPack → Option ℤ × RfWavheader
  behind_fact_of w pack =
      let (n, pack) = unpack_u32le pack in conclude sz (record w { data_chunk_size = n }) pack

  abbrev behind_extension_of : RfWavheader → RfPack → Option ℤ × RfWavheader
  behind_extension_of w pack = let (w, pack) = decode_fact w pack in behind_fact_of w pack

  abbrev behind_head_of : RfWavheader → RfPack → Option ℤ × RfWavheader
  behind_head_of w pack = let (w, pack) = decode_extension w pack in behind_extension_of w pack

module _ (wh : RfWavheader) (is_riff : same_bytes riff wh.chunk_id ≡ true)
    (is_wave : same_bytes wave wh.format ≡ true) (large : too_small (kept wh) ≡ false) where
  conclude-ok :
      (sz : ℕ) (pack : RfPack) (w : RfWavheader)
      → w ≡ kept wh
      → conclude sz w pack ≡ (some (used sz pack), kept wh)
  unfolding conclude
  conclude-ok sz pack w e =
      let (id, format) = kept-ids wh (is_extended wh) (is_full wh) (has_fact wh) in
      rw (e, large)
        (rw (ap (same_bytes riff) id ∙ is_riff, ap (same_bytes wave) format ∙ is_wave) refl)

  -- The decoding goes through the items.
  decode-items :
      (p : List ℕ) (sz : ℕ)
      → same_bytes fact wh.data_chunk_id ≡ false
      → sz < 2 ^ 31
      → total_width (items wh) ≤ sz
      → AllRead (Pack.init p sz) (items wh)
      → decode p sz ≡ (some (pos (total_width (items wh))), kept wh)
  unfolding decode Pack.init
  decode-items p sz no_fact small fits reads =
      let start = Pack.init p sz in
      let (r1, r2) = AllRead-append (head_items wh) (behind_head wh) start reads in
      let one = rewound start (start.p + total_width (head_items wh)) in
      let e = extension_items (is_extended wh) (is_full wh) wh in
      let (r3, r4) = AllRead-append e (behind_extension wh) one r2 in
      let two = rewound one (one.p + total_width e) in
      let f = fact_items (has_fact wh) wh in
      let (r5, r6) = AllRead-append f (u32 wh.data_chunk_size ∷ []) two r4 in
      let last = two.p + total_width f + 4 in
      let w1 = head_of zeroed wh in
      let w2 = extension_of (is_extended wh) (is_full wh) w1 wh in
      let w3 = fact_of (has_fact wh) w2 wh in
      ap (λ r. behind_head_of sz r.0 r.1) (decode_head-ok zeroed wh start r1)
      ∙ (ap (λ r. behind_extension_of sz r.0 r.1)
            (decode_extension-ok w1 wh one (is_extended wh) (is_full wh) refl refl refl r3)
          ∙ (ap (λ r. behind_fact_of sz r.0 r.1)
                (decode_fact-ok w2 wh two (has_fact wh) refl no_fact r5)
              ∙ (ap (λ r. conclude sz (record w3 { data_chunk_size = r.0 }) r.1) r6.0
                  ∙ (conclude-ok sz (rewound two last) _
                        (kept-parts wh (is_extended wh) (is_full wh) (has_fact wh))
                      ∙ ap (λ n. (some n, kept wh))
                          (used-pos sz (rewound two last) small refl (omega (arith, widths))
                            ∙ ap pos (omega (arith, widths)))))))
    where
      widths :
          total_width (items wh)
          ≡ total_width (head_items wh)
            + (total_width (extension_items (is_extended wh) (is_full wh) wh)
                + (total_width (fact_items (has_fact wh) wh) + 4))
      widths = omega (
        arith,
        total_width-append (head_items wh) (behind_head wh),
        total_width-append (extension_items (is_extended wh) (is_full wh) wh) (behind_extension wh),
        total_width-append (fact_items (has_fact wh) wh) (u32 wh.data_chunk_size ∷ []),
      )

module _ {wh : RfWavheader} (s : Sized wh) (p : List ℕ) (sz : ℕ)
    (fits : total_width (items wh) ≤ sz) (room : sz ≤ length p) (small : sz < 2 ^ 31) where
  abbrev packed : RfPack
  packed = pack_all (Pack.init p sz) (map field (items wh))

  packed-AllRead : AllRead (Pack.init packed.bytes sz) (items wh)
  unfolding Pack.init
  packed-AllRead =
      subst (λ end. AllRead (record { bytes = packed.bytes; endp = end; p = 0 }) (items wh))
        (pack_all-Bounded (map field (items wh)) (Pack.init p sz)).same_end
        (AllRead-pack_all (items wh) (Pack.init p sz) (fit s) (omega (arith, fits)) room)

  used-packed : used sz packed ≡ pos (total_width (items wh))
  unfolding Pack.init
  used-packed =
      let b = pack_all-Bounded (map field (items wh)) (Pack.init p sz) in
      let w = total_width-map (items wh) (fit s) in
      used-pos sz packed small b.same_end (omega (arith, b.moved, w, fits))
      ∙ ap pos (omega (arith, b.moved, w))

  encode-used : (encode wh p sz).0 ≡ used sz packed
  unfolding encode
  encode-used = ap (used sz) (encode-items s p sz)

  -- A header that `rf_wavheader_decode` accepts, and whose data chunk is not called a fact chunk,
  -- survives encoding into a buffer that is large enough and decoding from it: both calls return
  -- the size of the layout, and the header comes back with the members zeroed that the layout
  -- leaves out.
  pub decode-encode :
      same_bytes fact wh.data_chunk_id ≡ false
      → same_bytes riff wh.chunk_id ≡ true
      → same_bytes wave wh.format ≡ true
      → too_small (kept wh) ≡ false
      → ((encode wh p sz).0 ≡ pos (total_width (items wh)))
        × (decode (encode wh p sz).1.bytes sz ≡ (some (pos (total_width (items wh))), kept wh))
  decode-encode no_fact is_riff is_wave large = (
    encode-used ∙ used-packed,
    ap (λ (pack : RfPack). decode pack.bytes sz) (encode-items s p sz)
        ∙ decode-items wh is_riff is_wave large packed.bytes sz no_fact small fits packed-AllRead,
  )
