-- ===== src/Wavheader/Encoding.antt =====
-- The encoding of a header packs the items of its layout.
use librfn.Common.{
  ℕ, ◌+◌, ◌^◌, ◌≤◌, ◌<◌, ◌≡◌, refl, sym, ap, ◌∙◌, Bool, true, false, some, List, [], ◌∷◌, ◌++◌,
  arith,
}
use librfn.Common.Int.{pos}
use librfn.Pack
use librfn.Pack.{RfPack, remaining, pack_bytes, pack_u32le, unpack_u32le}
use librfn.Pack.Cursor.{pack_field, pack_all}
use librfn.Pack.RoundTrip.{map}
use librfn.Pack.Reads.{Item, u32, field, total_width, AllFit}
use librfn.Wavheader.{RfWavheader, used, encode, encode_extension, encode_fact}
use librfn.Wavheader.Fields.{
  head_items, extension_items, fact_items, items, is_extended, is_full, has_fact, Sized,
}
use librfn.Wavheader.Stages.{encode_head-ok, encode_extension-ok, encode_fact-ok}

pack_all-append :
    (is js : List Item) (pack : RfPack)
    → pack_all pack (map field (is ++ js)) ≡ pack_all (pack_all pack (map field is)) (map field js)
unfolding pack_all
pack_all-append [] js pack = refl
pack_all-append (i ∷ is) js pack = pack_all-append is js (pack_field pack (field i))

AllFit-append : (is js : List Item) → AllFit is → AllFit js → AllFit (is ++ js)
AllFit-append [] js h k = k
AllFit-append (i ∷ is) js (h, hs) k = (h, AllFit-append is js hs k)

-- What follows each part of the layout.
abbrev pub behind_extension : RfWavheader → List Item
behind_extension wh = fact_items (has_fact wh) wh ++ (u32 wh.data_chunk_size ∷ [])

abbrev pub behind_head : RfWavheader → List Item
behind_head wh = extension_items (is_extended wh) (is_full wh) wh ++ behind_extension wh

pub total_width-append :
    (is js : List Item) → total_width (is ++ js) ≡ total_width is + total_width js
total_width-append [] js = omega arith
total_width-append (i ∷ is) js = omega (arith, total_width-append is js)

-- What `used` gives of a cursor inside its buffer.
pub used-pos :
    (sz : ℕ) (pack : RfPack)
    → sz < 2 ^ 31
    → pack.endp ≡ sz
    → pack.p ≤ sz
    → used sz pack ≡ pos pack.p
unfolding remaining
used-pos sz pack small same inside = ground arith

module _ {wh : RfWavheader} (s : Sized wh) where
  fit_extension : (b c : Bool) → AllFit (extension_items b c wh)
  fit_extension false c = tt
  fit_extension true true =
      (s.cb_size, (s.valid_bits_per_sample, (s.channel_mask, (s.sub_format, tt))))
  fit_extension true false = (s.cb_size, (tt, tt))

  fit_fact : (b : Bool) → AllFit (fact_items b wh)
  fit_fact true = (s.fact_chunk_id, (s.fact_chunk_size, (s.sample_length, (s.data_chunk_id, tt))))
  fit_fact false = (s.data_chunk_id, tt)

  pub fit : AllFit (items wh)
  fit =
      AllFit-append (head_items wh) _
        (
          s.chunk_id,
          (
            s.chunk_size,
            (
              s.format,
              (
                s.fmt_chunk_id,
                (
                  s.fmt_chunk_size,
                  (
                    s.audio_format,
                    (
                      s.num_channels,
                      (s.sample_rate, (s.byte_rate, (s.block_align, (s.bits_per_sample, tt)))),
                    ),
                  ),
                ),
              ),
            ),
          ),
        )
        (AllFit-append (extension_items (is_extended wh) (is_full wh) wh) _
          (fit_extension (is_extended wh) (is_full wh))
          (AllFit-append (fact_items (has_fact wh) wh) _ (fit_fact (has_fact wh))
            (s.data_chunk_size, tt)))

  -- The encoding packs the items.
  pub encode-items :
      (p : List ℕ) (sz : ℕ) → (encode wh p sz).1 ≡ pack_all (Pack.init p sz) (map field (items wh))
  unfolding encode pack_all pack_field
  encode-items p sz =
      ap
        (λ pack.
          pack_u32le
            (pack_bytes (encode_fact wh (encode_extension wh pack)) (some wh.data_chunk_id) 4)
            wh.data_chunk_size)
        (encode_head-ok s (Pack.init p sz))
      ∙ (ap
            (λ pack.
              pack_u32le (pack_bytes (encode_fact wh pack) (some wh.data_chunk_id) 4)
                wh.data_chunk_size)
            (encode_extension-ok s one (is_extended wh) (is_full wh) refl refl)
          ∙ (ap (λ pack. pack_u32le pack wh.data_chunk_size)
                (encode_fact-ok s two (has_fact wh) refl)
              ∙ sym (
                  pack_all-append (head_items wh) (behind_head wh) (Pack.init p sz)
                  ∙ (pack_all-append (extension_items (is_extended wh) (is_full wh) wh)
                        (behind_extension wh) one
                      ∙ pack_all-append (fact_items (has_fact wh) wh) (u32 wh.data_chunk_size ∷ [])
                          two))))
    where
      one : RfPack
      one = pack_all (Pack.init p sz) (map field (head_items wh))

      two : RfPack
      two = pack_all one (map field (extension_items (is_extended wh) (is_full wh) wh))
