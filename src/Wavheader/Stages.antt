-- ===== src/Wavheader/Stages.antt =====
-- Each part of the encoding and of the decoding goes through the items of its part of the layout.
use librfn.Common.{◌+◌, ◌≡◌, refl, ap, Bool, true, false, some, arith, leb}
use librfn.Pack.{RfPack, pack_bytes}
use librfn.Pack.Cursor.{pack_field, pack_all}
use librfn.Pack.RoundTrip.{map, rewound}
use librfn.Pack.Reads.{field, total_width, AllRead}
use librfn.Wavheader.{
  RfWavheader, fact, same_bytes, decode_head, decode_extension, decode_fact, encode_head,
  encode_extension, encode_fact,
}
use librfn.Wavheader.Fields.{
  head_items, extension_items, fact_items, is_extended, is_full, has_fact, Sized,
}

module _ {wh : RfWavheader} (s : Sized wh) (pack : RfPack) where
  pub encode_head-ok : encode_head wh pack ≡ pack_all pack (map field (head_items wh))
  unfolding encode_head pack_all pack_field
  encode_head-ok = rw (s.chunk_id, s.format, s.fmt_chunk_id) refl

  pub encode_extension-ok :
      (b c : Bool)
      → is_extended wh ≡ b
      → is_full wh ≡ c
      → encode_extension wh pack ≡ pack_all pack (map field (extension_items b c wh))
  unfolding encode_extension pack_all pack_field
  encode_extension-ok false c p q = rw p refl
  encode_extension-ok true true p q = rw (p, q, s.sub_format) refl
  encode_extension-ok true false p q = rw (p, q) refl

  pub encode_fact-ok :
      (b : Bool)
      → has_fact wh ≡ b
      → pack_bytes (encode_fact wh pack) (some wh.data_chunk_id) 4
        ≡ pack_all pack (map field (fact_items b wh))
  unfolding encode_fact pack_all pack_field
  encode_fact-ok true p = rw (p, s.fact_chunk_id, s.data_chunk_id) refl
  encode_fact-ok false p = rw (p, s.data_chunk_id) refl

-- What each part of the decoding sets.
abbrev pub head_of : RfWavheader → RfWavheader → RfWavheader
head_of old wh = record old {
  chunk_id = wh.chunk_id;
  chunk_size = wh.chunk_size;
  format = wh.format;
  fmt_chunk_id = wh.fmt_chunk_id;
  fmt_chunk_size = wh.fmt_chunk_size;
  audio_format = wh.audio_format;
  num_channels = wh.num_channels;
  sample_rate = wh.sample_rate;
  byte_rate = wh.byte_rate;
  block_align = wh.block_align;
  bits_per_sample = wh.bits_per_sample;
}

abbrev pub extension_of : Bool → Bool → RfWavheader → RfWavheader → RfWavheader
extension_of false c old wh = old
extension_of true false old wh = record old { cb_size = wh.cb_size }
extension_of true true old wh = record old {
  cb_size = wh.cb_size;
  valid_bits_per_sample = wh.valid_bits_per_sample;
  channel_mask = wh.channel_mask;
  sub_format = wh.sub_format;
}

abbrev pub fact_of : Bool → RfWavheader → RfWavheader → RfWavheader
fact_of false old wh = record old { data_chunk_id = wh.data_chunk_id }
fact_of true old wh = record old {
  fact_chunk_id = wh.fact_chunk_id;
  fact_chunk_size = wh.fact_chunk_size;
  sample_length = wh.sample_length;
  data_chunk_id = wh.data_chunk_id;
}

module _ (old wh : RfWavheader) (pack : RfPack) where
  pub decode_head-ok :
      AllRead pack (head_items wh)
      → decode_head old pack ≡ (head_of old wh, rewound pack (pack.p + total_width (head_items wh)))
  unfolding decode_head
  decode_head-ok (a, (b, (c, (d, (e, (f, (g, (h, (i, (j, (k, l))))))))))) =
      rw (a, b, c, d, e, f, g, h, i, j, k)
        (ap (λ p. (head_of old wh, rewound pack p)) (omega arith))

  pub decode_extension-ok :
      (b c : Bool)
      → leb 18 old.fmt_chunk_size ≡ b
      → is_full wh ≡ c
      → old.fmt_chunk_size ≡ wh.fmt_chunk_size
      → AllRead pack (extension_items b c wh)
      → decode_extension old pack
        ≡ (extension_of b c old wh, rewound pack (pack.p + total_width (extension_items b c wh)))
  unfolding decode_extension
  decode_extension-ok false c p q same r = rw p (ap (λ p. (old, rewound pack p)) (omega arith))
  decode_extension-ok true true p q same (r, (s, (t, (u, v)))) =
      rw (p, r, q, s, t, u)
        (ap (λ p. (extension_of true true old wh, rewound pack p)) (omega arith))
  decode_extension-ok true false p q same (r, (s, t)) =
      rw (p, r, q, same, s)
        (ap
          (λ p. (
            extension_of true false (record old { fmt_chunk_size = wh.fmt_chunk_size }) wh,
            rewound pack p,
          ))
          (omega arith))

  pub decode_fact-ok :
      (b : Bool)
      → has_fact wh ≡ b
      → same_bytes fact wh.data_chunk_id ≡ false
      → AllRead pack (fact_items b wh)
      → decode_fact old pack
        ≡ (fact_of b old wh, rewound pack (pack.p + total_width (fact_items b wh)))
  unfolding decode_fact
  decode_fact-ok true p q (r, (s, (t, (u, v)))) =
      rw (r, p, s, t, u) (ap (λ p. (fact_of true old wh, rewound pack p)) (omega arith))
  decode_fact-ok false p q (r, s) =
      rw (r, q) (ap (λ p. (fact_of false old wh, rewound pack p)) (omega arith))
