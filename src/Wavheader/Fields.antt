-- ===== src/Wavheader/Fields.antt =====
-- The layout of an encoded header, and what of a header the encoding keeps.
use librfn.Common.{
  ◌-◌, ◌^◌, ◌<◌, ◌≡◌, Bool, true, false, List, [], ◌∷◌, ◌++◌, leb, ◌==◌, replicate, length,
}
use librfn.Pack.Reads.{Item, u16, u32, chunk, gap}
use librfn.Wavheader.{RfWavheader, fact, same_bytes}

abbrev pub head_items : RfWavheader → List Item
head_items wh =
    chunk 4 wh.chunk_id
    ∷ u32 wh.chunk_size
    ∷ chunk 4 wh.format
    ∷ chunk 4 wh.fmt_chunk_id
    ∷ u32 wh.fmt_chunk_size
    ∷ u16 wh.audio_format
    ∷ u16 wh.num_channels
    ∷ u32 wh.sample_rate
    ∷ u32 wh.byte_rate
    ∷ u16 wh.block_align
    ∷ u16 wh.bits_per_sample
    ∷ []

abbrev pub is_extended : RfWavheader → Bool
is_extended wh = leb 18 wh.fmt_chunk_size

abbrev pub is_full : RfWavheader → Bool
is_full wh = 22 == wh.cb_size

abbrev pub has_fact : RfWavheader → Bool
has_fact wh = same_bytes fact wh.fact_chunk_id

abbrev pub extension_items : Bool → Bool → RfWavheader → List Item
extension_items false full wh = []
extension_items true true wh =
    u16 wh.cb_size
    ∷ u16 wh.valid_bits_per_sample
    ∷ u32 wh.channel_mask
    ∷ chunk 16 wh.sub_format
    ∷ []
extension_items true false wh = u16 wh.cb_size ∷ gap (wh.fmt_chunk_size - 18) ∷ []

abbrev pub fact_items : Bool → RfWavheader → List Item
fact_items true wh =
    chunk 4 wh.fact_chunk_id
    ∷ u32 wh.fact_chunk_size
    ∷ u32 wh.sample_length
    ∷ chunk 4 wh.data_chunk_id
    ∷ []
fact_items false wh = chunk 4 wh.data_chunk_id ∷ []

abbrev pub items : RfWavheader → List Item
items wh =
    head_items wh
    ++ (extension_items (is_extended wh) (is_full wh) wh
        ++ (fact_items (has_fact wh) wh ++ (u32 wh.data_chunk_size ∷ [])))

-- Every member is a value of its type.
pub record Sized (wh : RfWavheader) : Type 0 where
  pub chunk_id : length wh.chunk_id ≡ 4
  pub chunk_size : wh.chunk_size < 2 ^ 32
  pub format : length wh.format ≡ 4
  pub fmt_chunk_id : length wh.fmt_chunk_id ≡ 4
  pub fmt_chunk_size : wh.fmt_chunk_size < 2 ^ 32
  pub audio_format : wh.audio_format < 2 ^ 16
  pub num_channels : wh.num_channels < 2 ^ 16
  pub sample_rate : wh.sample_rate < 2 ^ 32
  pub byte_rate : wh.byte_rate < 2 ^ 32
  pub block_align : wh.block_align < 2 ^ 16
  pub bits_per_sample : wh.bits_per_sample < 2 ^ 16
  pub cb_size : wh.cb_size < 2 ^ 16
  pub valid_bits_per_sample : wh.valid_bits_per_sample < 2 ^ 16
  pub channel_mask : wh.channel_mask < 2 ^ 32
  pub sub_format : length wh.sub_format ≡ 16
  pub fact_chunk_id : length wh.fact_chunk_id ≡ 4
  pub fact_chunk_size : wh.fact_chunk_size < 2 ^ 32
  pub sample_length : wh.sample_length < 2 ^ 32
  pub data_chunk_id : length wh.data_chunk_id ≡ 4
  pub data_chunk_size : wh.data_chunk_size < 2 ^ 32

-- The header with the members zeroed that its encoding leaves out.
abbrev pub keep_extension : Bool → Bool → RfWavheader → RfWavheader
keep_extension true true wh = wh
keep_extension true false wh = record wh {
  valid_bits_per_sample = 0;
  channel_mask = 0;
  sub_format = replicate 16 0;
}
keep_extension false _ wh = record wh {
  cb_size = 0;
  valid_bits_per_sample = 0;
  channel_mask = 0;
  sub_format = replicate 16 0;
}

abbrev pub keep_fact : Bool → RfWavheader → RfWavheader
keep_fact true wh = wh
keep_fact false wh = record wh {
  fact_chunk_id = replicate 4 0;
  fact_chunk_size = 0;
  sample_length = 0;
}

abbrev pub kept : RfWavheader → RfWavheader
kept wh = keep_fact (has_fact wh) (keep_extension (is_extended wh) (is_full wh) wh)
