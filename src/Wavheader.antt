-- ===== src/Wavheader.antt =====
-- librfn/wavheader.c and include/librfn/wavheader.h: the header of a WAV file, decoded from bytes
-- and encoded into them through the cursor of `Pack`. The local `pack` is passed on, and `none`
-- stands for -EINVAL. The comparison of four bytes is that of the lists.
pub mod Fields
pub mod Stages
pub mod Encoding
pub mod RoundTrip
pub mod Make
mod Examples
use librfn.Common.{
  ℕ, ◌+◌, ◌-◌, ◌*◌, ◌^◌, Bool, true, false, not, ◌||◌, ◌&&◌, Option, none, some, List, [], ◌∷◌, leb,
  ltb, ◌==◌, if◌then◌else◌, replicate,
}
use librfn.Common.Int.{ℤ, pos, negsuc, signed32}
use librfn.Common.Word.{u8, u16, u32}
use librfn.Pack
use librfn.Pack.{
  RfPack, remaining, word, pack_bytes, pack_u16le, pack_u32le, unpack_bytes, unpack_u16le,
  unpack_u32le,
}

pub record RfWavheader : Type 0 where
  pub chunk_id : List ℕ
  pub chunk_size : ℕ
  pub format : List ℕ
  pub fmt_chunk_id : List ℕ
  pub fmt_chunk_size : ℕ
  pub audio_format : ℕ
  pub num_channels : ℕ
  pub sample_rate : ℕ
  pub byte_rate : ℕ
  pub block_align : ℕ
  pub bits_per_sample : ℕ
  pub cb_size : ℕ
  pub valid_bits_per_sample : ℕ
  pub channel_mask : ℕ
  pub sub_format : List ℕ
  pub fact_chunk_id : List ℕ
  pub fact_chunk_size : ℕ
  pub sample_length : ℕ
  pub data_chunk_id : List ℕ
  pub data_chunk_size : ℕ

abbrev pub riff : List ℕ
riff = 82 ∷ 73 ∷ 70 ∷ 70 ∷ []

abbrev pub wave : List ℕ
wave = 87 ∷ 65 ∷ 86 ∷ 69 ∷ []

abbrev pub fmt : List ℕ
fmt = 102 ∷ 109 ∷ 116 ∷ 32 ∷ []

abbrev pub fact : List ℕ
fact = 102 ∷ 97 ∷ 99 ∷ 116 ∷ []

abbrev pub data_id : List ℕ
data_id = 100 ∷ 97 ∷ 116 ∷ 97 ∷ []

-- `0 == memcmp(a, b, 4)`
abbrev pub same_bytes : List ℕ → List ℕ → Bool
same_bytes [] [] = true
same_bytes (x ∷ xs) (y ∷ ys) = (x == y) && same_bytes xs ys
same_bytes _ _ = false

-- `memset(wh, 0, sizeof(*wh))`
abbrev pub zeroed : RfWavheader
zeroed = record {
  chunk_id = replicate 4 0;
  chunk_size = 0;
  format = replicate 4 0;
  fmt_chunk_id = replicate 4 0;
  fmt_chunk_size = 0;
  audio_format = 0;
  num_channels = 0;
  sample_rate = 0;
  byte_rate = 0;
  block_align = 0;
  bits_per_sample = 0;
  cb_size = 0;
  valid_bits_per_sample = 0;
  channel_mask = 0;
  sub_format = replicate 16 0;
  fact_chunk_id = replicate 4 0;
  fact_chunk_size = 0;
  sample_length = 0;
  data_chunk_id = replicate 4 0;
  data_chunk_size = 0;
}

-- `sz - rf_pack_remaining(&pack)` as an `int`.
abbrev pub used : ℕ → RfPack → ℤ
used sz pack = signed32 (u32 (sz + 2 ^ 32 - word 32 (remaining pack)))

-- The fixed part, up to `bits_per_sample`.
unfoldable pub decode_head : RfWavheader → RfPack → RfWavheader × RfPack
decode_head wh pack =
    let (chunk_id, pack) = unpack_bytes pack 4 in
    let (chunk_size, pack) = unpack_u32le pack in
    let (format, pack) = unpack_bytes pack 4 in
    let (fmt_chunk_id, pack) = unpack_bytes pack 4 in
    let (fmt_chunk_size, pack) = unpack_u32le pack in
    let (audio_format, pack) = unpack_u16le pack in
    let (num_channels, pack) = unpack_u16le pack in
    let (sample_rate, pack) = unpack_u32le pack in
    let (byte_rate, pack) = unpack_u32le pack in
    let (block_align, pack) = unpack_u16le pack in
    let (bits_per_sample, pack) = unpack_u16le pack in
    (
      record wh {
        chunk_id = chunk_id;
        chunk_size = chunk_size;
        format = format;
        fmt_chunk_id = fmt_chunk_id;
        fmt_chunk_size = fmt_chunk_size;
        audio_format = audio_format;
        num_channels = num_channels;
        sample_rate = sample_rate;
        byte_rate = byte_rate;
        block_align = block_align;
        bits_per_sample = bits_per_sample;
      },
      pack,
    )

-- The rest of the fmt chunk. A target of NULL drops the bytes.
unfoldable pub decode_extension : RfWavheader → RfPack → RfWavheader × RfPack
decode_extension wh pack =
    if leb 18 wh.fmt_chunk_size
    then (let (cb_size, pack) = unpack_u16le pack in
        let wh = record wh { cb_size = cb_size } in
        if 22 == cb_size
        then (let (valid_bits_per_sample, pack) = unpack_u16le pack in
            let (channel_mask, pack) = unpack_u32le pack in
            let (sub_format, pack) = unpack_bytes pack 16 in
            (
              record wh {
                valid_bits_per_sample = valid_bits_per_sample;
                channel_mask = channel_mask;
                sub_format = sub_format;
              },
              pack,
            ))
        else (let (_, pack) = unpack_bytes pack (wh.fmt_chunk_size - 18) in (wh, pack)))
    else (wh, pack)

-- The fact chunk, if there is one, and the name of the data chunk.
unfoldable pub decode_fact : RfWavheader → RfPack → RfWavheader × RfPack
decode_fact wh pack =
    let (data_chunk_id, pack) = unpack_bytes pack 4 in
    let wh = record wh { data_chunk_id = data_chunk_id } in
    if same_bytes fact wh.data_chunk_id
    then (let (fact_chunk_size, pack) = unpack_u32le pack in
        let (sample_length, pack) = unpack_u32le pack in
        let (data_chunk_id, pack) = unpack_bytes pack 4 in
        (
          record wh {
            fact_chunk_id = wh.data_chunk_id;
            fact_chunk_size = fact_chunk_size;
            sample_length = sample_length;
            data_chunk_id = data_chunk_id;
          },
          pack,
        ))
    else (wh, pack)

-- `wh->chunk_size < (12 + wh->fmt_chunk_size + wh->fact_chunk_size)`
abbrev pub too_small : RfWavheader → Bool
too_small wh = ltb wh.chunk_size (u32 (12 + wh.fmt_chunk_size + wh.fact_chunk_size))

-- The basic validation, and the result.
unfoldable pub conclude : ℕ → RfWavheader → RfPack → Option ℤ × RfWavheader
conclude sz wh pack =
    if not (same_bytes riff wh.chunk_id)
    then (none, wh)
    else (if too_small wh
        then (none, wh)
        else (if not (same_bytes wave wh.format) then (none, wh) else (some (used sz pack), wh)))

unfoldable pub decode : List ℕ → ℕ → Option ℤ × RfWavheader
unfolding decode_head decode_extension decode_fact conclude
decode p sz =
    let pack = Pack.init p sz in
    let (wh, pack) = decode_head zeroed pack in
    let (wh, pack) = decode_extension wh pack in
    let (wh, pack) = decode_fact wh pack in
    let (data_chunk_size, pack) = unpack_u32le pack in
    let wh = record wh { data_chunk_size = data_chunk_size } in conclude sz wh pack

unfoldable pub encode_head : RfWavheader → RfPack → RfPack
encode_head wh pack =
    let pack = pack_bytes pack (some wh.chunk_id) 4 in
    let pack = pack_u32le pack wh.chunk_size in
    let pack = pack_bytes pack (some wh.format) 4 in
    let pack = pack_bytes pack (some wh.fmt_chunk_id) 4 in
    let pack = pack_u32le pack wh.fmt_chunk_size in
    let pack = pack_u16le pack wh.audio_format in
    let pack = pack_u16le pack wh.num_channels in
    let pack = pack_u32le pack wh.sample_rate in
    let pack = pack_u32le pack wh.byte_rate in
    let pack = pack_u16le pack wh.block_align in pack_u16le pack wh.bits_per_sample

unfoldable pub encode_extension : RfWavheader → RfPack → RfPack
encode_extension wh pack =
    if leb 18 wh.fmt_chunk_size
    then (let pack = pack_u16le pack wh.cb_size in
        if 22 == wh.cb_size
        then (let pack = pack_u16le pack wh.valid_bits_per_sample in
            let pack = pack_u32le pack wh.channel_mask in pack_bytes pack (some wh.sub_format) 16)
        else pack_bytes pack none (wh.fmt_chunk_size - 18))
    else pack

unfoldable pub encode_fact : RfWavheader → RfPack → RfPack
encode_fact wh pack =
    if same_bytes fact wh.fact_chunk_id
    then (let pack = pack_bytes pack (some wh.fact_chunk_id) 4 in
        let pack = pack_u32le pack wh.fact_chunk_size in pack_u32le pack wh.sample_length)
    else pack

-- The result, and the cursor with the buffer behind it.
unfoldable pub encode : RfWavheader → List ℕ → ℕ → ℤ × RfPack
unfolding encode_head encode_extension encode_fact
encode wh p sz =
    let pack = Pack.init p sz in
    let pack = encode_head wh pack in
    let pack = encode_extension wh pack in
    let pack = encode_fact wh pack in
    let pack = pack_bytes pack (some wh.data_chunk_id) 4 in
    let pack = pack_u32le pack wh.data_chunk_size in (used sz pack, pack)
