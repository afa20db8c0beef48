-- ===== src/Wavheader/Examples.antt =====
-- Encoding and decoding of a concrete header, and the theorem at it.
use librfn.Common.{◌+◌, ◌*◌, ◌-◌, ◌^◌, ◌<◌, ◌≢◌, ap, true, false, ◌≡◌, refl, some, arith, replicate}
use librfn.Common.Int.{pos}
use librfn.Wavheader.{RfWavheader, riff, wave, fmt, data_id, zeroed, encode, decode}
use librfn.Wavheader.Fields.{Sized, kept}
use librfn.Wavheader.RoundTrip.{decode-encode}
use librfn.Wavheader.Make.{s16le, is_s16le, get_format, init, set_num_frames, validate, init_valid}

abbrev mono : RfWavheader
mono = record zeroed {
  chunk_id = riff;
  chunk_size = 50;
  format = wave;
  fmt_chunk_id = fmt;
  fmt_chunk_size = 16;
  audio_format = 1;
  num_channels = 1;
  sample_rate = 44100;
  byte_rate = 88200;
  block_align = 2;
  bits_per_sample = 16;
  data_chunk_id = data_id;
}

mono-Sized : Sized mono
mono-Sized = record {
  chunk_id = refl;
  chunk_size = omega arith;
  format = refl;
  fmt_chunk_id = refl;
  fmt_chunk_size = omega arith;
  audio_format = omega arith;
  num_channels = omega arith;
  sample_rate = omega arith;
  byte_rate = omega arith;
  block_align = omega arith;
  bits_per_sample = omega arith;
  cb_size = omega arith;
  valid_bits_per_sample = omega arith;
  channel_mask = omega arith;
  sub_format = refl;
  fact_chunk_id = refl;
  fact_chunk_size = omega arith;
  sample_length = omega arith;
  data_chunk_id = refl;
  data_chunk_size = omega arith;
}

decode-encode_example :
    ((encode mono (replicate 50 7) 48).0 ≡ pos 44)
    × (decode (encode mono (replicate 50 7) 48).1.bytes 48 ≡ (some (pos 44), kept mono))
decode-encode_example =
    decode-encode mono-Sized (replicate 50 7) 48 (omega arith) (omega arith) (omega arith) refl refl
      refl refl

init_valid_example :
    let wh = set_num_frames (init zeroed 44100 2 s16le) 1000 in
    (validate wh ≡ true)
    × (get_format wh ≡ s16le)
    × (wh.data_chunk_size ≡ 1000 * wh.block_align)
    × (wh.chunk_size ≡ 50 + wh.data_chunk_size)
unfolding init
init_valid_example =
    init_valid zeroed 44100 2 1000 s16le (λ e. not_unknown (ap is_s16le e)) refl small
  where
    not_unknown : true ≢ false
    not_unknown e = cc

    small : 1000 * (init zeroed 44100 2 s16le).block_align < 2 ^ 32 - 50
    small = omega arith
