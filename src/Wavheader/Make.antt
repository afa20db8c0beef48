-- ===== src/Wavheader/Make.antt =====
-- librfn/wavheader.c: making a header from parameters, and reading its format off it.
use librfn.Common.{
  ℕ, ◌+◌, ◌-◌, ◌*◌, ◌^◌, ◌<◌, ◌≡◌, ◌≢◌, refl, Bool, true, false, not, arith, ◌==◌, if◌then◌else◌,
}
use librfn.Common.Word.{u16, u32}
use librfn.Wavheader.{RfWavheader, riff, wave, fmt, fact, data_id, same_bytes, too_small}

-- `rf_wavheader_format_t`
pub data Format : Type 0 where
  unknown : Format
  s16le : Format
  s32le : Format
  float : Format

abbrev pub is_float : Format → Bool
is_float float = true
is_float _ = false

abbrev pub is_s16le : Format → Bool
is_s16le s16le = true
is_s16le _ = false

unfoldable pub get_format : RfWavheader → Format
get_format wh =
    if wh.audio_format == 1
    then (if wh.bits_per_sample == 16
        then s16le
        else (if wh.bits_per_sample == 32 then s32le else unknown))
    else (if wh.audio_format == 3
        then (if wh.bits_per_sample == 32 then float else unknown)
        else (if wh.audio_format == 0xfffe
            then (if wh.bits_per_sample == 16 then s16le else s32le)
            else unknown))

-- The fact chunk is written for a format of floats only; without one its members stay as they were.
abbrev pub init_fact : RfWavheader → RfWavheader
init_fact wh = record wh { fact_chunk_id = fact; fact_chunk_size = 12; sample_length = 0 }

-- The rates and counts of the caller are not negative.
unfoldable pub init : RfWavheader → ℕ → ℕ → Format → RfWavheader
init wh sfreq num_channels format =
    let bytes_per_sample = if is_s16le format then 2 else 4 in
    let wh = record wh {
      chunk_id = riff;
      chunk_size = 12 + 18 + 12 + 8;
      format = wave;
      fmt_chunk_id = fmt;
      fmt_chunk_size = if is_float format then 18 else 16;
      audio_format = if is_float format then 3 else 1;
      num_channels = u16 num_channels;
      sample_rate = u32 sfreq;
      byte_rate = u32 (sfreq * bytes_per_sample * num_channels);
      block_align = u16 (bytes_per_sample * num_channels);
      bits_per_sample = bytes_per_sample * 8;
      cb_size = 0;
    } in
    let wh = if is_float format then init_fact wh else wh in
    record wh { data_chunk_id = data_id; data_chunk_size = 0 }

unfoldable pub set_num_frames : RfWavheader → ℕ → RfWavheader
set_num_frames wh num_frames =
    let chunk_size = u32 (wh.chunk_size + 2 ^ 32 - wh.data_chunk_size) in
    record wh {
      data_chunk_size = u32 (num_frames * wh.block_align);
      sample_length = u32 (num_frames * wh.num_channels);
      chunk_size = u32 (chunk_size + num_frames * wh.block_align);
    }

-- Whether `rf_wavheader_validate` returns 0; else it returns -EINVAL.
unfoldable pub validate : RfWavheader → Bool
validate wh =
    if not (same_bytes riff wh.chunk_id)
    then false
    else (if too_small wh
        then false
        else (if not (same_bytes wave wh.format)
            then false
            else (if not (same_bytes fmt wh.fmt_chunk_id)
                then false
                else (if not (same_bytes data_id wh.data_chunk_id) then false else true))))

-- A header made by `rf_wavheader_init` in zeroed memory for a known format, with any rate, number
-- of channels and number of frames that fit the file, validates and has that format; its sizes
-- count the frames.
pub init_valid :
    (old : RfWavheader) (sfreq num_channels frames : ℕ) (format : Format)
    → format ≢ unknown
    → old.fact_chunk_size ≡ 0
    → frames * (init old sfreq num_channels format).block_align < 2 ^ 32 - 50
    → let wh = set_num_frames (init old sfreq num_channels format) frames in
      (validate wh ≡ true)
      × (get_format wh ≡ format)
      × (wh.data_chunk_size ≡ frames * wh.block_align)
      × (wh.chunk_size ≡ 50 + wh.data_chunk_size)
unfolding init set_num_frames validate get_format
init_valid old sfreq ch n unknown known clear fits = absurd (known refl)
init_valid old sfreq ch n s16le known clear fits =
    (ground (arith, fits, clear), refl, omega (arith, fits), omega (arith, fits))
init_valid old sfreq ch n s32le known clear fits =
    (ground (arith, fits, clear), refl, omega (arith, fits), omega (arith, fits))
init_valid old sfreq ch n float known clear fits =
    (ground (arith, fits), refl, omega (arith, fits), omega (arith, fits))
