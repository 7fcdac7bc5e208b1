-- ===== src/Audio/Wav/Decode.antt =====
-- audio/wav.go: samples of every depth, and ReadWAV.
use getstream_go_webrtc.Base.{
  ℕ, ◌+◌, ◌-◌, ◌*◌, ◌/◌, ◌%◌, ◌^◌, Bool, false, not, ◌&&◌, ◌||◌, none, some, List, [], ◌∷◌, ltb,
  ◌==◌, if◌then◌else◌, length, take, drop,
}
use getstream_go_webrtc.Base.Int.{ℤ}
use getstream_go_webrtc.Base.Result.{Result, ok, err, ◌>>=◌}
use getstream_go_webrtc.Audio.Words.{le16, to_int16}
use getstream_go_webrtc.Audio.Format.{
  s16, f32, Error, not_wav, no_fmt, no_data, unsupported_depth, unsupported_encoding, validate,
}
use getstream_go_webrtc.Audio.Pcm.{Pcm, empty, from_bytes, with_s16, with_f32}
use getstream_go_webrtc.Audio.Wav.{
  riff, wave, wav_format_pcm, wav_format_float, Found, nothing_found, is_id, walk,
}

-- A byte is unsigned with a bias of 128. `int16(v >> 8)` of 24 bits and `int16(v >> 16)` of 32 are the
-- two highest bytes.
unfoldable pub read_u8 : List ℕ → List ℤ
read_u8 [] = []
read_u8 (b ∷ rest) = to_int16 ((b + 128) * 2 ^ 8 % 2 ^ 16) ∷ read_u8 rest

unfoldable pub read_s24 : List ℕ → List ℤ
read_s24 (b0 ∷ b1 ∷ b2 ∷ rest) = to_int16 (le16 b1 b2) ∷ read_s24 rest
read_s24 _ = []

unfoldable pub read_s32 : List ℕ → List ℤ
read_s32 (b0 ∷ b1 ∷ b2 ∷ b3 ∷ rest) = to_int16 (le16 b2 b3) ∷ read_s32 rest
read_s32 _ = []

abbrev pub samples_of_width : ℕ → List ℕ → List ℤ
samples_of_width width b =
    if width == 1 then read_u8 b else if width == 3 then read_s24 b else read_s32 b

-- The whole frames of a payload
abbrev pub cut_frames : ℕ → List ℕ → List ℕ
cut_frames frame_size payload = take (length payload - length payload % frame_size) payload

unfoldable pub wav_from_int : List ℕ → ℕ → ℕ → ℕ → Result Error Pcm
unfolding read_u8 read_s24 read_s32
wav_from_int payload bits sample_rate channels =
    let width = bits / 8 in
    if ltb width 1 || ltb 4 width || not (bits % 8 == 0)
    then err unsupported_depth
    else if width == 2
    then from_bytes payload s16 sample_rate channels
    else ok (
        with_s16 (samples_of_width width (cut_frames (width * channels) payload))
          (empty s16 sample_rate channels))

abbrev pub starts_wave : List ℕ → Bool
starts_wave (r0 ∷ r1 ∷ r2 ∷ r3 ∷ n0 ∷ n1 ∷ n2 ∷ n3 ∷ w0 ∷ w1 ∷ w2 ∷ w3 ∷ rest) =
    is_id riff r0 r1 r2 r3 && is_id wave w0 w1 w2 w3
starts_wave _ = false

-- float64 patterns become float32 patterns by a floating-point conversion.
module _ (shorten : ℕ → ℕ) where
  unfoldable pub read_f64 : List ℕ → List ℕ
  read_f64 (b0 ∷ b1 ∷ b2 ∷ b3 ∷ b4 ∷ b5 ∷ b6 ∷ b7 ∷ rest) =
      shorten (le16 b0 b1 + le16 b2 b3 * 2 ^ 16 + le16 b4 b5 * 2 ^ 32 + le16 b6 b7 * 2 ^ 48)
      ∷ read_f64 rest
  read_f64 _ = []

  unfoldable pub wav_from_float64 : List ℕ → ℕ → ℕ → Pcm
  unfolding read_f64
  wav_from_float64 payload sample_rate channels =
      with_f32 (read_f64 (cut_frames (8 * channels) payload)) (empty f32 sample_rate channels)

  -- What ReadWAV makes of what it found
  unfoldable pub decode_wav : Found → Result Error Pcm
  unfolding wav_from_int wav_from_float64
  decode_wav found =
      if not found.have_format
      then err no_fmt
      else if not found.have_payload
      then err no_data
      else elim (validate s16 found.sample_rate found.channels) [
        | some e ↦ err e
        | none ↦
            if found.format_tag == wav_format_float && found.bits_per_sample == 32
            then from_bytes found.payload f32 found.sample_rate found.channels
            else if found.format_tag == wav_format_float && found.bits_per_sample == 64
            then ok (wav_from_float64 found.payload found.sample_rate found.channels)
            else if found.format_tag == wav_format_pcm
            then wav_from_int found.payload found.bits_per_sample found.sample_rate found.channels
            else err unsupported_encoding
      ]

  unfoldable pub read_wav : List ℕ → Result Error Pcm
  unfolding decode_wav
  read_wav input =
      if not (starts_wave input)
      then err not_wav
      else walk (length input) (drop 12 input) nothing_found >>= decode_wav
