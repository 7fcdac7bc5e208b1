-- ===== src/Audio/Wav.antt =====
-- audio/wav.go: WAV files as bytes. Reading the input and opening files are left out; the texts of
-- errors are the constructors of Format.Error.
pub mod Decode
pub mod Walk
pub mod Roundtrip
use getstream_go_webrtc.Base.{
  ℕ, zero, suc, ◌+◌, ◌-◌, ◌*◌, ◌/◌, ◌%◌, ◌^◌, min, Bool, true, false, not, ◌&&◌, none, some, List,
  [], ◌∷◌, ◌++◌, ltb, leb, ◌==◌, if◌then◌else◌, length, get_elem?, take, drop,
}
use getstream_go_webrtc.Base.Result.{Result, ok, err, ◌>>=◌}
use getstream_go_webrtc.Audio.Words.{le16, le32, bytes16, bytes32}
use getstream_go_webrtc.Audio.Format.{
  Format, s16, f32, unknown, Error, short_fmt, out_of_rounds, bytes_per_sample, validate,
}
use getstream_go_webrtc.Audio.Pcm.{Pcm, len, bytes, or_error}

-- The identifiers of chunks, in ASCII
pub data ChunkId : Type 0 where
  riff : ChunkId
  wave : ChunkId
  fmt_chunk : ChunkId
  fact : ChunkId
  data_chunk : ChunkId

abbrev pub ascii : ChunkId → List ℕ
ascii riff = 82 ∷ 73 ∷ 70 ∷ 70 ∷ []
ascii wave = 87 ∷ 65 ∷ 86 ∷ 69 ∷ []
ascii fmt_chunk = 102 ∷ 109 ∷ 116 ∷ 32 ∷ []
ascii fact = 102 ∷ 97 ∷ 99 ∷ 116 ∷ []
ascii data_chunk = 100 ∷ 97 ∷ 116 ∷ 97 ∷ []

abbrev pub wav_format_pcm : ℕ
wav_format_pcm = 1

abbrev pub wav_format_float : ℕ
wav_format_float = 3

abbrev pub wav_format_extension : ℕ
wav_format_extension = 65534

abbrev pub format_tag_of : Format → ℕ
format_tag_of f32 = wav_format_float
format_tag_of s16 = wav_format_pcm
format_tag_of unknown = wav_format_pcm

-- `writeChunk`: a chunk of odd length is followed by a zero byte.
unfoldable pub write_chunk : ChunkId → List ℕ → List ℕ
write_chunk id payload =
    ascii id
    ++ (bytes32 (length payload) ++ (payload ++ (if length payload % 2 == 1 then 0 ∷ [] else [])))

-- `uint16(p.Channels * p.Format.BytesPerSample())`
abbrev pub block_align : Pcm → ℕ
block_align p = p.channels * bytes_per_sample p.format % 2 ^ 16

unfoldable pub fmt_payload : Pcm → List ℕ
fmt_payload p =
    bytes16 (format_tag_of p.format)
    ++ (bytes16 p.channels
        ++ (bytes32 p.sample_rate
            ++ (bytes32 (p.sample_rate * block_align p)
                ++ (bytes16 (block_align p) ++ bytes16 (bytes_per_sample p.format * 8)))))

unfoldable pub fact_part : Format → Pcm → List ℕ
unfolding write_chunk
fact_part f32 p = write_chunk fact (bytes32 (len p))
fact_part s16 p = []
fact_part unknown p = []

abbrev pub fact_size : Format → ℕ
fact_size f32 = 8 + 4
fact_size s16 = 0
fact_size unknown = 0

unfoldable pub body_size : Pcm → ℕ
body_size p = 4 + (8 + 16) + fact_size p.format + (8 + length (bytes p) + length (bytes p) % 2)

unfoldable pub write_wav : Pcm → Result Error (List ℕ)
unfolding write_chunk fmt_payload fact_part body_size
write_wav p = or_error (validate p.format p.sample_rate p.channels) (
    ascii riff
    ++ (bytes32 (body_size p)
        ++ (ascii wave
            ++ (write_chunk fmt_chunk (fmt_payload p)
                ++ (fact_part p.format p ++ write_chunk data_chunk (bytes p))))))

-- What ReadWAV has found
pub record Found : Type 0 where
  pub format_tag : ℕ
  pub channels : ℕ
  pub sample_rate : ℕ
  pub bits_per_sample : ℕ
  pub payload : List ℕ
  pub have_format : Bool
  pub have_payload : Bool

abbrev pub nothing_found : Found
nothing_found = record {
  format_tag = 0;
  channels = 0;
  sample_rate = 0;
  bits_per_sample = 0;
  payload = [];
  have_format = false;
  have_payload = false;
}

abbrev pub byte_at : ℕ → List ℕ → ℕ
byte_at i chunk = elim (get_elem? chunk i) [ none ↦ 0 | some b ↦ b ]

abbrev pub word_at : ℕ → List ℕ → ℕ
word_at i chunk = le16 (byte_at i chunk) (byte_at (i + 1) chunk)

abbrev pub is_id : ChunkId → ℕ → ℕ → ℕ → ℕ → Bool
is_id id b0 b1 b2 b3 = elim (ascii id) [
  | c0 ∷ c1 ∷ c2 ∷ c3 ∷ rest ↦ b0 == c0 && b1 == c1 && b2 == c2 && b3 == c3
  | _ ↦ false
]

-- The "fmt " chunk
unfoldable pub on_format : List ℕ → Found → Result Error Found
on_format chunk found =
    if ltb (length chunk) 16
    then err short_fmt
    else ok record found {
      format_tag =
          if word_at 0 chunk == wav_format_extension && leb 26 (length chunk)
          then word_at 24 chunk
          else word_at 0 chunk;
      channels = word_at 2 chunk;
      sample_rate = le32 (byte_at 4 chunk) (byte_at 5 chunk) (byte_at 6 chunk) (byte_at 7 chunk);
      bits_per_sample = word_at 14 chunk;
      have_format = true;
    }

unfoldable pub on_chunk : ℕ → ℕ → ℕ → ℕ → List ℕ → Found → Result Error Found
unfolding on_format
on_chunk b0 b1 b2 b3 chunk found =
    if is_id fmt_chunk b0 b1 b2 b3
    then on_format chunk found
    else if is_id data_chunk b0 b1 b2 b3
    then ok record found { payload = chunk; have_payload = true }
    else ok found

-- The loop over the chunks, on what is left of the input, with the number of rounds that it may take.
unfoldable pub walk : ℕ → List ℕ → Found → Result Error Found
unfolding on_chunk
walk (suc fuel) (b0 ∷ b1 ∷ b2 ∷ b3 ∷ n0 ∷ n1 ∷ n2 ∷ n3 ∷ rest) found =
    let size = min (le32 n0 n1 n2 n3) (length rest) in
    on_chunk b0 b1 b2 b3 (take size rest) found >>= walk fuel (drop (size + size % 2) rest)
walk zero (b0 ∷ b1 ∷ b2 ∷ b3 ∷ n0 ∷ n1 ∷ n2 ∷ n3 ∷ rest) found = err out_of_rounds
walk fuel input found = ok found
