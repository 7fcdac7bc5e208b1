-- ===== src/Audio/BufferTests.antt =====
-- Buffers, chunks, streams and WAV files on a few samples.
use getstream_go_webrtc.Base.{ℕ, ◌≡◌, refl, false, List, [], ◌∷◌, arith}
use getstream_go_webrtc.Base.Int.{ℤ, pos, negsuc}
use getstream_go_webrtc.Base.Result.{Result, ok, ◌>>=◌}
use getstream_go_webrtc.Audio.Words.{write_f32}
use getstream_go_webrtc.Audio.Format.{Format, s16, f32, Error, validate}
use getstream_go_webrtc.Audio.Pcm.{Pcm, empty, with_s16, with_f32, from_bytes, bytes, len}
use getstream_go_webrtc.Audio.Chunk.{chunks}
use getstream_go_webrtc.Audio.Chunk.Cover.{joined, joined-chunks}
use getstream_go_webrtc.Audio.Stream.{padded, from_byte_seq, collect}
use getstream_go_webrtc.Audio.Stream.Conserve.{collect-from_byte_seq}
use getstream_go_webrtc.Audio.Stream.Padding.{concat}
use getstream_go_webrtc.Audio.Wav.{write_wav, nothing_found, walk}
use getstream_go_webrtc.Audio.Wav.Decode.{read_wav}
use getstream_go_webrtc.Audio.Wav.Walk.{LoopsTo, walk_ends}
use getstream_go_webrtc.Audio.Wav.Roundtrip.{read_wav-write_wav}

abbrev stereo : Pcm
stereo =
    with_s16 (pos 1 ∷ negsuc 0 ∷ pos 300 ∷ negsuc 299 ∷ pos 32767 ∷ negsuc 32767 ∷ [])
      (empty s16 48000 2)

abbrev floats : Pcm
floats = with_f32 (0x3F800000 ∷ 0 ∷ 0xBF000000 ∷ []) (empty f32 16000 1)

abbrev in_pieces : List (List ℕ)
in_pieces = (1 ∷ []) ∷ (0 ∷ 2 ∷ 0 ∷ 3 ∷ []) ∷ [] ∷ (1 ∷ []) ∷ []

abbrev narrow_to_zero : ℕ → ℤ
narrow_to_zero v = pos 0

abbrev widen_to_zero : ℤ → ℕ
widen_to_zero v = 0

abbrev keep_rate : Format → ℕ → ℕ → Pcm → Result Error Pcm
keep_rate f r c p = ok p

joined-chunks_example : joined (chunks 2 0 false stereo) ≡ bytes stereo
unfolding len
joined-chunks_example = joined-chunks 2 stereo (omega arith) refl

collect-from_byte_seq_example :
    collect narrow_to_zero widen_to_zero keep_rate (from_byte_seq in_pieces s16 48000 2)
    ≡ from_bytes (padded 4 (concat in_pieces)) s16 48000 2
unfolding concat validate
collect-from_byte_seq_example =
    collect-from_byte_seq narrow_to_zero widen_to_zero keep_rate s16 48000 2 refl in_pieces
      (omega arith)

read_wav-write_wav_example : (write_wav floats >>= read_wav (λ bits. 0)) ≡ ok floats
unfolding validate bytes write_f32
read_wav-write_wav_example =
    read_wav-write_wav (λ bits. 0) floats
      (refl, refl, tt, ground arith, (λ e. absurd (ground arith)), (λ e. refl))
      (omega arith, omega arith, omega arith)

walk_ends_example :
    LoopsTo
      (100 ∷ 97 ∷ 116 ∷ 97 ∷ 0 ∷ 0 ∷ 0 ∷ 0 ∷ 1 ∷ [])
      nothing_found
      (walk 29 (100 ∷ 97 ∷ 116 ∷ 97 ∷ 0 ∷ 0 ∷ 0 ∷ 0 ∷ 1 ∷ []) nothing_found)
walk_ends_example = walk_ends 20 (100 ∷ 97 ∷ 116 ∷ 97 ∷ 0 ∷ 0 ∷ 0 ∷ 0 ∷ 1 ∷ []) nothing_found
