-- ===== src/Audio/Rtc/Tests.antt =====
-- The theorems on track readers and writers at concrete ones, and runs of the code.
use getstream_go_webrtc.Base.{
  ℕ, ◌+◌, ◌-◌, ◌≡◌, refl, true, false, none, some, List, [], ◌∷◌, ◌++◌, map, take, drop, replicate,
  length, arith,
}
use getstream_go_webrtc.Base.Int.{pos}
use getstream_go_webrtc.Red.Packet.{Packet}
use getstream_go_webrtc.Audio.Pcm.{Pcm, len}
use getstream_go_webrtc.Audio.Format.{s16}
use getstream_go_webrtc.Audio.Rtc.Reader
use getstream_go_webrtc.Audio.Rtc.Reader.{
  Timed, pts_of, frame_ticks, handle_all, handle, new_rtp_reader, read, append, conceal_frames,
  conceal_gap, decoded, after_gap, read_packet,
}
use getstream_go_webrtc.Audio.Rtc.Reader.Gaps.{Decodes}
use getstream_go_webrtc.Audio.Rtc.Reader.Frames.{times, starts_from}
use getstream_go_webrtc.Audio.Rtc.Reader.Continuous.{no_frame_missing}
use getstream_go_webrtc.Audio.Rtc.Writer
use getstream_go_webrtc.Audio.Rtc.Writer.{
  QueuedFrame, TrackWriter, leveled, levels_of, write, new_track_writer,
}
use getstream_go_webrtc.Audio.Rtc.Writer.Levels.{with_stretches}
use getstream_go_webrtc.Audio.Rtc.Writer.Queue.{played, heard, silent, newest_heard}

-- A decoder whose buffers are numbers: 0 for concealed audio, else one more than the payload's length
abbrev measuring : Reader.Opus (Unit {0}) ℕ
measuring = record {
  decode_frame = λ payload dec. some (length payload + 1, tt);
  conceal_frame = λ dec. some (1, tt);
  reset_decoder = λ dec. tt;
  frame_duration = 20000000;
  is_empty = λ pcm. false;
}

abbrev measuring-Decodes : Decodes measuring
measuring-Decodes = record {
  decodes = λ payload dec. (length payload + 1, tt, refl, refl);
  conceals = λ dec. (1, tt, refl, refl);
}

abbrev packet : ℕ → ℕ → Packet
packet seq ts = record {
  seq = seq;
  ts = ts;
  payload_type = 111;
  marker = false;
  ssrc = 1;
  payload = 1 ∷ 2 ∷ [];
}

abbrev reader : Reader.Reader (Unit {0}) ℕ
reader = record {
  dec = tt;
  red = none;
  conceals = true;
  max_conceal = 25;
  clock_rate = 48000;
  pending = [];
  expected_seq = 0;
  have_seq = false;
  base_timestamp = 0;
  have_base = false;
}

made : new_rtp_reader measuring tt false 0 false (pos 0) ≡ reader
unfolding new_rtp_reader
made = refl

-- Two frames are lost, and the sequence numbers wrap.
no_frame_missing_example :
    let done =
      handle_all measuring (packet 65534 500 ∷ packet 65535 1460 ∷ packet 2 4340 ∷ []) reader in
    (done.0 ≡ true) × (times done.1.pending ≡ starts_from 48000 (frame_ticks measuring reader) 0 5)
unfolding frame_ticks
no_frame_missing_example =
    no_frame_missing measuring measuring-Decodes reader (packet 65534 500)
      (packet 65535 1460 ∷ packet 2 4340 ∷ []) (0 ∷ 2 ∷ []) refl refl refl refl (omega arith)
      (omega arith) (omega arith) ((refl, refl), omega arith, ((refl, refl), omega arith, tt))
      (omega arith)

abbrev deaf : Reader.Opus (Unit {0}) ℕ
deaf = record measuring { decode_frame = λ payload dec. none }

-- A malformed first packet is put a day late.
malformed_first : times (handle deaf (packet 9 500) reader).1.pending ≡ 89478465333333 ∷ []
unfolding handle decoded conceal_gap conceal_frames append pts_of frame_ticks
malformed_first = refl

-- An encoder that makes a packet of each sample
abbrev sampling : Writer.Opus (Unit {0})
sampling = record {
  encode_pcm = λ pcm enc. (some (map (λ x. 1 ∷ []) pcm.s16_samples), tt);
  flush = λ enc. (some [], tt);
  reset_encoder = λ enc. tt;
  frame_duration = 20000000;
  loudness = λ pcm. some (pos 30);
}

abbrev writer : TrackWriter (Unit {0})
writer = record {
  enc = tt;
  frame_duration = 20000000;
  max_frames = 2;
  silence = 0 ∷ [];
  queue = record { packet = 9 ∷ []; level = 12 } ∷ [];
  closed = false;
  level = 127;
}

abbrev two_samples : Pcm
two_samples = record {
  format = s16;
  sample_rate = 50;
  channels = 1;
  pts = pos 0;
  s16_samples = pos 1 ∷ pos 2 ∷ [];
  f32_samples = [];
}

newest_heard_example :
    let all : List QueuedFrame =
      writer.queue
      ++ with_stretches (λ pcm. some (pos 30)) 1 two_samples 0 ((1 ∷ []) ∷ (1 ∷ []) ∷ []) in
    played 3 (write sampling two_samples writer).1
    ≡ take 3 (map heard (drop (length all - 2) all) ++ replicate 3 (silent writer))
unfolding len
newest_heard_example =
    newest_heard sampling 3 two_samples ((1 ∷ []) ∷ (1 ∷ []) ∷ []) writer refl refl refl
      (omega arith) (omega arith) (omega arith)
