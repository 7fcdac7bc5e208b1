-- ===== src/Track/Tests.antt =====
-- The theorems on tracks at concrete tracks, and runs of the code.
use getstream_go_webrtc.Base.{
  ℕ, ◌+◌, ◌%◌, ◌^◌, ◌<◌, ◌≡◌, refl, true, false, none, some, [], ◌∷◌, map, arith,
}
use getstream_go_webrtc.Base.Int.{pos, negsuc}
use getstream_go_webrtc.Base.Result.{ok, err}
use getstream_go_webrtc.Track.Clock.{
  Sample, SampleClock, new_clock, ticks, place, place_lasting, begun, target, wall_target, settled,
  out_of_order_sample, invalid_duration_sample, add32, sub32,
}
use getstream_go_webrtc.Track.Placing.{dropped_ticks, place_after}
use getstream_go_webrtc.Track.Write.{
  Pion, Binding, Layer, read_rtcp, on_rtcp, reports_on, receiver_report, picture_loss_indication,
}
use getstream_go_webrtc.Track.Stamping.{Keeps}
use getstream_go_webrtc.Track.Timeline.{IsSpaced, Follows, write_all, timestamps_followed}
use getstream_go_webrtc.Track.Local.{
  new_local, on_event, on_events, binds, starts, unbinds, ends, closes, close, on_bind, on_unbind,
  on_close, stop_pump_locked, ended, start_pump_locked, start_write, bind, bind_attached,
  bind_locked, bind_provider, unbind, unbind_locked, replaced,
}
use getstream_go_webrtc.Track.Local.Reading.{IsOwned, one_reader}
use getstream_go_webrtc.Track.Local.Overtaken.{overtaken, waiting, start_during_bind}

-- A video frame of 40 milliseconds
abbrev pub frame : ℕ → Sample
frame at = record {
  payload = 1 ∷ 2 ∷ [];
  duration = pos 40000000;
  prev_dropped_packets = 0;
  packet_timestamp = at;
  timestamp = none;
}

abbrev running : SampleClock
running = record { started = true; start = 1000; end = 4600; wall = none }

frame_ticks : ticks 40000000 90000 ≡ 3600
unfolding ticks
frame_ticks = refl

-- A sample that overlaps the one before it is moved to its end.
overlapping :
    place running (frame 2000) 90000
    ≡ ok (
      record { skip = 0; span = 3600 },
      record { started = true; start = 4600; end = 8200; wall = none },
    )
unfolding place place_lasting ticks begun target wall_target settled
overlapping = refl

out_of_order : place running (frame 999) 90000 ≡ err out_of_order_sample
unfolding place place_lasting ticks begun target wall_target settled
out_of_order = refl

negative :
    place running (record (frame 1) { duration = negsuc 0 }) 90000 ≡ err invalid_duration_sample
unfolding place place_lasting ticks begun target wall_target settled
negative = refl

place_after_example :
    (gap : ℕ) × (gap < 2 ^ 31)
    × (0 ≡ add32 (dropped_ticks (frame 2000) 3600) gap)
    × (4600 ≡ add32 4600 0)
    × (8200 ≡ add32 4600 3600)
place_after_example =
    place_after running (frame 2000) 90000 (record { skip = 0; span = 3600 })
      (record { started = true; start = 4600; end = 8200; wall = none }) refl (omega arith)
      (omega arith) overlapping

-- A packetizer that is its place on the timeline, and packets that are their timestamps
abbrev counting : Pion ℕ ℕ
counting = record {
  next_sequence_number = λ s. s;
  skip_samples = λ n s. s + n;
  packetize = λ payload n s. (s % 2 ^ 32 ∷ [], s + n);
  set_extension = λ i text pkt. some pkt;
  marshal_level = λ level. some (level ∷ []);
  write_rtp = λ pkt. true;
}

counting_skip : (n s : ℕ) → (s + n) % 2 ^ 32 ≡ add32 (s % 2 ^ 32) n
counting_skip n s = omega arith

counting_bound : (s : ℕ) → s % 2 ^ 32 < 2 ^ 32
counting_bound s = omega arith

same_packet : (pkt q : ℕ) → some pkt ≡ some q → q ≡ pkt
same_packet pkt q e = ground arith

abbrev counting-Keeps : Keeps counting
counting-Keeps = record {
  position = λ s. s % 2 ^ 32;
  time = λ pkt. pkt;
  position_bound = counting_bound;
  number_position = λ s. refl;
  skip_position = counting_skip;
  packetize_position = λ payload n s some_payload. counting_skip n s;
  packetize_time = λ payload n s. (refl, tt);
  extension_time = λ i text pkt q e. same_packet pkt q e;
}

abbrev high : Layer
high = record { rid = b'f' ∷ []; mid = some (b'0' ∷ []) }

abbrev bound : Binding ℕ
bound = record {
  ssrc = 7;
  audio_level_id = 0;
  mid_id = 3;
  rid_id = 4;
  acked = false;
  packetizer = 77;
  clock_rate = 90000;
  clock = new_clock;
}

spaced : IsSpaced 90000 10000 (add32 10000 3600) (frame 13600 ∷ frame 20000 ∷ [])
unfolding ticks
spaced = (
  (omega arith, refl, omega arith, omega arith),
  omega arith,
  omega arith,
  ((omega arith, refl, omega arith, omega arith), omega arith, omega arith, tt),
)

timestamps_followed_example :
    Follows counting counting-Keeps high
      (sub32 77 10000)
      (frame 10000 ∷ frame 13600 ∷ frame 20000 ∷ [])
      (write_all counting high none bound (frame 10000 ∷ frame 13600 ∷ frame 20000 ∷ [])).0
unfolding ticks
timestamps_followed_example =
    timestamps_followed counting counting-Keeps high none bound (frame 10000)
      (frame 13600 ∷ frame 20000 ∷ []) refl (omega arith, refl, omega arith, omega arith) spaced

acknowledged :
    (read_rtcp true
      (some (receiver_report (5 ∷ 7 ∷ []) ∷ picture_loss_indication ∷ []) ∷ [])
      bound).1.acked
    ≡ true
unfolding read_rtcp on_rtcp reports_on
acknowledged = refl

-- A track that is bound, changes its provider and is closed
one_reader_example :
    IsOwned (on_events (starts true 1 ∷ binds true true ∷ starts true 2 ∷ ends 1 ∷ []) new_local)
unfolding on_event start_write bind bind_attached bind_locked bind_provider start_pump_locked
    replaced stop_pump_locked ended
one_reader_example =
    one_reader (starts true 1 ∷ binds true true ∷ starts true 2 ∷ ends 1 ∷ [])
      (tt, (refl, (tt, (tt, tt))))

calls_of_life :
    (on_events
      (starts true 1 ∷ binds true true ∷ starts true 2 ∷ unbinds true ∷ closes ∷ [])
      new_local).calls
    ≡ on_bind 1 ∷ on_bind 2 ∷ on_unbind 1 ∷ on_unbind 2 ∷ on_close 2 ∷ []
unfolding on_events on_event start_write bind bind_attached bind_locked bind_provider
    start_pump_locked replaced stop_pump_locked ended unbind unbind_locked close
calls_of_life = refl

start_during_bind_example :
    let both = overtaken 2 (waiting (some 1) 0 []) in
    (map (λ loop. loop.reads) both.loops ≡ 2 ∷ 2 ∷ [])
    × ((close both).loops ≡ record { pump = 0; reads = 2 } ∷ [])
start_during_bind_example = start_during_bind 2 0 (some 1) [] refl
