-- ===== src/Signal/Tests.antt =====
-- The theorems on the signal connection at concrete connections.
use getstream_go_webrtc.Base.{◌+◌, ◌≡◌, ◌≢◌, refl, true, false, none, some, [], ◌∷◌, arith}
use getstream_go_webrtc.Signal.Connect.{
  World, Client, refused, connect, read_response, answered, read_loop_ends,
}
use getstream_go_webrtc.Signal.Connect.Sockets.{connect-Leaves}
use getstream_go_webrtc.Signal.Health.{default_options, Conn, ping, message, on_event, on_events}
use getstream_go_webrtc.Signal.Health.Silence.{silence_closes, unhealthy_closes}

abbrev client : Client
client = record {
  conn = some 3;
  next = 4;
  open_sockets = 3 ∷ [];
  loops = 3 ∷ [];
  detached = false;
  calls = [];
}

abbrev refusing : World
refusing = record {
  dials = true;
  writes = true;
  has_deadline = true;
  sets_deadline = true;
  reads = some refused;
  clears_deadline = true;
}

connect-Leaves_example :
    ((connect refusing client).1.open_sockets ≡ 3 ∷ [])
    × ((connect refusing client).1.loops ≡ 3 ∷ [])
    × ((connect refusing client).1.conn ≡ some 3)
unfolding connect read_response answered
connect-Leaves_example = connect-Leaves refusing client (omega arith)

-- The end of an old connection leaves the new one alone.
stale_end : (read_loop_ends 2 client).conn ≡ some 3
unfolding read_loop_ends
stale_end = refl

abbrev silent_conn : Conn
silent_conn = record { closed_at = none; deadline = 30000; last_health_check = 0 }

silence_closes_example :
    (on_event default_options 10000 ping (on_event default_options 5000 ping silent_conn)).closed_at
    ≡ some (5000 + 3000)
silence_closes_example =
    silence_closes default_options silent_conn 5000 10000 ping refl (omega arith) (omega arith)
      (omega arith)

unhealthy_closes_example :
    (on_event default_options 16000 ping (
      on_events default_options
        ((5000, ping) ∷ (6000, message false) ∷ (12000, message false) ∷ [])
        silent_conn)).closed_at
    ≢ none
unhealthy_closes_example =
    unhealthy_closes default_options silent_conn
      ((5000, ping) ∷ (6000, message false) ∷ (12000, message false) ∷ []) 16000
      (tt, (tt, (tt, tt))) (omega arith)
