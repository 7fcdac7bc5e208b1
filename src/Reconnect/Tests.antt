-- ===== src/Reconnect/Tests.antt =====
-- Reconnecting on small runs.
use getstream_go_webrtc.Base.{ℕ, ◌≤◌, ◌≡◌, refl, true, none, some, List, [], ◌∷◌, arith}
use getstream_go_webrtc.Base.Int.{pos}
use getstream_go_webrtc.RateLimit.{new}
use getstream_go_webrtc.RateLimit.Period.{within}
use getstream_go_webrtc.Reconnect.Strategy.{
  fast, Link, select, fast_reconnect_deadline, can_fast_reconnect,
}
use getstream_go_webrtc.Reconnect.Monitor.{
  Monitor, Round, Event, failed, down, up, set_strategy, connection_lost, connected, steps, link_of,
}
use getstream_go_webrtc.Reconnect.Config.{default_config}
use getstream_go_webrtc.Reconnect.Outage.{costly, outage_bounded}

abbrev start : Monitor
start = record {
  running = true;
  conn_state = connected;
  strategy = fast;
  disconnected_since = some 5;
  fast_attempts = 0;
  limiter = new (pos 2) 100;
  backoff = pos 10;
  reports = [];
}

abbrev round : ℕ → Round
round now = record {
  marked_at = now;
  checked_at = now;
  viable_at = now;
  evicted_at = now;
  allowed_at = now;
  deadline_seconds = 3;
  publisher_healthy = some true;
  subscriber_healthy = some true;
  ending = failed true;
  set_meanwhile = none;
}

abbrev events : List Event
events =
    up (connection_lost 6)
    ∷ down (round 10)
    ∷ down (round 20)
    ∷ down (round 30)
    ∷ set_strategy fast
    ∷ down (round 40)
    ∷ down (round 50)
    ∷ down (round 60)
    ∷ []

outage_bounded_example :
    within 100 60 (costly (steps default_config (pos 10) events start).reports) ≤ 2
outage_bounded_example =
    outage_bounded default_config (pos 10) events start 2 100 (omega arith) refl refl
      (
        omega arith,
        omega arith,
        (true, refl),
        (
          omega arith,
          omega arith,
          (true, refl),
          (
            omega arith,
            omega arith,
            (true, refl),
            (
              omega arith,
              omega arith,
              (true, refl),
              (
                omega arith,
                omega arith,
                (true, refl),
                (omega arith, omega arith, (true, refl), tt),
              ),
            ),
          ),
        ),
      )
      60

abbrev link : Link
link = link_of (round 10) start

select-link : select default_config 10 link fast ≡ fast
unfolding select can_fast_reconnect fast_reconnect_deadline
select-link = refl
