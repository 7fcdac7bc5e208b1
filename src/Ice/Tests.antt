-- ===== src/Ice/Tests.antt =====
-- ICE recovery on a run of failures with one timer.
use getstream_go_webrtc.Base.{◌+◌, ◌≤◌, refl, true, false, none, List, [], ◌∷◌, arith}
use getstream_go_webrtc.Ice.Recovery.{
  default_config, Recovery, Event, disconnected, failed, timer_clears, timer_restarts, steps,
}
use getstream_go_webrtc.Ice.Budget.{restarts, restarts_bounded}

abbrev fresh : Recovery
fresh = record {
  config = default_config;
  timer = none;
  timers_made = 0;
  attempts = 0;
  closed = false;
  acts = [];
}

abbrev events : List Event
events =
    disconnected
    ∷ timer_clears
    ∷ timer_restarts true
    ∷ failed true true
    ∷ failed true true
    ∷ disconnected
    ∷ timer_clears
    ∷ timer_restarts true
    ∷ []

restarts_bounded_example : restarts (steps events fresh).acts + 0 ≤ restarts [] + 2
restarts_bounded_example = restarts_bounded events fresh 2 refl (omega arith) (ground arith)
