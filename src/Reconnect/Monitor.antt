-- ===== src/Reconnect/Monitor.antt =====
-- call.go: `monitorHealth`, one pass of its loop at a time, and what sets its strategy from outside.
-- The reconnection itself is a parameter: how it ended. Times are nanoseconds.
use getstream_go_webrtc.Base.{
  ℕ, ◌+◌, ◌-◌, ◌%◌, ◌^◌, Bool, true, false, ◌&&◌, Option, none, some, List, [], ◌∷◌, if◌then◌else◌,
}
use getstream_go_webrtc.Base.Int.{ℤ, pos, ltb_ℤ}
use getstream_go_webrtc.RateLimit.{SlidingWindow, allow, reset}
use getstream_go_webrtc.Reconnect.Config.{Config, next_backoff}
use getstream_go_webrtc.Reconnect.Strategy.{
  Strategy, unspecified, disconnect, fast, rejoin, migrate, Link, escalate, select, consumes_budget,
}

pub data ConnState : Type 0 where
  connecting : ConnState
  connected : ConnState
  disconnected : ConnState

pub data Report : Type 0 where
  attempted : Strategy → ℕ → Report  -- when its budget was taken
  unretryable : Report  -- the error of an attempt
  abandoned : Report
  slept : ℤ → Report

-- `reports` is what the loop did, the latest first; `running` is false once it has ended.
pub record Monitor : Type 0 where
  pub running : Bool
  pub conn_state : ConnState
  pub strategy : Strategy  -- nextReconnectStrategy
  pub disconnected_since : Option ℕ
  pub fast_attempts : ℕ  -- uint32
  pub limiter : SlidingWindow
  pub backoff : ℤ
  pub reports : List Report

pub data Ending : Type 0 where
  succeeded : Ending
  failed : Bool → Ending  -- whether the error is retryable

-- What one pass without a connection meets: its readings of the clock, the two peer connections,
-- how the attempt ends, and the strategy that the SFU sets while it runs.
pub record Round : Type 0 where
  pub marked_at : ℕ
  pub checked_at : ℕ
  pub viable_at : ℕ
  pub evicted_at : ℕ
  pub allowed_at : ℕ
  pub deadline_seconds : ℕ
  pub publisher_healthy : Option Bool
  pub subscriber_healthy : Option Bool
  pub ending : Ending
  pub set_meanwhile : Option Strategy

unfoldable pub mark_disconnected : ℕ → Monitor → Monitor
mark_disconnected now m = elim m.disconnected_since [
  | none ↦ record m { disconnected_since = some now }
  | some since ↦ m
]

unfoldable pub mark_connected : Monitor → Monitor
mark_connected m = record m {
  disconnected_since = none;
  fast_attempts = 0;
  limiter = reset m.limiter;
}

-- The loop ends: its deferred function runs.
abbrev pub stop : Monitor → Monitor
stop m = record m { running = false; conn_state = disconnected }

unfoldable pub abandon : Monitor → Monitor
abandon m = record m { strategy = disconnect; reports = abandoned ∷ m.reports }

abbrev pub is_over : Config → ℕ → Option ℕ → Bool
is_over c now none = false
is_over c now (some since) =
    ltb_ℤ (pos 0) c.disconnection_timeout && ltb_ℤ c.disconnection_timeout (pos (now - since))

abbrev pub link_of : Round → Monitor → Link
link_of r m = record {
  attempts = m.fast_attempts;
  deadline_seconds = r.deadline_seconds;
  disconnected_since = m.disconnected_since;
  publisher_healthy = r.publisher_healthy;
  subscriber_healthy = r.subscriber_healthy;
}

abbrev pub at_least_fast : Strategy → Strategy
at_least_fast unspecified = rejoin
at_least_fast disconnect = rejoin
at_least_fast fast = fast
at_least_fast rejoin = rejoin
at_least_fast migrate = migrate

abbrev pub is_fast : Strategy → Bool
is_fast fast = true
is_fast unspecified = false
is_fast disconnect = false
is_fast rejoin = false
is_fast migrate = false

abbrev pub is_disconnect : Strategy → Bool
is_disconnect disconnect = true
is_disconnect unspecified = false
is_disconnect fast = false
is_disconnect rejoin = false
is_disconnect migrate = false

abbrev pub or_set : Option Strategy → Strategy → Strategy
or_set none s = s
or_set (some t) s = if is_unspecified t then s else t
  where
    is_unspecified : Strategy → Bool
    is_unspecified unspecified = true
    is_unspecified disconnect = false
    is_unspecified fast = false
    is_unspecified rejoin = false
    is_unspecified migrate = false

-- What follows the attempt.
unfoldable pub conclude : Config → ℤ → Ending → Option Strategy → Monitor → Monitor
conclude c initial succeeded set m =
    let m' = mark_connected (record m { strategy = or_set set m.strategy }) in
    record m' { conn_state = connected; backoff = initial }
conclude c initial (failed retryable) set m =
    let told = if retryable then m.reports else unretryable ∷ m.reports in
    record m {
      reports = slept m.backoff ∷ told;
      backoff = next_backoff c m.backoff;
      strategy = escalate (or_set set m.strategy);
    }

abbrev pub attempt : Config → ℤ → Round → Strategy → Monitor → Monitor
attempt c initial r s m =
    let m' = record m {
      fast_attempts = if is_fast s then (m.fast_attempts + 1) % 2 ^ 32 else m.fast_attempts;
      reports = attempted s r.allowed_at ∷ m.reports;
    } in
    conclude c initial r.ending r.set_meanwhile m'

-- The budget of the expensive strategies is asked for before the attempt.
abbrev pub budgeted : Config → ℤ → Round → Strategy → Monitor → Monitor
budgeted c initial r s m =
    if consumes_budget s
    then (let (ok, limiter') = allow r.evicted_at r.allowed_at m.limiter in
        let m' = record m { limiter = limiter' } in
        if ok then attempt c initial r s m' else stop (abandon m'))
    else attempt c initial r s m

-- A pass while there is no connection. `initial` is the call's `reconnectBackoff`.
unfoldable pub down_round : Config → ℤ → Round → Monitor → Monitor
down_round c initial r m =
    let m' = mark_disconnected r.marked_at (record m { conn_state = connecting }) in
    if is_over c r.checked_at m'.disconnected_since
    then stop (abandon m')
    else if is_disconnect m'.strategy
    then stop m'
    else budgeted c initial r (select c r.viable_at (link_of r m') (at_least_fast m'.strategy)) m'

pub data Signal : Type 0 where
  connection_lost : ℕ → Signal
  migrate_requested : Signal
  poll : Signal

-- A pass while there is a connection.
unfoldable pub up_round : Signal → Monitor → Monitor
up_round s m =
    if is_disconnect m.strategy
    then stop m
    else let m' = record m { strategy = fast } in
      elim s [
        | connection_lost now ↦ mark_disconnected now (record m' { conn_state = connecting })
        | migrate_requested ↦ record m' { strategy = migrate; conn_state = connecting }
        | poll ↦ m'
      ]

pub data Event : Type 0 where
  down : Round → Event
  up : Signal → Event
  set_strategy : Strategy → Event  -- setReconnectStrategyAndDisconnect

unfoldable pub step : Config → ℤ → Event → Monitor → Monitor
step c initial (down r) m = if m.running then down_round c initial r m else m
step c initial (up s) m = if m.running then up_round s m else m
step c initial (set_strategy s) m = record m { strategy = or_set (some s) m.strategy }

unfoldable pub steps : Config → ℤ → List Event → Monitor → Monitor
steps c initial [] m = m
steps c initial (e ∷ es) m = steps c initial es (step c initial e m)
