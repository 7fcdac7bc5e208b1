-- ===== src/Ice/Recovery.antt =====
-- ice_recovery.go: `iceRecovery`. Each method is one step under its lock; the timer's function takes
-- the lock twice, so it is two steps, between which others may come. What the restart returned is an
-- input. Calls of `restart` and `escalate` are recorded.
use getstream_go_webrtc.Base.{
  ℕ, suc, Bool, true, false, Option, none, some, List, [], ◌∷◌, if◌then◌else◌,
}
use getstream_go_webrtc.Base.Int.{ℤ, pos, leb_ℤ}

pub record Config : Type 0 where
  pub restart_delay : ℤ  -- DisconnectedRestartDelay, in nanoseconds
  pub max_restarts : ℤ  -- MaxRestartsWithoutRecovery

abbrev pub default_config : Config
default_config = record { restart_delay = pos 2500000000; max_restarts = pos 2 }

unfoldable pub with_defaults : Config → Config
with_defaults c = record {
  restart_delay =
      if leb_ℤ c.restart_delay (pos 0) then default_config.restart_delay else c.restart_delay;
  max_restarts =
      if leb_ℤ c.max_restarts (pos 0) then default_config.max_restarts else c.max_restarts;
}

pub data Act : Type 0 where
  restarted : Act
  escalated : Act

-- `timer` is the number of the armed timer; `acts` is what was called, the latest first.
pub record Recovery : Type 0 where
  pub config : Config
  pub timer : Option ℕ
  pub timers_made : ℕ
  pub attempts : ℕ
  pub closed : Bool
  pub acts : List Act

abbrev pub new_recovery : Config → Recovery
new_recovery c = record {
  config = with_defaults c;
  timer = none;
  timers_made = 0;
  attempts = 0;
  closed = false;
  acts = [];
}

abbrev pub stop_timer : Recovery → Recovery
stop_timer r = record r { timer = none }

unfoldable pub on_connected : Recovery → Recovery
on_connected r = record (stop_timer r) { attempts = 0 }

abbrev pub arm : Option ℕ → Recovery → Recovery
arm none r = record r { timer = some r.timers_made; timers_made = suc r.timers_made }
arm (some id) r = r

unfoldable pub on_disconnected : Recovery → Recovery
on_disconnected r = if r.closed then r else arm r.timer r

-- `restart_ok` is whether the restart, if it is tried, returns no error.
unfoldable pub try_restart : Bool → Recovery → Recovery
try_restart restart_ok r =
    if r.closed
    then r
    else if leb_ℤ r.config.max_restarts (pos r.attempts)
    then record r { acts = escalated ∷ r.acts }
    else record r {
      attempts = suc r.attempts;
      acts = if restart_ok then restarted ∷ r.acts else escalated ∷ restarted ∷ r.acts;
    }

unfoldable pub on_failed : Bool → Bool → Recovery → Recovery
on_failed ever_connected restart_ok r =
    let r' = stop_timer r in
    if ever_connected then try_restart restart_ok r' else record r' { acts = escalated ∷ r'.acts }

unfoldable pub close : Recovery → Recovery
close r = stop_timer (record r { closed = true })

pub data Event : Type 0 where
  connected : Event
  disconnected : Event
  failed : Bool → Bool → Event  -- HasEverConnected, and the restart's success
  timer_clears : Event  -- the timer's function, its first half
  timer_restarts : Bool → Event  -- its second half
  closes : Event

unfoldable pub step : Event → Recovery → Recovery
step connected r = on_connected r
step disconnected r = on_disconnected r
step (failed ever restart_ok) r = on_failed ever restart_ok r
step timer_clears r = stop_timer r
step (timer_restarts restart_ok) r = try_restart restart_ok r
step closes r = close r

unfoldable pub steps : List Event → Recovery → Recovery
steps [] r = r
steps (e ∷ es) r = steps es (step e r)
