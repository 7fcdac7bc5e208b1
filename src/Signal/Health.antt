-- ===== src/Signal/Health.antt =====
-- signal/client.go: pingHandler and readLoop on one connection, as steps with their times, in
-- milliseconds. The socket fails a read at its deadline. What the SFU sends is an input; what cannot be
-- decoded counts as no health check response.
pub mod Silence
use getstream_go_webrtc.Base.{
  ℕ, ◌+◌, ◌-◌, Bool, true, false, Option, none, some, List, [], ◌∷◌, ltb, leb, if◌then◌else◌,
}

pub record Options : Type 0 where
  pub health_check_interval : ℕ
  pub health_check_timeout : ℕ
  pub read_timeout : ℕ

abbrev pub default_options : Options
default_options = record {
  health_check_interval = 5000;
  health_check_timeout = 15000;
  read_timeout = 30000;
}

abbrev positive : ℕ → ℕ → ℕ
positive value kept = if ltb 0 value then value else kept

-- `WithHealthCheck` and `WithReadTimeout`; what is not positive is 0
abbrev pub with_health_check : ℕ → ℕ → Options → Options
with_health_check interval timeout o = record o {
  health_check_interval = positive interval o.health_check_interval;
  health_check_timeout = positive timeout o.health_check_timeout;
}

abbrev pub with_read_timeout : ℕ → Options → Options
with_read_timeout timeout o = record o { read_timeout = positive timeout o.read_timeout }

-- A connection: when it was closed, if it was, until when a read may wait, and when the SFU last
-- answered a health check
pub record Conn : Type 0 where
  pub closed_at : Option ℕ
  pub deadline : ℕ
  pub last_health_check : ℕ

-- A tick of the pings, or a message
pub data Event : Type 0 where
  ping : Event
  message : Bool → Event  -- whether it is a health check response

-- The start of `readLoop`
abbrev pub new_conn : Options → ℕ → Conn
new_conn o now = record {
  closed_at = none;
  deadline = now + o.read_timeout;
  last_health_check = now;
}

abbrev close_at : ℕ → Conn → Conn
close_at now c = record c { closed_at = some now }

-- A read that has come to its deadline fails, and the loop closes the connection.
unfoldable pub expired : ℕ → Conn → Conn
expired now c = if leb c.deadline now then close_at c.deadline c else c

-- A turn of `pingHandler`
unfoldable pub on_ping : Options → ℕ → Conn → Conn
on_ping o now c =
    if ltb o.health_check_timeout (now - c.last_health_check)
    then close_at now c
    else record c { deadline = now + 3000 }

-- A turn of the loop of `readLoop`, with the deadline of the next
unfoldable pub on_message : Options → ℕ → Bool → Conn → Conn
on_message o now is_health c = record c {
  deadline = now + o.read_timeout;
  last_health_check = if is_health then now else c.last_health_check;
}

unfoldable pub on_open : Options → ℕ → Event → Conn → Conn
on_open o now ping c = on_ping o now c
on_open o now (message is_health) c = on_message o now is_health c

abbrev pub is_open : Option ℕ → Bool
is_open none = true
is_open (some time) = false

-- What happens at a time; a connection that is closed stays so.
unfoldable pub on_event : Options → ℕ → Event → Conn → Conn
on_event o now e c =
    let c' = expired now c in
    if is_open c.closed_at then (if is_open c'.closed_at then on_open o now e c' else c') else c

unfoldable pub on_events : Options → List (ℕ × Event) → Conn → Conn
unfolding on_event
on_events o [] c = c
on_events o ((now, e) ∷ es) c = on_events o es (on_event o now e c)
