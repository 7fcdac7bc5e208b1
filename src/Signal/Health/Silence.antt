-- ===== src/Signal/Health/Silence.antt =====
-- When a connection to a silent SFU is closed.
use getstream_go_webrtc.Base.{
  ℕ, ◌+◌, ◌-◌, ◌≤◌, ◌<◌, ◌≡◌, ◌≢◌, refl, true, false, none, some, List, [], ◌∷◌, arith, inl, inr,
  Option-cases,
}
use getstream_go_webrtc.Signal.Health.{
  Options, Conn, Event, ping, message, expired, on_ping, on_message, on_open, on_event, on_events,
}

expired-early : (now : ℕ) (c : Conn) → now < c.deadline → expired now c ≡ c
unfolding expired
expired-early now c early = ground arith

expired-late : (now : ℕ) (c : Conn) → c.deadline ≤ now → (expired now c).closed_at ≡ some c.deadline
unfolding expired
expired-late now c late = ground arith

on_ping-healthy :
    (o : Options) (now : ℕ) (c : Conn)
    → now - c.last_health_check ≤ o.health_check_timeout
    → on_ping o now c ≡ record c { deadline = now + 3000 }
unfolding on_ping
on_ping-healthy o now c healthy = ground arith

on_event-early :
    (o : Options) (now : ℕ) (e : Event) (c : Conn)
    → c.closed_at ≡ none
    → now < c.deadline
    → on_event o now e c ≡ on_open o now e c
unfolding on_event
on_event-early o now e c open_ early = ground (arith, expired-early now c early)

on_event-late :
    (o : Options) (now : ℕ) (e : Event) (c : Conn)
    → c.closed_at ≡ none
    → c.deadline ≤ now
    → (on_event o now e c).closed_at ≡ some c.deadline
unfolding on_event
on_event-late o now e c open_ late = ground (arith, expired-late now c late)

-- Whatever the timeout for health checks is: when a ping was sent and nothing has come by three seconds
-- later, the connection is closed then, before whatever happens next.
pub silence_closes :
    (o : Options) (c : Conn) (sent next : ℕ) (e : Event)
    → c.closed_at ≡ none
    → sent < c.deadline
    → sent - c.last_health_check ≤ o.health_check_timeout
    → sent + 3000 ≤ next
    → (on_event o next e (on_event o sent ping c)).closed_at ≡ some (sent + 3000)
unfolding on_open
silence_closes o c sent next e open_ early healthy late =
    rw (on_event-early o sent ping c open_ early, on_ping-healthy o sent c healthy)
      (on_event-late o next e (record c { deadline = sent + 3000 }) open_ late)

-- No event of the list is a health check response.
abbrev pub IsUnhealthy : Event → Type 0
IsUnhealthy ping = Unit
IsUnhealthy (message true) = ⊥
IsUnhealthy (message false) = Unit

abbrev pub AreUnhealthy : List (ℕ × Event) → Type 0
AreUnhealthy [] = Unit
AreUnhealthy ((now, e) ∷ es) = IsUnhealthy e × AreUnhealthy es

expired-last : (now : ℕ) (c : Conn) → (expired now c).last_health_check ≡ c.last_health_check
unfolding expired
expired-last now c = ground arith

on_open-last :
    (o : Options) (now : ℕ) (e : Event) (c : Conn)
    → IsUnhealthy e
    → (on_open o now e c).last_health_check ≡ c.last_health_check
unfolding on_open on_ping on_message
on_open-last o now ping c sick = ground arith
on_open-last o now (message false) c sick = refl
on_open-last o now (message true) c sick = absurd sick

on_event-last :
    (o : Options) (now : ℕ) (e : Event) (c : Conn)
    → IsUnhealthy e
    → (on_event o now e c).last_health_check ≡ c.last_health_check
unfolding on_event
on_event-last o now e c sick =
    ground (arith, expired-last now c, on_open-last o now e (expired now c) sick)

on_ping-overdue :
    (o : Options) (now : ℕ) (c : Conn)
    → o.health_check_timeout < now - c.last_health_check
    → (on_ping o now c).closed_at ≡ some now
unfolding on_ping
on_ping-overdue o now c overdue = ground arith

on_event-overdue :
    (o : Options) (now : ℕ) (c : Conn)
    → o.health_check_timeout < now - c.last_health_check
    → (on_event o now ping c).closed_at ≢ none
unfolding on_event on_open
on_event-overdue o now c overdue none_yet = elim (Option-cases c.closed_at) [
  | inr (time, over) ↦ ground arith
  | inl open_ ↦ elim (Option-cases (expired now c).closed_at) [
    | inr (time, failed) ↦ ground arith
    | inl reads ↦ ground (arith, on_ping-overdue o now (expired now c), expired-last now c)
  ]
]

-- However many messages come, if none of them is a health check response, the first ping after the timeout
-- finds the connection closed or closes it.
pub unhealthy_closes :
    (o : Options) (c : Conn) (es : List (ℕ × Event)) (now : ℕ)
    → AreUnhealthy es
    → o.health_check_timeout < now - c.last_health_check
    → (on_event o now ping (on_events o es c)).closed_at ≢ none
unfolding on_events
unhealthy_closes o c [] now sick overdue = on_event-overdue o now c overdue
unhealthy_closes o c ((time, e) ∷ es) now (sick, later) overdue =
    unhealthy_closes o (on_event o time e c) es now later
      (rw (on_event-last o time e c sick) overdue)
