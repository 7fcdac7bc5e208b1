-- ===== src/Ice/Budget.antt =====
-- ice_recovery.go: how often ICE is restarted before the call is told to reconnect.
use getstream_go_webrtc.Base.{
  ℕ, suc, ◌+◌, ◌≤◌, ◌<◌, ◌≡◌, ◌≢◌, ◌⊎◌, refl, Bool, true, false, List, [], ◌∷◌, ap, ◌∙◌, All, arith,
}
use getstream_go_webrtc.Base.Int.{pos}
use getstream_go_webrtc.Ice.Recovery.{
  Act, restarted, escalated, Recovery, on_connected, on_disconnected, try_restart, on_failed, close,
  Event, connected, step, steps,
}

abbrev is_restarted : Act → ℕ
is_restarted restarted = 1
is_restarted escalated = 0

unfoldable pub restarts : List Act → ℕ
restarts [] = 0
restarts (a ∷ as') = is_restarted a + restarts as'

-- The connection does not come back.
abbrev pub IsDown : Event → Type 0
IsDown e = e ≢ connected

step_lem :
    (e : Event) (r : Recovery) (n : ℕ)
    → r.config.max_restarts ≡ pos n
    → e ≢ connected
    → let r' = step e r in
      (r'.config ≡ r.config)
      × (restarts r'.acts + r.attempts ≡ restarts r.acts + r'.attempts)
      × (r.attempts ≤ n → r'.attempts ≤ n)
      × (r.closed ≡ true → r'.attempts ≡ r.attempts)
unfolding step on_connected on_disconnected on_failed try_restart close restarts
step_lem e r n lim down = ground arith

-- Between two times that the connection is up, ICE is restarted at most as often as configured,
-- whichever failures, disconnections and timers come, and in which order.
pub restarts_bounded :
    (es : List Event) (r : Recovery) (n : ℕ)
    → r.config.max_restarts ≡ pos n
    → r.attempts ≤ n
    → All IsDown es
    → restarts (steps es r).acts + r.attempts ≤ restarts r.acts + n
unfolding steps
restarts_bounded [] r n lim le down = omega arith
restarts_bounded (e ∷ es) r n lim le (now, later) =
    let (same, moved, stays, _) = step_lem e r n lim now in
    let ih =
      restarts_bounded es (step e r) n (ap (λ c. c.max_restarts) same ∙ lim) (stays le) later in
    omega (arith, ih, moved)

-- A failure of a connection that was up before makes one restart while the budget lasts, and when it
-- is used up asks for a reconnect; one that never was up asks for a reconnect at once.
pub on_failed_lem :
    (ever restart_ok : Bool) (r : Recovery) (n : ℕ)
    → r.closed ≡ false
    → r.config.max_restarts ≡ pos n
    → let r' = on_failed ever restart_ok r in
      ((ever ≡ true)
        × (r.attempts < n)
        × (r'.attempts ≡ suc r.attempts)
        × (restarts r'.acts ≡ suc (restarts r.acts)))
      ⊎ ((ever ≡ true)
          × (n ≤ r.attempts)
          × (r'.attempts ≡ r.attempts)
          × (r'.acts ≡ escalated ∷ r.acts))
      ⊎ ((ever ≡ false) × (r'.attempts ≡ r.attempts) × (r'.acts ≡ escalated ∷ r.acts))
unfolding on_failed try_restart restarts
on_failed_lem ever restart_ok r n is_open lim = ground arith

step_closed :
    (e : Event) (r : Recovery)
    → r.closed ≡ true
    → ((step e r).closed ≡ true) × (restarts (step e r).acts ≡ restarts r.acts)
unfolding step on_connected on_disconnected on_failed try_restart close restarts
step_closed e r c = ground arith

-- Once closed, ICE is never restarted again.
pub closed_lem :
    (es : List Event) (r : Recovery)
    → r.closed ≡ true
    → ((steps es r).closed ≡ true) × (restarts (steps es r).acts ≡ restarts r.acts)
unfolding steps
closed_lem [] r c = (c, refl)
closed_lem (e ∷ es) r c =
    let (c', same) = step_closed e r c in
    let ih = closed_lem es (step e r) c' in (ih.0, ih.1 ∙ same)
