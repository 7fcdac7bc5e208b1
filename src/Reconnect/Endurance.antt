-- ===== src/Reconnect/Endurance.antt =====
-- call.go: when the reconnect loop gives up, and what it tries.
use getstream_go_webrtc.Base.{
  ℕ, ◌-◌, ◌<◌, ◌≡◌, ◌≢◌, ◌⊎◌, inr, refl, ap, ◌∙◌, Bool, true, false, ◌||◌, Option, none, some, List,
  [], ◌∷◌, if◌then◌else◌, arith, All,
}
use getstream_go_webrtc.Base.Int.{ℤ, pos}
use getstream_go_webrtc.RateLimit.{allow}
use getstream_go_webrtc.Reconnect.Config.{Config, next_backoff}
use getstream_go_webrtc.Reconnect.Strategy.{
  Strategy, unspecified, disconnect, rejoin, escalate, select, consumes_budget,
}
use getstream_go_webrtc.Reconnect.Monitor.{
  Monitor, Report, Ending, Round, Signal, Event, attempted, abandoned, unretryable, slept, failed,
  down, up, set_strategy, connecting, mark_disconnected, mark_connected, abandon, stop, conclude,
  attempt, budgeted, down_round, up_round, step, steps, at_least_fast, is_disconnect, is_over,
  link_of,
}

-- The call has not been told to disconnect, and has not given up.
abbrev pub IsLive : Monitor → Type 0
IsLive m = (m.strategy ≢ disconnect) × (m.strategy ≢ unspecified)

-- Nobody asks for the call to end.
abbrev pub IsPatient : Event → Type 0
IsPatient (down r) = r.set_meanwhile ≢ some disconnect
IsPatient (up s) = Unit
IsPatient (set_strategy s) = s ≢ disconnect

abbrev pub is_abandoned : Report → Bool
is_abandoned abandoned = true
is_abandoned (attempted s at) = false
is_abandoned unretryable = false
is_abandoned (slept d) = false

unfoldable pub gave_up : List Report → Bool
gave_up [] = false
gave_up (r ∷ rs) = is_abandoned r || gave_up rs

conclude_lem :
    (c : Config) (initial : ℤ) (e : Ending) (set : Option Strategy) (m : Monitor)
    → set ≢ some disconnect
    → IsLive m
    → let m' = conclude c initial e set m in
      IsLive m' × (m'.running ≡ m.running) × (gave_up m'.reports ≡ gave_up m.reports)
unfolding conclude mark_connected escalate gave_up
conclude_lem c initial e set m patient live = ground arith

-- The loop runs on with something to try, or it gave up.
abbrev pub IsSettled : Monitor → Type 0
IsSettled m = ((m.running ≡ true) × IsLive m) ⊎ (gave_up m.reports ≡ true)

if-IsSettled :
    (test : Bool) (a b : Monitor) → IsSettled a → IsSettled b → IsSettled (if test then a else b)
if-IsSettled true a b h h' = h
if-IsSettled false a b h h' = h'

attempt-IsSettled :
    (c : Config) (initial : ℤ) (r : Round) (s : Strategy) (m : Monitor)
    → IsPatient (down r)
    → IsSettled m
    → IsSettled (attempt c initial r s m)
unfolding conclude mark_connected escalate gave_up
attempt-IsSettled c initial r s m patient h = ground arith

budgeted-IsSettled :
    (c : Config) (initial : ℤ) (r : Round) (s : Strategy) (m : Monitor)
    → IsPatient (down r)
    → IsSettled m
    → IsSettled (budgeted c initial r s m)
unfolding abandon gave_up
budgeted-IsSettled c initial r s m patient h =
    let (ok, limiter') = allow r.evicted_at r.allowed_at m.limiter in
    let m' : Monitor = record m { limiter = limiter' } in
    if-IsSettled (consumes_budget s) (if ok then attempt c initial r s m' else stop (abandon m'))
      (attempt c initial r s m)
      (if-IsSettled ok (attempt c initial r s m') (stop (abandon m'))
        (attempt-IsSettled c initial r s m' patient h) (inr refl))
      (attempt-IsSettled c initial r s m patient h)

mark_disconnected-IsSettled :
    (now : ℕ) (m : Monitor)
    → IsSettled m
    → IsSettled (mark_disconnected now (record m { conn_state = connecting }))
unfolding mark_disconnected
mark_disconnected-IsSettled now m h = ground arith

stop-IsSettled :
    (m m' : Monitor)
    → IsSettled m
    → IsSettled m'
    → IsSettled (if is_disconnect m.strategy then stop m else m')
stop-IsSettled m m' h h' = ground arith

down_round-IsSettled :
    (c : Config) (initial : ℤ) (r : Round) (m : Monitor)
    → IsPatient (down r)
    → IsSettled m
    → IsSettled (down_round c initial r m)
unfolding down_round abandon gave_up
down_round-IsSettled c initial r m patient h =
    let m' : Monitor = mark_disconnected r.marked_at (record m { conn_state = connecting }) in
    let s : Strategy = select c r.viable_at (link_of r m') (at_least_fast m'.strategy) in
    let h' : IsSettled m' = mark_disconnected-IsSettled r.marked_at m h in
    if-IsSettled (is_over c r.checked_at m'.disconnected_since) (stop (abandon m'))
      (if is_disconnect m'.strategy then stop m' else budgeted c initial r s m') (inr refl)
      (stop-IsSettled m' (budgeted c initial r s m') h'
        (budgeted-IsSettled c initial r s m' patient h'))

up_round-IsSettled : (s : Signal) (m : Monitor) → IsSettled m → IsSettled (up_round s m)
unfolding up_round mark_disconnected
up_round-IsSettled s m h = ground arith

step-IsSettled :
    (c : Config) (initial : ℤ) (e : Event) (m : Monitor)
    → IsPatient e
    → IsSettled m
    → IsSettled (step c initial e m)
unfolding step
step-IsSettled c initial (down r) m patient h =
    if-IsSettled m.running (down_round c initial r m) m
      (down_round-IsSettled c initial r m patient h) h
step-IsSettled c initial (up s) m patient h =
    if-IsSettled m.running (up_round s m) m (up_round-IsSettled s m h) h
step-IsSettled c initial (set_strategy s) m patient h = ground arith

-- The loop never ends by itself but by giving up: as long as nobody asks for the call to end, either
-- it still runs and its next strategy is a way of connecting, or it has reported that it gave up.
pub steps-IsSettled :
    (c : Config) (initial : ℤ) (es : List Event) (m : Monitor)
    → All IsPatient es
    → IsSettled m
    → IsSettled (steps c initial es m)
unfolding steps
steps-IsSettled c initial [] m patient h = h
steps-IsSettled c initial (e ∷ es) m patient h =
    steps-IsSettled c initial es (step c initial e m) patient.1
      (step-IsSettled c initial e m patient.0 h)

-- A failed attempt of any kind is followed by a rejoin, unless the SFU asks for something else, and
-- the wait before it is the next backoff.
pub failed_attempt_lem :
    (c : Config) (initial : ℤ) (r : Round) (s : Strategy) (m : Monitor) (retryable : Bool)
    → IsLive m
    → r.ending ≡ failed retryable
    → r.set_meanwhile ≡ none
    → let m' = attempt c initial r s m in
      (m'.strategy ≡ rejoin)
      × (m'.backoff ≡ next_backoff c m.backoff)
      × (m'.running ≡ m.running)
      × (m'.disconnected_since ≡ m.disconnected_since)
unfolding conclude escalate
failed_attempt_lem c initial r s m retryable live failing unset = ground arith

if_true : (test : Bool) (a b : Monitor) → test ≡ true → (if test then a else b) ≡ a
if_true true a b e = refl
if_true false a b e = absurd (ground arith)

-- The start of an outage is kept.
mark_disconnected_again :
    (now since : ℕ) (m : Monitor)
    → m.disconnected_since ≡ some since
    → mark_disconnected now (record m { conn_state = connecting })
      ≡ record m { conn_state = connecting }
unfolding mark_disconnected
mark_disconnected_again now since m e = ground arith

-- A call that has been disconnected for longer than its budget makes no further attempt, reports it
-- and ends.
pub overdue_lem :
    (c : Config) (initial : ℤ) (r : Round) (m : Monitor) (since limit : ℕ)
    → m.disconnected_since ≡ some since
    → c.disconnection_timeout ≡ pos limit
    → 0 < limit
    → limit < r.checked_at - since
    → let m' = down_round c initial r m in
      (m'.running ≡ false) × (m'.strategy ≡ disconnect) × (m'.reports ≡ abandoned ∷ m.reports)
unfolding down_round abandon
overdue_lem c initial r m since limit e f on late =
    let m' : Monitor = mark_disconnected r.marked_at (record m { conn_state = connecting }) in
    let s : Strategy = select c r.viable_at (link_of r m') (at_least_fast m'.strategy) in
    let same = mark_disconnected_again r.marked_at since m e in
    let over : is_over c r.checked_at m'.disconnected_since ≡ true =
      ap (λ x. is_over c r.checked_at x.disconnected_since) same ∙ ground arith in
    let ends : down_round c initial r m ≡ stop (abandon m') =
      if_true (is_over c r.checked_at m'.disconnected_since) (stop (abandon m'))
        (if is_disconnect m'.strategy then stop m' else budgeted c initial r s m') over in
    (
      ap Monitor.running ends,
      ap Monitor.strategy ends,
      ap Monitor.reports ends ∙ ap (λ x. abandoned ∷ x.reports) same,
    )
