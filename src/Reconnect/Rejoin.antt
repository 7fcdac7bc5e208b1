-- ===== src/Reconnect/Rejoin.antt =====
-- call.go: what the reconnect loop tries once a first attempt has failed.
use getstream_go_webrtc.Base.{
  ℕ, ◌≡◌, refl, sym, ap, ◌∙◌, subst, subst₂, Bool, true, false, none, List, [], ◌∷◌, if◌then◌else◌,
  arith, All,
}
use getstream_go_webrtc.Base.Int.{ℤ}
use getstream_go_webrtc.RateLimit.{allow}
use getstream_go_webrtc.Reconnect.Config.{Config}
use getstream_go_webrtc.Reconnect.Strategy.{Strategy, rejoin, escalate, select, consumes_budget}
use getstream_go_webrtc.Reconnect.Monitor.{
  Monitor, Report, Round, attempted, abandoned, unretryable, slept, failed, down, up, set_strategy,
  connecting, mark_disconnected, abandon, stop, conclude, attempt, budgeted, down_round, step,
  steps, at_least_fast, is_disconnect, is_over, link_of, Event,
}

-- A pass of the loop that fails while nobody asks for anything.
abbrev pub IsLonely : Event → Type 0
IsLonely (down r) = ((retryable : Bool) × (r.ending ≡ failed retryable)) × (r.set_meanwhile ≡ none)
IsLonely _ = ⊥

abbrev pub IsRejoin : Report → Type 0
IsRejoin (attempted s at) = s ≡ rejoin
IsRejoin unretryable = Unit
IsRejoin abandoned = Unit
IsRejoin (slept d) = Unit

-- All attempts were rejoins, and so is the next one.
abbrev pub IsRejoining : Monitor → Type 0
IsRejoining m = (m.running ≡ true → m.strategy ≡ rejoin) × All IsRejoin m.reports

if-IsRejoining :
    (test : Bool) (a b : Monitor)
    → IsRejoining a
    → IsRejoining b
    → IsRejoining (if test then a else b)
if-IsRejoining true a b h h' = h
if-IsRejoining false a b h h' = h'

conclude-IsRejoining :
    (c : Config) (initial : ℤ) (retryable : Bool) (m : Monitor)
    → m.strategy ≡ rejoin
    → All IsRejoin m.reports
    → IsRejoining (conclude c initial (failed retryable) none m)
unfolding conclude escalate
conclude-IsRejoining c initial true m e h = (λ on. ap escalate e, (tt, h))
conclude-IsRejoining c initial false m e h = (λ on. ap escalate e, (tt, (tt, h)))

attempt-IsRejoining :
    (c : Config) (initial : ℤ) (r : Round) (m : Monitor)
    → IsLonely (down r)
    → m.strategy ≡ rejoin
    → IsRejoining m
    → IsRejoining (attempt c initial r rejoin m)
attempt-IsRejoining c initial r m ((retryable, failing), unset) e h =
    let m' : Monitor = record m { reports = attempted rejoin r.allowed_at ∷ m.reports } in
    subst₂ (λ x y. IsRejoining (conclude c initial x y m')) (sym failing) (sym unset)
      (conclude-IsRejoining c initial retryable m' e (refl, h.1))

budgeted-IsRejoining :
    (c : Config) (initial : ℤ) (r : Round) (m : Monitor)
    → IsLonely (down r)
    → m.strategy ≡ rejoin
    → IsRejoining m
    → IsRejoining (budgeted c initial r rejoin m)
unfolding consumes_budget abandon
budgeted-IsRejoining c initial r m lonely e h =
    let (ok, limiter') = allow r.evicted_at r.allowed_at m.limiter in
    let m' : Monitor = record m { limiter = limiter' } in
    if-IsRejoining ok (attempt c initial r rejoin m') (stop (abandon m'))
      (attempt-IsRejoining c initial r m' lonely e h) (λ on. absurd (ground arith), (tt, h.1))

marked :
    (now : ℕ) (m : Monitor)
    → let m' = mark_disconnected now (record m { conn_state = connecting }) in
      (m'.strategy ≡ m.strategy) × (m'.running ≡ m.running) × (m'.reports ≡ m.reports)
unfolding mark_disconnected
marked now m = ground arith

chosen :
    (c : Config) (r : Round) (m : Monitor)
    → m.strategy ≡ rejoin
    → select c r.viable_at (link_of r m) (at_least_fast m.strategy) ≡ rejoin
unfolding select
chosen c r m e = simp e refl

down_round-IsRejoining :
    (c : Config) (initial : ℤ) (r : Round) (m : Monitor)
    → IsLonely (down r)
    → m.strategy ≡ rejoin
    → IsRejoining m
    → IsRejoining (down_round c initial r m)
unfolding down_round abandon
down_round-IsRejoining c initial r m lonely e h =
    let m' : Monitor = mark_disconnected r.marked_at (record m { conn_state = connecting }) in
    let (e', running', reports') = marked r.marked_at m in
    let next : Strategy = select c r.viable_at (link_of r m') (at_least_fast m'.strategy) in
    let h' : IsRejoining m' = (λ on. e' ∙ e, subst (All IsRejoin) (sym reports') h.1) in
    let ended : (b : Bool) → IsRejoining (stop m') = λ b. (λ on. absurd (ground arith), h'.1) in
    if-IsRejoining (is_over c r.checked_at m'.disconnected_since) (stop (abandon m'))
      (if is_disconnect m'.strategy then stop m' else budgeted c initial r next m')
      (λ on. absurd (ground arith), (tt, h'.1))
      (if-IsRejoining (is_disconnect m'.strategy) (stop m') (budgeted c initial r next m')
        (ended true)
        (subst (λ s. IsRejoining (budgeted c initial r s m')) (sym (chosen c r m' (e' ∙ e)))
          (budgeted-IsRejoining c initial r m' lonely (e' ∙ e) h')))

if_running :
    (c : Config) (initial : ℤ) (r : Round) (m : Monitor) (on : Bool)
    → m.running ≡ on
    → IsLonely (down r)
    → IsRejoining m
    → IsRejoining (if on then down_round c initial r m else m)
if_running c initial r m true e lonely h = down_round-IsRejoining c initial r m lonely (h.0 e) h
if_running c initial r m false e lonely h = h

-- Once the loop has come to rejoining, and while every attempt fails and nobody asks for anything,
-- every attempt that it makes is a rejoin, and as long as it runs the next one is.
pub steps-IsRejoining :
    (c : Config) (initial : ℤ) (es : List Event) (m : Monitor)
    → All IsLonely es
    → IsRejoining m
    → IsRejoining (steps c initial es m)
unfolding steps step
steps-IsRejoining c initial [] m lonely h = h
steps-IsRejoining c initial (down r ∷ es) m (now, later) h =
    steps-IsRejoining c initial es (step c initial (down r) m) later
      (if_running c initial r m m.running refl now h)
steps-IsRejoining c initial (up s ∷ es) m (bad, later) h = absurd bad
steps-IsRejoining c initial (set_strategy s ∷ es) m (bad, later) h = absurd bad
