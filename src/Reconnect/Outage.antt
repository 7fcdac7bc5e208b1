-- ===== src/Reconnect/Outage.antt =====
-- call.go: what the reconnect loop does over a whole outage.
use getstream_go_webrtc.Base.{
  ℕ, ◌+◌, ◌≤◌, ◌<◌, ◌≡◌, ◌⊎◌, inl, inr, refl, sym, ap, ◌∙◌, Bool, true, false, List, [], ◌∷◌, subst,
  subst₂, if◌then◌else◌, arith,
}
use getstream_go_webrtc.Base.Int.{ℤ, pos}
use getstream_go_webrtc.RateLimit.{SlidingWindow, new, allow}
use getstream_go_webrtc.RateLimit.Window.{IsBounded, allow-IsBounded}
use getstream_go_webrtc.RateLimit.Period.{within, All-later}
use getstream_go_webrtc.Reconnect.Config.{Config}
use getstream_go_webrtc.Reconnect.Strategy.{
  Strategy, unspecified, disconnect, fast, rejoin, migrate, select, consumes_budget,
}
use getstream_go_webrtc.Reconnect.Monitor.{
  Monitor, Report, Round, Signal, Event, attempted, failed, down, up, set_strategy, connecting,
  mark_disconnected, abandon, stop, conclude, attempt, budgeted, down_round, up_round, step, steps,
  at_least_fast, is_disconnect, is_over, link_of,
}

-- Rejoins and migrations make the SFU set up a session.
unfoldable pub is_costly : Strategy → Bool
is_costly rejoin = true
is_costly migrate = true
is_costly unspecified = false
is_costly disconnect = false
is_costly fast = false

is_costly-consumes_budget : (s : Strategy) → is_costly s ≡ consumes_budget s
unfolding is_costly consumes_budget
is_costly-consumes_budget rejoin = refl
is_costly-consumes_budget migrate = refl
is_costly-consumes_budget unspecified = refl
is_costly-consumes_budget disconnect = refl
is_costly-consumes_budget fast = refl

-- The times of the rejoins and migrations, the latest first.
unfoldable pub costly : List Report → List ℕ
unfolding is_costly
costly [] = []
costly (attempted s at ∷ rest) = let more = costly rest in if is_costly s then at ∷ more else more
costly (_ ∷ rest) = costly rest

-- An event that does not end the outage.
abbrev pub IsFailing : Event → Type 0
IsFailing (down r) = (retryable : Bool) × (r.ending ≡ failed retryable)
IsFailing (up s) = Unit
IsFailing (set_strategy s) = Unit

abbrev pub IsOutage : ℕ → List Event → Type 0
IsOutage last [] = Unit
IsOutage last (down r ∷ rest) =
    (last ≤ r.evicted_at)
    × (r.evicted_at ≤ r.allowed_at)
    × IsFailing (down r)
    × IsOutage r.allowed_at rest
IsOutage last (up s ∷ rest) = IsOutage last rest
IsOutage last (set_strategy s ∷ rest) = IsOutage last rest

-- `ts` are the events that a limiter with this limit and window counts, or has counted by `last`.
abbrev IsTracked : SlidingWindow → List ℕ → ℕ → ℕ → ℕ → Type 0
IsTracked s ts n w last =
    (old : List ℕ) × (s.window ≡ w)
    × IsBounded s n last old
    × ((t : ℕ) → within w t ts ≡ within w t old + within w t s.events)

later-IsTracked :
    (s : SlidingWindow) (ts : List ℕ) (n w a b : ℕ)
    → a ≤ b
    → IsTracked s ts n w a
    → IsTracked s ts n w b
later-IsTracked s ts n w a b le (old, e, (lim, gone, short, few), count) =
    (old, e, (lim, All-later s.window a b old le gone, short, few), count)

allow-IsTracked :
    (s : SlidingWindow) (ts : List ℕ) (n w last now at : ℕ)
    → 0 < n
    → last ≤ now
    → now ≤ at
    → IsTracked s ts n w last
    → let (ok, s') = allow now at s in IsTracked s' (if ok then at ∷ ts else ts) n w at
unfolding within
allow-IsTracked s ts n w last now at on le le' (old, e, b, count) =
    let (old', b', e', count') = allow-IsBounded s n last now at old on le le' b in
    (old', e' ∙ e, b', λ t. rw⁻¹ e (ground (arith, count t, count' t, e)))

-- What a pass does with the limiter: nothing, or one call of Allow that the attempt depends on.
abbrev IsCounted : Round → Monitor → Monitor → Type 0
IsCounted r m m' =
    let (ok, s') = allow r.evicted_at r.allowed_at m.limiter in
    ((m'.limiter ≡ m.limiter) × (costly m'.reports ≡ costly m.reports))
    ⊎ ((m'.limiter ≡ s')
        × (costly m'.reports ≡ (if ok then r.allowed_at ∷ costly m.reports else costly m.reports)))

module _ (c : Config) (initial : ℤ) (r : Round) (s : Strategy) (m : Monitor)
    (failing : IsFailing (down r)) where
  attempt_lem :
      let m' = attempt c initial r s m in
      (m'.limiter ≡ m.limiter)
      × (costly m'.reports
          ≡ (if is_costly s then r.allowed_at ∷ costly m.reports else costly m.reports))
  unfolding conclude costly
  attempt_lem = ground (arith, failing)

  budgeted_lem : IsCounted r m (budgeted c initial r s m)
  unfolding conclude costly abandon
  budgeted_lem = ground (arith, failing, is_costly-consumes_budget s)

if-IsCounted :
    (r : Round) (m a b : Monitor) (test : Bool)
    → IsCounted r m a
    → IsCounted r m b
    → IsCounted r m (if test then a else b)
if-IsCounted r m a b true h h' = h
if-IsCounted r m a b false h h' = h'

-- Marking the start of the outage leaves the limiter and the reports.
mark_disconnected_same :
    (now : ℕ) (m : Monitor)
    → let m' = mark_disconnected now (record m { conn_state = connecting }) in
      (m'.limiter ≡ m.limiter) × (m'.reports ≡ m.reports)
unfolding mark_disconnected
mark_disconnected_same now m = ground arith

same-IsCounted :
    (r : Round) (m m' a : Monitor)
    → m'.limiter ≡ m.limiter
    → m'.reports ≡ m.reports
    → IsCounted r m' a
    → IsCounted r m a
same-IsCounted r m m' a e f h = simp (e, f) at h

down_round-IsCounted :
    (c : Config) (initial : ℤ) (r : Round) (m : Monitor)
    → IsFailing (down r)
    → IsCounted r m (down_round c initial r m)
unfolding down_round abandon costly
down_round-IsCounted c initial r m failing =
    let m' : Monitor = mark_disconnected r.marked_at (record m { conn_state = connecting }) in
    let s : Strategy = select c r.viable_at (link_of r m') (at_least_fast m'.strategy) in
    let (e, f) = mark_disconnected_same r.marked_at m in
    same-IsCounted r m m' (down_round c initial r m) e f (
      if-IsCounted r m' (stop (abandon m'))
        (if is_disconnect m'.strategy then stop m' else budgeted c initial r s m')
        (is_over c r.checked_at m'.disconnected_since) (inl (refl, refl))
        (if-IsCounted r m' (stop m') (budgeted c initial r s m') (is_disconnect m'.strategy)
          (inl (refl, refl)) (budgeted_lem c initial r s m' failing)))

up_same :
    (s : Signal) (m : Monitor)
    → ((up_round s m).limiter ≡ m.limiter) × ((up_round s m).reports ≡ m.reports)
unfolding up_round mark_disconnected
up_same s m = ground arith

-- The monitor's attempts are those that its limiter counts.
abbrev IsFair : ℕ → ℕ → ℕ → Monitor → Type 0
IsFair n w last m = IsTracked m.limiter (costly m.reports) n w last

same-IsFair :
    (n w last : ℕ) (m : Monitor) {s : SlidingWindow} {ts : List ℕ}
    → m.limiter ≡ s
    → costly m.reports ≡ ts
    → IsTracked s ts n w last
    → IsFair n w last m
same-IsFair n w last m e f = subst₂ (λ s ts. IsTracked s ts n w last) (sym e) (sym f)

counted-IsFair :
    (r : Round) (m m' : Monitor) (n w last : ℕ)
    → 0 < n
    → last ≤ r.evicted_at
    → r.evicted_at ≤ r.allowed_at
    → IsFair n w last m
    → IsCounted r m m'
    → IsFair n w r.allowed_at m'
counted-IsFair r m m' n w last on le le' fair (inl (e, f)) =
    same-IsFair n w r.allowed_at m' e f
      (later-IsTracked m.limiter (costly m.reports) n w last r.allowed_at (omega arith) fair)
counted-IsFair r m m' n w last on le le' fair (inr (e, f)) =
    same-IsFair n w r.allowed_at m' e f (
      allow-IsTracked m.limiter (costly m.reports) n w last r.evicted_at r.allowed_at on le le'
        fair)

if-IsFair :
    (n w last : ℕ) (test : Bool) (a b : Monitor)
    → IsFair n w last a
    → IsFair n w last b
    → IsFair n w last (if test then a else b)
if-IsFair n w last true a b h h' = h
if-IsFair n w last false a b h h' = h'

steps-IsTracked :
    (c : Config) (initial : ℤ) (es : List Event) (m : Monitor) (n w last : ℕ)
    → 0 < n
    → IsOutage last es
    → IsTracked m.limiter (costly m.reports) n w last
    → (end : ℕ) × (let m' = steps c initial es m in
        IsTracked m'.limiter (costly m'.reports) n w end)
unfolding steps step
steps-IsTracked c initial [] m n w last on outage tr = (last, tr)
steps-IsTracked c initial (down r ∷ es) m n w last on (le, le', failing, outage) tr =
    steps-IsTracked c initial es (step c initial (down r) m) n w r.allowed_at on outage (
      if-IsFair n w r.allowed_at m.running (down_round c initial r m) m
        (counted-IsFair r m (down_round c initial r m) n w last on le le' tr
          (down_round-IsCounted c initial r m failing))
        (later-IsTracked m.limiter (costly m.reports) n w last r.allowed_at (omega arith) tr))
steps-IsTracked c initial (up s ∷ es) m n w last on outage tr =
    steps-IsTracked c initial es (step c initial (up s) m) n w last on outage (
      if-IsFair n w last m.running (up_round s m) m
        (same-IsFair n w last (up_round s m) (up_same s m).0 (ap costly (up_same s m).1) tr) tr)
steps-IsTracked c initial (set_strategy s ∷ es) m n w last on outage tr =
    steps-IsTracked c initial es (step c initial (set_strategy s) m) n w last on outage tr

-- While no attempt succeeds, no period of the limiter's window holds more rejoins and migrations
-- than its limit, whatever the SFU asks for and however the attempts fail.
pub outage_bounded :
    (c : Config) (initial : ℤ) (es : List Event) (m : Monitor) (n w : ℕ)
    → 0 < n
    → m.limiter ≡ new (pos n) w
    → m.reports ≡ []
    → IsOutage 0 es
    → (t : ℕ) → within w t (costly (steps c initial es m).reports) ≤ n
unfolding costly within
outage_bounded c initial es m n w on fresh none_yet outage t =
    let start : IsTracked (new (pos n) w) [] n w 0 =
      ([], refl, (refl, tt, omega arith, λ t. omega arith), λ t. omega arith) in
    let first : IsFair n w 0 m = same-IsFair n w 0 m fresh (ap costly none_yet) start in
    let (end, (old, e, (lim, gone, short, few), count)) =
      steps-IsTracked c initial es m n w 0 on outage first in
    let total : (t : ℕ) → within w t old + within w t (steps c initial es m).limiter.events ≤ n =
      subst (λ v. (t : ℕ) → within v t old + within v t (steps c initial es m).limiter.events ≤ n) e
        few in
    omega (arith, total t, count t)
