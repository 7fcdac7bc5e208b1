-- ===== src/Reconnect/Strategy.antt =====
-- reconnect.go: which way of reconnecting is tried. The strategies are the values of the SFU's
-- protobuf enum, in its order.
use getstream_go_webrtc.Base.{
  ℕ, ◌-◌, ◌*◌, ◌≡◌, Bool, true, false, not, Option, none, some, ltb, if◌then◌else◌, arith,
}
use getstream_go_webrtc.Base.Int.{ℤ, pos, leb_ℤ, ltb_ℤ}
use getstream_go_webrtc.Reconnect.Config.{Config}

pub data Strategy : Type 0 where
  unspecified : Strategy
  disconnect : Strategy
  fast : Strategy
  rejoin : Strategy
  migrate : Strategy

unfoldable pub escalate : Strategy → Strategy
escalate disconnect = disconnect
escalate migrate = rejoin
escalate unspecified = disconnect
escalate fast = rejoin
escalate rejoin = rejoin

-- What the decision on a fast reconnect reads. A peer that is not there is `none`.
pub record Link : Type 0 where
  pub attempts : ℕ  -- fastReconnectAttempts
  pub deadline_seconds : ℕ  -- as the SFU sent it, 0 before
  pub disconnected_since : Option ℕ
  pub publisher_healthy : Option Bool
  pub subscriber_healthy : Option Bool

abbrev pub nanos_per_second : ℕ
nanos_per_second = 1000000000

unfoldable pub fast_reconnect_deadline : Config → Link → ℤ
fast_reconnect_deadline c l =
    if ltb 0 l.deadline_seconds
    then pos (l.deadline_seconds * nanos_per_second)
    else c.fast_deadline

abbrev is_late : ℤ → ℕ → Option ℕ → Bool
is_late deadline now none = false
is_late deadline now (some since) = ltb_ℤ deadline (pos (now - since))

abbrev is_up : Option Bool → Bool
is_up none = false
is_up (some healthy) = healthy

unfoldable pub can_fast_reconnect : Config → ℕ → Link → Bool
can_fast_reconnect c now l =
    if leb_ℤ c.max_fast_attempts (pos l.attempts)
    then false
    else if is_late (fast_reconnect_deadline c l) now l.disconnected_since
    then false
    else if not (is_up l.publisher_healthy)
    then false
    else is_up l.subscriber_healthy

unfoldable pub select : Config → ℕ → Link → Strategy → Strategy
select c now l fast = if can_fast_reconnect c now l then fast else rejoin
select c now l unspecified = unspecified
select c now l disconnect = disconnect
select c now l rejoin = rejoin
select c now l migrate = migrate

unfoldable pub consumes_budget : Strategy → Bool
consumes_budget rejoin = true
consumes_budget migrate = true
consumes_budget unspecified = false
consumes_budget disconnect = false
consumes_budget fast = false

-- A fast reconnect is tried only where it was asked for, the SFU still holds the session, both peer
-- connections are healthy, and the attempts are not used up; otherwise a rejoin takes its place.
pub select-fast :
    (c : Config) (now : ℕ) (l : Link) (requested : Strategy)
    → select c now l requested ≡ fast
    → (requested ≡ fast)
      × (ltb_ℤ (pos l.attempts) c.max_fast_attempts ≡ true)
      × ((since : ℕ)
          → l.disconnected_since ≡ some since
          → leb_ℤ (pos (now - since)) (fast_reconnect_deadline c l) ≡ true)
      × (l.publisher_healthy ≡ some true)
      × (l.subscriber_healthy ≡ some true)
unfolding select can_fast_reconnect
select-fast c now l requested e = ground arith
