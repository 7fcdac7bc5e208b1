-- ===== src/Call/FirstJoin.antt =====
-- call.go: the first join and its retries. The coordinator, the SFU, the context and the strategy that
-- an SFU sets meanwhile are inputs, one record for each round. Durations are in milliseconds; the name
-- of an SFU is a number, and no name is `none`.
pub mod Backoff
pub mod Settles
use getstream_go_webrtc.Base.{
  ℕ, zero, suc, ◌+◌, ◌-◌, ◌*◌, min, Bool, true, false, not, Option, none, some, List, [], ◌∷◌, ◌++◌,
  ltb, if◌then◌else◌, set, take,
}
use getstream_go_webrtc.Base.Result.{Result, ok, err}
use getstream_go_webrtc.Reconnect.Strategy.{Strategy, rejoin, migrate}

-- What errors.Is and errors.As find in an error of a join
pub record JoinError : Type 0 where
  pub deadline_exceeded : Bool
  pub canceled : Bool
  pub network : Bool
  pub handshake_status : Option ℕ
  pub coordinator_should_retry : Option Bool
  pub from_sfu : Bool

unfoldable pub is_join_error_retryable : JoinError → Bool
is_join_error_retryable e =
    if e.deadline_exceeded
    then true
    else if e.canceled
    then false
    else if e.network
    then true
    else elim e.handshake_status [
      | some status ↦ ltb 500 status
      | none ↦ elim e.coordinator_should_retry [ some again ↦ again | none ↦ e.from_sfu ]
    ]

-- What a round meets: whether the context is done before the backoff is over, the strategy set by
-- then, the SFU that the coordinator gives, and how the join of it ends.
pub record Round : Type 0 where
  pub done : Bool
  pub strategy : Strategy
  pub credentials : Result JoinError ℕ
  pub joined : Result JoinError ℕ

pub data Action : Type 0 where
  waited : ℕ → Action
  asked : Option ℕ → Action
  joining : Strategy → ℕ → Action

pub record Outcome : Type 0 where
  pub result : Result JoinError ℕ
  pub actions : List Action

abbrev pub returned : Result JoinError ℕ → List Action → Outcome
returned result actions = record { result = result; actions = actions }

abbrev pub after : List Action → Outcome → Outcome
after actions later = record later { actions = actions ++ later.actions }

-- Only a migration names the SFU to leave out; every other strategy becomes a rejoin.
abbrev pub excluded : Strategy → ℕ → Option ℕ
excluded migrate edge = some edge
excluded _ edge = none

abbrev pub join_strategy : Strategy → Strategy
join_strategy migrate = migrate
join_strategy _ = rejoin

abbrev pub next_backoff : ℕ → ℕ
next_backoff backoff = min (2 * backoff) 1000

-- A round once the backoff is over; `later` takes the SFU and the last error on to the next round.
abbrev pub attempt : Round → ℕ → (ℕ → JoinError → Outcome) → Outcome
attempt now edge later =
    let ask = asked (excluded now.strategy edge) in
    elim now.credentials [
      | err e ↦ after (ask ∷ []) (later edge e)
      | ok target ↦
          let join = joining (join_strategy now.strategy) edge in
          elim now.joined [
            | ok response ↦ returned (ok response) (ask ∷ join ∷ [])
            | err e ↦ after (ask ∷ join ∷ []) (later target e)
          ]
    ]

-- The loop of `retryFirstJoin`, with the rounds that are left and the number of the next one
unfoldable pub rounds : (ℕ → Round) → ℕ → ℕ → ℕ → ℕ → JoinError → Outcome
unfolding is_join_error_retryable
rounds world zero i backoff edge last = returned (err last) []
rounds world (suc left) i backoff edge last =
    let later = rounds world left (i + 1) (next_backoff backoff) in
    if not (is_join_error_retryable last)
    then returned (err last) []
    else if (world i).done
    then returned (err last) []
    else after (waited backoff ∷ []) (attempt (world i) edge later)

unfoldable pub retry_first_join : (ℕ → Round) → ℕ → JoinError → Outcome
unfolding rounds
retry_first_join world edge first = rounds world 20 0 10 edge first
