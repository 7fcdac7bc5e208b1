-- ===== src/Call/FirstJoin/Backoff.antt =====
-- call.go: how long and how often the first join is retried.
use getstream_go_webrtc.Base.{
  ℕ, zero, suc, ◌+◌, ◌≤◌, Bool, true, false, not, List, [], ◌∷◌, arith, if◌then◌else◌,
}
use getstream_go_webrtc.Base.Result.{Result, ok, err}
use getstream_go_webrtc.Reconnect.Strategy.{Strategy}
use getstream_go_webrtc.Call.FirstJoin.{
  JoinError, is_join_error_retryable, Round, Action, waited, asked, joining, Outcome, returned,
  after, next_backoff, attempt, rounds, retry_first_join,
}

abbrev pub time_waited : List Action → ℕ
time_waited [] = 0
time_waited (waited d ∷ actions) = d + time_waited actions
time_waited (asked s ∷ actions) = time_waited actions
time_waited (joining strategy edge ∷ actions) = time_waited actions

abbrev pub joins : List Action → ℕ
joins [] = 0
joins (waited d ∷ actions) = joins actions
joins (asked s ∷ actions) = joins actions
joins (joining strategy edge ∷ actions) = suc (joins actions)

-- The longest that the waits of some rounds can take together
abbrev pub longest : ℕ → ℕ → ℕ
longest zero backoff = 0
longest (suc left) backoff = backoff + longest left (next_backoff backoff)

abbrev Bounded : ℕ → ℕ → Outcome → Type 0
Bounded time n out = (time_waited out.actions ≤ time) × (joins out.actions ≤ n)

either_Bounded :
    (b : Bool) (x y : Outcome) (time n : ℕ)
    → Bounded time n x
    → Bounded time n y
    → Bounded time n (if b then x else y)
either_Bounded true x y time n h h' = h
either_Bounded false x y time n h h' = h'

attempt-Bounded :
    (credentials joined : Result JoinError ℕ) (done : Bool) (strategy : Strategy) (edge time n : ℕ)
    (later : ℕ → JoinError → Outcome)
    → ((target : ℕ) (e : JoinError) → Bounded time n (later target e))
    → Bounded time (suc n) (
        attempt
          (record { done = done; strategy = strategy; credentials = credentials; joined = joined })
          edge
          later)
attempt-Bounded (err e) joined done strategy edge time n later h =
    (omega (arith, (h edge e).0), omega (arith, (h edge e).1))
attempt-Bounded (ok target) (ok response) done strategy edge time n later h =
    (omega arith, omega arith)
attempt-Bounded (ok target) (err e) done strategy edge time n later h =
    (omega (arith, (h target e).0), omega (arith, (h target e).1))

rounds-Bounded :
    (world : ℕ → Round) (left i backoff edge : ℕ) (last : JoinError)
    → Bounded (longest left backoff) left (rounds world left i backoff edge last)
unfolding rounds
rounds-Bounded world zero i backoff edge last = (omega arith, omega arith)
rounds-Bounded world (suc left) i backoff edge last =
    let time : ℕ = longest (suc left) backoff in
    let later : ℕ → JoinError → Outcome = rounds world left (i + 1) (next_backoff backoff) in
    let try_now : Outcome = after (waited backoff ∷ []) (attempt (world i) edge later) in
    either_Bounded (not (is_join_error_retryable last)) (returned (err last) [])
      (if (world i).done then returned (err last) [] else try_now) time (suc left)
      (omega arith, omega arith)
      (either_Bounded (world i).done (returned (err last) []) try_now time (suc left)
        (omega arith, omega arith)
        (let now : Round = world i in
          let (t, j) =
            attempt-Bounded now.credentials now.joined now.done now.strategy edge
              (longest left (next_backoff backoff)) left later
              (rounds-Bounded world left (i + 1) (next_backoff backoff)) in
          (omega (arith, t), j)))

-- The first join is tried again at most 20 times, and all waits together take at most 14.27 seconds.
pub retries_bounded_in_time :
    (world : ℕ → Round) (edge : ℕ) (first : JoinError)
    → (time_waited (retry_first_join world edge first).actions ≤ 14270)
      × (joins (retry_first_join world edge first).actions ≤ 20)
unfolding retry_first_join
retries_bounded_in_time world edge first = rounds-Bounded world 20 0 10 edge first
