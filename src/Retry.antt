-- ===== src/Retry.antt =====
-- internal/rtretry/round_tripper_retryer.go: requests that are sent again. The transport, the
-- request's context and its body are parameters: what they answer in each attempt. Durations are in
-- nanoseconds, with the overflow of an int64.
mod Attempts
mod Answers
mod Wait
mod Tests
use getstream_go_webrtc.Base.{
  ℕ, zero, suc, ◌+◌, ◌-◌, ◌*◌, ◌/◌, ◌%◌, ◌^◌, ◌<◌, min, max, ap, Bool, true, false, not, ◌&&◌, ◌||◌,
  Option, none, some, List, [], ◌∷◌, ◌++◌, ltb, leb, ◌==◌, if◌then◌else◌,
}
use getstream_go_webrtc.Base.Int.{ℤ, pos, negsuc}

-- What errors.Is, errors.As and the regular expressions say of an error of the transport.
pub record UrlError : Type 0 where
  pub stopped_redirects : Bool
  pub unsupported_scheme : Bool
  pub not_trusted : Bool
  pub unknown_authority : Bool

pub record Failure : Type 0 where
  pub max_attempts : Bool
  pub url_error : Option UrlError

-- What errors RoundTrip returns: the transport's, the context's or its own
pub data Error : Type 0 where
  transport : Failure → Error
  cancelled : Error
  max_attempts_reached : Error

-- `retry_after` is the header, when it is there and strconv reads it as a number.
pub record Response : Type 0 where
  pub status_code : ℕ
  pub retry_after : Option ℤ

pub data Method : Type 0 where
  get : Method
  head : Method
  other : ℕ → Method

abbrev pub same_method : Method → Method → Bool
same_method get get = true
same_method head head = true
same_method (other m) (other n) = m == n
same_method _ _ = false

pub record Options : Type 0 where
  pub max_retries : ℕ
  pub retryable_status_codes : List ℕ
  pub min_wait_time : ℕ
  pub idempotent_methods : List Method

abbrev pub default_options : Options
default_options = record {
  max_retries = 5;
  retryable_status_codes = 429 ∷ 503 ∷ 500 ∷ 504 ∷ 508 ∷ [];
  min_wait_time = 50000000;
  idempotent_methods = get ∷ head ∷ [];
}

-- `marked`: made by NewRetryableRequestWithContext
pub record Request : Type 0 where
  pub method : Method
  pub marked : Bool
  pub has_body : Bool
  pub has_get_body : Bool

-- What happens in one attempt: the transport's answer, whether the context is done right after it,
-- whether GetBody fails, and whether the context is done before the wait is over.
pub record Attempt : Type 0 where
  pub response : Option Response
  pub error : Option Failure
  pub cancelled_after : Bool
  pub get_body_fails : Bool
  pub cancelled_waiting : Bool

pub data Event : Type 0 where
  sent : Event
  drained : Event
  waited : ℤ → Event

pub record Outcome : Type 0 where
  pub response : Option Response
  pub error : Option Error
  pub events : List Event

abbrev pub has_method : Method → List Method → Bool
has_method m [] = false
has_method m (n ∷ methods) = same_method m n || has_method m methods

abbrev pub has_code : ℕ → List ℕ → Bool
has_code code [] = false
has_code code (c ∷ codes) = c == code || has_code code codes

unfoldable pub is_request_marked_as_retryable : Options → Request → Bool
is_request_marked_as_retryable o req = has_method req.method o.idempotent_methods || req.marked

unfoldable pub can_replay_body : Request → Bool
can_replay_body req = not req.has_body || req.has_get_body

-- `rewindBody` gives an error.
unfoldable pub rewind_fails : Request → Attempt → Bool
rewind_fails req now = req.has_get_body && now.get_body_fails

unfoldable pub is_err_retryable : Failure → Bool
is_err_retryable failure = if failure.max_attempts then false else elim failure.url_error [
  | none ↦ true
  | some e ↦
      not (e.stopped_redirects || e.unsupported_scheme || e.not_trusted || e.unknown_authority)
]

-- An int64 of its 64 bits
abbrev pub to_int64 : ℕ → ℤ
to_int64 bits = if ltb bits (2 ^ 63) then pos bits else negsuc (2 ^ 64 - 1 - bits)

-- `minWaitTime << attempt`
unfoldable pub get_wait_time : Options → ℕ → ℤ
get_wait_time o attempt = to_int64 (o.min_wait_time * 2 ^ attempt % 2 ^ 64)

-- `time.Second * time.Duration(sleep)`
unfoldable pub seconds : ℤ → ℤ
seconds (pos n) = to_int64 (n * 1000000000 % 2 ^ 64)
seconds (negsuc n) = to_int64 ((2 ^ 64 - suc n * 1000000000 % 2 ^ 64) % 2 ^ 64)

abbrev pub wait_after : Options → ℕ → Response → ℤ
wait_after o attempt r = elim r.retry_after [ none ↦ get_wait_time o attempt | some s ↦ seconds s ]

-- The wait before the next attempt, or that there is none
unfoldable pub should_retry : Options → Option Response → Option Failure → Bool → ℕ → Option ℤ
unfolding is_err_retryable
should_retry o response error retryable attempt = if not retryable then none else elim error [
  | some failure ↦ if is_err_retryable failure then some (get_wait_time o attempt) else none
  | none ↦ elim response [
    | none ↦ none
    | some r ↦
        if leb 200 r.status_code && ltb r.status_code 400
        then none
        else if r.status_code == 429 || r.status_code == 503
        then some (wait_after o attempt r)
        else if has_code r.status_code o.retryable_status_codes
        then some (get_wait_time o attempt)
        else none
  ]
]

abbrev pub drain : Option Response → List Event
drain none = []
drain (some r) = drained ∷ []

abbrev pub as_error : Option Failure → Option Error
as_error none = none
as_error (some failure) = some (transport failure)

abbrev pub returned : Attempt → List Event → Outcome
returned now events = record {
  response = now.response;
  error = as_error now.error;
  events = events;
}

abbrev pub failed : Error → List Event → Outcome
failed e events = record { response = none; error = some e; events = events }

-- An attempt that is to be repeated after `sleep`
abbrev pub repeat : Request → Attempt → ℤ → Outcome → Outcome
repeat req now sleep later =
    if now.cancelled_after
    then failed cancelled (sent ∷ [])
    else if rewind_fails req now
    then returned now (sent ∷ drain now.response)
    else if now.cancelled_waiting
    then failed cancelled (sent ∷ drain now.response)
    else record later { events = sent ∷ drain now.response ++ waited sleep ∷ later.events }

-- What becomes of an attempt, by the wait before the next one
abbrev pub decided : Request → Attempt → Outcome → Option ℤ → Outcome
decided req now later none = returned now (sent ∷ [])
decided req now later (some sleep) = repeat req now sleep later

abbrev pub is_retryable : Options → Request → Bool
is_retryable o req = is_request_marked_as_retryable o req && can_replay_body req

-- The loop of RoundTrip, with the attempts that are left and the number of the next one.
unfoldable pub attempts : (ℕ → Attempt) → Options → Request → ℕ → ℕ → Outcome
unfolding should_retry rewind_fails is_request_marked_as_retryable can_replay_body
attempts world o req zero attempt = failed max_attempts_reached []
attempts world o req (suc left) attempt =
    let now = world attempt in
    let later = attempts world o req left (attempt + 1) in
    decided req now later (should_retry o now.response now.error (is_retryable o req) attempt)

unfoldable pub round_trip : (ℕ → Attempt) → Options → Request → Outcome
unfolding attempts
round_trip world o req = attempts world o req o.max_retries 0
