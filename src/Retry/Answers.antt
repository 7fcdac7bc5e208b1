-- ===== src/Retry/Answers.antt =====
-- internal/rtretry: which answer is returned.
use getstream_go_webrtc.Base.{
  ℕ, zero, suc, ◌+◌, ◌-◌, ◌<◌, ◌≡◌, refl, sym, ap, subst, ◌∙◌, Bool, true, false, Option, none,
  some, [], ◌∷◌, arith,
}
use getstream_go_webrtc.Retry.{
  Failure, Error, max_attempts_reached, Response, Options, Request, Attempt, sent, waited, Outcome,
  should_retry, as_error, returned, decided, is_retryable, attempts, round_trip,
}
use getstream_go_webrtc.Retry.Attempts.{count_sent, count_sent-drain, Continues, attempts-Continues}

attempts-stops :
    (world : ℕ → Attempt) (o : Options) (req : Request) (left attempt : ℕ)
    → should_retry o (world attempt).response (world attempt).error (is_retryable o req) attempt
      ≡ none
    → attempts world o req (suc left) attempt ≡ returned (world attempt) (sent ∷ [])
unfolding attempts
attempts-stops world o req left attempt stop =
    ap (decided req (world attempt) (attempts world o req left (attempt + 1))) stop

-- What a caller sees of an outcome
abbrev pub answer : Outcome → Option Response × Option Error
answer out = (out.response, out.error)

-- A repetition passes the later answer on and has sent the request once more.
Continues-answer :
    (world : ℕ → Attempt) (o : Options) (req : Request) (left attempt : ℕ)
    → Continues o req (world attempt) attempt
    → (answer (attempts world o req (suc left) attempt)
        ≡ answer (attempts world o req left (attempt + 1)))
      × (count_sent (attempts world o req (suc left) attempt).events
          ≡ suc (count_sent (attempts world o req left (attempt + 1)).events))
Continues-answer world o req left attempt c =
    let (sleep, e) = attempts-Continues world o req left attempt c in
    (
      ap answer e,
      ap (λ out. count_sent out.events) e
          ∙ ap suc (
              count_sent-drain (world attempt).response
                (waited sleep ∷ (attempts world o req left (attempt + 1)).events)),
    )

settles_from :
    (world : ℕ → Attempt) (o : Options) (req : Request) (k left attempt : ℕ)
    → k < left
    → ((j : ℕ) → j < k → Continues o req (world (attempt + j)) (attempt + j))
    → should_retry o
        (world (attempt + k)).response
        (world (attempt + k)).error
        (is_retryable o req)
        (attempt + k)
      ≡ none
    → (answer (attempts world o req left attempt) ≡ answer (returned (world (attempt + k)) []))
      × (count_sent (attempts world o req left attempt).events ≡ suc k)
settles_from world o req k zero attempt h before stop = absurd (omega arith)
settles_from world o req zero (suc left) attempt h before stop =
    let here : attempt + 0 ≡ attempt = omega arith in
    let e : attempts world o req (suc left) attempt ≡ returned (world attempt) (sent ∷ []) =
      attempts-stops world o req left attempt (
        subst (λ a. should_retry o (world a).response (world a).error (is_retryable o req) a ≡ none)
          here stop) in
    (
      ap answer e ∙ ap (λ a. answer (returned (world a) [])) (sym here),
      ap (λ out. count_sent out.events) e,
    )
settles_from world o req (suc k) (suc left) attempt h before stop =
    let c : Continues o req (world attempt) attempt =
      subst (λ a. Continues o req (world a) a) {x = attempt + 0} (omega arith)
        (before 0 (omega arith)) in
    let next : attempt + suc k ≡ attempt + 1 + k = omega arith in
    let (same, more) = Continues-answer world o req left attempt c in
    let (later, count) =
      settles_from world o req k left (attempt + 1) (omega arith)
        (λ j below.
          subst (λ a. Continues o req (world a) a) {x = attempt + suc j} (omega arith)
            (before (suc j) (omega arith)))
        (subst
          (λ a. should_retry o (world a).response (world a).error (is_retryable o req) a ≡ none)
          next stop) in
    (same ∙ later ∙ ap (λ a. answer (returned (world a) [])) (sym next), more ∙ ap suc count)

never_repeated :
    (o : Options) (response : Option Response) (error : Option Failure) (attempt : ℕ)
    (retryable : Bool)
    → retryable ≡ false
    → should_retry o response error retryable attempt ≡ none
unfolding should_retry
never_repeated o response error attempt true once = absurd (ground arith)
never_repeated o response error attempt false once = refl

-- When nothing stops the attempts before the k-th and that one is not to be repeated, its answer is
-- returned, and the request has been sent k + 1 times; k is below the limit.
pub settles :
    (world : ℕ → Attempt) (o : Options) (req : Request) (k : ℕ)
    → k < o.max_retries
    → ((j : ℕ) → j < k → Continues o req (world j) j)
    → should_retry o (world k).response (world k).error (is_retryable o req) k ≡ none
    → (answer (round_trip world o req) ≡ ((world k).response, as_error (world k).error))
      × (count_sent (round_trip world o req).events ≡ suc k)
unfolding round_trip
settles world o req k h before stop =
    let zero_add : (a : ℕ) → 0 + a ≡ a = λ a. omega arith in
    subst
      (λ a.
        (answer (attempts world o req o.max_retries 0) ≡ answer (returned (world a) []))
        × (count_sent (attempts world o req o.max_retries 0).events ≡ suc k))
      (zero_add k)
      (settles_from world o req k o.max_retries 0 h
        (λ j below. subst (λ a. Continues o req (world a) a) (sym (zero_add j)) (before j below))
        (subst
          (λ a. should_retry o (world a).response (world a).error (is_retryable o req) a ≡ none)
          (sym (zero_add k)) stop))

gives_up_from :
    (world : ℕ → Attempt) (o : Options) (req : Request) (left attempt : ℕ)
    → ((j : ℕ) → j < left → Continues o req (world (attempt + j)) (attempt + j))
    → (answer (attempts world o req left attempt) ≡ (none, some max_attempts_reached))
      × (count_sent (attempts world o req left attempt).events ≡ left)
unfolding attempts
gives_up_from world o req zero attempt always = (refl, refl)
gives_up_from world o req (suc left) attempt always =
    let c : Continues o req (world attempt) attempt =
      subst (λ a. Continues o req (world a) a) {x = attempt + 0} (omega arith)
        (always 0 (omega arith)) in
    let (same, more) = Continues-answer world o req left attempt c in
    let (later, count) = gives_up_from world o req left (attempt + 1) (λ j below.
      subst (λ a. Continues o req (world a) a) {x = attempt + suc j} (omega arith)
        (always (suc j) (omega arith))) in
    (same ∙ later, more ∙ ap suc count)

-- When each of the max_retries attempts is to be repeated and nothing stops them, the request is sent
-- that often and the answer is the error that says so, without the last response.
pub gives_up :
    (world : ℕ → Attempt) (o : Options) (req : Request)
    → ((j : ℕ) → j < o.max_retries → Continues o req (world j) j)
    → (answer (round_trip world o req) ≡ (none, some max_attempts_reached))
      × (count_sent (round_trip world o req).events ≡ o.max_retries)
unfolding round_trip
gives_up world o req always =
    gives_up_from world o req o.max_retries 0 (λ j below.
      subst (λ a. Continues o req (world a) a) {y = 0 + j} (omega arith) (always j below))

-- A request that is neither marked nor idempotent, or whose body cannot be sent again, is sent once,
-- and the transport's answer is returned as it is; at least one attempt is allowed.
pub not_repeated :
    (world : ℕ → Attempt) (o : Options) (req : Request)
    → is_retryable o req ≡ false
    → 0 < o.max_retries
    → round_trip world o req ≡ returned (world 0) (sent ∷ [])
unfolding round_trip
not_repeated world o req once h =
    ap (λ n. attempts world o req n 0) {y = suc (o.max_retries - 1)} (omega arith)
    ∙ attempts-stops world o req (o.max_retries - 1) 0
        (never_repeated o (world 0).response (world 0).error 0 (is_retryable o req) once)
