-- ===== src/Call/FirstJoin/Settles.antt =====
-- call.go: the first join succeeds as soon as a round does.
use getstream_go_webrtc.Base.{
  ℕ, zero, suc, ◌+◌, ◌<◌, ◌≡◌, refl, sym, ap, subst, ◌∙◌, Bool, true, false, not, [], ◌∷◌, arith,
  if◌then◌else◌,
}
use getstream_go_webrtc.Base.Result.{Result, ok, err}
use getstream_go_webrtc.Reconnect.Strategy.{Strategy}
use getstream_go_webrtc.Call.FirstJoin.{
  JoinError, is_join_error_retryable, Round, waited, Outcome, returned, after, next_backoff,
  attempt, rounds, retry_first_join,
}

-- A round ends with an error after which another one may come.
abbrev pub Fails : Result JoinError ℕ → Result JoinError ℕ → Type 0
Fails (err e) joined = is_join_error_retryable e ≡ true
Fails (ok target) (err e) = is_join_error_retryable e ≡ true
Fails (ok target) (ok response) = ⊥

abbrev pub GoesOn : Round → Type 0
GoesOn now = (now.done ≡ false) × Fails now.credentials now.joined

attempt-Fails :
    (credentials joined : Result JoinError ℕ) (done : Bool) (strategy : Strategy) (edge : ℕ)
    (later : ℕ → JoinError → Outcome)
    → Fails credentials joined
    → (target : ℕ) × (e : JoinError) × (is_join_error_retryable e ≡ true)
      × ((attempt
            (record {
              done = done;
              strategy = strategy;
              credentials = credentials;
              joined = joined;
            })
            edge
            later).result
          ≡ (later target e).result)
attempt-Fails (err e) joined done strategy edge later h = (edge, e, h, refl)
attempt-Fails (ok target) (err e) done strategy edge later h = (target, e, h, refl)
attempt-Fails (ok target) (ok response) done strategy edge later h = absurd h

attempt-joins :
    (credentials joined : Result JoinError ℕ) (done : Bool) (strategy : Strategy)
    (edge target response : ℕ) (later : ℕ → JoinError → Outcome)
    → credentials ≡ ok target
    → joined ≡ ok response
    → (attempt
        (record { done = done; strategy = strategy; credentials = credentials; joined = joined })
        edge
        later).result
      ≡ ok response
attempt-joins (ok t) (ok r) done strategy edge target response later e e' = e'
attempt-joins (ok t) (err x) done strategy edge target response later e e' = absurd (ground arith)
attempt-joins (err x) joined done strategy edge target response later e e' = absurd (ground arith)

-- A round that is not kept from it tries.
rounds-tries :
    (world : ℕ → Round) (left i backoff edge : ℕ) (last : JoinError)
    → is_join_error_retryable last ≡ true
    → (world i).done ≡ false
    → (rounds world (suc left) i backoff edge last).result
      ≡ (attempt (world i) edge (rounds world left (i + 1) (next_backoff backoff))).result
unfolding rounds
rounds-tries world left i backoff edge last again h =
    let try_now : Outcome =
      after (waited backoff ∷ [])
        (attempt (world i) edge (rounds world left (i + 1) (next_backoff backoff))) in
    ap
      (λ b.
        (if not b
          then returned (err last) []
          else if (world i).done
          then returned (err last) []
          else try_now).result)
      again
    ∙ ap (λ b. (if b then returned (err last) [] else try_now).result) h

joins_from :
    (world : ℕ → Round) (k left i backoff edge : ℕ) (last : JoinError) (target response : ℕ)
    → k < left
    → is_join_error_retryable last ≡ true
    → ((j : ℕ) → j < k → GoesOn (world (i + j)))
    → (world (i + k)).done ≡ false
    → (world (i + k)).credentials ≡ ok target
    → (world (i + k)).joined ≡ ok response
    → (rounds world left i backoff edge last).result ≡ ok response
joins_from world k zero i backoff edge last target response h again before now c joined =
    absurd (omega arith)
joins_from world zero (suc left) i backoff edge last target response h again before now c joined =
    let here : i + 0 ≡ i = omega arith in
    let w : Round = world i in
    rounds-tries world left i backoff edge last again (ap (λ a. (world a).done) (sym here) ∙ now)
    ∙ attempt-joins w.credentials w.joined w.done w.strategy edge target response
        (rounds world left (i + 1) (next_backoff backoff))
        (ap (λ a. (world a).credentials) (sym here) ∙ c)
        (ap (λ a. (world a).joined) (sym here) ∙ joined)
joins_from world (suc k) (suc left) i backoff edge last target response h again before now c
      joined =
    let w : Round = world i in
    let (go, fails) =
      subst (λ a. GoesOn (world a)) {x = i + 0} {y = i} (omega arith) (before 0 (omega arith)) in
    let later : ℕ → JoinError → Outcome = rounds world left (i + 1) (next_backoff backoff) in
    let (t, e, again', same) =
      attempt-Fails w.credentials w.joined w.done w.strategy edge later fails in
    let next : i + suc k ≡ i + 1 + k = omega arith in
    rounds-tries world left i backoff edge last again go
    ∙ same
    ∙ joins_from world k left (i + 1) (next_backoff backoff) t e target response (omega arith)
        again'
        (λ j below.
          subst (λ a. GoesOn (world a)) {x = i + suc j} {y = i + 1 + j} (omega arith)
            (before (suc j) (omega arith)))
        (ap (λ a. (world a).done) (sym next) ∙ now) (ap (λ a. (world a).credentials) (sym next) ∙ c)
        (ap (λ a. (world a).joined) (sym next) ∙ joined)

-- When the first error and those of the rounds before the k-th may be retried, the context lasts and
-- the k-th round joins, the first join succeeds with that response; k is below 20.
pub joins_eventually :
    (world : ℕ → Round) (edge k : ℕ) (first : JoinError) (target response : ℕ)
    → k < 20
    → is_join_error_retryable first ≡ true
    → ((j : ℕ) → j < k → GoesOn (world j))
    → (world k).done ≡ false
    → (world k).credentials ≡ ok target
    → (world k).joined ≡ ok response
    → (retry_first_join world edge first).result ≡ ok response
unfolding retry_first_join
joins_eventually world edge k first target response h again before now c joined =
    let zero_add : (a : ℕ) → 0 + a ≡ a = λ a. omega arith in
    joins_from world k 20 0 10 edge first target response h again
      (λ j below. subst (λ a. GoesOn (world a)) (sym (zero_add j)) (before j below))
      (ap (λ a. (world a).done) (zero_add k) ∙ now)
      (ap (λ a. (world a).credentials) (zero_add k) ∙ c)
      (ap (λ a. (world a).joined) (zero_add k) ∙ joined)
