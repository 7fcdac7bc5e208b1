-- ===== src/Retry/Tests.antt =====
-- Runs of internal/rtretry on concrete requests.
use getstream_go_webrtc.Base.{
  ℕ, zero, suc, ◌<◌, ◌≡◌, refl, false, none, some, arith, ltb, if◌then◌else◌,
}
use getstream_go_webrtc.Retry.{
  default_options, get, Request, Attempt, should_retry, rewind_fails,
  is_request_marked_as_retryable, can_replay_body, round_trip,
}
use getstream_go_webrtc.Retry.Attempts.{count_sent, Continues}
use getstream_go_webrtc.Retry.Answers.{answer, settles}

abbrev answered : ℕ → Attempt
answered code = record {
  response = some (record { status_code = code; retry_after = none });
  error = none;
  cancelled_after = false;
  get_body_fails = false;
  cancelled_waiting = false;
}

abbrev getting : Request
getting = record { method = get; marked = false; has_body = false; has_get_body = false }

-- Two failures, then an answer
abbrev recovering : ℕ → Attempt
recovering j = if ltb j 2 then answered 503 else answered 200

recovering_goes_on : (j : ℕ) → j < 2 → Continues default_options getting (recovering j) j
unfolding should_retry rewind_fails is_request_marked_as_retryable can_replay_body
recovering_goes_on zero h = ((λ e. absurd (ground arith)), refl, refl, refl)
recovering_goes_on (suc zero) h = ((λ e. absurd (ground arith)), refl, refl, refl)
recovering_goes_on (suc (suc j)) h = absurd (omega (arith, h))

settles_example :
    (answer (round_trip recovering default_options getting)
      ≡ (some (record { status_code = 200; retry_after = none }), none))
    × (count_sent (round_trip recovering default_options getting).events ≡ 3)
unfolding should_retry rewind_fails is_request_marked_as_retryable can_replay_body
settles_example = settles recovering default_options getting 2 (omega arith) recovering_goes_on refl
