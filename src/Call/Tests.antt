-- ===== src/Call/Tests.antt =====
-- Joins, migrations and subscriptions on concrete runs.
use getstream_go_webrtc.Base.{
  Bool, ℕ, zero, suc, ◌≤◌, ◌<◌, ◌≡◌, refl, true, false, none, some, List, [], ◌∷◌, arith, ◌==◌,
  ==_iff, if◌then◌else◌,
}
use getstream_go_webrtc.Base.Result.{ok, err}
use getstream_go_webrtc.Reconnect.Strategy.{unspecified}
use getstream_go_webrtc.Call.FirstJoin.{JoinError, is_join_error_retryable, Round, retry_first_join}
use getstream_go_webrtc.Call.FirstJoin.Backoff.{time_waited, joins, retries_bounded_in_time}
use getstream_go_webrtc.Call.FirstJoin.Settles.{GoesOn, joins_eventually}
use getstream_go_webrtc.Call.Migration.{
  connected, migrating, subscriber, new, both, no_publisher, init_pub_and_sub, join, restore_tracks,
  await_confirmation, migrate_to_new_sfu, migrate_call, migrate_reconnect,
}
use getstream_go_webrtc.Call.Migration.Handover.{
  running, fresh, parts, open_after, confirmed_first, meeting, call_of, migrated_lem,
  migration_failed_lem,
}
use getstream_go_webrtc.Call.Quality.{Layer, Sender, Track, apply_senders}
use getstream_go_webrtc.Call.Quality.Wishes.{muted_of, foreign, after_senders, senders_applied}
use getstream_go_webrtc.Call.Subscriptions.{
  answered, refused, Session, send_subscriptions, subscribe_to_tracks, all_equal,
  same_subscriptions, is_unchanged, new_session, restore_subscribed_tracks,
}
use getstream_go_webrtc.Call.Subscriptions.InStep.{
  Step, change, rejoined, step, run, subscribed_in_step,
}

abbrev unavailable : JoinError
unavailable = record {
  deadline_exceeded = false;
  canceled = false;
  network = false;
  handshake_status = some 503;
  coordinator_should_retry = none;
  from_sfu = false;
}

-- The coordinator fails once, an SFU once, then a join succeeds.
abbrev rounds_met : ℕ → Round
rounds_met j = record {
  done = false;
  strategy = unspecified;
  credentials = if j == 0 then err unavailable else ok j;
  joined = if j == 1 then err unavailable else ok 7;
}

rounds_go_on : (j : ℕ) → j < 2 → GoesOn (rounds_met j)
unfolding is_join_error_retryable
rounds_go_on zero h = (refl, refl)
rounds_go_on (suc zero) h = (refl, refl)
rounds_go_on (suc (suc j)) h = absurd (omega (arith, h))

joins_eventually_example : (retry_first_join rounds_met 3 unavailable).result ≡ ok 7
unfolding is_join_error_retryable
joins_eventually_example =
    joins_eventually rounds_met 3 2 unavailable 2 7 (omega arith) refl rounds_go_on refl refl refl

retries_bounded_in_time_example :
    (time_waited (retry_first_join rounds_met 3 unavailable).actions ≤ 14270)
    × (joins (retry_first_join rounds_met 3 unavailable).actions ≤ 20)
retries_bounded_in_time_example = retries_bounded_in_time rounds_met 3 unavailable

migrated_lem_example :
    (confirmed_first
        (migrate_reconnect (meeting true both true true true) (call_of connected)).actions
      ≡ true)
    × ((migrate_reconnect (meeting true both true true true) (call_of connected)).call
        ≡ record { peer = fresh; state = connected })
    × (open_after
          (parts running)
          (migrate_reconnect (meeting true both true true true) (call_of connected)).actions
        ≡ parts fresh)
unfolding migrate_reconnect migrate_call migrate_to_new_sfu join init_pub_and_sub restore_tracks
    await_confirmation
migrated_lem_example = migrated_lem both true true true connected refl

migration_failed_lem_example :
    ((migrate_reconnect (meeting true no_publisher true true true) (call_of connected)).call.state
      ≡ migrating)
    × (open_after
          (parts running)
          (migrate_reconnect (meeting true no_publisher true true true) (call_of connected)).actions
        ≡ subscriber new ∷ [])
unfolding migrate_reconnect migrate_call migrate_to_new_sfu join init_pub_and_sub restore_tracks
    await_confirmation
migration_failed_lem_example = migration_failed_lem no_publisher true true true connected refl

abbrev unsubscribed : Session ℕ
unsubscribed = record { subscribed = []; sent = none; forwarded = []; requests = 0 }

abbrev changes : List (Step ℕ)
changes = change answered (1 ∷ 2 ∷ []) ∷ change refused (2 ∷ []) ∷ rejoined answered ∷ []

subscribed_in_step_example :
    (subscribe_to_tracks ◌==◌ answered (2 ∷ []) (run ◌==◌ changes unsubscribed)).1.forwarded
    ≡ 2 ∷ []
unfolding subscribe_to_tracks run step send_subscriptions all_equal same_subscriptions is_unchanged
    new_session restore_subscribed_tracks
subscribed_in_step_example =
    subscribed_in_step ◌==◌ ==_iff unsubscribed changes answered (2 ∷ []) refl
      (
        (λ e. absurd (ground arith)),
        ((λ e. absurd (ground arith)), ((λ e. absurd (ground arith)), tt)),
      )
      refl

abbrev layer : ℕ → Bool → Layer
layer name active = record { name = name; active = active; max_bitrate = 100 }

abbrev video : ℕ → Track
video rid = record { track_type = 2; rid = rid; is_local = true; muted = false }

abbrev settings : List Sender
settings = record { track_type = 2; layers = layer 0 true ∷ layer 1 false ∷ [] } ∷ []

senders_applied_example :
    let after = (apply_senders settings (video 0 ∷ video 1 ∷ [])).0 in
    (muted_of 2 1 after ≡ after_senders 2 1 settings (muted_of 2 1 (video 0 ∷ video 1 ∷ [])))
    × (foreign after ≡ foreign (video 0 ∷ video 1 ∷ []))
senders_applied_example = senders_applied 2 1 settings (video 0 ∷ video 1 ∷ [])
