-- ===== src/Signal/Events.antt =====
-- signal/client.go: handle, which gives an event of the SFU to the event store and to the Handler.
use getstream_go_webrtc.Base.{Bool, List, [], ◌∷◌, if◌then◌else◌}

-- The kinds of events
pub data Kind : Type 0 where
  health_check_response : Kind
  join_response : Kind
  error : Kind
  call_ended : Kind
  call_grants_updated : Kind
  go_away : Kind
  ice_restart : Kind
  pins_updated : Kind
  participant_migration_complete : Kind
  subscriber_offer : Kind
  publisher_answer : Kind
  connection_quality_changed : Kind
  audio_level_changed : Kind
  ice_trickle : Kind
  change_publish_quality : Kind
  change_publish_options : Kind
  inbound_state_notification : Kind
  participant_joined : Kind
  participant_left : Kind
  dominant_speaker_changed : Kind
  track_published : Kind
  track_unpublished : Kind
  unexpected : Kind

-- What is called for an event: the store, RawHandler, or the Handler's method of that kind
pub data Call : Type 0 where
  intercept : Kind → Call
  raw_handler : Kind → Call
  on : Kind → Call

-- The `switch`: what is called besides; a kind that has no method is only logged.
unfoldable pub dispatched : Kind → List Call
dispatched participant_migration_complete = []
dispatched unexpected = []
dispatched kind = on kind ∷ []

-- `handle`, of handlers that do not panic
unfoldable pub handle : Bool → Kind → List Call
handle detached kind =
    intercept kind ∷ (if detached then [] else raw_handler kind ∷ dispatched kind)
