-- ===== src/Call/Migration/Handover.antt =====
-- call.go: what a reconnect closes, and when.
use getstream_go_webrtc.Base.{
  ◌≡◌, refl, Bool, true, false, none, some, List, [], ◌∷◌, ◌++◌, arith, if◌then◌else◌,
}
use getstream_go_webrtc.Call.Migration.{
  Generation, old, new, Resource, client, subscriber, publisher, Action, opened, detached, closed,
  joined, restored, confirmed, Peer, Call, ConnectionState, connected, migrating, Creation, both,
  no_subscriber, no_publisher, Meeting, Done, detach, close, release, release_old_pub_sub,
  init_pub_and_sub, join, restore_tracks, await_confirmation, migrate_to_new_sfu, migrate_call,
  migrate_reconnect, rejoin_reconnect,
}

abbrev pub running : Peer
running = record { signal = some old; receiving = some old; sending = some old }

abbrev pub fresh : Peer
fresh = record { signal = some new; receiving = some new; sending = some new }

abbrev same_generation : Generation → Generation → Bool
same_generation old old = true
same_generation new new = true
same_generation _ _ = false

abbrev same_resource : Resource → Resource → Bool
same_resource (client g) (client h) = same_generation g h
same_resource (subscriber g) (subscriber h) = same_generation g h
same_resource (publisher g) (publisher h) = same_generation g h
same_resource _ _ = false

abbrev remove : Resource → List Resource → List Resource
remove r [] = []
remove r (s ∷ rest) = if same_resource r s then rest else s ∷ remove r rest

-- What is open after some actions
abbrev pub open_after : List Resource → List Action → List Resource
open_after held [] = held
open_after held (opened r ∷ actions) = open_after (r ∷ held) actions
open_after held (closed r ∷ actions) = open_after (remove r held) actions
open_after held (detached r ∷ actions) = open_after held actions
open_after held (joined ∷ actions) = open_after held actions
open_after held (restored ∷ actions) = open_after held actions
open_after held (confirmed ∷ actions) = open_after held actions

abbrev pub parts : Peer → List Resource
parts p =
    elim p.sending [ none ↦ [] | some g ↦ publisher g ∷ [] ]
    ++ elim p.receiving [ none ↦ [] | some g ↦ subscriber g ∷ [] ]
    ++ elim p.signal [ none ↦ [] | some g ↦ client g ∷ [] ]

-- Whether the old SFU confirms before anything is closed
abbrev pub confirmed_first : List Action → Bool
confirmed_first [] = false
confirmed_first (confirmed ∷ actions) = true
confirmed_first (closed r ∷ actions) = false
confirmed_first (opened r ∷ actions) = confirmed_first actions
confirmed_first (detached r ∷ actions) = confirmed_first actions
confirmed_first (joined ∷ actions) = confirmed_first actions
confirmed_first (restored ∷ actions) = confirmed_first actions

abbrev pub meeting : Bool → Creation → Bool → Bool → Bool → Meeting
meeting credentials creation connects restores confirms = record {
  has_credentials = credentials;
  creation = creation;
  connects = connects;
  restores = restores;
  confirms = confirms;
}

abbrev pub call_of : ConnectionState → Call
call_of state = record { peer = running; state = state }

-- A migration that succeeds closes nothing before the old SFU has confirmed it; after it the call is
-- connected with the new peer, and of the old and the new resources the new ones are open.
pub migrated_lem :
    (creation : Creation) (connects restores confirms : Bool) (state : ConnectionState)
    → let d : Done =
        migrate_reconnect (meeting true creation connects restores confirms) (call_of state) in
      d.success ≡ true
      → (confirmed_first d.actions ≡ true)
        × (d.call ≡ record { peer = fresh; state = connected })
        × (open_after (parts running) d.actions ≡ parts fresh)
unfolding migrate_reconnect migrate_call migrate_to_new_sfu join init_pub_and_sub restore_tracks
    await_confirmation detach close release
migrated_lem both true true true state e = (refl, refl, refl)
migrated_lem both false restores confirms state e = absurd (ground arith)
migrated_lem both true false confirms state e = absurd (ground arith)
migrated_lem both true true false state e = absurd (ground arith)
migrated_lem no_subscriber connects restores confirms state e = absurd (ground arith)
migrated_lem no_publisher connects restores confirms state e = absurd (ground arith)

-- A migration that got credentials and fails leaves the call migrating and nothing of the old or the
-- new peer open, but for the new subscriber when the publisher could not be created.
pub migration_failed_lem :
    (creation : Creation) (connects restores confirms : Bool) (state : ConnectionState)
    → let d : Done =
        migrate_reconnect (meeting true creation connects restores confirms) (call_of state) in
      d.success ≡ false
      → (d.call.state ≡ migrating)
        × (open_after (parts running) d.actions
            ≡ elim creation [ no_publisher ↦ subscriber new ∷ [] | _ ↦ [] ])
unfolding migrate_reconnect migrate_call migrate_to_new_sfu join init_pub_and_sub restore_tracks
    await_confirmation detach close release
migration_failed_lem both true true true state e = absurd (ground arith)
migration_failed_lem both false restores confirms state e = (refl, refl)
migration_failed_lem both true false confirms state e = (refl, refl)
migration_failed_lem both true true false state e = (refl, refl)
migration_failed_lem no_subscriber connects restores confirms state e = (refl, refl)
migration_failed_lem no_publisher connects restores confirms state e = (refl, refl)

-- Whatever comes of a rejoin that got credentials, the client stays open and the old peer connections
-- are closed; the new ones are open exactly as far as they could be created.
pub rejoined_lem :
    (creation : Creation) (connects restores confirms : Bool) (state : ConnectionState)
    → let d : Done =
        rejoin_reconnect (meeting true creation connects restores confirms) (call_of state) in
      open_after (parts running) d.actions ≡ elim creation [
        | both ↦ publisher new ∷ subscriber new ∷ client old ∷ []
        | no_subscriber ↦ client old ∷ []
        | no_publisher ↦ subscriber new ∷ client old ∷ []
      ]
unfolding rejoin_reconnect join init_pub_and_sub restore_tracks release_old_pub_sub
rejoined_lem both true true confirms state = refl
rejoined_lem both true false confirms state = refl
rejoined_lem both false restores confirms state = refl
rejoined_lem no_subscriber connects restores confirms state = refl
rejoined_lem no_publisher connects restores confirms state = refl
