-- ===== src/Call/Migration.antt =====
-- call.go: reconnect, and what becomes of the peers of a call: the signal client and the two peer
-- connections that belong to one SFU. One reconnect has old ones and makes new ones. Whether a
-- creation, a connection, the restore and the confirmation succeed are inputs; the actions are
-- recorded in their order. The closing that Unbind's goroutine does is recorded where it is started.
pub mod Handover
use getstream_go_webrtc.Base.{
  suc, ◌+◌, ◌-◌, Bool, true, false, Option, none, some, List, [], ◌∷◌, ◌++◌, if◌then◌else◌, set,
}
use getstream_go_webrtc.Reconnect.Strategy.{
  Strategy, unspecified, disconnect, fast, rejoin, migrate,
}

pub data Generation : Type 0 where
  old : Generation
  new : Generation

pub data Resource : Type 0 where
  client : Generation → Resource
  subscriber : Generation → Resource
  publisher : Generation → Resource

pub data Action : Type 0 where
  opened : Resource → Action
  detached : Resource → Action
  closed : Resource → Action
  joined : Action
  restored : Action
  confirmed : Action

-- The generation of each part of a peer that is there
pub record Peer : Type 0 where
  pub signal : Option Generation
  pub receiving : Option Generation
  pub sending : Option Generation

pub data ConnectionState : Type 0 where
  connected : ConnectionState
  migrating : ConnectionState
  disconnected : ConnectionState

pub record Call : Type 0 where
  pub peer : Peer
  pub state : ConnectionState

-- How the two peer connections are created: the subscriber is first.
pub data Creation : Type 0 where
  both : Creation
  no_subscriber : Creation
  no_publisher : Creation

pub record Meeting : Type 0 where
  pub has_credentials : Bool
  pub creation : Creation
  pub connects : Bool
  pub restores : Bool
  pub confirms : Bool

-- What an operation returns: whether there was no error, the call after it and the actions in order
pub record Done : Type 0 where
  pub success : Bool
  pub call : Call
  pub actions : List Action

abbrev pub finish : Bool → Call → List Action → Done
finish success c actions = record { success = success; call = c; actions = actions }

abbrev pub preceded : List Action → Done → Done
preceded actions d = record d { actions = actions ++ d.actions }

abbrev pub each : (Resource → Action) → (Generation → Resource) → Option Generation → List Action
each act part none = []
each act part (some g) = act (part g) ∷ []

unfoldable pub detach : Peer → List Action
detach p =
    each detached client p.signal
    ++ each detached subscriber p.receiving
    ++ each detached publisher p.sending

unfoldable pub close : Peer → List Action
close p = each closed subscriber p.receiving ++ each closed publisher p.sending

unfoldable pub release : Peer → List Action
unfolding detach close
release p = detach p ++ close p ++ each closed client p.signal

-- `releaseOldPubSub`
unfoldable pub release_old_pub_sub : Peer → List Action
release_old_pub_sub p =
    each detached subscriber p.receiving
    ++ each detached publisher p.sending
    ++ each closed publisher p.sending
    ++ each closed subscriber p.receiving

-- The part of `initPubAndSub` that creates; the new pair replaces the peer and keeps its client.
abbrev pub create : Creation → Call → Done
create both c =
    finish true
      (record c {
        peer = record { signal = c.peer.signal; receiving = some new; sending = some new };
      })
      (opened (subscriber new) ∷ opened (publisher new) ∷ [])
create no_subscriber c = finish false c []
create no_publisher c = finish false c (opened (subscriber new) ∷ [])

unfoldable pub init_pub_and_sub : Strategy → Creation → Call → Done
unfolding release_old_pub_sub
init_pub_and_sub fast creation c = finish true c []
init_pub_and_sub migrate creation c = create creation c
init_pub_and_sub rejoin creation c = preceded (release_old_pub_sub c.peer) (create creation c)
init_pub_and_sub unspecified creation c = preceded (release_old_pub_sub c.peer) (create creation c)
init_pub_and_sub disconnect creation c = preceded (release_old_pub_sub c.peer) (create creation c)

-- `next` once `d` has succeeded
abbrev pub then_do : Done → (Call → Done) → Done
then_do d next = let later = next d.call in if d.success then preceded d.actions later else d

-- The half of Join that concerns the peers, on a reconnect
unfoldable pub join : Strategy → Meeting → Call → Done
unfolding init_pub_and_sub
join strategy met c =
    then_do (init_pub_and_sub strategy met.creation c)
      (λ c'. if met.connects then finish true c' (joined ∷ []) else finish false c' [])

unfoldable pub restore_tracks : Meeting → Call → Done
restore_tracks met c = if met.restores then finish true c (restored ∷ []) else finish false c []

-- The await of the old SFU's confirmation, if there was a client to ask
unfoldable pub await_confirmation : Option Generation → Meeting → Call → Done
await_confirmation none met c = finish true c []
await_confirmation (some g) met c =
    if met.confirms then finish true c (confirmed ∷ []) else finish false c []

unfoldable pub migrate_to_new_sfu : Peer → Meeting → Call → Done
unfolding join restore_tracks await_confirmation
migrate_to_new_sfu previous met c =
    then_do (join migrate met c)
      (λ c'. then_do (restore_tracks met c') (await_confirmation previous.signal met))

-- What migrate does once migrateToNewSFU has returned
abbrev pub settle : Peer → Done → Done
settle previous d =
    if d.success
    then finish true (record d.call { state = connected }) (d.actions ++ release previous)
    else finish false d.call (d.actions ++ release d.call.peer ++ release previous)

unfoldable pub migrate_call : Meeting → Call → Done
unfolding detach release migrate_to_new_sfu
migrate_call met c =
    let previous = c.peer in
    let next : Call = record {
      peer = record { signal = some new; receiving = none; sending = none };
      state = migrating;
    } in
    preceded (detach previous ++ (opened (client new) ∷ []))
      (settle previous (migrate_to_new_sfu previous met next))

unfoldable pub migrate_reconnect : Meeting → Call → Done
unfolding migrate_call
migrate_reconnect met c = if met.has_credentials then migrate_call met c else finish false c []

unfoldable pub rejoin_reconnect : Meeting → Call → Done
unfolding join restore_tracks
rejoin_reconnect met c =
    if met.has_credentials
    then then_do (join rejoin met c) (restore_tracks met)
    else finish false c []

unfoldable pub fast_reconnect : Meeting → Call → Done
unfolding join
fast_reconnect met c = join fast met c

unfoldable pub reconnect : Strategy → Meeting → Call → Done
unfolding fast_reconnect rejoin_reconnect migrate_reconnect
reconnect fast met c = fast_reconnect met c
reconnect rejoin met c = rejoin_reconnect met c
reconnect migrate met c = migrate_reconnect met c
reconnect unspecified met c = finish true c []
reconnect disconnect met c = finish true c []
