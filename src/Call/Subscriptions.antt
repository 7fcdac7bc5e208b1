-- ===== src/Call/Subscriptions.antt =====
-- call.go: SubscribeToTracks and what of it survives a reconnect. The SFU's side of a session is the
-- list it forwards. proto.Equal of two subscriptions is a parameter.
pub mod InStep
use getstream_go_webrtc.Base.{
  ℕ, suc, ◌+◌, ◌-◌, Bool, true, false, not, Option, none, some, List, [], ◌∷◌, ◌==◌, if◌then◌else◌,
  length,
}

-- What becomes of the RPC UpdateSubscriptions: it succeeds, the SFU answers with an error, it does not
-- arrive, or it arrives and the answer is lost.
pub data Delivery : Type 0 where
  answered : Delivery
  refused : Delivery
  unreachable : Delivery
  reply_lost : Delivery

pub record Session {ℓ} (A : Type ℓ) : Type ℓ where
  pub subscribed : List A
  pub sent : Option (List A)
  pub forwarded : List A
  pub requests : ℕ

abbrev pub counted {ℓ} : {A : Type ℓ} → Session A → Session A
counted s = record s { requests = s.requests + 1 }

-- `sendSubscriptions`, and whether it returned without an error
unfoldable pub send_subscriptions {ℓ} :
    {A : Type ℓ} → Delivery → List A → Session A → Bool × Session A
send_subscriptions answered tracks s =
    (true, record (counted s) { sent = some tracks; forwarded = tracks })
send_subscriptions refused tracks s = (false, counted s)
send_subscriptions unreachable tracks s = (false, counted s)
send_subscriptions reply_lost tracks s = (false, record (counted s) { forwarded = tracks })

-- What a new session of the SFU starts with; `initPubAndSub` clears the memo.
unfoldable pub new_session {ℓ} : {A : Type ℓ} → Session A → Session A
new_session s = record s { sent = none; forwarded = [] }

-- `restoreSubscribedTracks`
unfoldable pub restore_subscribed_tracks {ℓ} :
    {A : Type ℓ} → Delivery → Session A → Bool × Session A
unfolding send_subscriptions
restore_subscribed_tracks d s = send_subscriptions d s.subscribed s

module _ {ℓ} {A : Type ℓ} (equal : A → A → Bool) where
  -- The loop over the indices of both lists
  unfoldable pub all_equal : List A → List A → Bool
  all_equal (a ∷ current) (b ∷ next) = if not (equal a b) then false else all_equal current next
  all_equal _ _ = true

  unfoldable pub same_subscriptions : List A → List A → Bool
  unfolding all_equal
  same_subscriptions current next =
      if not (length current == length next) then false else all_equal current next

  unfoldable pub is_unchanged : Option (List A) → List A → Bool
  unfolding same_subscriptions
  is_unchanged none tracks = false
  is_unchanged (some sent) tracks = same_subscriptions sent tracks

  unfoldable pub subscribe_to_tracks : Delivery → List A → Session A → Bool × Session A
  unfolding is_unchanged send_subscriptions
  subscribe_to_tracks d tracks s =
      let s' = record s { subscribed = tracks } in
      if is_unchanged s.sent tracks then (true, s') else send_subscriptions d tracks s'
