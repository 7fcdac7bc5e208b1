-- ===== src/Call/Subscriptions/InStep.antt =====
-- call.go: when the SFU forwards what the application asked for last.
use mathlib.Core.Option.{some-injective}
use getstream_go_webrtc.Base.{
  ◌≡◌, refl, sym, ap, ap₂, subst, ◌∙◌, ◌≢◌, ◌↔◌, Bool, true, false, not, Option, none, some, List,
  [], ◌∷◌, arith, ◌==◌, if◌then◌else◌, length, All,
}
use getstream_go_webrtc.Call.Subscriptions.{
  Delivery, answered, refused, unreachable, reply_lost, Session, counted, send_subscriptions,
  new_session, restore_subscribed_tracks, all_equal, same_subscriptions, is_unchanged,
  subscribe_to_tracks,
}

-- What a call does with its subscriptions: a change, or a reconnect to a new session with the restore.
pub data Step {ℓ} (A : Type ℓ) : Type ℓ where
  change : Delivery → List A → Step A
  rejoined : Delivery → Step A

abbrev pub delivery_of {ℓ} : {A : Type ℓ} → Step A → Delivery
delivery_of (change d tracks) = d
delivery_of (rejoined d) = d

-- The memo, when there is one, is what the SFU forwards.
abbrev pub InStep {ℓ} : {A : Type ℓ} → Session A → Type ℓ
InStep {A} s = (l : List A) → s.sent ≡ some l → s.forwarded ≡ l

send-InStep {ℓ} :
    {A : Type ℓ} (d : Delivery) (tracks : List A) (s : Session A)
    → d ≢ reply_lost
    → InStep s
    → InStep (send_subscriptions d tracks s).1
unfolding send_subscriptions
send-InStep answered tracks s known i l e = some-injective tracks l e
send-InStep refused tracks s known i l e = i l e
send-InStep unreachable tracks s known i l e = i l e
send-InStep reply_lost tracks s known i l e = absurd (known refl)

-- A send that returns no error leaves the SFU with what was sent.
send-forwarded {ℓ} :
    {A : Type ℓ} (d : Delivery) (tracks : List A) (s : Session A)
    → (send_subscriptions d tracks s).0 ≡ true
    → (send_subscriptions d tracks s).1.forwarded ≡ tracks
unfolding send_subscriptions
send-forwarded answered tracks s e = refl
send-forwarded refused tracks s e = absurd (ground arith)
send-forwarded unreachable tracks s e = absurd (ground arith)
send-forwarded reply_lost tracks s e = absurd (ground arith)

if_not : (b x : Bool) → (if not b then false else x) ≡ true → (b ≡ true) × (x ≡ true)
if_not true x e = (refl, e)
if_not false x e = absurd (ground arith)

either {ℓ κ} :
    {A : Type ℓ} (b : Bool) (P : Bool × Session A → Type κ) (x y : Bool × Session A)
    → (b ≡ true → P x)
    → (b ≡ false → P y)
    → P (if b then x else y)
either true P x y h h' = h refl
either false P x y h h' = h' refl

module _ {ℓ} {A : Type ℓ} (equal : A → A → Bool) where
  unfoldable pub step : Step A → Session A → Session A
  unfolding subscribe_to_tracks new_session restore_subscribed_tracks
  step (change d tracks) s = (subscribe_to_tracks equal d tracks s).1
  step (rejoined d) s = (restore_subscribed_tracks d (new_session s)).1

  unfoldable pub run : List (Step A) → Session A → Session A
  unfolding step
  run [] s = s
  run (t ∷ steps) s = run steps (step t s)

  module _ (equal_iff : (a b : A) → (equal a b ≡ true) ↔ (a ≡ b)) where
    all_equal_sound :
        (xs ys : List A) → length xs ≡ length ys → all_equal equal xs ys ≡ true → xs ≡ ys
    unfolding all_equal
    all_equal_sound [] [] h e = refl
    all_equal_sound [] (y ∷ ys) h e = absurd (omega (arith, h))
    all_equal_sound (x ∷ xs) [] h e = absurd (omega (arith, h))
    all_equal_sound (x ∷ xs) (y ∷ ys) h e =
        let (same, rest) = if_not (equal x y) (all_equal equal xs ys) e in
        ap₂ (λ a l. a ∷ l) ((equal_iff x y).0 same) (all_equal_sound xs ys (omega (arith, h)) rest)

    same_sound : (xs ys : List A) → same_subscriptions equal xs ys ≡ true → xs ≡ ys
    unfolding same_subscriptions
    same_sound xs ys e =
        let (lengths, all) = if_not (length xs == length ys) (all_equal equal xs ys) e in
        all_equal_sound xs ys (ground (arith, lengths)) all

    -- The memo matches only what the SFU forwards.
    unchanged-forwarded :
        (sent : Option (List A)) (tracks forwarded : List A)
        → is_unchanged equal sent tracks ≡ true
        → ((l : List A) → sent ≡ some l → forwarded ≡ l)
        → forwarded ≡ tracks
    unfolding is_unchanged
    unchanged-forwarded none tracks forwarded e i = absurd (ground arith)
    unchanged-forwarded (some l) tracks forwarded e i = i l refl ∙ same_sound l tracks e

    subscribe-forwarded :
        (d : Delivery) (tracks : List A) (s : Session A)
        → InStep s
        → (subscribe_to_tracks equal d tracks s).0 ≡ true
        → (subscribe_to_tracks equal d tracks s).1.forwarded ≡ tracks
    unfolding subscribe_to_tracks
    subscribe-forwarded d tracks s i =
        let s' : Session A = record s { subscribed = tracks } in
        either (is_unchanged equal s.sent tracks) (λ t. t.0 ≡ true → t.1.forwarded ≡ tracks)
          (true, s') (send_subscriptions d tracks s')
          (λ same e. unchanged-forwarded s.sent tracks s.forwarded same i)
          (λ changed e. send-forwarded d tracks s' e)

  change-InStep :
      (d : Delivery) (tracks : List A) (s : Session A)
      → d ≢ reply_lost
      → InStep s
      → InStep (subscribe_to_tracks equal d tracks s).1
  unfolding subscribe_to_tracks
  change-InStep d tracks s known i =
      let s' : Session A = record s { subscribed = tracks } in
      either (is_unchanged equal s.sent tracks) (λ t. InStep t.1) (true, s')
        (send_subscriptions d tracks s') (λ same. i) (λ changed. send-InStep d tracks s' known i)

  step-InStep :
      (t : Step A) (s : Session A) → delivery_of t ≢ reply_lost → InStep s → InStep (step t s)
  unfolding step new_session restore_subscribed_tracks
  step-InStep (change d tracks) s known i = change-InStep d tracks s known i
  step-InStep (rejoined d) s known i =
      send-InStep d s.subscribed (new_session s) known (λ l e. absurd (ground arith))

  run-InStep :
      (steps : List (Step A)) (s : Session A)
      → All (λ t. delivery_of t ≢ reply_lost) steps
      → InStep s
      → InStep (run steps s)
  unfolding run
  run-InStep [] s known i = i
  run-InStep (t ∷ steps) s (now, later) i =
      run-InStep steps (step t s) later (step-InStep t s now i)

-- Where no reply of the SFU was lost, a call of SubscribeToTracks that returns no error leaves the SFU
-- with the tracks asked for, whether it sent them or not; this holds after any calls and reconnects,
-- one after the other.
pub subscribed_in_step {ℓ} :
    {A : Type ℓ} (equal : A → A → Bool)
    → ((a b : A) → (equal a b ≡ true) ↔ (a ≡ b))
    → (s : Session A) (steps : List (Step A)) (d : Delivery) (tracks : List A) → s.sent ≡ none
    → All (λ t. delivery_of t ≢ reply_lost) steps
    → let s' : Session A = run equal steps s in
      (subscribe_to_tracks equal d tracks s').0 ≡ true
      → (subscribe_to_tracks equal d tracks s').1.forwarded ≡ tracks
subscribed_in_step equal equal_iff s steps d tracks fresh known =
    subscribe-forwarded equal equal_iff d tracks (run equal steps s)
      (run-InStep equal steps s known (λ l e. absurd (ground (arith, fresh, e))))

send-subscribed {ℓ} :
    {A : Type ℓ} (d : Delivery) (tracks : List A) (s : Session A)
    → (send_subscriptions d tracks s).1.subscribed ≡ s.subscribed
unfolding send_subscriptions
send-subscribed answered tracks s = refl
send-subscribed refused tracks s = refl
send-subscribed unreachable tracks s = refl
send-subscribed reply_lost tracks s = refl

-- A reconnect whose restore reaches the SFU leaves it with what the application asked for last,
-- whatever was lost before.
pub rejoined-forwarded {ℓ} :
    {A : Type ℓ} (equal : A → A → Bool) (s : Session A) (lost : Delivery) (tracks : List A)
    → (step equal (rejoined answered) (step equal (change lost tracks) s)).forwarded ≡ tracks
unfolding step new_session restore_subscribed_tracks send_subscriptions subscribe_to_tracks
rejoined-forwarded equal s lost tracks =
    let s' : Session _ = record s { subscribed = tracks } in
    either (is_unchanged equal s.sent tracks) (λ t. t.1.subscribed ≡ tracks) (true, s')
      (send_subscriptions lost tracks s') (λ same. refl) (λ changed. send-subscribed lost tracks s')

-- When the reply to a change from one list to another is lost, asking for the first list again returns
-- no error and sends nothing, and the SFU stays with the other list.
pub lost_reply_sticks {ℓ} :
    {A : Type ℓ} (equal : A → A → Bool) (s : Session A) (first other : List A)
    → same_subscriptions equal first first ≡ true
    → same_subscriptions equal first other ≡ false
    → s.sent ≡ some first
    → let s' : Session A = (subscribe_to_tracks equal reply_lost other s).1 in
      (subscribe_to_tracks equal answered first s' ≡ (true, record s' { subscribed = first }))
      × (s'.forwarded ≡ other)
unfolding subscribe_to_tracks send_subscriptions is_unchanged
lost_reply_sticks {A = A} equal s first other h h' e =
    let s' : Session A = record s { subscribed = other } in
    let t : Session A = record (counted s') { forwarded = other } in
    let lost : subscribe_to_tracks equal reply_lost other s ≡ (false, t) =
      ap (λ b. if b then (true, s') else (false, t))
        (ap (λ o. is_unchanged equal o other) e ∙ h') in
    let again : subscribe_to_tracks equal answered first t
        ≡ (true, record t { subscribed = first }) =
      ap
        (λ b.
          if b
          then (true, record t { subscribed = first })
          else send_subscriptions answered first (record t { subscribed = first }))
        (ap (λ o. is_unchanged equal o first) e ∙ h) in
    subst
      (λ u.
        (subscribe_to_tracks equal answered first u ≡ (true, record u { subscribed = first }))
        × (u.forwarded ≡ other))
      (sym (ap (λ r. r.1) lost)) (again, refl)
