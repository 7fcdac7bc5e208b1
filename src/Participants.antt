-- ===== src/Participants.antt =====
-- participant_store.go, with call.go's handlers of participants that join and leave. The two indexes
-- are skipset's, which is not part of this repository: an `Index` has what it documents. Counts are
-- int32; strings are lists of bytes.
mod Leaving
mod Tests
use getstream_go_webrtc.Base.{
  ℕ, ◌+◌, ◌-◌, ◌%◌, ◌^◌, ◌≡◌, ◌≢◌, Bool, true, false, Option, none, some, List, [], ◌∷◌, ◌==◌,
  if◌then◌else◌,
}
use getstream_go_webrtc.Pc.Transport.{same_text, before_colon}

-- `ParticipantID`: the user and the session.
pub record ParticipantId : Type 0 where
  pub user_id : List ℕ
  pub session_id : List ℕ

pub record Participant : Type 0 where
  pub id : ParticipantId
  pub track_prefix : List ℕ  -- TrackLookupPrefix
  pub name : List ℕ

-- A set of participants ordered by a key: `Set` stores under the key in place of what was there,
-- `Remove` deletes the key and `Load` finds it.
pub record Index (Key : Type 0) : Type 1 where
  pub State : Type 0
  pub store : State → Key → Participant → State
  pub delete : State → Key → State
  pub load : State → Key → Option Participant
  pub load-store : (s : State) (k : Key) (p : Participant) → load (store s k p) k ≡ some p
  pub load-store_ne :
      (s : State) (k k' : Key) (p : Participant) → k ≢ k' → load (store s k p) k' ≡ load s k'
  pub load-delete : (s : State) (k : Key) → load (delete s k) k ≡ none
  pub load-delete_ne : (s : State) (k k' : Key) → k ≢ k' → load (delete s k) k' ≡ load s k'

-- "!anon"
abbrev pub anonymous_user_id : List ℕ
anonymous_user_id = 33 ∷ 97 ∷ 110 ∷ 111 ∷ 110 ∷ []

abbrev pub is_anonymous : Participant → Bool
is_anonymous p = same_text p.id.user_id anonymous_user_id

-- The sum and the difference of an int32, as the residue that it has.
abbrev pub add32 : ℕ → ℕ → ℕ
add32 a b = (a + b) % 2 ^ 32

abbrev pub decrement32 : ℕ → ℕ
decrement32 a = (a + (2 ^ 32 - 1)) % 2 ^ 32

module _ (by_id : Index ParticipantId) (by_prefix : Index (List ℕ)) where
  pub record ParticipantStore : Type 0 where
    pub ids : Index.State by_id
    pub prefixes : Index.State by_prefix
    pub total : ℕ
    pub anonymous : ℕ

  unfoldable pub set : Participant → ParticipantStore → ParticipantStore
  set p s = record {
    ids = by_id.store s.ids p.id p;
    prefixes = by_prefix.store s.prefixes p.track_prefix p;
    total = add32 s.total 1;
    anonymous = if is_anonymous p then add32 s.anonymous 1 else s.anonymous;
  }

  unfoldable pub remove : Participant → ParticipantStore → ParticipantStore
  remove p s = record {
    ids = by_id.delete s.ids p.id;
    prefixes = by_prefix.delete s.prefixes p.track_prefix;
    total = decrement32 s.total;
    anonymous = if is_anonymous p then decrement32 s.anonymous else s.anonymous;
  }

  abbrev pub get_by_id : ParticipantId → ParticipantStore → Option Participant
  get_by_id id s = by_id.load s.ids id

  abbrev pub get_by_track_prefix : List ℕ → ParticipantStore → Option Participant
  get_by_track_prefix prefix s = by_prefix.load s.prefixes prefix

  -- The participant that `LookupParticipantByTrack` finds.
  unfoldable pub lookup_by_track : List ℕ → ParticipantStore → Option Participant
  lookup_by_track stream_id s = get_by_track_prefix (before_colon stream_id) s

  -- `OnParticipantJoined`
  unfoldable pub on_joined : Participant → ParticipantStore → ParticipantStore
  on_joined p s = set p s

  -- `OnParticipantLeft`: the participant it removes has only its id.
  unfoldable pub on_left : ParticipantId → ParticipantStore → ParticipantStore
  on_left id s = remove (record { id = id; track_prefix = []; name = [] }) s
