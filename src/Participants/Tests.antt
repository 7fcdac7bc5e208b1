-- ===== src/Participants/Tests.antt =====
-- Participants with indexes that are functions.
use getstream_go_webrtc.Base.{
  ℕ, ◌≡◌, ◌≢◌, refl, ap₂, Bool, true, false, ◌&&◌, Option, none, some, List, [], ◌∷◌, if◌then◌else◌,
  arith,
}
use getstream_go_webrtc.Pc.Transport.{same_text}
use getstream_go_webrtc.Participants.{
  ParticipantId, Participant, Index, ParticipantStore, on_joined, on_left, get_by_id,
  get_by_track_prefix,
}
use getstream_go_webrtc.Participants.Leaving.{joined_left_lem}

same_text_refl : (a : List ℕ) → same_text a a ≡ true
unfolding same_text
same_text_refl [] = refl
same_text_refl (x ∷ xs) = ground (arith, same_text_refl xs)

same_text_sound : (a b : List ℕ) → same_text a b ≡ true → a ≡ b
unfolding same_text
same_text_sound [] [] h = refl
same_text_sound [] (y ∷ ys) h = absurd (ground arith)
same_text_sound (x ∷ xs) [] h = absurd (ground arith)
same_text_sound (x ∷ xs) (y ∷ ys) h =
    ap₂ (λ c cs. c ∷ cs) (ground arith) (same_text_sound xs ys (ground arith))

if_other : (b : Bool) (x y : Option Participant) → b ≢ true → (if b then x else y) ≡ y
if_other true x y ne = absurd (ne refl)
if_other false x y ne = refl

-- An index by keys that a Boolean test tells apart.
abbrev index :
    (Key : Type 0) (same : Key → Key → Bool)
    → ((k : Key) → same k k ≡ true)
    → ((k k' : Key) → same k k' ≡ true → k ≡ k')
    → Index Key
index Key same same_refl sound = record {
  State = Key → Option Participant;
  store = λ s k p k'. if same k k' then some p else s k';
  delete = λ s k k'. if same k k' then none else s k';
  load = λ s k. s k;
  load-store = λ s k p. rw (same_refl k) refl;
  load-store_ne = λ s k k' p ne. if_other (same k k') (some p) (s k') (λ h. ne (sound k k' h));
  load-delete = λ s k. rw (same_refl k) refl;
  load-delete_ne = λ s k k' ne. if_other (same k k') none (s k') (λ h. ne (sound k k' h));
}

abbrev same_id : ParticipantId → ParticipantId → Bool
same_id a b = same_text a.user_id b.user_id && same_text a.session_id b.session_id

same_id_refl : (a : ParticipantId) → same_id a a ≡ true
same_id_refl a = rw (same_text_refl a.user_id, same_text_refl a.session_id) refl

same_id_sound : (a b : ParticipantId) → same_id a b ≡ true → a ≡ b
same_id_sound a b h =
    let users = same_text_sound a.user_id b.user_id (ground arith) in
    let sessions = same_text_sound a.session_id b.session_id (ground arith) in
    ap₂ (λ u v. record { user_id = u; session_id = v }) users sessions

abbrev by_id : Index ParticipantId
by_id = index ParticipantId same_id same_id_refl same_id_sound

abbrev by_prefix : Index (List ℕ)
by_prefix = index (List ℕ) same_text same_text_refl same_text_sound

abbrev id_of : ℕ → ParticipantId
id_of n = record { user_id = n ∷ []; session_id = 7 ∷ n ∷ [] }

abbrev guest : Participant
guest = record { id = id_of 1; track_prefix = 65 ∷ 66 ∷ []; name = 71 ∷ [] }

abbrev nobody : ParticipantStore by_id by_prefix
nobody = record { ids = λ k. none; prefixes = λ k. none; total = 3; anonymous = 2 }

joined_left_lem_example :
    let s' = on_left by_id by_prefix (id_of 1) (on_joined by_id by_prefix guest nobody) in
    (get_by_id by_id by_prefix (id_of 1) s' ≡ none)
    × (get_by_id by_id by_prefix (id_of 2) s' ≡ get_by_id by_id by_prefix (id_of 2) nobody)
    × (s'.total ≡ 3)
    × (s'.anonymous ≡ 2)
    × (get_by_track_prefix by_id by_prefix (65 ∷ 66 ∷ []) s' ≡ some guest)
joined_left_lem_example =
    joined_left_lem by_id by_prefix guest (id_of 2) nobody (λ h. ground arith) (λ h. ground arith)
      (omega arith) (omega arith)
