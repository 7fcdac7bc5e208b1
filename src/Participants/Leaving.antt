-- ===== src/Participants/Leaving.antt =====
-- participant_store.go: what is left of a participant that left.
use getstream_go_webrtc.Base.{
  ℕ, ◌^◌, ◌<◌, ◌≡◌, ◌≢◌, refl, sym, ◌∙◌, Bool, true, false, none, some, List, [], if◌then◌else◌,
  arith,
}
use getstream_go_webrtc.Participants.{
  ParticipantId, Participant, Index, ParticipantStore, is_anonymous, add32, decrement32, set,
  remove, get_by_id, get_by_track_prefix, on_joined, on_left,
}

restored :
    (counted : Bool) (n : ℕ)
    → n < 2 ^ 32
    → (let joined = if counted then add32 n 1 else n in
        if counted then decrement32 joined else joined)
      ≡ n
restored true n lt = omega arith
restored false n lt = refl

module _ (by_id : Index ParticipantId) (by_prefix : Index (List ℕ)) where
  -- After a participant with a track prefix has joined and left, it is not found by its id any more,
  -- others are as before and the counts are as before, but it is still found by its track prefix.
  pub joined_left_lem :
      (p : Participant) (other : ParticipantId) (s : ParticipantStore by_id by_prefix)
      → p.track_prefix ≢ []
      → p.id ≢ other
      → s.total < 2 ^ 32
      → s.anonymous < 2 ^ 32
      → let s' = on_left by_id by_prefix p.id (on_joined by_id by_prefix p s) in
        (get_by_id by_id by_prefix p.id s' ≡ none)
        × (get_by_id by_id by_prefix other s' ≡ get_by_id by_id by_prefix other s)
        × (s'.total ≡ s.total)
        × (s'.anonymous ≡ s.anonymous)
        × (get_by_track_prefix by_id by_prefix p.track_prefix s' ≡ some p)
  unfolding on_left on_joined set remove
  joined_left_lem p other s has_prefix ne total_ok anonymous_ok = (
    by_id.load-delete (by_id.store s.ids p.id p) p.id,
    by_id.load-delete_ne (by_id.store s.ids p.id p) p.id other ne
        ∙ by_id.load-store_ne s.ids p.id other p ne,
    omega arith,
    restored (is_anonymous p) s.anonymous anonymous_ok,
    by_prefix.load-delete_ne (by_prefix.store s.prefixes p.track_prefix p) [] p.track_prefix
          (λ e. has_prefix (sym e))
        ∙ by_prefix.load-store s.prefixes p.track_prefix p,
  )
