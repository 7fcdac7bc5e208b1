-- ===== src/Pc/Candidates.antt =====
-- pc/pc.go: remote descriptions and the ICE candidates that belong to them.
use getstream_go_webrtc.Base.{
  ℕ, Bool, true, false, ◌||◌, not, Option, none, some, List, [], ◌∷◌, ◌++◌, if◌then◌else◌,
}
use getstream_go_webrtc.Pc.Transport.{
  Description, Candidate, Peer, Loop, Outcome, call, done, fail, applied, unsupported_codec,
  refused, remote_set, remote_set_ok, set_remote_failed, added_candidate, added_candidate_ok,
  credential_of, before_colon, same_text,
}

abbrev pub is_empty : List ℕ → Bool
is_empty [] = true
is_empty (b ∷ bs) = false

abbrev pub names_other : List ℕ → Option (List ℕ) → Bool
names_other remote none = false
names_other remote (some u) = not (is_empty u || is_empty remote || same_text u remote)

abbrev pub matches_remote : Loop → Candidate → Bool
matches_remote l c = not (names_other l.remote_ufrag c.username_fragment)

unfoldable pub apply_candidate : Peer → Candidate → Loop → Loop
apply_candidate p c l =
    let l' = call (added_candidate c) l in
    if p.add_candidate c then call added_candidate_ok l' else l'

-- The candidates that were held, in order; those of another generation are dropped.
unfoldable pub apply_pending : Peer → List Candidate → Loop → Loop
apply_pending p [] l = l
apply_pending p (c ∷ cs) l =
    apply_pending p cs (if matches_remote l c then apply_candidate p c l else l)

abbrev pub ufrag_of : Option (List ℕ) → List ℕ
ufrag_of none = []
ufrag_of (some credential) = before_colon credential

-- The rest of `setRemoteDescription` after the description is applied.
unfoldable pub adopt_remote : Peer → Description → Loop → Loop
adopt_remote p d l =
    let held = l.pending_candidates in
    apply_pending p held (record l {
      remote_ufrag = ufrag_of (credential_of p d);
      pending_candidates = [];
      calls = remote_set_ok ∷ l.calls;
    })

unfoldable pub set_remote_description : Peer → Description → Loop → Outcome
set_remote_description p d l =
    let l' = call (remote_set d) l in
    elim (p.set_remote d) [
      | applied ↦ done (adopt_remote p d l')
      | unsupported_codec ↦ done (adopt_remote p d l')
      | refused ↦ fail set_remote_failed l'
    ]

unfoldable pub add_remote_candidate : Peer → Candidate → Loop → Loop
add_remote_candidate p c l =
    if not p.has_remote || not (matches_remote l c)
    then record l { pending_candidates = l.pending_candidates ++ (c ∷ []) }
    else apply_candidate p c l
