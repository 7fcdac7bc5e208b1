-- ===== src/Pc/Generation.antt =====
-- pc/pc.go: ICE candidates of the other side that come before their description.
use getstream_go_webrtc.Base.{
  ℕ, ◌≡◌, ◌≢◌, ◌⊎◌, inl, inr, refl, sym, ◌∙◌, Bool, false, not, List, [], ◌∷◌, ◌++◌, if◌then◌else◌,
  arith, Bool-cases, append_assoc, append-nil,
}
use getstream_go_webrtc.Pc.Transport.{
  Description, Candidate, refused, Peer, Call, remote_set, remote_set_ok, added_candidate, Loop,
  credential_of,
}
use getstream_go_webrtc.Pc.Candidates.{
  add_remote_candidate, apply_candidate, apply_pending, adopt_remote, set_remote_description,
  ufrag_of, names_other,
}

-- The candidates given to the peer connection, the latest first.
pub given : List Call → List Candidate
given [] = []
given (added_candidate c ∷ cs) = c ∷ given cs
given (_ ∷ cs) = given cs

-- `c` belongs to the generation of a description with this ufrag.
abbrev pub fits : List ℕ → Candidate → Bool
fits ufrag c = not (names_other ufrag c.username_fragment)

-- Those of the held candidates that belong to it, put before the others.
pub with_fitting : List ℕ → List Candidate → List Candidate → List Candidate
with_fitting ufrag [] before = before
with_fitting ufrag (c ∷ cs) before =
    with_fitting ufrag cs (if fits ufrag c then c ∷ before else before)

remote_ufrag-apply_candidate :
    (p : Peer) (c : Candidate) (l : Loop) → (apply_candidate p c l).remote_ufrag ≡ l.remote_ufrag
unfolding apply_candidate
remote_ufrag-apply_candidate p c l = ground arith

given-apply_candidate :
    (p : Peer) (c : Candidate) (l : Loop) → given (apply_candidate p c l).calls ≡ c ∷ given l.calls
unfolding apply_candidate given
given-apply_candidate p c l = ground arith

pending-apply_candidate :
    (p : Peer) (c : Candidate) (l : Loop)
    → (apply_candidate p c l).pending_candidates ≡ l.pending_candidates
unfolding apply_candidate
pending-apply_candidate p c l = ground arith

apply_pending_lem :
    (p : Peer) (cs : List Candidate) (l : Loop)
    → (given (apply_pending p cs l).calls ≡ with_fitting l.remote_ufrag cs (given l.calls))
      × ((apply_pending p cs l).pending_candidates ≡ l.pending_candidates)
      × ((apply_pending p cs l).remote_ufrag ≡ l.remote_ufrag)
unfolding apply_pending with_fitting
apply_pending_lem p [] l = (refl, refl, refl)
apply_pending_lem p (c ∷ cs) l = elim (Bool-cases (fits l.remote_ufrag c)) [
  | inl yes_fits ↦
      let ih = apply_pending_lem p cs (apply_candidate p c l) in
      ground (
        arith,
        ih,
        given-apply_candidate p c l,
        pending-apply_candidate p c l,
        remote_ufrag-apply_candidate p c l,
      )
  | inr other ↦ let ih = apply_pending_lem p cs l in ground (arith, ih)
]

-- When a description is applied, the held candidates of its generation are given to the peer
-- connection in the order they came in, the others are dropped, and none is held any more; a
-- description that is refused leaves the held ones as they are.
pub set_remote_description_lem :
    (p : Peer) (d : Description) (l : Loop)
    → let l' = (set_remote_description p d l).1 in
      ((p.set_remote d ≡ refused)
        × (given l'.calls ≡ given l.calls)
        × (l'.pending_candidates ≡ l.pending_candidates))
      ⊎ ((p.set_remote d ≢ refused)
          × (given l'.calls
              ≡ with_fitting (ufrag_of (credential_of p d)) l.pending_candidates (given l.calls))
          × (l'.pending_candidates ≡ [])
          × (l'.remote_ufrag ≡ ufrag_of (credential_of p d)))
unfolding set_remote_description adopt_remote given
set_remote_description_lem p d l =
    let l' : Loop = record l {
      remote_ufrag = ufrag_of (credential_of p d);
      pending_candidates = [];
      calls = remote_set_ok ∷ remote_set d ∷ l.calls;
    } in
    let h = apply_pending_lem p l.pending_candidates l' in ground (arith, h)

-- Candidates that arrive one after another before any description.
pub add_all : Peer → List Candidate → Loop → Loop
add_all p [] l = l
add_all p (c ∷ cs) l = add_all p cs (add_remote_candidate p c l)

add-held :
    (p : Peer) (c : Candidate) (l : Loop)
    → p.has_remote ≡ false
    → add_remote_candidate p c l
      ≡ record l { pending_candidates = l.pending_candidates ++ (c ∷ []) }
unfolding add_remote_candidate
add-held p c l no_remote = ground arith

held-add_all :
    (p : Peer) (cs : List Candidate) (l : Loop)
    → p.has_remote ≡ false
    → ((add_all p cs l).pending_candidates ≡ l.pending_candidates ++ cs)
      × ((add_all p cs l).calls ≡ l.calls)
unfolding add_all
held-add_all p [] l no_remote = (sym (append-nil l.pending_candidates), refl)
held-add_all p (c ∷ cs) l no_remote =
    let l' : Loop = record l { pending_candidates = l.pending_candidates ++ (c ∷ []) } in
    let ih = held-add_all p cs l' no_remote in
    let moved = append_assoc l.pending_candidates (c ∷ []) cs in
    simp (add-held p c l no_remote) (ih.0 ∙ moved, ih.1)

-- However many candidates overtake the description that they belong to, when it is applied those
-- that fit it are given to the peer connection in the order they came in, and none is lost.
pub overtaking_lem :
    (p q : Peer) (cs : List Candidate) (d : Description) (l : Loop)
    → p.has_remote ≡ false
    → q.set_remote d ≢ refused
    → l.pending_candidates ≡ []
    → given (set_remote_description q d (add_all p cs l)).1.calls
      ≡ with_fitting (ufrag_of (credential_of q d)) cs (given l.calls)
overtaking_lem p q cs d l no_remote taken none_held =
    let held = held-add_all p cs l no_remote in
    elim (set_remote_description_lem q d (add_all p cs l)) [
      | inl (r, _, _) ↦ absurd (taken r)
      | inr (_, g, _, _) ↦ simp (held.0, held.1, none_held) at g
    ]
