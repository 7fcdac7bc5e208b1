-- ===== src/Sdp/Agree.antt =====
-- internal/sdputil/sdputil.go: the credentials of a description that is accepted.
use mathlib.Core.Option.{some-injective}
use getstream_go_webrtc.Base.{
  ℕ, ◌<◌, ◌≡◌, refl, sym, ap, ap₂, subst, ◌∙◌, ◌↔◌, ◌⊎◌, inl, inr, Bool, true, false, some, List,
  [], ◌∷◌, arith, Option-cases, length, All,
}
use getstream_go_webrtc.Base.Result.{ok, err}
use getstream_go_webrtc.Sdp.{
  Key, ice_ufrag, ice_pwd, attribute, appended, media_values, Description, checked, conflicts,
  credential, values_of, extract_ice_credential,
}

conflicts_agree :
    (first : ℕ) (values : List ℕ) → conflicts first values ≡ false → All (λ v. v ≡ first) values
unfolding conflicts
conflicts_agree first [] e = tt
conflicts_agree first (v ∷ values) e =
    (ground (arith, e), conflicts_agree first values (ground (arith, e)))

conflicts_none :
    (first : ℕ) (values : List ℕ) → All (λ v. v ≡ first) values → conflicts first values ≡ false
unfolding conflicts
conflicts_none first [] h = refl
conflicts_none first (v ∷ values) (now, later) =
    ground (arith, now, conflicts_none first values later)

-- All values of a key are one, and there is one.
abbrev pub Agree : ℕ → List ℕ → Type 0
Agree v values = (0 < length values) × All (λ w. w ≡ v) values

both_passed :
    (b c : Bool) (x y z w : ℕ)
    → checked b c (x, y) ≡ ok (z, w)
    → (b ≡ false) × (c ≡ false) × (x ≡ z) × (y ≡ w)
both_passed true c x y z w e = absurd (ground arith)
both_passed false true x y z w e = absurd (ground arith)
both_passed false false x y z w e = (
  refl,
  refl,
  ap (λ r. elim r [ ok t ↦ t.0 | err failure ↦ x ]) e,
  ap (λ r. elim r [ ok t ↦ t.1 | err failure ↦ y ]) e,
)

accepted :
    (ufrags pwds : List ℕ) (u p : ℕ)
    → credential ufrags pwds ≡ ok (u, p)
    → Agree u ufrags × Agree p pwds
accepted [] pwds u p e = absurd (ground arith)
accepted (v ∷ ufrags) [] u p e = absurd (ground arith)
accepted (v ∷ ufrags) (w ∷ pwds) u p e =
    let (same_ufrag, same_pwd, uu, pp) =
      both_passed (conflicts v (v ∷ ufrags)) (conflicts w (w ∷ pwds)) v w u p e in
    (
      (
        omega arith,
        subst (λ a. All (λ x. x ≡ a) (v ∷ ufrags)) uu (conflicts_agree v (v ∷ ufrags) same_ufrag),
      ),
      (
        omega arith,
        subst (λ a. All (λ x. x ≡ a) (w ∷ pwds)) pp (conflicts_agree w (w ∷ pwds) same_pwd),
      ),
    )

agreed :
    (ufrags pwds : List ℕ) (u p : ℕ)
    → Agree u ufrags
    → Agree p pwds
    → credential ufrags pwds ≡ ok (u, p)
agreed [] pwds u p (h, all) h' = absurd (omega (arith, h))
agreed (v ∷ ufrags) [] u p h (h', all) = absurd (omega (arith, h'))
agreed (v ∷ ufrags) (w ∷ pwds) u p (h, all) (h', all') =
    let e : v ≡ u = all.0 in
    let e' : w ≡ p = all'.0 in
    ap (λ b. checked b (conflicts w (w ∷ pwds)) (v, w))
      (conflicts_none v (v ∷ ufrags) (subst (λ a. All (λ x. x ≡ a) (v ∷ ufrags)) (sym e) all))
    ∙ ap (λ b. checked false b (v, w))
        (conflicts_none w (w ∷ pwds) (subst (λ a. All (λ x. x ≡ a) (w ∷ pwds)) (sym e') all'))
    ∙ ap₂ (λ a b. ok (a, b)) e e'

-- Some section has a value of the key as its first.
abbrev pub Carries : Key → ℕ → List (List (Key × ℕ)) → Type 0
Carries k v [] = ⊥
Carries k v (section ∷ sections) = (attribute k section ≡ some v) ⊎ Carries k v sections

-- No section has another value of the key as its first.
abbrev pub Only : Key → ℕ → List (List (Key × ℕ)) → Type 0
Only k v sections = All (λ section. (w : ℕ) → attribute k section ≡ some w → w ≡ v) sections

values-Only :
    (k : Key) (v : ℕ) (sections : List (List (Key × ℕ)))
    → All (λ w. w ≡ v) (media_values k sections)
    → Only k v sections
unfolding media_values
values-Only k v [] h = tt
values-Only k v (section ∷ sections) h = elim (Option-cases (attribute k section)) [
  | inl e ↦
      let later : All (λ w. w ≡ v) (media_values k sections) =
        subst (λ o. All (λ w. w ≡ v) (appended o (media_values k sections))) e h in
      ((λ w e'. absurd (ground (arith, sym e ∙ e'))), values-Only k v sections later)
  | inr (x, e) ↦
      let both : All (λ w. w ≡ v) (x ∷ media_values k sections) =
        subst (λ o. All (λ w. w ≡ v) (appended o (media_values k sections))) e h in
      ((λ w e'. some-injective w x (sym e' ∙ e) ∙ both.0), values-Only k v sections both.1)
]

values-Carries :
    (k : Key) (v : ℕ) (sections : List (List (Key × ℕ)))
    → Agree v (media_values k sections)
    → Carries k v sections
unfolding media_values
values-Carries k v [] (h, all) = absurd (omega (arith, h))
values-Carries k v (section ∷ sections) h = elim (Option-cases (attribute k section)) [
  | inl e ↦ inr (
      values-Carries k v sections (subst (λ o. Agree v (appended o (media_values k sections))) e h))
  | inr (x, e) ↦
      let both : Agree v (x ∷ media_values k sections) =
        subst (λ o. Agree v (appended o (media_values k sections))) e h in
      inl (e ∙ ap some both.1.0)
]

Only-values :
    (k : Key) (v : ℕ) (sections : List (List (Key × ℕ)))
    → Only k v sections
    → All (λ w. w ≡ v) (media_values k sections)
unfolding media_values
Only-values k v [] h = tt
Only-values k v (section ∷ sections) (now, later) =
    let rest : All (λ w. w ≡ v) (media_values k sections) = Only-values k v sections later in
    elim (Option-cases (attribute k section)) [
      | inl e ↦ subst (λ o. All (λ w. w ≡ v) (appended o (media_values k sections))) (sym e) rest
      | inr (x, e) ↦
          subst (λ o. All (λ w. w ≡ v) (appended o (media_values k sections))) (sym e)
            (now x e, rest)
    ]

Carries-values :
    (k : Key) (v : ℕ) (sections : List (List (Key × ℕ)))
    → Carries k v sections
    → 0 < length (media_values k sections)
unfolding media_values
Carries-values k v (section ∷ sections) (inl e) =
    subst (λ o. 0 < length (appended o (media_values k sections))) (sym e) (omega arith)
Carries-values k v (section ∷ sections) (inr later) =
    let more : 0 < length (media_values k sections) = Carries-values k v sections later in
    elim (Option-cases (attribute k section)) [
      | inl e ↦ subst (λ o. 0 < length (appended o (media_values k sections))) (sym e) more
      | inr (x, e) ↦
          subst (λ o. 0 < length (appended o (media_values k sections))) (sym e) (omega arith)
    ]
Carries-values k v [] h = absurd h

-- A description gives the credentials u and p exactly when its session or one of its media sections has
-- u as ufrag, one has p as password, and none has another; of an attribute that a section repeats, the
-- first counts.
pub extract_iff :
    (desc : Description) (u p : ℕ)
    → let sections : List (List (Key × ℕ)) = desc.attributes ∷ desc.media in
      (extract_ice_credential desc ≡ ok (u, p)) ↔ (
        (Carries ice_ufrag u sections × Only ice_ufrag u sections)
        × (Carries ice_pwd p sections × Only ice_pwd p sections))
unfolding extract_ice_credential values_of media_values
extract_iff desc u p =
    let sections : List (List (Key × ℕ)) = desc.attributes ∷ desc.media in
    (
      (λ e.
          let (h, h') =
            accepted (media_values ice_ufrag sections) (media_values ice_pwd sections) u p e in
          (
            (values-Carries ice_ufrag u sections h, values-Only ice_ufrag u sections h.1),
            (values-Carries ice_pwd p sections h', values-Only ice_pwd p sections h'.1),
          )),
      (λ h.
          agreed (media_values ice_ufrag sections) (media_values ice_pwd sections) u p
            (Carries-values ice_ufrag u sections h.0.0, Only-values ice_ufrag u sections h.0.1)
            (Carries-values ice_pwd p sections h.1.0, Only-values ice_pwd p sections h.1.1)),
    )
