-- ===== src/Stats/Delta/Restore.antt =====
-- rtcstats/rtcstats.go: a report can be restored from its compressed form and the one before.
use getstream_go_webrtc.Base.{
  ◌≡◌, refl, sym, ap, ◌∙◌, ◌≢◌, inl, inr, true, false, Option, none, some, List, [], ◌∷◌, arith,
  ==_iff, ==_refl, if◌then◌else◌, Bool-cases,
}
use getstream_go_webrtc.Stats.Delta.{
  Value, Name, report_id, timestamp, field, same_name, same_value, field_of, unchanged, strip,
}

abbrev pub or_else {ℓ} : {A : Type ℓ} → Option A → Option A → Option A
or_else (some a) b = some a
or_else none b = b

-- No key of a report comes twice.
abbrev pub Distinct : List (Name × Value) → Type 0
Distinct [] = Unit
Distinct ((n, v) ∷ r) = (field_of n r ≡ none) × Distinct r

same_name_refl : (n : Name) → same_name n n ≡ true
same_name_refl report_id = refl
same_name_refl timestamp = refl
same_name_refl (field m) = ==_refl m

pub same_name_sound : (m n : Name) → same_name m n ≡ true → m ≡ n
same_name_sound report_id report_id e = refl
same_name_sound timestamp timestamp e = refl
same_name_sound (field a) (field b) e = ap field ((==_iff a b).0 e)
same_name_sound report_id timestamp e = absurd (ground arith)
same_name_sound report_id (field b) e = absurd (ground arith)
same_name_sound timestamp report_id e = absurd (ground arith)
same_name_sound timestamp (field b) e = absurd (ground arith)
same_name_sound (field a) report_id e = absurd (ground arith)
same_name_sound (field a) timestamp e = absurd (ground arith)

same_value_sound : (v o : Value) → same_value v o ≡ true → v ≡ o
same_value_sound v o e = ground (arith, e)

unchanged_found : (v : Value) (o : Option Value) → unchanged v o ≡ true → o ≡ some v
unchanged_found v none e = absurd (ground arith)
unchanged_found v (some o) e = ap some (sym (same_value_sound v o e))

-- A field that is not the first one is looked up behind it.
pub field_of-later :
    (k n : Name) (v : Value) (r : List (Name × Value))
    → same_name k n ≡ false
    → field_of k ((n, v) ∷ r) ≡ field_of k r
unfolding field_of
field_of-later k n v r e = ap (λ b. if b then some v else field_of k r) e

pub field_of-first :
    (k n : Name) (v : Value) (r : List (Name × Value))
    → same_name k n ≡ true
    → field_of k ((n, v) ∷ r) ≡ some v
unfolding field_of
field_of-first k n v r e = ap (λ b. if b then some v else field_of k r) e

some_is_not_none : {v : Value} → some v ≢ none
some_is_not_none e = absurd (ground (arith, e))

strip-none :
    (before r : List (Name × Value)) (k : Name)
    → field_of k r ≡ none
    → field_of k (strip before r) ≡ none
unfolding strip
strip-none before [] k e = e
strip-none before ((n, v) ∷ r) k e = elim (Bool-cases (same_name k n)) [
  | inl first ↦ absurd (some_is_not_none (sym (field_of-first k n v r first) ∙ e))
  | inr later ↦
      let rest : List (Name × Value) = strip before r in
      let none_left : field_of k rest ≡ none =
        strip-none before r k (sym (field_of-later k n v r later) ∙ e) in
      elim (Bool-cases (unchanged v (field_of n before))) [
        | inl same ↦ ap (λ c. field_of k (if c then rest else (n, v) ∷ rest)) same ∙ none_left
        | inr changed ↦
            ap (λ c. field_of k (if c then rest else (n, v) ∷ rest)) changed
            ∙ field_of-later k n v rest later
            ∙ none_left
      ]
]

-- A field of a report is in its stripped form or as before.
pub strip-restores :
    (before r : List (Name × Value)) (k : Name)
    → Distinct r
    → (field_of k r ≡ none → field_of k before ≡ none)
    → or_else (field_of k (strip before r)) (field_of k before) ≡ field_of k r
unfolding strip field_of
strip-restores before [] k d h = h refl
strip-restores before ((n, v) ∷ r) k (single, d) h =
    let rest : List (Name × Value) = strip before r in
    let restored : List (Name × Value) → Option Value =
      λ l. or_else (field_of k l) (field_of k before) in
    elim (Bool-cases (same_name k n)) [
      | inl first ↦ elim (Bool-cases (unchanged v (field_of n before))) [
        | inl same ↦
            ap (λ c. restored (if c then rest else (n, v) ∷ rest)) same
            ∙ ap (λ o. or_else o (field_of k before))
                (strip-none before r k
                  (ap (λ m. field_of m r) (same_name_sound k n first) ∙ single))
            ∙ ap (λ m. field_of m before) (same_name_sound k n first)
            ∙ unchanged_found v (field_of n before) same
            ∙ sym (field_of-first k n v r first)
        | inr changed ↦
            ap (λ c. restored (if c then rest else (n, v) ∷ rest)) changed
            ∙ ap (λ o. or_else o (field_of k before)) (field_of-first k n v rest first)
            ∙ sym (field_of-first k n v r first)
      ]
      | inr later ↦
          let ih : restored rest ≡ field_of k r =
            strip-restores before r k d (λ e. h (field_of-later k n v r later ∙ e)) in
          elim (Bool-cases (unchanged v (field_of n before))) [
            | inl same ↦
                ap (λ c. restored (if c then rest else (n, v) ∷ rest)) same
                ∙ ih
                ∙ sym (field_of-later k n v r later)
            | inr changed ↦
                ap (λ c. restored (if c then rest else (n, v) ∷ rest)) changed
                ∙ ap (λ o. or_else o (field_of k before)) (field_of-later k n v rest later)
                ∙ ih
                ∙ sym (field_of-later k n v r later)
          ]
    ]
