-- ===== src/Stats/Delta/Reports.antt =====
-- rtcstats/rtcstats.go: what the receiver of compressed reports can restore.
use mathlib.Core.Option.{some-injective}
use getstream_go_webrtc.Base.{
  ℕ, ◌≡◌, refl, sym, ap, ap₂, subst, ◌∙◌, ◌≢◌, inl, inr, Bool, true, false, ◌&&◌, Option, none,
  some, List, [], ◌∷◌, arith, ◌==◌, ==_iff, if◌then◌else◌, Bool-cases,
}
use getstream_go_webrtc.Stats.Delta.{
  Value, number, Name, report_id, timestamp, same_name, Entry, report, plain, field_of, entry_of,
  without, strip, strip_against, compressed, is_max, zero_timestamp, zeroed, panics, max_timestamp,
  delta_compression_rtc_stats,
}
use getstream_go_webrtc.Stats.Delta.Restore.{
  or_else, Distinct, same_name_sound, field_of-later, field_of-first, strip-restores,
}

not_same : (k n : Name) → k ≢ n → same_name k n ≡ false
not_same k n h = elim (Bool-cases (same_name k n)) [
  | inl e ↦ absurd (h (same_name_sound k n e))
  | inr e ↦ e
]

-- Dropping the id leaves the other fields.
field_of-without :
    (d k : Name) (r : List (Name × Value)) → k ≢ d → field_of k (without d r) ≡ field_of k r
unfolding without
field_of-without d k [] h = refl
field_of-without d k ((n, v) ∷ r) h =
    let rest : List (Name × Value) = without d r in
    let ih : field_of k rest ≡ field_of k r = field_of-without d k r h in
    elim (Bool-cases (same_name d n)) [
      | inl dropped ↦
          ap (λ b. field_of k (if b then rest else (n, v) ∷ rest)) dropped
          ∙ ih
          ∙ sym (
              field_of-later k n v r
                (not_same k n (λ e. h (e ∙ sym (same_name_sound d n dropped)))))
      | inr stays ↦
          ap (λ b. field_of k (if b then rest else (n, v) ∷ rest)) stays
          ∙ elim (Bool-cases (same_name k n)) [
            | inl first ↦ field_of-first k n v rest first ∙ sym (field_of-first k n v r first)
            | inr later ↦ field_of-later k n v rest later ∙ ih ∙ sym (field_of-later k n v r later)
          ]
    ]

without-none :
    (d k : Name) (r : List (Name × Value)) → field_of k r ≡ none → field_of k (without d r) ≡ none
unfolding without field_of
without-none d k [] e = refl
without-none d k ((n, v) ∷ r) e = elim (Bool-cases (same_name k n)) [
  | inl first ↦ absurd (ground (arith, sym (field_of-first k n v r first) ∙ e))
  | inr later ↦
      let rest : List (Name × Value) = without d r in
      let none_left : field_of k rest ≡ none =
        without-none d k r (sym (field_of-later k n v r later) ∙ e) in
      elim (Bool-cases (same_name d n)) [
        | inl dropped ↦ ap (λ b. field_of k (if b then rest else (n, v) ∷ rest)) dropped ∙ none_left
        | inr stays ↦
            ap (λ b. field_of k (if b then rest else (n, v) ∷ rest)) stays
            ∙ field_of-later k n v rest later
            ∙ none_left
      ]
]

without-Distinct : (d : Name) (r : List (Name × Value)) → Distinct r → Distinct (without d r)
unfolding without
without-Distinct d [] h = tt
without-Distinct d ((n, v) ∷ r) (single, h) =
    let rest : List (Name × Value) = without d r in
    let ih : Distinct rest = without-Distinct d r h in
    elim (Bool-cases (same_name d n)) [
      | inl dropped ↦ subst (λ b. Distinct (if b then rest else (n, v) ∷ rest)) (sym dropped) ih
      | inr stays ↦
          subst (λ b. Distinct (if b then rest else (n, v) ∷ rest)) (sym stays)
            (without-none d n r single, ih)
    ]

-- Only the timestamp of a report is zeroed.
field_of-zero_timestamp :
    (m : Option ℕ) (k : Name) (r : List (Name × Value))
    → k ≢ timestamp
    → field_of k (zero_timestamp m r) ≡ field_of k r
unfolding zero_timestamp
field_of-zero_timestamp m k [] h = refl
field_of-zero_timestamp m k ((n, v) ∷ r) h =
    let v' : Value = if same_name n timestamp && is_max m v then number 0 else v in
    elim (Bool-cases (same_name k n)) [
      | inl first ↦
          field_of-first k n v' (zero_timestamp m r) first
          ∙ ap (λ b. some (if b && is_max m v then number 0 else v))
              (not_same n timestamp (λ e. h (same_name_sound k n first ∙ e)))
          ∙ sym (field_of-first k n v r first)
      | inr later ↦
          field_of-later k n v' (zero_timestamp m r) later
          ∙ field_of-zero_timestamp m k r h
          ∙ sym (field_of-later k n v r later)
    ]

fields_of : Option Entry → List (Name × Value)
fields_of (some (report l)) = l
fields_of (some (plain v)) = []
fields_of none = []

plain_not_report : (v : Value) (r : List (Name × Value)) → some (plain v) ≢ some (report r)
plain_not_report v r e = absurd (ground (arith, e))

-- What becomes of the report with a given number
entry_of-zeroed :
    (m : Option ℕ) (old stats : List (ℕ × Entry)) (i : ℕ) (r : List (Name × Value))
    → entry_of i stats ≡ some (report r)
    → entry_of i (zeroed m (compressed old stats))
      ≡ some (report (zero_timestamp m (strip_against (entry_of i old) (without report_id r))))
unfolding zeroed compressed entry_of fields_of
entry_of-zeroed m old [] i r e = absurd (ground arith)
entry_of-zeroed m old ((j, plain v) ∷ stats) i r e = elim (Bool-cases (i == j)) [
  | inl here ↦ absurd (
      plain_not_report v r
        (sym (ap (λ b. if b then some (plain v) else entry_of i stats) here) ∙ e))
  | inr later ↦
      ap (λ b. if b then some (plain v) else entry_of i (zeroed m (compressed old stats))) later
      ∙ entry_of-zeroed m old stats i r
          (sym (ap (λ b. if b then some (plain v) else entry_of i stats) later) ∙ e)
]
entry_of-zeroed m old ((j, report x) ∷ stats) i r e =
    let out : ℕ → List (Name × Value) → Option Entry = λ a l.
      some (report (zero_timestamp m (strip_against (entry_of a old) (without report_id l)))) in
    let rest : Option Entry = entry_of i (zeroed m (compressed old stats)) in
    elim (Bool-cases (i == j)) [
      | inl here ↦
          ap (λ b. if b then out j x else rest) here
          ∙ ap₂ out (sym ((==_iff i j).0 here)) (
              ap fields_of
                (sym (ap (λ b. if b then some (report x) else entry_of i stats) here) ∙ e))
      | inr later ↦
          ap (λ b. if b then out j x else rest) later
          ∙ entry_of-zeroed m old stats i r
              (sym (ap (λ b. if b then some (report x) else entry_of i stats) later) ∙ e)
    ]

not_panicked {ℓ} : {A : Type ℓ} (b : Bool) (x y : A) → (if b then none else some x) ≡ some y → x ≡ y
not_panicked true x y e = absurd (ground (arith, e))
not_panicked false x y e = some-injective x y e

-- From a compressed report and the report before it, each field but the id and the timestamp can be
-- read as it was, if the compression does not panic, no name comes twice and no field that was there
-- before is gone.
pub restored_lem :
    (old stats out : List (ℕ × Entry)) (at : Option ℕ) (i : ℕ) (before r : List (Name × Value))
    (k : Name)
    → delta_compression_rtc_stats old stats ≡ some (out, at)
    → entry_of i old ≡ some (report before)
    → entry_of i stats ≡ some (report r)
    → Distinct r
    → k ≢ report_id
    → k ≢ timestamp
    → (field_of k r ≡ none → field_of k before ≡ none)
    → (sent : List (Name × Value)) × (entry_of i out ≡ some (report sent))
      × (or_else (field_of k sent) (field_of k before) ≡ field_of k r)
unfolding delta_compression_rtc_stats
restored_lem old stats out at i before r k done there now d h h' kept =
    let m : Option ℕ = max_timestamp stats none in
    let r' : List (Name × Value) = without report_id r in
    let sent : List (Name × Value) = zero_timestamp m (strip before r') in
    let same : zeroed m (compressed old stats) ≡ out =
      ap (λ t. t.0)
        (not_panicked (panics old stats) (zeroed m (compressed old stats), m) (out, at) done) in
    let same_field : field_of k r' ≡ field_of k r = field_of-without report_id k r h in
    (
      sent,
      ap (entry_of i) (sym same)
          ∙ entry_of-zeroed m old stats i r now
          ∙ ap (λ e. some (report (zero_timestamp m (strip_against e r')))) there,
      ap (λ o. or_else o (field_of k before)) (field_of-zero_timestamp m k (strip before r') h')
          ∙ strip-restores before r' k (without-Distinct report_id r d)
              (λ e. kept (sym same_field ∙ e))
          ∙ same_field,
    )
