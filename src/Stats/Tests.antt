-- ===== src/Stats/Tests.antt =====
-- Reports and trace lines on a few values.
use getstream_go_webrtc.Base.{ℕ, ◌≡◌, refl, none, some, List, [], ◌∷◌, arith}
use getstream_go_webrtc.Stats.Delta.{
  Value, number, text, object, Name, report_id, timestamp, field, Entry, report, field_of, entry_of,
  delta_compression_rtc_stats, compressed, panics, max_timestamp, zeroed, zero_timestamp, strip,
  strip_panics, without,
}
use getstream_go_webrtc.Stats.Delta.Reports.{restored_lem}
use getstream_go_webrtc.Stats.Delta.Restore.{or_else}

abbrev before : List (Name × Value)
before = (timestamp, number 5) ∷ (field 1, number 10) ∷ (field 2, text 3) ∷ []

abbrev now : List (Name × Value)
now = (report_id, text 8) ∷ (timestamp, number 6) ∷ (field 1, number 12) ∷ (field 2, text 3) ∷ []

abbrev sent : List (ℕ × Entry)
sent = (4, report ((timestamp, number 0) ∷ (field 1, number 12) ∷ [])) ∷ []

restored_lem_example :
    (r : List (Name × Value)) × (entry_of 4 sent ≡ some (report r))
    × (or_else (field_of (field 2) r) (field_of (field 2) before) ≡ field_of (field 2) now)
unfolding delta_compression_rtc_stats compressed panics max_timestamp zeroed zero_timestamp strip
    strip_panics without entry_of field_of
restored_lem_example =
    restored_lem ((4, report before) ∷ []) ((4, report now) ∷ []) sent (some 6) 4 before now
      (field 2) refl refl refl (refl, (refl, (refl, (refl, tt)))) (λ e. absurd (ground arith))
      (λ e. absurd (ground arith)) (λ e. absurd (ground arith))

-- A field that holds an object in both reports panics.
object_panics :
    delta_compression_rtc_stats
      ((4, report ((field 1, object 0) ∷ [])) ∷ [])
      ((4, report ((field 1, object 0) ∷ [])) ∷ [])
    ≡ none
unfolding delta_compression_rtc_stats panics strip_panics without entry_of field_of
object_panics = refl
