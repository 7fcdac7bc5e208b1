-- ===== src/Sdp/Tests.antt =====
-- Credentials of a small description.
use getstream_go_webrtc.Base.{ℕ, ◌≡◌, ◌↔◌, refl, List, [], ◌∷◌}
use getstream_go_webrtc.Base.Result.{ok}
use getstream_go_webrtc.Sdp.{
  Key, ice_ufrag, ice_pwd, mid, Description, attribute, media_values, conflicts, values_of,
  extract_ice_credential,
}
use getstream_go_webrtc.Sdp.Agree.{Carries, Only, extract_iff}

abbrev bundled : Description
bundled = record {
  attributes = (ice_ufrag, 5) ∷ [];
  media = ((mid, 0) ∷ (ice_ufrag, 5) ∷ (ice_pwd, 9) ∷ []) ∷ ((mid, 1) ∷ []) ∷ [];
}

abbrev sections : List (List (Key × ℕ))
sections = bundled.attributes ∷ bundled.media

extract_iff_example : (extract_ice_credential bundled ≡ ok (5, 9)) ↔ (
    (Carries ice_ufrag 5 sections × Only ice_ufrag 5 sections)
    × (Carries ice_pwd 9 sections × Only ice_pwd 9 sections))
extract_iff_example = extract_iff bundled 5 9

bundled_accepted : extract_ice_credential bundled ≡ ok (5, 9)
unfolding extract_ice_credential values_of attribute media_values conflicts
bundled_accepted = refl
