-- ===== src/Sdp.antt =====
-- internal/sdputil/sdputil.go: values out of a parsed session description. Keys and values of
-- attributes are numbers that stand for their texts; no value is `none`.
pub mod Agree
mod Tests
use getstream_go_webrtc.Base.{
  ℕ, ◌-◌, ◌/◌, ap, Bool, true, false, not, ◌||◌, Option, none, some, List, [], ◌∷◌, ◌==◌,
  if◌then◌else◌,
}
use getstream_go_webrtc.Base.Result.{Result, ok, err}

pub data Key : Type 0 where
  ice_ufrag : Key
  ice_pwd : Key
  mid : Key
  other_key : ℕ → Key

abbrev pub same_key : Key → Key → Bool
same_key ice_ufrag ice_ufrag = true
same_key ice_pwd ice_pwd = true
same_key mid mid = true
same_key (other_key a) (other_key b) = a == b
same_key _ _ = false

pub record Description : Type 0 where
  pub attributes : List (Key × ℕ)
  pub media : List (List (Key × ℕ))

pub data Error : Type 0 where
  missing_ice_ufrag : Error
  missing_ice_pwd : Error
  conflicting_ice_ufrag : Error
  conflicting_ice_pwd : Error

-- pion's Attribute, and the loop of GetMidValue: the first value with a key
unfoldable pub attribute : Key → List (Key × ℕ) → Option ℕ
attribute k [] = none
attribute k ((l, v) ∷ attributes) = if same_key l k then some v else attribute k attributes

unfoldable pub get_mid_value : List (Key × ℕ) → Option ℕ
unfolding attribute
get_mid_value attributes = attribute mid attributes

abbrev pub appended : Option ℕ → List ℕ → List ℕ
appended none values = values
appended (some v) values = v ∷ values

-- The values of a key in the media sections
unfoldable pub media_values : Key → List (List (Key × ℕ)) → List ℕ
unfolding attribute
media_values k [] = []
media_values k (m ∷ media) = appended (attribute k m) (media_values k media)

unfoldable pub values_of : Key → Description → List ℕ
unfolding attribute media_values
values_of k desc = appended (attribute k desc.attributes) (media_values k desc.media)

unfoldable pub conflicts : ℕ → List ℕ → Bool
conflicts first [] = false
conflicts first (v ∷ values) = not (v == first) || conflicts first values

-- The tests for conflicts, in their order
abbrev pub checked : Bool → Bool → ℕ × ℕ → Result Error (ℕ × ℕ)
checked true pwd_conflicts pair = err conflicting_ice_ufrag
checked false true pair = err conflicting_ice_pwd
checked false false pair = ok pair

abbrev pub credential : List ℕ → List ℕ → Result Error (ℕ × ℕ)
credential [] pwds = err missing_ice_ufrag
credential (u ∷ ufrags) [] = err missing_ice_pwd
credential (u ∷ ufrags) (p ∷ pwds) =
    checked (conflicts u (u ∷ ufrags)) (conflicts p (p ∷ pwds)) (u, p)

unfoldable pub extract_ice_credential : Description → Result Error (ℕ × ℕ)
unfolding values_of conflicts
extract_ice_credential desc = credential (values_of ice_ufrag desc) (values_of ice_pwd desc)
