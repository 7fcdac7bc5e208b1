-- ===== src/Call/Quality.antt =====
-- publish_quality.go: the SFU turns layers of published tracks on and off. A track's type and the name
-- of a layer are numbers; of an encoder's target the bitrate is kept.
pub mod Wishes
use getstream_go_webrtc.Base.{
  ℕ, suc, ◌+◌, ◌-◌, ◌%◌, ◌^◌, max, ap, Bool, false, not, ◌&&◌, ◌||◌, Option, none, some, List, [],
  ◌∷◌, ◌++◌, ltb, ◌==◌, if◌then◌else◌, set,
}
use getstream_go_webrtc.Base.Int.{ℤ, pos, negsuc}

-- A published track; one that the application made itself is not `local` and cannot be muted.
pub record Track : Type 0 where
  pub track_type : ℕ
  pub rid : ℕ
  pub is_local : Bool
  pub muted : Bool

pub record Layer : Type 0 where
  pub name : ℕ
  pub active : Bool
  pub max_bitrate : ℕ

pub record Sender : Type 0 where
  pub track_type : ℕ
  pub layers : List Layer

pub record Target : Type 0 where
  pub rid : ℕ
  pub track_type : ℕ
  pub active : Bool
  pub max_bitrate : ℕ

abbrev pub matches : ℕ → ℕ → Track → Bool
matches ty rid t = t.is_local && (t.track_type == ty && t.rid == rid)

-- Whether videoTracksByRID has an entry for a layer
unfoldable pub is_indexed : ℕ → ℕ → List Track → Bool
is_indexed ty rid [] = false
is_indexed ty rid (t ∷ tracks) = is_indexed ty rid tracks || matches ty rid t

-- `byRID[rid].SetMuted(muted)`, where the last track with a layer's name is its entry
unfoldable pub set_layer : ℕ → ℕ → Bool → List Track → List Track
unfolding is_indexed
set_layer ty rid muted [] = []
set_layer ty rid muted (t ∷ tracks) =
    let rest = set_layer ty rid muted tracks in
    if is_indexed ty rid tracks
    then t ∷ rest
    else if matches ty rid t
    then record t { muted = muted } ∷ tracks
    else t ∷ tracks

abbrev pub publish_quality_target : Sender → Layer → Target
publish_quality_target s l = record {
  rid = l.name;
  track_type = s.track_type;
  active = l.active;
  max_bitrate = l.max_bitrate;
}

unfoldable pub apply_layers : Sender → List Layer → List Track → List Track × List Target
unfolding set_layer
apply_layers s [] tracks = (tracks, [])
apply_layers s (l ∷ layers) tracks =
    let later = apply_layers s layers (set_layer s.track_type l.name (not l.active) tracks) in
    (later.0, publish_quality_target s l ∷ later.1)

unfoldable pub apply_senders : List Sender → List Track → List Track × List Target
unfolding apply_layers
apply_senders [] tracks = (tracks, [])
apply_senders (s ∷ senders) tracks =
    let here = apply_layers s s.layers tracks in
    let later = apply_senders senders here.0 in (later.0, here.1 ++ later.1)

-- The int32 that emitBitrateChange traces, and the layers it counts
unfoldable pub total_bitrate : List Target → ℕ
total_bitrate [] = 0
total_bitrate (t ∷ targets) = (if t.active then t.max_bitrate else 0) + total_bitrate targets

unfoldable pub active_layers : List Target → ℕ
active_layers [] = 0
active_layers (t ∷ targets) = (if t.active then 1 else 0) + active_layers targets

abbrev pub traced_bitrate : List Target → ℤ
traced_bitrate targets =
    let bits = total_bitrate targets % 2 ^ 32 in
    if ltb bits (2 ^ 31) then pos bits else negsuc (2 ^ 32 - 1 - bits)

-- `OnChangePublishQuality`: the publisher's tracks, if there is one, and the targets for the handler
unfoldable pub on_change_publish_quality :
    List Sender → Option (List Track) → Option (List Track) × Option (List Target)
unfolding apply_senders
on_change_publish_quality [] publisher = (publisher, none)
on_change_publish_quality (s ∷ senders) none = (none, none)
on_change_publish_quality (s ∷ senders) (some tracks) =
    let applied = apply_senders (s ∷ senders) tracks in (some applied.0, some applied.1)
