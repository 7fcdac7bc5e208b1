-- ===== src/Call/Quality/Wishes.antt =====
-- publish_quality.go: which tracks are muted after a change.
use getstream_go_webrtc.Base.{
  ℕ, ◌≡◌, refl, sym, ap, ap₂, ◌∙◌, inl, inr, Bool, true, false, not, ◌&&◌, ◌||◌, Option, none, some,
  List, [], ◌∷◌, arith, ◌==◌, if◌then◌else◌, Bool-cases,
}
use getstream_go_webrtc.Call.Quality.{
  Track, Layer, Sender, matches, is_indexed, set_layer, apply_layers, apply_senders,
}

-- Whether a track carries a layer and can be muted, being one of the SDK's own
abbrev pub carries : ℕ → ℕ → Track → Bool
carries ty rid t = t.is_local && (t.track_type == ty && t.rid == rid)

-- What a track adds to the state of a layer: the last track that carries it counts.
abbrev pub first_or : Option Bool → Bool → Bool → Option Bool
first_or (some b) matching muted = some b
first_or none true muted = some muted
first_or none false muted = none

-- Whether the track that carries a layer is muted, if there is one
unfoldable pub muted_of : ℕ → ℕ → List Track → Option Bool
muted_of ty rid [] = none
muted_of ty rid (t ∷ tracks) = first_or (muted_of ty rid tracks) (carries ty rid t) t.muted

-- The tracks that the application made itself
unfoldable pub foreign : List Track → List Track
foreign [] = []
foreign (t ∷ tracks) = let rest = foreign tracks in if t.is_local then rest else t ∷ rest

-- The state of a layer after a wish for it, if it is for this one
abbrev pub wished : Option Bool → Option Bool → Option Bool
wished none state = state
wished (some muted) none = none
wished (some muted) (some b) = some muted

abbrev pub wish_for : ℕ → ℕ → Sender → Layer → Option Bool
wish_for ty rid s l = if ty == s.track_type && rid == l.name then some (not l.active) else none

abbrev pub after_layers : ℕ → ℕ → Sender → List Layer → Option Bool → Option Bool
after_layers ty rid s [] state = state
after_layers ty rid s (l ∷ layers) state =
    after_layers ty rid s layers (wished (wish_for ty rid s l) state)

abbrev pub after_senders : ℕ → ℕ → List Sender → Option Bool → Option Bool
after_senders ty rid [] state = state
after_senders ty rid (s ∷ senders) state =
    after_senders ty rid senders (after_layers ty rid s s.layers state)

is_some : Option Bool → Bool
is_some none = false
is_some (some b) = true

is_some-first_or : (o : Option Bool) (m x : Bool) → is_some (first_or o m x) ≡ (is_some o || m)
unfolding is_some
is_some-first_or (some b) m x = refl
is_some-first_or none true x = refl
is_some-first_or none false x = refl

indexed-is_some :
    (ty rid : ℕ) (tracks : List Track) → is_indexed ty rid tracks ≡ is_some (muted_of ty rid tracks)
unfolding is_indexed muted_of is_some
indexed-is_some ty rid [] = refl
indexed-is_some ty rid (t ∷ tracks) =
    ap (λ b. b || matches ty rid t) (indexed-is_some ty rid tracks)
    ∙ sym (is_some-first_or (muted_of ty rid tracks) (matches ty rid t) t.muted)

-- The three ways in which a track is passed, for the layer that is set
same_step :
    (o : Option Bool) (m b x : Bool) (indexed : Bool)
    → indexed ≡ is_some o
    → (if indexed
        then first_or (wished (some b) o) m x
        else if m
        then first_or o m b
        else first_or o m x)
      ≡ wished (some b) (first_or o m x)
unfolding is_some
same_step (some a) m b x true e = refl
same_step (some a) m b x false e = absurd (ground arith)
same_step none m b x true e = absurd (ground arith)
same_step none true b x false e = refl
same_step none false b x false e = refl

-- How the state is read through the tests of set_layer
muted_of-choice :
    (ty rid : ℕ) (indexed m : Bool) (xs ys zs : List Track)
    → muted_of ty rid (if indexed then xs else if m then ys else zs) ≡ (
        if indexed
        then muted_of ty rid xs
        else if m
        then muted_of ty rid ys
        else muted_of ty rid zs)
muted_of-choice ty rid true m xs ys zs = refl
muted_of-choice ty rid false true xs ys zs = refl
muted_of-choice ty rid false false xs ys zs = refl

muted_of-set_layer :
    (ty rid : ℕ) (b : Bool) (tracks : List Track)
    → muted_of ty rid (set_layer ty rid b tracks) ≡ wished (some b) (muted_of ty rid tracks)
unfolding muted_of set_layer
muted_of-set_layer ty rid b [] = refl
muted_of-set_layer ty rid b (t ∷ tracks) =
    let o : Option Bool = muted_of ty rid tracks in
    let m : Bool = matches ty rid t in
    let indexed : Bool = is_indexed ty rid tracks in
    muted_of-choice ty rid indexed m (t ∷ set_layer ty rid b tracks)
      (record t { muted = b } ∷ tracks) (t ∷ tracks)
    ∙ ap
        (λ p.
          if indexed
          then first_or p m t.muted
          else if m
          then first_or o m b
          else first_or o m t.muted)
        (muted_of-set_layer ty rid b tracks)
    ∙ same_step o m b t.muted indexed (indexed-is_some ty rid tracks)

other_step :
    (o : Option Bool) (m m' b x indexed : Bool)
    → (m' ≡ true → m ≡ false)
    → (if indexed then first_or o m x else if m' then first_or o m b else first_or o m x)
      ≡ first_or o m x
other_step o m m' b x true apart = refl
other_step o m false b x false apart = refl
other_step (some a) m true b x false apart = refl
other_step none true true b x false apart = absurd (ground (arith, apart refl))
other_step none false true b x false apart = refl

other_layer :
    (ty rid ty' rid' : ℕ) (b : Bool) (tracks : List Track)
    → (ty == ty' && rid == rid') ≡ false
    → muted_of ty rid (set_layer ty' rid' b tracks) ≡ muted_of ty rid tracks
unfolding muted_of set_layer
other_layer ty rid ty' rid' b [] e = refl
other_layer ty rid ty' rid' b (t ∷ tracks) e =
    let o : Option Bool = muted_of ty rid tracks in
    let m : Bool = matches ty rid t in
    let m' : Bool = matches ty' rid' t in
    let indexed : Bool = is_indexed ty' rid' tracks in
    muted_of-choice ty rid indexed m' (t ∷ set_layer ty' rid' b tracks)
      (record t { muted = b } ∷ tracks) (t ∷ tracks)
    ∙ ap
        (λ p.
          if indexed
          then first_or p m t.muted
          else if m'
          then first_or o m b
          else first_or o m t.muted)
        (other_layer ty rid ty' rid' b tracks e)
    ∙ other_step o m m' b t.muted indexed (λ h. ground (arith, h, e))

set_layer-wished :
    (ty rid : ℕ) (s : Sender) (l : Layer) (tracks : List Track)
    → muted_of ty rid (set_layer s.track_type l.name (not l.active) tracks)
      ≡ wished (wish_for ty rid s l) (muted_of ty rid tracks)
set_layer-wished ty rid s l tracks = elim (Bool-cases (ty == s.track_type && rid == l.name)) [
  | inl this ↦
      let same_type : ty ≡ s.track_type = ground (arith, this) in
      let same_rid : rid ≡ l.name = ground (arith, this) in
      let muted : Bool = not l.active in
      ap₂ (λ a b. muted_of a b (set_layer s.track_type l.name muted tracks)) same_type same_rid
      ∙ muted_of-set_layer s.track_type l.name muted tracks
      ∙ ap₂ (λ a b. wished (some muted) (muted_of a b tracks)) (sym same_type) (sym same_rid)
      ∙ ap (λ b. wished (if b then some muted else none) (muted_of ty rid tracks)) (sym this)
  | inr other ↦
      other_layer ty rid s.track_type l.name (not l.active) tracks other
      ∙ ap (λ b. wished (if b then some (not l.active) else none) (muted_of ty rid tracks))
          (sym other)
]

layers_applied :
    (ty rid : ℕ) (s : Sender) (layers : List Layer) (tracks : List Track)
    → muted_of ty rid (apply_layers s layers tracks).0
      ≡ after_layers ty rid s layers (muted_of ty rid tracks)
unfolding apply_layers
layers_applied ty rid s [] tracks = refl
layers_applied ty rid s (l ∷ layers) tracks =
    layers_applied ty rid s layers (set_layer s.track_type l.name (not l.active) tracks)
    ∙ ap (after_layers ty rid s layers) (set_layer-wished ty rid s l tracks)

muted_applied :
    (ty rid : ℕ) (senders : List Sender) (tracks : List Track)
    → muted_of ty rid (apply_senders senders tracks).0
      ≡ after_senders ty rid senders (muted_of ty rid tracks)
unfolding apply_senders
muted_applied ty rid [] tracks = refl
muted_applied ty rid (s ∷ senders) tracks =
    muted_applied ty rid senders (apply_layers s s.layers tracks).0
    ∙ ap (after_senders ty rid senders) (layers_applied ty rid s s.layers tracks)

foreign-set_layer :
    (ty rid : ℕ) (b : Bool) (tracks : List Track)
    → foreign (set_layer ty rid b tracks) ≡ foreign tracks
unfolding foreign set_layer
foreign-set_layer ty rid b [] = refl
foreign-set_layer ty rid b (t ∷ tracks) = ground (arith, foreign-set_layer ty rid b tracks)

foreign-layers :
    (s : Sender) (layers : List Layer) (tracks : List Track)
    → foreign (apply_layers s layers tracks).0 ≡ foreign tracks
unfolding apply_layers
foreign-layers s [] tracks = refl
foreign-layers s (l ∷ layers) tracks =
    foreign-layers s layers (set_layer s.track_type l.name (not l.active) tracks)
    ∙ foreign-set_layer s.track_type l.name (not l.active) tracks

foreign-senders :
    (senders : List Sender) (tracks : List Track)
    → foreign (apply_senders senders tracks).0 ≡ foreign tracks
unfolding apply_senders
foreign-senders [] tracks = refl
foreign-senders (s ∷ senders) tracks =
    foreign-senders senders (apply_layers s s.layers tracks).0 ∙ foreign-layers s s.layers tracks

-- Of the SDK's own tracks of a type with a layer's name, the last one is muted or not as the last
-- setting for it says, and stays as it was where there is none; this holds for every type and name. The
-- tracks that the application made itself stay as they were.
pub senders_applied :
    (ty rid : ℕ) (senders : List Sender) (tracks : List Track)
    → let after = (apply_senders senders tracks).0 in
      (muted_of ty rid after ≡ after_senders ty rid senders (muted_of ty rid tracks))
      × (foreign after ≡ foreign tracks)
senders_applied ty rid senders tracks =
    (muted_applied ty rid senders tracks, foreign-senders senders tracks)
