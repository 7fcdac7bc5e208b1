-- ===== src/Audio/Rtc/Writer.antt =====
-- audio/rtc/writer.go: audio to the packets of a track. The opus encoder is a parameter, as is the
-- loudness of a buffer, which is computed with floating point: it is rounded, and none for silence.
pub mod Levels
pub mod Queue
use getstream_go_webrtc.Base.{
  ℕ, zero, suc, ◌+◌, ◌-◌, ◌*◌, ◌/◌, Bool, true, false, Option, none, some, List, [], ◌∷◌, ◌++◌, map,
  ltb, leb, ◌==◌, if◌then◌else◌, max, min, length, get_elem?,
}
use getstream_go_webrtc.Base.Int.{ℤ, pos, negsuc}
use getstream_go_webrtc.Audio.Pcm.{Pcm, second, is_empty}
use getstream_go_webrtc.Audio.Chunk.{chunks}

abbrev pub silence_level : ℕ
silence_level = 127

abbrev pub default_buffer_duration : ℕ
default_buffer_duration = 30 * second

-- E is the state of the encoder; a call that fails gives none.
pub record Opus {e} (E : Type e) : Type e where
  pub encode_pcm : Pcm → E → Option (List (List ℕ)) × E
  pub flush : E → Option (List (List ℕ)) × E
  pub reset_encoder : E → E
  pub frame_duration : ℕ
  pub loudness : Pcm → Option ℤ  -- math.Round(-dbfs)

pub record QueuedFrame : Type 0 where
  pub packet : List ℕ
  pub level : ℕ

pub record TrackWriter {e} (E : Type e) : Type e where
  pub enc : E
  pub frame_duration : ℕ
  pub max_frames : ℕ
  pub silence : List ℕ
  pub queue : List QueuedFrame
  pub closed : Bool
  pub level : ℕ

abbrev buffer_time : ℤ → ℕ
buffer_time (pos zero) = default_buffer_duration
buffer_time (pos (suc n)) = suc n
buffer_time (negsuc n) = default_buffer_duration

-- `NewTrackWriter`, of an encoder that could be made and has encoded silence
unfoldable pub new_track_writer {e} : {E : Type e} → Opus E → E → List ℕ → ℤ → TrackWriter E
new_track_writer opus enc silence limit = record {
  enc = enc;
  frame_duration = opus.frame_duration;
  max_frames = max 1 (buffer_time limit / opus.frame_duration);
  silence = silence;
  queue = [];
  closed = false;
  level = silence_level;
}

-- `audioLevel`
abbrev pub clamped : Option ℤ → ℕ
clamped none = silence_level
clamped (some (negsuc n)) = 0
clamped (some (pos n)) = if leb silence_level n then silence_level else n

-- The loop of `trim`
unfoldable pub trimmed : ℕ → List QueuedFrame → List QueuedFrame
trimmed limit [] = []
trimmed limit (f ∷ q) =
    let rest = trimmed limit q in if ltb limit (length (f ∷ q)) then rest else f ∷ q

abbrev pub level_at : List ℕ → ℕ → ℕ
level_at levels i = elim (get_elem? levels (min i (length levels - 1))) [
  | none ↦ silence_level
  | some level ↦ level
]

-- The loop of `enqueueWithLevels`, from the i-th packet
unfoldable pub leveled : List ℕ → ℕ → List (List ℕ) → List QueuedFrame
leveled levels i [] = []
leveled levels i (p ∷ packets) =
    record { packet = p; level = level_at levels i } ∷ leveled levels (suc i) packets

-- What `NextSample` gives: the packet, whose duration is the writer's, or its error
pub data Next : Type 0 where
  cancelled : Next
  eof : Next
  sample : List ℕ → Next

module _ {e} {E : Type e} where
  -- `trim`
  unfoldable pub trim : TrackWriter E → TrackWriter E
  unfolding trimmed
  trim w = record w { queue = trimmed w.max_frames w.queue }

  abbrev pub pushed : List QueuedFrame → TrackWriter E → TrackWriter E
  pushed frames w = record w { queue = w.queue ++ frames }

  unfoldable pub enqueue : List (List ℕ) → ℕ → TrackWriter E → TrackWriter E
  unfolding trim
  enqueue packets level w =
      trim (pushed (map (λ p. record { packet = p; level = level }) packets) w)

  -- `Buffered`
  unfoldable pub buffered : TrackWriter E → ℕ
  buffered w = length w.queue * w.frame_duration

  unfoldable pub popped : List QueuedFrame → TrackWriter E → Next × TrackWriter E
  popped [] w = (Next.sample w.silence, record w { level = silence_level })
  popped (f ∷ q) w = (Next.sample f.packet, record w { queue = q; level = f.level })

  unfoldable pub next_sample : Bool → TrackWriter E → Next × TrackWriter E
  unfolding popped
  next_sample is_cancelled w =
      if is_cancelled
      then (Next.cancelled, w)
      else if w.closed
      then (Next.eof, w)
      else popped w.queue w

  -- `Close`
  unfoldable pub close : TrackWriter E → TrackWriter E
  close w = record w { closed = true; queue = [] }

module _ {e} {E : Type e} (opus : Opus E) where
  -- The levels of the stretches of a buffer that its packets came from
  unfoldable pub levels_of : ℕ → Pcm → List ℕ
  levels_of frame_duration src =
      let frames = frame_duration * src.sample_rate / second in
      if frames == 0
      then []
      else map (λ chunk. clamped (opus.loudness chunk)) (chunks frames 0 false src)

  unfoldable pub enqueue_with_levels : List (List ℕ) → Pcm → TrackWriter E → TrackWriter E
  unfolding levels_of leveled trim
  enqueue_with_levels [] src w = w
  enqueue_with_levels (p ∷ packets) src w =
      trim (pushed (leveled (levels_of w.frame_duration src) 0 (p ∷ packets)) w)

  -- `Write` of a buffer, and whether it returned no error
  unfoldable pub write : Pcm → TrackWriter E → Bool × TrackWriter E
  write pcm w =
      if is_empty pcm
      then (true, w)
      else if w.closed
      then (false, w)
      else elim (opus.encode_pcm pcm w.enc).0 [
        | none ↦ (false, record w { enc = (opus.encode_pcm pcm w.enc).1 })
        | some packets ↦ (
          true,
          enqueue_with_levels packets pcm (record w { enc = (opus.encode_pcm pcm w.enc).1 }),
        )
      ]

  -- `Flush`
  unfoldable pub flush : TrackWriter E → Bool × TrackWriter E
  flush w = if w.closed then (true, w) else elim (opus.flush w.enc).0 [
    | none ↦ (false, record w { enc = (opus.flush w.enc).1 })
    | some packets ↦ (true, enqueue packets w.level (record w { enc = (opus.flush w.enc).1 }))
  ]

  -- `Clear`
  unfoldable pub clear : TrackWriter E → TrackWriter E
  clear w = record w { queue = []; enc = opus.reset_encoder w.enc; level = silence_level }
