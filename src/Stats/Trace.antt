-- ===== src/Stats/Trace.antt =====
-- rtcstats/rtcstats.go: the buffer of trace events. How an event is written as JSON is a parameter; a
-- nil buffer is left out.
pub mod Kept
use getstream_go_webrtc.Base.{
  ℕ, ◌+◌, ◌-◌, ◌/◌, ap, Bool, true, false, Option, none, some, List, [], ◌∷◌, ◌++◌, leb,
  if◌then◌else◌, take,
}

-- The events that Emit tells apart
pub data Event : Type 0 where
  participant_left : Event
  participant_joined : Event
  get_stats : Event
  other : ℕ → Event

abbrev pub is_blacklisted : Event → Bool
is_blacklisted participant_left = true
is_blacklisted participant_joined = true
is_blacklisted get_stats = false
is_blacklisted (other n) = false

pub record Line : Type 0 where
  pub ts : ℕ  -- milliseconds
  pub bytes : List ℕ

pub record TraceBuffer : Type 0 where
  pub buf : List Line
  pub namespace_bytes : List ℕ
  pub pc_id : Option (List ℕ)

-- `buildPcId`, of a version that is -1 or more: `next_version` is the version and one
abbrev pub build_pc_id :
    (ℕ → List ℕ) → Option (List ℕ) → Option ℕ → Option (List ℕ) → Option (List ℕ)
build_pc_id decimal (some tag) (some next_version) (some sfu) =
    some (tag ++ (45 ∷ (decimal next_version ++ (45 ∷ sfu))))
build_pc_id decimal none (some next_version) (some sfu) = some (decimal next_version ++ (45 ∷ sfu))
build_pc_id decimal tag none sfu = none
build_pc_id decimal tag (some next_version) none = none

abbrev pub build_ns : List ℕ → List ℕ
build_ns [] = []
build_ns (b ∷ ns) = b ∷ ns ++ (46 ∷ [])

-- `sort.SliceStable` by time
unfoldable pub insert : Line → List Line → List Line
insert l [] = l ∷ []
insert l (m ∷ lines) =
    let rest = insert l lines in if leb l.ts m.ts then l ∷ m ∷ lines else m ∷ rest

unfoldable pub sorted : List Line → List Line
unfolding insert
sorted [] = []
sorted (l ∷ lines) = insert l (sorted lines)

unfoldable pub take_lines : TraceBuffer → List Line × TraceBuffer
unfolding sorted
take_lines tb = (sorted tb.buf, record tb { buf = [] })

unfoldable pub join_lines : ℕ → List Line → List ℕ
join_lines sep [] = []
join_lines sep (l ∷ []) = l.bytes
join_lines sep (l ∷ m ∷ lines) = l.bytes ++ (sep ∷ join_lines sep (m ∷ lines))

-- Nothing is returned for an empty buffer.
unfoldable pub drain : TraceBuffer → List ℕ × TraceBuffer
unfolding take_lines join_lines
drain tb =
    let (lines, tb') = take_lines tb in
    (elim lines [ [] ↦ [] | l ∷ rest ↦ join_lines 10 (l ∷ rest) ++ (10 ∷ []) ], tb')

unfoldable pub drain_with_comma : Bool → TraceBuffer → List ℕ × TraceBuffer
unfolding take_lines join_lines
drain_with_comma trailing tb =
    let (lines, tb') = take_lines tb in
    (
      elim lines [
        | [] ↦ []
        | l ∷ rest ↦
            if trailing then join_lines 44 (l ∷ rest) ++ (44 ∷ []) else join_lines 44 (l ∷ rest)
      ],
      tb',
    )

abbrev pub namespace_for : Event → List ℕ → List ℕ
namespace_for get_stats ns = []
namespace_for participant_left ns = ns
namespace_for participant_joined ns = ns
namespace_for (other n) ns = ns

module _ (marshal : List ℕ → Event → Option (List ℕ) → ℕ → ℕ → List ℕ) where
  -- `Emit` of a payload at a time
  unfoldable pub emit : Event → ℕ → ℕ → TraceBuffer → TraceBuffer
  emit event payload now tb = if is_blacklisted event then tb else record tb {
    buf =
        tb.buf
        ++ (record {
          ts = now;
          bytes = marshal (namespace_for event tb.namespace_bytes) event tb.pc_id payload now;
        }
            ∷ []);
  }
