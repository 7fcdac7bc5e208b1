-- ===== src/Stats/Delta.antt =====
-- rtcstats/rtcstats.go: the compression of reports. A map is an association list without repeated keys.
-- Names, texts, arrays and objects are numbers that stand for them; numbers are not negative.
pub mod Restore
pub mod Reports
use getstream_go_webrtc.Base.{
  ℕ, zero, ◌-◌, ◌/◌, max, ap, Bool, true, false, not, ◌&&◌, ◌||◌, Option, none, some, List, [], ◌∷◌,
  map, ◌==◌, if◌then◌else◌,
}

pub data Value : Type 0 where
  null : Value
  flag : Bool → Value
  number : ℕ → Value
  text : ℕ → Value
  array : ℕ → Value
  object : ℕ → Value

-- The keys of a report
pub data Name : Type 0 where
  report_id : Name
  timestamp : Name
  field : ℕ → Name

abbrev pub same_name : Name → Name → Bool
same_name report_id report_id = true
same_name timestamp timestamp = true
same_name (field m) (field n) = m == n
same_name _ _ = false

abbrev pub same_flag : Bool → Bool → Bool
same_flag true b = b
same_flag false b = not b

-- `==` on two values of interface type, where it does not panic
abbrev pub same_value : Value → Value → Bool
same_value null null = true
same_value (flag a) (flag b) = same_flag a b
same_value (number a) (number b) = a == b
same_value (text a) (text b) = a == b
same_value _ _ = false

-- Two arrays or two objects cannot be compared: the program panics.
abbrev pub uncomparable : Value → Value → Bool
uncomparable (array a) (array b) = true
uncomparable (object a) (object b) = true
uncomparable _ _ = false

pub data Entry : Type 0 where
  report : List (Name × Value) → Entry
  plain : Value → Entry

unfoldable pub field_of : Name → List (Name × Value) → Option Value
field_of n [] = none
field_of n ((m, v) ∷ r) = if same_name n m then some v else field_of n r

unfoldable pub entry_of : ℕ → List (ℕ × Entry) → Option Entry
entry_of i [] = none
entry_of i ((j, e) ∷ stats) = if i == j then some e else entry_of i stats

unfoldable pub without : Name → List (Name × Value) → List (Name × Value)
without n [] = []
without n ((m, v) ∷ r) = let rest = without n r in if same_name n m then rest else (m, v) ∷ rest

abbrev pub unchanged : Value → Option Value → Bool
unchanged v none = false
unchanged v (some o) = same_value v o

abbrev pub cannot_compare : Value → Option Value → Bool
cannot_compare v none = false
cannot_compare v (some o) = uncomparable v o

-- The loop over the fields of a report, and whether it panics
unfoldable pub strip : List (Name × Value) → List (Name × Value) → List (Name × Value)
unfolding field_of
strip before [] = []
strip before ((n, v) ∷ r) =
    let rest = strip before r in if unchanged v (field_of n before) then rest else (n, v) ∷ rest

unfoldable pub strip_panics : List (Name × Value) → List (Name × Value) → Bool
unfolding field_of
strip_panics before [] = false
strip_panics before ((n, v) ∷ r) = cannot_compare v (field_of n before) || strip_panics before r

-- A report that was not there before, or was none, is kept.
abbrev pub strip_against : Option Entry → List (Name × Value) → List (Name × Value)
strip_against (some (report before)) r = strip before r
strip_against (some (plain v)) r = r
strip_against none r = r

abbrev pub panics_against : Option Entry → List (Name × Value) → Bool
panics_against (some (report before)) r = strip_panics before r
panics_against (some (plain v)) r = false
panics_against none r = false

-- The largest timestamp so far, of which there is none at -1
abbrev pub larger : Option ℕ → Option Value → Option ℕ
larger none (some (number t)) = some t
larger (some m) (some (number t)) = some (max m t)
larger m _ = m

-- The first loop over the reports
unfoldable pub compressed : List (ℕ × Entry) → List (ℕ × Entry) → List (ℕ × Entry)
unfolding strip without entry_of
compressed old [] = []
compressed old ((i, plain v) ∷ stats) = (i, plain v) ∷ compressed old stats
compressed old ((i, report r) ∷ stats) =
    (i, report (strip_against (entry_of i old) (without report_id r))) ∷ compressed old stats

unfoldable pub panics : List (ℕ × Entry) → List (ℕ × Entry) → Bool
unfolding strip_panics without entry_of
panics old [] = false
panics old ((i, plain v) ∷ stats) = panics old stats
panics old ((i, report r) ∷ stats) =
    panics_against (entry_of i old) (without report_id r) || panics old stats

unfoldable pub max_timestamp : List (ℕ × Entry) → Option ℕ → Option ℕ
unfolding without field_of
max_timestamp [] m = m
max_timestamp ((i, plain v) ∷ stats) m = max_timestamp stats m
max_timestamp ((i, report r) ∷ stats) m =
    max_timestamp stats (larger m (field_of timestamp (without report_id r)))

abbrev pub is_max : Option ℕ → Value → Bool
is_max (some m) (number t) = m == t
is_max _ _ = false

-- The second loop, on one report: the timestamp that is the largest becomes 0.
unfoldable pub zero_timestamp : Option ℕ → List (Name × Value) → List (Name × Value)
zero_timestamp m [] = []
zero_timestamp m ((n, v) ∷ r) =
    (n, (if same_name n timestamp && is_max m v then number 0 else v)) ∷ zero_timestamp m r

unfoldable pub zeroed : Option ℕ → List (ℕ × Entry) → List (ℕ × Entry)
unfolding zero_timestamp
zeroed m [] = []
zeroed m ((i, plain v) ∷ stats) = (i, plain v) ∷ zeroed m stats
zeroed m ((i, report r) ∷ stats) = (i, report (zero_timestamp m r)) ∷ zeroed m stats

-- `DeltaCompressionRtcStats`: the compressed reports and the timestamp put beside them, or a panic
unfoldable pub delta_compression_rtc_stats :
    List (ℕ × Entry) → List (ℕ × Entry) → Option (List (ℕ × Entry) × Option ℕ)
unfolding compressed panics max_timestamp zeroed
delta_compression_rtc_stats old stats =
    if panics old stats
    then none
    else some (zeroed (max_timestamp stats none) (compressed old stats), max_timestamp stats none)
