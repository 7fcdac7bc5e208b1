-- ===== src/Audio/Words.antt =====
-- Little-endian words, as encoding/binary reads and writes them, and int16 as a uint16.
use getstream_go_webrtc.Base.{
  ℕ, ◌+◌, ◌-◌, ◌*◌, ◌/◌, ◌%◌, ◌^◌, ◌<◌, ◌≡◌, refl, ap₂, List, [], ◌∷◌, ◌++◌, arith, ltb,
  if◌then◌else◌, length, All,
}
use getstream_go_webrtc.Base.Int.{ℤ, pos, negsuc}

abbrev pub le16 : ℕ → ℕ → ℕ
le16 b0 b1 = b0 + b1 * 2 ^ 8

abbrev pub le32 : ℕ → ℕ → ℕ → ℕ → ℕ
le32 b0 b1 b2 b3 = b0 + b1 * 2 ^ 8 + b2 * 2 ^ 16 + b3 * 2 ^ 24

abbrev pub bytes16 : ℕ → List ℕ
bytes16 w = (w % 256) ∷ (w / 2 ^ 8 % 256) ∷ []

abbrev pub bytes32 : ℕ → List ℕ
bytes32 w = (w % 256) ∷ (w / 2 ^ 8 % 256) ∷ (w / 2 ^ 16 % 256) ∷ (w / 2 ^ 24 % 256) ∷ []

-- `uint16(v)` and `int16(u)`
abbrev pub to_uint16 : ℤ → ℕ
to_uint16 (pos n) = n % 2 ^ 16
to_uint16 (negsuc n) = 2 ^ 16 - 1 - n % 2 ^ 16

abbrev pub to_int16 : ℕ → ℤ
to_int16 u = if ltb u (2 ^ 15) then pos u else negsuc (2 ^ 16 - 1 - u)

abbrev pub IsInt16 : ℤ → Type 0
IsInt16 (pos n) = n < 2 ^ 15
IsInt16 (negsuc n) = n < 2 ^ 15

-- The words in a list of bytes; bytes that make no whole word are left out.
unfoldable pub read_s16 : List ℕ → List ℤ
read_s16 (b0 ∷ b1 ∷ rest) = to_int16 (le16 b0 b1) ∷ read_s16 rest
read_s16 (b0 ∷ []) = []
read_s16 [] = []

unfoldable pub read_f32 : List ℕ → List ℕ
read_f32 (b0 ∷ b1 ∷ b2 ∷ b3 ∷ rest) = le32 b0 b1 b2 b3 ∷ read_f32 rest
read_f32 (b0 ∷ b1 ∷ b2 ∷ []) = []
read_f32 (b0 ∷ b1 ∷ []) = []
read_f32 (b0 ∷ []) = []
read_f32 [] = []

unfoldable pub write_s16 : List ℤ → List ℕ
write_s16 [] = []
write_s16 (v ∷ vs) = bytes16 (to_uint16 v) ++ write_s16 vs

unfoldable pub write_f32 : List ℕ → List ℕ
write_f32 [] = []
write_f32 (v ∷ vs) = bytes32 v ++ write_f32 vs

to_int16-bytes :
    (v : ℤ) → IsInt16 v → to_int16 (le16 (to_uint16 v % 256) (to_uint16 v / 2 ^ 8 % 256)) ≡ v
to_int16-bytes (pos n) ok = ground arith
to_int16-bytes (negsuc n) ok = ground arith

pub read-write_s16 : (vs : List ℤ) → All IsInt16 vs → read_s16 (write_s16 vs) ≡ vs
unfolding read_s16 write_s16
read-write_s16 [] ok = refl
read-write_s16 (v ∷ vs) (now, later) =
    ap₂ (λ x xs. x ∷ xs) (to_int16-bytes v now) (read-write_s16 vs later)

pub read-write_f32 : (vs : List ℕ) → All (λ v. v < 2 ^ 32) vs → read_f32 (write_f32 vs) ≡ vs
unfolding read_f32 write_f32
read-write_f32 [] ok = refl
read-write_f32 (v ∷ vs) (now, later) = ap₂ (λ x xs. x ∷ xs) (omega arith) (read-write_f32 vs later)

pub length-write_s16 : (vs : List ℤ) → length (write_s16 vs) ≡ 2 * length vs
unfolding write_s16
length-write_s16 [] = omega arith
length-write_s16 (v ∷ vs) = omega (arith, length-write_s16 vs)

pub length-write_f32 : (vs : List ℕ) → length (write_f32 vs) ≡ 4 * length vs
unfolding write_f32
length-write_f32 [] = omega arith
length-write_f32 (v ∷ vs) = omega (arith, length-write_f32 vs)
