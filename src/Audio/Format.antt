-- ===== src/Audio/Format.antt =====
-- audio/format.go, without the text of a format, and the errors of the package.
use getstream_go_webrtc.Base.{ℕ, Bool, true, false, not, Option, none, some, ◌==◌, if◌then◌else◌}

-- A uint8 that is neither constant is `unknown`.
pub data Format : Type 0 where
  s16 : Format
  f32 : Format
  unknown : Format

pub data Error : Type 0 where
  invalid_format : Error
  bad_sample_rate : Error
  bad_channels : Error
  channel_out_of_range : Error
  not_wav : Error
  short_fmt : Error
  no_fmt : Error
  no_data : Error
  unsupported_depth : Error
  unsupported_encoding : Error
  invalid_law : Error
  out_of_rounds : Error  -- of the model: the rounds given to a loop are used up

abbrev pub bytes_per_sample : Format → ℕ
bytes_per_sample s16 = 2
bytes_per_sample f32 = 4
bytes_per_sample unknown = 0

abbrev pub is_valid : Format → Bool
is_valid s16 = true
is_valid f32 = true
is_valid unknown = false

-- `validate`, which returns nothing but an error. A rate or a count that is not positive is 0 here.
unfoldable pub validate : Format → ℕ → ℕ → Option Error
validate format sample_rate channels =
    if not (is_valid format)
    then some invalid_format
    else if sample_rate == 0
    then some bad_sample_rate
    else if channels == 0
    then some bad_channels
    else none
