-- ===== src/Tests/Texts.antt =====
-- The helpers of PicoDB/pico/pico_utils.h, the records and the message headers on short texts.
use pico_db.Prelude.{ℕ, ◌<◌, ◌≡◌, true, [], ◌∷◌, some, Text, codes, arith, ◌↔◌, pos}
use pico_db.Utils.Decimal.{decimal}
use pico_db.Utils.Clock.{TimeOfDay, Shows, get_time_now_as_string, get_time_now_as_string-Shows}
use pico_db.Record.{is_size_info_bytes}
use pico_db.Record.SizeInfo.{HasMarker, is_size_info_iff}
use pico_db.Wire.{size_digits, frame_header, size_digits-frame_header, frame_header-truncated}

abbrev afternoon : TimeOfDay
afternoon = record { hours = 14; minutes = 5; seconds = 9; total_milliseconds = 50709321 }

get_time_now_as_string-Shows_example : Shows afternoon (get_time_now_as_string decimal afternoon)
get_time_now_as_string-Shows_example = get_time_now_as_string-Shows decimal afternoon (record {
  hours_lt = omega arith;
  minutes_lt = omega arith;
  seconds_lt = omega arith;
  total_ge = omega arith;
  total_lt = omega arith;
})

is_size_info_iff_example :
    (is_size_info_bytes (codes "ab####7") ≡ true) ↔ HasMarker (codes "ab####7")
is_size_info_iff_example = is_size_info_iff (codes "ab####7")

size_digits-frame_header_example :
    size_digits (frame_header decimal 250 (1 ∷ 2 ∷ 3 ∷ [])) ≡ some (decimal.to_text 250)
size_digits-frame_header_example =
    size_digits-frame_header decimal 250 (1 ∷ 2 ∷ 3 ∷ []) (omega arith)

frame_header-truncated_example :
    (d : Text) × (m : ℕ) × (size_digits (frame_header decimal 1234567 []) ≡ some d)
    × (decimal.to_long d ≡ some (pos m))
    × (m < 1000000)
frame_header-truncated_example = frame_header-truncated decimal 1234567 [] (omega arith)
