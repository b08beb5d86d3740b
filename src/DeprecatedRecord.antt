-- ===== src/DeprecatedRecord.antt =====
-- PicoDB/pico/pico_record_deprecated.h: the record of 1025 bytes, with its fields one behind the
-- other.
pub mod Sections
pub mod Fields
pub mod Roundtrip
pub mod Markers
use pico_db.Prelude.{
  ℕ, zero, suc, ◌+◌, ◌≡◌, Bool, true, false, not, ◌&&◌, List, [], ◌∷◌, ◌++◌, Option, none, some,
  Outcome, returns, ◌>>=◌, ◌>>◌, assert, ℤ, negsuc, Text, codes, text_eq, is_empty, length, take,
  drop, replicate, ◌==◌, if◌then◌else◌,
}
use pico_db.DbRecord.{padded}

abbrev pub max_key_type_size : ℕ
max_key_type_size = 6

abbrev pub beg_of_key_index : ℕ
beg_of_key_index = 6

abbrev pub max_key_size : ℕ
max_key_size = 32

abbrev pub beg_of_value_index : ℕ
beg_of_value_index = 38

abbrev pub max_value_size : ℕ
max_value_size = 944

abbrev pub beg_of_message_id_index : ℕ
beg_of_message_id_index = 982

abbrev pub message_id_size : ℕ
message_id_size = 32

abbrev pub beg_of_sequence_in_message_index : ℕ
beg_of_sequence_in_message_index = 1014

abbrev pub sequence_in_message : ℕ
sequence_in_message = 4

abbrev pub beg_of_append_marker_index : ℕ
beg_of_append_marker_index = 1018

abbrev pub append_marker : ℕ
append_marker = 6

abbrev end_record_index : ℕ
end_record_index = 1024

abbrev pub max_size : ℕ
max_size = 1025

-- `bytes` is `data_`; the texts are the ones that were read or set before; `data_copy` is
-- indeterminate until it is written.
pub record DeprecatedRecord : Type 0 where
  pub bytes : List ℕ
  pub data_copy : Option (List ℕ)
  pub previous_record_offset : ℤ
  pub offset_of_record : ℤ
  pub key_type : Text
  pub key : Text
  pub value : Text
  pub message_id : Text
  pub sequence_number : Text

-- The length of the array.
pub record IsSized (r : DeprecatedRecord) : Type 0 where
  pub size_lem : length r.bytes ≡ 1025

-- pico_record()
abbrev pub blank_record : DeprecatedRecord
blank_record = record {
  bytes = replicate max_size 0;
  data_copy = none;
  previous_record_offset = negsuc 0;
  offset_of_record = negsuc 0;
  key_type = [];
  key = [];
  value = [];
  message_id = [];
  sequence_number = [];
}

-- `size` bytes of the array from index `beg` on
abbrev pub section_of : ℕ → ℕ → List ℕ → List ℕ
section_of beg size bytes = take size (drop beg bytes)

-- The array with these bytes from index `beg` on.
abbrev pub with_section : ℕ → List ℕ → List ℕ → List ℕ
with_section beg part bytes = take beg bytes ++ (part ++ drop (beg + length part) bytes)

-- The bytes up to the first NUL: the loops that break at it.
abbrev pub up_to_nul : List ℕ → Text
up_to_nul [] = []
up_to_nul (c ∷ cs) = if c == 0 then [] else c ∷ up_to_nul cs

abbrev all_nul : List ℕ → Bool
all_nul [] = true
all_nul (c ∷ cs) = (c == 0) && all_nul cs

is_record_empty : DeprecatedRecord → Bool
is_record_empty r = all_nul (take end_record_index r.bytes)

if_the_record_is_send_me_the_rest_of_data : DeprecatedRecord → Bool
if_the_record_is_send_me_the_rest_of_data b =
    text_eq (section_of beg_of_value_index 8 b.bytes) (codes "sendmeth")

-- copyOver, and the two assignments
copy_over : DeprecatedRecord → DeprecatedRecord → DeprecatedRecord
copy_over buffer self = record self {
  bytes = buffer.bytes;
  offset_of_record = buffer.offset_of_record;
}

-- pico_record(const pico_record&)
copied : DeprecatedRecord → DeprecatedRecord
unfolding copy_over
copied buffer = copy_over buffer blank_record

are_values_equal : DeprecatedRecord → DeprecatedRecord → Bool
are_values_equal buffer self =
    text_eq (section_of beg_of_value_index max_value_size self.bytes)
      (section_of beg_of_value_index max_value_size buffer.bytes)

unfoldable pub are_keys_equal : DeprecatedRecord → DeprecatedRecord → Bool
are_keys_equal buffer self =
    text_eq (section_of beg_of_key_index max_key_size self.bytes)
      (section_of beg_of_key_index max_key_size buffer.bytes)

are_records_equal : DeprecatedRecord → DeprecatedRecord → Bool
unfolding are_values_equal are_keys_equal
are_records_equal buffer self = are_values_equal buffer self && are_keys_equal buffer self

clear : DeprecatedRecord → DeprecatedRecord
clear r = record r { bytes = replicate max_size 0 }

-- getKeyTypeAsString, with getTheKeyTypeStringFromData
get_key_type_as_string : DeprecatedRecord → Outcome (Text × DeprecatedRecord)
get_key_type_as_string r = do
  let read = r.key_type ++ up_to_nul (take max_key_type_size r.bytes)
  let key_type = if is_empty r.key_type then read else r.key_type
  assert (not (is_empty key_type))
  let copy = if is_empty r.key_type then some r.bytes else r.data_copy
  returns (key_type, record r { key_type = key_type; data_copy = copy })

-- getKeyAsString, with getTheKeyStringFromData
unfoldable pub get_key_as_string : DeprecatedRecord → Outcome (Text × DeprecatedRecord)
get_key_as_string r = do
  let read = r.key ++ section_of beg_of_key_index max_key_size r.bytes
  let key = if is_empty r.key then read else r.key
  assert (not (is_empty key))
  returns (key, record r { key = key })

-- getValueAsString, with getTheValueStringFromData
unfoldable pub get_value_as_string : DeprecatedRecord → Outcome (Text × DeprecatedRecord)
get_value_as_string r = do
  let read = r.value ++ section_of beg_of_value_index max_value_size r.bytes
  let value = if is_empty r.value then read else r.value
  assert (not (is_empty value))
  returns (value, record r { value = value })

-- getMessageIdAsString, with getTheMessageIdStringFromData
unfoldable pub get_message_id_as_string : DeprecatedRecord → Outcome (Text × DeprecatedRecord)
get_message_id_as_string r = do
  let read = r.message_id ++ section_of beg_of_message_id_index message_id_size r.bytes
  let message_id = if is_empty r.message_id then read else r.message_id
  assert (not (is_empty message_id))
  returns (message_id, record r { message_id = message_id })

-- getDataAsString and toString
to_string : DeprecatedRecord → Outcome (Text × DeprecatedRecord)
to_string r = do
  assert (not (is_empty r.bytes))
  returns (r.bytes, record r { data_copy = some r.bytes })

to_json : DeprecatedRecord → Text × DeprecatedRecord
to_json r = (
  codes "{ " ++ (codes "data : " ++ (r.bytes ++ codes " }")),
  record r { data_copy = some r.bytes },
)
