-- ===== src/DeprecatedRecord/Fields.antt =====
-- PicoDB/pico/pico_record_deprecated.h: setting the fields and the markers.
use pico_db.Prelude.{ℕ, Bool, List, ◌++◌, some, Text, codes, text_eq, take, replicate}
use pico_db.DbRecord.{padded}
use pico_db.DeprecatedRecord.{
  DeprecatedRecord, section_of, with_section, up_to_nul, max_key_type_size, beg_of_key_index,
  max_key_size, beg_of_value_index, max_value_size, beg_of_message_id_index, message_id_size,
  beg_of_sequence_in_message_index, sequence_in_message, beg_of_append_marker_index, append_marker,
  max_size,
}

pub record_starts_with_begkey : DeprecatedRecord → Bool
record_starts_with_begkey r = text_eq (take max_key_type_size r.bytes) (codes "BEGKEY")

unfoldable pub record_starts_with_con_key : DeprecatedRecord → Bool
record_starts_with_con_key r = text_eq (take max_key_type_size r.bytes) (codes "CONKEY")

unfoldable pub add_append_marker_to_the_end : DeprecatedRecord → DeprecatedRecord
add_append_marker_to_the_end r = record r {
  bytes = with_section beg_of_append_marker_index (codes "999999") r.bytes;
}

unfoldable pub is_this_record_an_add_on : DeprecatedRecord → Bool
is_this_record_an_add_on r =
    text_eq (section_of beg_of_append_marker_index append_marker r.bytes) (codes "999999")

-- setTheKeyString, setTheValueString and setTheMessageIdString: each has a parameter that hides the
-- member of its name.
unfoldable set_the_string : Text → DeprecatedRecord → DeprecatedRecord
set_the_string text r = record r { data_copy = some r.bytes }

-- setTheSequenceNumberString: behind what the member already holds
unfoldable pub set_the_sequence_number_string : Text → DeprecatedRecord → DeprecatedRecord
set_the_sequence_number_string sequence_number_str r = record r {
  data_copy = some r.bytes;
  sequence_number =
      r.sequence_number
      ++ up_to_nul (section_of beg_of_sequence_in_message_index sequence_in_message r.bytes);
}

-- setTheRecordTypeInData, whose loop ends where it begins
set_the_record_type_in_data : Text → DeprecatedRecord → DeprecatedRecord
set_the_record_type_in_data type r = r

unfoldable pub set_the_key_in_data : Text → DeprecatedRecord → DeprecatedRecord
unfolding set_the_string
set_the_key_in_data key r =
    set_the_string key
      (record r { bytes = with_section beg_of_key_index (padded max_key_size key) r.bytes })

unfoldable pub set_the_value_in_data : Text → DeprecatedRecord → DeprecatedRecord
unfolding set_the_string
set_the_value_in_data values r =
    set_the_string values
      (record r { bytes = with_section beg_of_value_index (padded max_value_size values) r.bytes })

unfoldable pub set_the_message_id_in_data : Text → DeprecatedRecord → DeprecatedRecord
unfolding set_the_string
set_the_message_id_in_data message_id r = set_the_string message_id (record r {
  bytes = with_section beg_of_message_id_index (padded message_id_size message_id) r.bytes;
})

-- The text is what convertToString gives of the number.
unfoldable pub set_the_sequence_number_in_data : Text → DeprecatedRecord → DeprecatedRecord
unfolding set_the_sequence_number_string
set_the_sequence_number_in_data sequence_number_str r =
    set_the_sequence_number_string sequence_number_str (record r {
      bytes =
          with_section beg_of_sequence_in_message_index
            (padded sequence_in_message sequence_number_str) r.bytes;
    })

-- The three removals of the append marker, and removeTheKeyMarkers1aadsadsd.
unfoldable pub remove_the_append_marker : DeprecatedRecord → DeprecatedRecord
remove_the_append_marker r = record r {
  bytes = with_section beg_of_append_marker_index (replicate append_marker 0) r.bytes;
}

-- removeTheKeyPart, whose loop goes up to `max_key_size` in place of the end of the key
unfoldable pub remove_the_key_part : DeprecatedRecord → DeprecatedRecord
remove_the_key_part r = record r { bytes = with_section beg_of_key_index (replicate 26 0) r.bytes }

unfoldable pub replicate_the_first_record_key_to_other_records :
    DeprecatedRecord → DeprecatedRecord → DeprecatedRecord
replicate_the_first_record_key_to_other_records first current =
    let marked = with_section 0 (codes "CONKEY") current.bytes in
    record current {
      bytes =
          with_section beg_of_key_index (section_of beg_of_key_index max_key_size first.bytes)
            marked;
    }

-- addKeyMarkerToRecord, for a marker that fits in the array
pub add_key_marker_to_record : Text → DeprecatedRecord → DeprecatedRecord
add_key_marker_to_record key_marker r = record r { bytes = with_section 0 key_marker r.bytes }

add_con_marker_to_first_record : DeprecatedRecord → DeprecatedRecord
add_con_marker_to_first_record r = record r { bytes = with_section 0 (codes "CONKEY") r.bytes }

-- getDataForWrite and getDataForRead
get_data : DeprecatedRecord → List ℕ
get_data r = r.bytes

get_size : DeprecatedRecord → ℕ
get_size r = max_size
