-- ===== src/DeprecatedRecord/Markers.antt =====
-- PicoDB/pico/pico_record_deprecated.h: the append marker and the sequence number.
use pico_db.Prelude.{◌≡◌, refl, true, false, ◌++◌, Text, codes, text_eq, replicate, arith, ap}
use pico_db.DbRecord.{padded}
use pico_db.DbRecord.Key.{length-padded}
use pico_db.DeprecatedRecord.{DeprecatedRecord, IsSized, up_to_nul}
use pico_db.DeprecatedRecord.Fields.{
  add_append_marker_to_the_end, is_this_record_an_add_on, remove_the_append_marker,
  set_the_sequence_number_in_data, set_the_sequence_number_string,
}
use pico_db.DeprecatedRecord.Roundtrip.{with_section-Sets}

-- The append marker is found once it is added, and not once it is removed.
pub is_this_record_an_add_on-marked :
    (r : DeprecatedRecord)
    → IsSized r
    → (is_this_record_an_add_on (add_append_marker_to_the_end r) ≡ true)
      × (is_this_record_an_add_on (remove_the_append_marker r) ≡ false)
unfolding is_this_record_an_add_on add_append_marker_to_the_end remove_the_append_marker
is_this_record_an_add_on-marked r s =
    let added = with_section-Sets 1018 6 (codes "999999") r.bytes refl (omega arith) s.size_lem in
    let removed = with_section-Sets 1018 6 (replicate 6 0) r.bytes refl (omega arith) s.size_lem in
    (
      ap (λ t. text_eq t (codes "999999")) added.here,
      ap (λ t. text_eq t (codes "999999")) removed.here,
    )

-- A sequence number that is set stands behind the ones that were set before.
pub set_the_sequence_number_in_data-appends :
    (number : Text) (r : DeprecatedRecord)
    → IsSized r
    → (set_the_sequence_number_in_data number r).sequence_number
      ≡ r.sequence_number ++ up_to_nul (padded 4 number)
unfolding set_the_sequence_number_in_data set_the_sequence_number_string
set_the_sequence_number_in_data-appends number r s =
    let sets =
      with_section-Sets 1014 4 (padded 4 number) r.bytes (length-padded 4 number) (omega arith)
        s.size_lem in
    ap (λ t. r.sequence_number ++ up_to_nul t) sets.here
