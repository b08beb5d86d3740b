-- ===== src/DeprecatedRecord/Roundtrip.antt =====
-- PicoDB/pico/pico_record_deprecated.h: what is read of the fields that were set.
use pico_db.Prelude.{
  ℕ, ◌+◌, ◌≤◌, ◌≡◌, refl, true, false, List, [], returns, ◌>>=◌, Text, codes, text_eq, is_empty,
  length, drop, replicate, arith, ap, ◌∙◌, text_eq_refl, length-replicate, length-take, length-drop,
}
use pico_db.DbRecord.{padded}
use pico_db.DbRecord.Key.{length-padded, filled-not_empty}
use pico_db.DeprecatedRecord.{
  DeprecatedRecord, IsSized, section_of, with_section, get_key_as_string, get_value_as_string,
  get_message_id_as_string, are_keys_equal,
}
use pico_db.DeprecatedRecord.Fields.{
  set_the_key_in_data, set_the_value_in_data, set_the_message_id_in_data, remove_the_key_part,
  replicate_the_first_record_key_to_other_records, record_starts_with_con_key,
  is_this_record_an_add_on,
}
use pico_db.DeprecatedRecord.Sections.{
  length-with_section, section_of-with_section, section_of-in_front, section_of-behind,
}

-- What is done to the bytes where a section is set in an array of the right size.
pub record Sets (beg size : ℕ) (part old new : List ℕ) : Type 0 where
  pub length_kept : length new ≡ 1025
  pub here : section_of beg size new ≡ part
  pub in_front :
      (at count : ℕ) → at + count ≤ beg → section_of at count new ≡ section_of at count old
  pub behind : (at count : ℕ) → beg + size ≤ at → section_of at count new ≡ section_of at count old

pub with_section-Sets :
    (beg size : ℕ) (part old : List ℕ)
    → length part ≡ size
    → beg + size ≤ 1025
    → length old ≡ 1025
    → Sets beg size part old (with_section beg part old)
with_section-Sets beg size part old e h l =
    let fits : beg + size ≤ length old = omega (arith, h, l) in
    record {
      length_kept = length-with_section beg part old (omega (arith, e, fits)) ∙ l;
      here = section_of-with_section beg size part old e fits;
      in_front = λ at count. section_of-in_front beg size at count part old e fits;
      behind = λ at count. section_of-behind beg size at count part old e fits;
    }

-- Sets a key, a value and the id of a message.
abbrev pub set_fields : Text → Text → Text → DeprecatedRecord → DeprecatedRecord
set_fields key values message_id r =
    set_the_message_id_in_data message_id (set_the_value_in_data values (set_the_key_in_data key r))

key-Sets :
    (key : Text) (r : DeprecatedRecord)
    → length r.bytes ≡ 1025
    → Sets 6 32 (padded 32 key) r.bytes (set_the_key_in_data key r).bytes
unfolding set_the_key_in_data
key-Sets key r = with_section-Sets 6 32 (padded 32 key) r.bytes (length-padded 32 key) (omega arith)

value-Sets :
    (values : Text) (r : DeprecatedRecord)
    → length r.bytes ≡ 1025
    → Sets 38 944 (padded 944 values) r.bytes (set_the_value_in_data values r).bytes
unfolding set_the_value_in_data
value-Sets values r =
    with_section-Sets 38 944 (padded 944 values) r.bytes (length-padded 944 values) (omega arith)

message_id-Sets :
    (message_id : Text) (r : DeprecatedRecord)
    → length r.bytes ≡ 1025
    → Sets 982 32 (padded 32 message_id) r.bytes (set_the_message_id_in_data message_id r).bytes
unfolding set_the_message_id_in_data
message_id-Sets message_id r =
    with_section-Sets 982 32 (padded 32 message_id) r.bytes (length-padded 32 message_id)
      (omega arith)

-- The sections after the three of them.
record AreSet (key values message_id : Text) (old new : List ℕ) : Type 0 where
  key_section : section_of 6 32 new ≡ padded 32 key
  value_section : section_of 38 944 new ≡ padded 944 values
  message_id_section : section_of 982 32 new ≡ padded 32 message_id
  type_section : section_of 0 6 new ≡ section_of 0 6 old
  marker_section : section_of 1018 6 new ≡ section_of 1018 6 old

set_fields-AreSet :
    (key values message_id : Text) (r : DeprecatedRecord)
    → IsSized r
    → AreSet key values message_id r.bytes (set_fields key values message_id r).bytes
set_fields-AreSet key values message_id r s =
    let a = key-Sets key r s.size_lem in
    let keyed = set_the_key_in_data key r in
    let b = value-Sets values keyed a.length_kept in
    let valued = set_the_value_in_data values keyed in
    let c = message_id-Sets message_id valued b.length_kept in
    record {
      key_section = c.in_front 6 32 (omega arith) ∙ b.in_front 6 32 (omega arith) ∙ a.here;
      value_section = c.in_front 38 944 (omega arith) ∙ b.here;
      message_id_section = c.here;
      type_section =
          c.in_front 0 6 (omega arith)
          ∙ b.in_front 0 6 (omega arith)
          ∙ a.in_front 0 6 (omega arith);
      marker_section =
          c.behind 1018 6 (omega arith)
          ∙ b.behind 1018 6 (omega arith)
          ∙ a.behind 1018 6 (omega arith);
    }

-- Reading a field that was not read before gives its section.
key-section :
    (r : DeprecatedRecord) (t : Text)
    → r.key ≡ []
    → section_of 6 32 r.bytes ≡ t
    → is_empty t ≡ false
    → (get_key_as_string r >>= λ x. returns (x.0)) ≡ returns t
unfolding get_key_as_string
key-section r t e h n = rw (e, h, n) refl

value-section :
    (r : DeprecatedRecord) (t : Text)
    → r.value ≡ []
    → section_of 38 944 r.bytes ≡ t
    → is_empty t ≡ false
    → (get_value_as_string r >>= λ x. returns (x.0)) ≡ returns t
unfolding get_value_as_string
value-section r t e h n = rw (e, h, n) refl

message_id-section :
    (r : DeprecatedRecord) (t : Text)
    → r.message_id ≡ []
    → section_of 982 32 r.bytes ≡ t
    → is_empty t ≡ false
    → (get_message_id_as_string r >>= λ x. returns (x.0)) ≡ returns t
unfolding get_message_id_as_string
message_id-section r t e h n = rw (e, h, n) refl

set_fields-texts :
    (key values message_id : Text) (r : DeprecatedRecord)
    → let after = set_fields key values message_id r in
      (after.key ≡ r.key) × (after.value ≡ r.value) × (after.message_id ≡ r.message_id)
unfolding set_the_message_id_in_data set_the_value_in_data set_the_key_in_data
set_fields-texts key values message_id r = (refl, refl, refl)

-- A key, a value and an id that are set in a record of the right size, none of which was read before,
-- are read as they were cut off or filled up with NULs to their sizes, and what is told by the marker
-- of the type and the append marker stays.
pub set_fields-get :
    (key values message_id : Text) (r : DeprecatedRecord)
    → IsSized r
    → r.key ≡ []
    → r.value ≡ []
    → r.message_id ≡ []
    → let after = set_fields key values message_id r in
      ((get_key_as_string after >>= λ x. returns (x.0)) ≡ returns (padded 32 key))
      × ((get_value_as_string after >>= λ x. returns (x.0)) ≡ returns (padded 944 values))
      × ((get_message_id_as_string after >>= λ x. returns (x.0)) ≡ returns (padded 32 message_id))
      × (record_starts_with_con_key after ≡ record_starts_with_con_key r)
      × (is_this_record_an_add_on after ≡ is_this_record_an_add_on r)
unfolding record_starts_with_con_key is_this_record_an_add_on
set_fields-get key values message_id r s k v i =
    let after = set_fields key values message_id r in
    let parts = set_fields-AreSet key values message_id r s in
    let texts = set_fields-texts key values message_id r in
    (
      key-section after (padded 32 key) (texts.0 ∙ k) parts.key_section (filled-not_empty 31 key),
      value-section after (padded 944 values) (texts.1 ∙ v) parts.value_section
          (filled-not_empty 943 values),
      message_id-section after (padded 32 message_id) (texts.2 ∙ i) parts.message_id_section
          (filled-not_empty 31 message_id),
      ap (λ t. text_eq t (codes "CONKEY")) parts.type_section,
      ap (λ t. text_eq t (codes "999999")) parts.marker_section,
    )

-- removeTheKeyPart leaves the last six bytes of the key.
pub remove_the_key_part-section :
    (r : DeprecatedRecord)
    → IsSized r
    → (section_of 6 26 (remove_the_key_part r).bytes ≡ replicate 26 0)
      × (section_of 32 6 (remove_the_key_part r).bytes ≡ section_of 32 6 r.bytes)
unfolding remove_the_key_part
remove_the_key_part-section r s =
    let sets =
      with_section-Sets 6 26 (replicate 26 0) r.bytes (length-replicate {A = ℕ} 26 0) (omega arith)
        s.size_lem in
    (sets.here, sets.behind 32 6 (omega arith))

-- A record to which the key of the first one is replicated starts with CONKEY and has an equal key.
pub replicate_the_first_record_key-equal :
    (first current : DeprecatedRecord)
    → IsSized first
    → IsSized current
    → let after = replicate_the_first_record_key_to_other_records first current in
      (record_starts_with_con_key after ≡ true) × (are_keys_equal first after ≡ true)
unfolding replicate_the_first_record_key_to_other_records record_starts_with_con_key are_keys_equal
replicate_the_first_record_key-equal first current f c =
    let marked =
      with_section-Sets 0 6 (codes "CONKEY") current.bytes refl (omega arith) c.size_lem in
    let part = section_of 6 32 first.bytes in
    let long : length part ≡ 32 =
      omega (arith, length-take 32 (drop 6 first.bytes), length-drop 6 first.bytes, f.size_lem) in
    let keyed =
      with_section-Sets 6 32 part (with_section 0 (codes "CONKEY") current.bytes) long (omega arith)
        marked.length_kept in
    (
      ap (λ t. text_eq t (codes "CONKEY")) (keyed.in_front 0 6 (omega arith) ∙ marked.here),
      ap (λ t. text_eq t part) keyed.here ∙ text_eq_refl part,
    )
