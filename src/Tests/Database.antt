-- ===== src/Tests/Database.antt =====
-- Runs of the models of the records, the index and the collection on concrete inputs.
use pico_db.Prelude.{
  ℕ, ◌+◌, ◌%◌, ◌≡◌, refl, true, false, List, [], ◌∷◌, none, some, returns, ◌>>=◌, ℤ, pos, negsuc,
  Text, codes, length, arith, if◌then◌else◌,
}
use pico_db.Counters.{initial_manager, long_mod, get_end_of_file_offset}
use pico_db.DbRecord.{
  DbRecord, IsSized, new_db_record, set_the_key_in_data, get_key_as_string, padded,
}
use pico_db.DbRecord.Key.{get_key-set_key, set_the_key_in_data-IsSized}
use pico_db.Index.{null, node, IndexTree, new_index, search, min_key}
use pico_db.Index.Keys.{above, below, same, to_long}
use pico_db.Index.Find.{entry}
use pico_db.Index.Order.{IsOrdered}
use pico_db.Index.Sequence.{keys, place, remove_first}
use pico_db.Index.Refinement.{
  inserting, removing, searching, run_index, run_sequence, contains, run_index-run_sequence,
}
use pico_db.Index.Lookup.{IsStored, first, listed}
use pico_db.Index.Counting.{
  adding, taking, run_changes, IsCounted, new_index-IsCounted, run_changes-IsCounted,
}
use pico_db.DbBlock.{Layout, RecordInDatabase}
use pico_db.DbBlock.Roundtrip.{IsLayout}
use pico_db.Collection.{
  get_initial_offset, Collection, pico_collection, get_number_of_messages, delete_record,
  get_offset_of_this_record,
}
use pico_db.Collection.Appending.{append_all}
use pico_db.Collection.Deletion.{delete_record-kept, delete_record-misleads}
use pico_db.Collection.Reopening.{append_all-pico_collection, table}
use pico_db.DeprecatedRecord
use pico_db.DeprecatedRecord.{blank_record, get_value_as_string, get_message_id_as_string}
use pico_db.DeprecatedRecord.Fields.{record_starts_with_con_key, is_this_record_an_add_on}
use pico_db.DeprecatedRecord.Roundtrip.{set_fields, set_fields-get}

-- A hash: the first character.
abbrev sample_hash : Text → ℕ
sample_hash [] = 0
sample_hash (c ∷ cs) = c

unfoldable record_of : Text → DbRecord
record_of key = set_the_key_in_data key new_db_record

record_of-IsSized : (key : Text) → IsSized (record_of key)
unfolding record_of
record_of-IsSized key = set_the_key_in_data-IsSized key new_db_record (record { size_lem = refl })

get_key-set_key_example :
    (get_key_as_string (set_the_key_in_data (codes "b") new_db_record) >>= λ x. returns (x.0))
    ≡ returns (padded 32 (codes "b"))
get_key-set_key_example = get_key-set_key (codes "b") new_db_record

abbrev full_tree : IndexTree
full_tree = record {
  root = node null (negsuc 0) (negsuc 0) (
      node (node null (pos 97) (pos 81) null) (pos 98) (pos 0) (node null (pos 99) (pos 162) null));
  number_of_nodes = 10;
}

full_tree-IsOrdered : IsOrdered full_tree.root
unfolding above below
full_tree-IsOrdered = omega arith

run_index-run_sequence_example :
    (run_index
        (removing (pos 98)
          ∷ searching (pos 99)
          ∷ searching (pos 98)
          ∷ inserting (pos 5) (pos 0)
          ∷ [])
        full_tree
      >>= λ x. returns (x.0, keys x.1.root))
    ≡ run_sequence
        (removing (pos 98)
          ∷ searching (pos 99)
          ∷ searching (pos 98)
          ∷ inserting (pos 5) (pos 0)
          ∷ [])
        (keys full_tree.root)
run_index-run_sequence_example =
    run_index-run_sequence
      (removing (pos 98) ∷ searching (pos 99) ∷ searching (pos 98) ∷ inserting (pos 5) (pos 0) ∷ [])
      full_tree full_tree-IsOrdered

run_sequence_test :
    run_sequence
      (removing (pos 98) ∷ searching (pos 99) ∷ searching (pos 98) ∷ inserting (pos 5) (pos 0) ∷ [])
      (keys full_tree.root)
    ≡ returns (true ∷ (true ∷ (false ∷ [])), negsuc 0 ∷ (pos 5 ∷ (pos 97 ∷ (pos 99 ∷ []))))
unfolding run_sequence keys place remove_first contains above below
run_sequence_test = refl

stored_record : Text → DbRecord
stored_record key = record (record_of key) { offset_of_record = pos 81 }

stored_record-IsStored : (key : Text) → IsStored (stored_record key)
unfolding stored_record
stored_record-IsStored key = record {
  sized = record { size_lem = (record_of-IsSized key).size_lem };
  stored = refl;
}

run_changes-IsCounted_example :
    (last : IndexTree) × (run_changes sample_hash
        (adding (stored_record (codes "b")) ∷ taking (pos 98) ∷ taking (pos 98) ∷ [])
        (new_index 7)
      ≡ returns last)
    × IsCounted 7 last
unfolding above below
run_changes-IsCounted_example =
    run_changes-IsCounted sample_hash 7
      (adding (stored_record (codes "b")) ∷ taking (pos 98) ∷ taking (pos 98) ∷ []) (new_index 7)
      (stored_record-IsStored (codes "b"), (refl, (refl, tt))) (new_index-IsCounted 7 (omega arith))

abbrev full_collection : Collection RecordInDatabase
full_collection = record {
  index = full_tree;
  offset_manager = record { offset = pos 243 };
  file = record { file_size = 243; blocks = λ at. none };
  delete_tasks = [];
}

delete_record-misleads_example :
    (delete_record sample_hash true (record_of (codes "b")) full_collection >>= λ x.
    get_offset_of_this_record sample_hash (record_of (codes "c")) x.1)
    ≡ get_offset_of_this_record sample_hash (record_of (codes "b")) full_collection
unfolding record_of set_the_key_in_data padded search listed to_long above below min_key
delete_record-misleads_example =
    delete_record-misleads sample_hash true (record_of (codes "b")) (record_of (codes "c"))
      full_collection (record_of-IsSized (codes "b")) (record_of-IsSized (codes "c"))
      full_tree-IsOrdered refl refl refl

delete_record-kept_example :
    (delete_record sample_hash false (record_of (codes "b")) full_collection >>= λ x.
    get_offset_of_this_record sample_hash (record_of (codes "a")) x.1)
    ≡ get_offset_of_this_record sample_hash (record_of (codes "a")) full_collection
unfolding record_of set_the_key_in_data padded search listed to_long above below min_key
delete_record-kept_example =
    delete_record-kept sample_hash false (record_of (codes "b")) (record_of (codes "a"))
      full_collection (record_of-IsSized (codes "b")) (record_of-IsSized (codes "a"))
      full_tree-IsOrdered refl refl

-- The sections of the older record, with a shorter value.
abbrev sample_layout : Layout
sample_layout = record {
  beg_key_type_index = 0;
  end_key_type_index = 6;
  max_key_type_size = 6;
  beg_of_key_index = 6;
  end_of_key_index = 38;
  beg_of_value_index = 38;
  end_of_value_index = 80;
}

abbrev empty_collection : Collection RecordInDatabase
empty_collection = record {
  index = new_index 7;
  offset_manager = initial_manager;
  file = record { file_size = 0; blocks = λ at. none };
  delete_tasks = [];
}

abbrev three_records : List DbRecord
three_records = record_of (codes "b") ∷ record_of (codes "a") ∷ record_of (codes "bc") ∷ []

sample_layout-IsLayout : IsLayout sample_layout
sample_layout-IsLayout = record {
  type_end = refl;
  type_le = omega arith;
  type_beg_le = omega arith;
  key_le = omega arith;
  key_beg_le = omega arith;
  value_le = omega arith;
  value_beg_le = omega arith;
}

append_all-pico_collection_example :
    (last : Collection RecordInDatabase) × ((append_all sample_layout 81 three_records
          empty_collection
        >>= λ c'. pico_collection sample_layout sample_hash 7 81 c'.offset_manager c'.file)
      ≡ returns last)
    × ((key : ℤ)
        → entry (search key last.index.root) ≡ (
            if same key (negsuc 0)
            then some (negsuc 0, negsuc 0)
            else first key (table sample_layout sample_hash 81 three_records 0)))
    × IsOrdered last.index.root
    × (get_number_of_messages last ≡ (7 + length three_records) % long_mod)
unfolding get_end_of_file_offset get_initial_offset
append_all-pico_collection_example =
    append_all-pico_collection sample_layout sample_hash 7 81 three_records empty_collection
      sample_layout-IsLayout (omega arith) (omega arith)
      (
        record_of-IsSized (codes "b"),
        (record_of-IsSized (codes "a"), (record_of-IsSized (codes "bc"), tt)),
      )
      refl

set_fields-get_example :
    let after = set_fields (codes "k") (codes "some value") (codes "17") blank_record in
    ((DeprecatedRecord.get_key_as_string after >>= λ x. returns (x.0))
      ≡ returns (padded 32 (codes "k")))
    × ((get_value_as_string after >>= λ x. returns (x.0))
        ≡ returns (padded 944 (codes "some value")))
    × ((get_message_id_as_string after >>= λ x. returns (x.0)) ≡ returns (padded 32 (codes "17")))
    × (record_starts_with_con_key after ≡ record_starts_with_con_key blank_record)
    × (is_this_record_an_add_on after ≡ is_this_record_an_add_on blank_record)
set_fields-get_example =
    set_fields-get (codes "k") (codes "some value") (codes "17") blank_record
      (record { size_lem = refl }) refl refl refl
