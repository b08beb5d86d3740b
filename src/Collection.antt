-- ===== src/Collection.antt =====
-- PicoDB/pico/pico_collection.h: the file of records and the index over it. What is no longer
-- declared is a parameter: the indexes at which a record is cut into the parts that are saved, and the
-- size of a block; std::hash is one, too.
pub mod Deletion
pub mod Appending
pub mod Reopening
use pico_db.Prelude.{
  ℕ, zero, suc, ◌+◌, ◌≡◌, Bool, true, false, not, ◌&&◌, List, [], ◌∷◌, ◌++◌, Option, none, some,
  Outcome, returns, waits, ◌>>=◌, ◌>>◌, assert, ℤ, pos, negsuc, Text, is_empty, magnitude, length,
  ltb, leb, ◌==◌, if◌then◌else◌,
}
use pico_db.Counters.{OffsetManager, get_end_of_file_offset, set_end_of_file_offset}
use pico_db.Record.{defined}
use pico_db.DbBlock.{Layout, RecordInDatabase, save_record, restore_record}
use pico_db.DbRecord.{DbRecord, new_db_record, to_string, copied}
use pico_db.Index.{Tree, is_null, size, IndexTree, new_index, remove}
use pico_db.Index.Build.{
  convert_pico_record_to_index_node, build_tree, search_record, offset_or_minus_one,
}

module _ {ℓ} (Block : Type ℓ) where
  -- A file: its size, and the blocks at their offsets, which are multiples of the size of a block.
  pub record DbFile : Type ℓ where
    pub file_size : ℕ
    pub blocks : ℕ → Option Block

  -- `offset_manager` has the offset that all managers share; `delete_tasks` are the records whose
  -- tasks were submitted to the pool for deletion.
  pub record Collection : Type ℓ where
    pub index : IndexTree
    pub offset_manager : OffsetManager
    pub file : DbFile
    pub delete_tasks : List DbRecord

module _ {ℓ} {Block : Type ℓ} where
  -- OffsetManager::getInitialOffset
  unfoldable pub get_initial_offset : DbFile Block → Outcome ℤ
  get_initial_offset f = returns (pos f.file_size)

  -- fseek and fwrite
  unfoldable pub write_block : ℕ → ℕ → Block → DbFile Block → DbFile Block
  write_block block_size offset b f = record {
    file_size = if ltb f.file_size (offset + block_size) then offset + block_size else f.file_size;
    blocks = λ at. if at == offset then some b else f.blocks at;
  }

  -- CollectionIsEmpty
  collection_is_empty : Collection Block → Outcome Bool
  unfolding get_initial_offset
  collection_is_empty c = do
    end ← get_end_of_file_offset (get_initial_offset c.file) c.offset_manager
    returns (magnitude end == 0)

  -- getNumberOfMessages
  unfoldable pub get_number_of_messages : Collection Block → ℕ
  get_number_of_messages c = c.index.number_of_nodes

module _ (l : Layout) where
  -- retrieve: a new record with the parts that the block holds; where no block was written it is
  -- undefined.
  unfoldable pub retrieve : ℕ → DbFile RecordInDatabase → Outcome DbRecord
  retrieve offset f = do
    my_record ← defined (f.blocks offset)
    bytes ← restore_record l my_record new_db_record.bytes
    returns (record new_db_record { bytes = bytes })

  -- The loop of read_all_messages_records from an offset on; the first argument bounds its rounds.
  unfoldable pub read_from : ℕ → ℕ → ℕ → ℕ → DbFile RecordInDatabase → Outcome (List DbRecord)
  unfolding retrieve
  read_from zero block_size end offset f = if ltb offset end then waits else returns []
  read_from (suc rounds) block_size end offset f = elim (ltb offset end) [
    | true ↦ do
      read ← retrieve offset f
      (text, shown) ← to_string (record read { offset_of_record = pos offset })
      list ← read_from rounds block_size end (offset + block_size) f
      returns (copied shown ∷ list)
    | false ↦ returns []
  ]

  -- With blocks of at least one byte there are no more rounds than bytes.
  unfoldable pub read_all_messages_records :
      ℕ → OffsetManager → DbFile RecordInDatabase → Outcome (List DbRecord)
  unfolding read_from get_initial_offset
  read_all_messages_records block_size m f = do
    end ← get_end_of_file_offset (get_initial_offset f) m
    read_from (magnitude end) block_size (magnitude end) 0 f

  -- pico_collection(name), on the file of that name, in memory that holds `garbage` where the number
  -- of the nodes will be
  unfoldable pub pico_collection :
      (Text → ℕ)
      → ℕ
      → ℕ
      → OffsetManager
      → DbFile RecordInDatabase
      → Outcome (Collection RecordInDatabase)
  unfolding read_all_messages_records
  pico_collection hash_fn garbage block_size m f = do
    all_pico_messages ← read_all_messages_records block_size m f
    index ← build_tree hash_fn all_pico_messages (new_index garbage)
    assert (size index.root == length all_pico_messages + 1)
    returns (record { index = index; offset_manager = m; file = f; delete_tasks = [] })

module _ (l : Layout) (block_size : ℕ) where
  -- append_a_record
  unfoldable pub append_a_record :
      DbRecord → ℕ → Collection RecordInDatabase → Outcome (Collection RecordInDatabase)
  unfolding write_block
  append_a_record record' record_offset c = do
    my_record ← save_record l record'.bytes
    let written = write_block block_size record_offset my_record c.file
    moved ← set_end_of_file_offset (pos (record_offset + block_size)) c.offset_manager
    returns (record c { file = written; offset_manager = moved })

  -- append and insert
  unfoldable pub append :
      DbRecord → Collection RecordInDatabase → Outcome (DbRecord × Collection RecordInDatabase)
  unfolding append_a_record get_initial_offset
  append record' c = do
    record_offset ← get_end_of_file_offset (get_initial_offset c.file) c.offset_manager
    let placed = record record' { offset_of_record = record_offset }
    after ← append_a_record placed (magnitude record_offset) c
    returns (placed, after)

  -- overwrite, whose counter of rounds stays 0
  unfoldable pub overwrite :
      ℕ → DbRecord → ℕ → Collection RecordInDatabase → Outcome (Collection RecordInDatabase)
  unfolding append_a_record
  overwrite zero record' record_offset c = waits
  overwrite (suc rounds) record' record_offset c = do
    after ← append_a_record record' record_offset c
    current ← retrieve l record_offset after.file
    overwrite rounds record' record_offset after

module _ {ℓ} {Block : Type ℓ} (hash_fn : Text → ℕ) where
  -- ifRecordExists
  unfoldable pub if_record_exists : DbRecord → Collection Block → Outcome Bool
  if_record_exists record' c = do
    (hit, found) ← search_record hash_fn record' c.index
    returns (not (is_null hit))

  -- get_offset_of_this_record
  unfoldable pub get_offset_of_this_record : DbRecord → Collection Block → Outcome ℤ
  get_offset_of_this_record record' c = do
    (hit, found) ← search_record hash_fn record' c.index
    returns (offset_or_minus_one hit)

  -- read_offset_of_this_record
  read_offset_of_this_record : DbRecord → Collection Block → Outcome DbRecord
  read_offset_of_this_record record' c = do
    (hit, found) ← search_record hash_fn record' c.index
    returns (record found { offset_of_record = offset_or_minus_one hit })

  -- deleteRecord, with queue_record_for_deletion where it is asynchronous
  unfoldable pub delete_record :
      Bool → DbRecord → Collection Block → Outcome (DbRecord × Collection Block)
  unfolding read_offset_of_this_record
  delete_record async record' c = do
    found ← read_offset_of_this_record record' c
    (key, offset, read) ← convert_pico_record_to_index_node hash_fn found
    let deleted = record read { offset_of_record = offset }
    let tasks = if async then c.delete_tasks ++ (deleted ∷ []) else c.delete_tasks
    (index, removed) ← remove key c.index
    returns (deleted, record c { index = index; delete_tasks = tasks })
