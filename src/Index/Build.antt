-- ===== src/Index/Build.antt =====
-- PicoDB/pico/pico_index.h: the operations of the tree on the records of the database. The
-- argument is std::hash on texts.
use pico_db.Prelude.{ℕ, List, [], ◌∷◌, Outcome, returns, ◌>>=◌, ◌>>◌, assert, ℤ, negsuc, Text}
use pico_db.Counters.{is_natural}
use pico_db.DbRecord.{DbRecord, get_key_as_string, to_string}
use pico_db.Index.{Tree, null, node, IndexTree, insert, search, counted_up}
use pico_db.Index.Keys.{to_long}

-- The offset that `node->offset` is, of a node that is there.
abbrev pub offset_or_minus_one : Tree → ℤ
offset_or_minus_one null = negsuc 0
offset_or_minus_one (node _ _ o _) = o

module _ (hash_fn : Text → ℕ) where
  -- convert_pico_record_to_index_node: the key and the offset of the node. The record keeps the text
  -- of its key.
  unfoldable pub convert_pico_record_to_index_node : DbRecord → Outcome (ℤ × ℤ × DbRecord)
  convert_pico_record_to_index_node record' = do
    (key, read) ← get_key_as_string record'
    returns (to_long (hash_fn key), read.offset_of_record, read)

  -- One round of the loop of build_tree, and what add_to_tree does with the node.
  unfoldable pub add_node : DbRecord → IndexTree → Outcome IndexTree
  add_node record' t = do
    assert (is_natural record'.offset_of_record)
    (key, offset, read) ← convert_pico_record_to_index_node record'
    inserted ← insert key offset t
    returns (counted_up inserted)

  unfoldable pub build_tree : List DbRecord → IndexTree → Outcome IndexTree
  build_tree [] t = returns t
  build_tree (record' ∷ all_pico_records) t = add_node record' t >>= build_tree all_pico_records

  unfoldable pub add_to_tree : DbRecord → IndexTree → Outcome IndexTree
  add_to_tree it t = do (text, shown) ← to_string it; add_node shown t

  -- search(record): the node that is found, and the record with its offset
  unfoldable pub search_record : DbRecord → IndexTree → Outcome (Tree × DbRecord)
  search_record record' t = do
    (key, offset, read) ← convert_pico_record_to_index_node record'
    let found = search key t.root
    returns (found, record read { offset_of_record = offset_or_minus_one found })
