-- ===== src/Index.antt =====
-- PicoDB/pico/pico_index.h: the binary search tree from the hash of a key to the offset of a
-- record.
pub mod Keys
pub mod Order
pub mod Find
pub mod Delete
pub mod Sequence
pub mod Offsets
pub mod Build
pub mod Refinement
pub mod Lookup
pub mod Counting
use pico_db.Prelude.{
  ℕ, zero, suc, ◌+◌, ◌-◌, ◌%◌, ◌≡◌, Bool, true, false, not, ◌&&◌, List, [], ◌∷◌, ◌++◌, Outcome,
  returns, aborts, undefined, ◌>>=◌, ◌>>◌, assert, require, ℤ, pos, negsuc, if◌then◌else◌,
}
use pico_db.Index.Keys.{less, same}
use pico_db.Counters.{long_mod}

-- A pointer to a node, with what hangs below the node: `left`, `key`, `offset`, `right`. No node
-- hangs in two places, since each is made for the one call that hangs it in.
pub data Tree : Type 0 where
  null : Tree
  node : Tree → ℤ → ℤ → Tree → Tree

abbrev pub is_null : Tree → Bool
is_null null = true
is_null (node _ _ _ _) = false

-- pico_record_node()
abbrev pub blank_node : Tree
blank_node = node null (negsuc 0) (negsuc 0) null

-- minKey, of the node with this left pointer and this key
unfoldable pub min_key : Tree → ℤ → ℤ
min_key null key = key
min_key (node l k _ _) key = min_key l k

-- deleteNode. The result is the pointer that the parent then holds, and whether the pointer
-- returned is other than null; the first argument tells whether there is a parent. The clause of
-- null is the test that the node above makes.
unfoldable pub delete_node : Bool → ℤ → Tree → Outcome (Tree × Bool)
unfolding min_key
delete_node parent key null = returns (null, false)
delete_node parent key (node l k o r) = elim (less key k) [
  | true ↦ do (left, removed) ← delete_node true key l; returns (node left k o r, removed)
  | false ↦ elim (less k key) [
    | true ↦ do (right, removed) ← delete_node true key r; returns (node l k o right, removed)
    | false ↦ elim (not (is_null l) && not (is_null r)) [
      | true ↦ do
        let least = min_key r k
        (right, removed) ← delete_node true least r
        returns (node l least o right, removed)
      | false ↦ do require parent; returns (if is_null l then r else l, true)
    ]
  ]
]

-- insert(nodeToBeInserted, leaf), below a leaf that is there; the clause of null hangs the node in.
unfoldable pub insert_below : ℤ → ℤ → Tree → Tree
insert_below key offset null = node null key offset null
insert_below key offset (node l k o r) = elim (less key k) [
  | true ↦ node (insert_below key offset l) k o r
  | false ↦ node l k o (insert_below key offset r)
]

-- search(node, leaf): the node that is found
unfoldable pub search : ℤ → Tree → Tree
search key null = null
search key (node l k o r) = elim (same key k) [
  | true ↦ node l k o r
  | false ↦ elim (less key k) [ true ↦ search key l | false ↦ search key r ]
]

-- size(node)
unfoldable pub size : Tree → ℕ
size null = 0
size (node l _ _ r) = size l + 1 + size r

-- print_tree(topNode): the keys in the order in which they are logged
unfoldable pub print_tree : Tree → List ℤ
print_tree null = []
print_tree (node l k _ r) = k ∷ (print_tree l ++ print_tree r)

-- destroy_tree(leaf): the keys of the nodes in the order in which they are deleted
unfoldable pub destroy_tree : Tree → List ℤ
destroy_tree null = []
destroy_tree (node l k _ r) = destroy_tree l ++ (destroy_tree r ++ (k ∷ []))

-- `number_of_nodes` is a long, as its residue; the constructor does not set it.
pub record IndexTree : Type 0 where
  pub root : Tree
  pub number_of_nodes : ℕ

-- pico_binary_index_tree(), in memory that holds the number
unfoldable pub new_index : ℕ → IndexTree
new_index garbage = record { root = blank_node; number_of_nodes = garbage }

-- insert(node): `leaf->key` is read also if the root is null.
unfoldable pub insert : ℤ → ℤ → IndexTree → Outcome IndexTree
unfolding insert_below
insert key offset t = do
  require (not (is_null t.root))
  returns (record t { root = insert_below key offset t.root })

unfoldable pub counted_up : IndexTree → IndexTree
counted_up t = record t { number_of_nodes = (t.number_of_nodes + 1) % long_mod }

unfoldable pub counted_down : IndexTree → IndexTree
counted_down t = record t { number_of_nodes = (t.number_of_nodes + (long_mod - 1)) % long_mod }

-- What `remove` takes down: the new root, and whether a node was removed.
unfoldable pub remove_node : ℤ → Tree → Outcome (Tree × Bool)
unfolding delete_node
remove_node key null = returns (null, false)
remove_node key (node l k o r) = delete_node (same k key) key (node l k o r)

unfoldable pub remove : ℤ → IndexTree → Outcome (IndexTree × Bool)
unfolding remove_node counted_down
remove key t = do
  (root, removed) ← remove_node key t.root
  let taken = record t { root = root }
  returns (if removed then counted_down taken else taken, removed)
