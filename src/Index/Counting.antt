-- ===== src/Index/Counting.antt =====
-- PicoDB/pico/pico_index.h: the number of the nodes.
use pico_db.Prelude.{
  ℕ, ◌+◌, ◌%◌, ◌<◌, ◌≡◌, refl, Bool, true, false, not, ◌&&◌, List, [], ◌∷◌, All, some, Outcome,
  returns, ◌>>=◌, ℤ, negsuc, Text, arith, if◌then◌else◌,
}
use pico_db.Counters.{long_mod}
use pico_db.DbRecord.{DbRecord}
use pico_db.DbRecord.Key.{to_string-sized}
use pico_db.Index.{
  Tree, null, node, is_null, size, search, min_key, IndexTree, new_index, insert_below, remove,
  counted_down,
}
use pico_db.Index.Keys.{same, same_refl}
use pico_db.Index.Order.{IsOrdered, insert_below-IsOrdered, size-insert_below}
use pico_db.Index.Delete.{erase, is_found, least-found, erase-IsOrdered}
use pico_db.Index.Build.{add_to_tree}
use pico_db.Index.Refinement.{removed_from, remove-removed_from}
use pico_db.Index.Lookup.{IsStored, grown, add_node-grown, listed}

abbrev one_if : Bool → ℕ
one_if true = 1
one_if false = 0

size-one :
    (l r : Tree)
    → (not (is_null l) && not (is_null r)) ≡ false
    → size (if is_null l then r else l) ≡ size l + size r
unfolding size
size-one null r h = omega arith
size-one (node ll lk lo lr) null h = omega arith
size-one (node ll lk lo lr) (node rl rk ro rr) h = cc

-- A key that is found takes one node away.
size-erase :
    (t : Tree) (key : ℤ) → IsOrdered t → size (erase key t) + one_if (is_found key t) ≡ size t
unfolding size erase search
size-erase null key s = refl
size-erase (node l k o r) key s = ground (
  arith,
  size-erase l key s.2,
  size-erase r key s.3,
  size-erase r (min_key r k) s.3,
  least-found r k,
  size-one l r,
)

-- The root has the key -1 that the constructor of a node gives.
abbrev is_blank_root : Tree → Bool
is_blank_root null = false
is_blank_root (node _ k _ _) = same k (negsuc 0)

-- The tree is ordered below the node of the constructor, and the number has counted the other nodes
-- from what the memory held before.
pub record IsCounted (garbage : ℕ) (t : IndexTree) : Type 0 where
  pub ordered : IsOrdered t.root
  pub blank : is_blank_root t.root ≡ true
  pub counted : (t.number_of_nodes + 1) % long_mod ≡ (garbage + size t.root) % long_mod
  pub small : t.number_of_nodes < long_mod

pub new_index-IsCounted : (garbage : ℕ) → garbage < long_mod → IsCounted garbage (new_index garbage)
unfolding new_index size
new_index-IsCounted garbage h = record {
  ordered = (tt, tt, tt, tt);
  blank = same_refl (negsuc 0);
  counted = refl;
  small = h;
}

blank-insert_below :
    (t : Tree) (key offset : ℤ)
    → is_blank_root t ≡ true
    → is_blank_root (insert_below key offset t) ≡ true
unfolding insert_below
blank-insert_below null key offset h = cc
blank-insert_below (node l k o r) key offset h = ground (arith, h)

blank-erase :
    (t : Tree) (key : ℤ)
    → same key (negsuc 0) ≡ false
    → is_blank_root t ≡ true
    → is_blank_root (erase key t) ≡ true
unfolding erase
blank-erase null key n h = cc
blank-erase (node l k o r) key n h = ground (arith, n, h)

-- What is done to an index: a record is added, or a key is taken out.
pub data Change : Type 0 where
  adding : DbRecord → Change
  taking : ℤ → Change

-- The records have an offset, and the key of the constructor's node is not taken out.
abbrev pub IsAllowed : Change → Type 0
IsAllowed (adding r) = IsStored r
IsAllowed (taking key) = same key (negsuc 0) ≡ false

taken-IsCounted :
    (garbage : ℕ) (key : ℤ) (t : IndexTree) (b : Bool)
    → same key (negsuc 0) ≡ false
    → IsCounted garbage t
    → size (erase key t.root) + one_if b ≡ size t.root
    → let taken = record t { root = erase key t.root } in
      IsCounted garbage (if b then counted_down taken else taken)
unfolding counted_down
taken-IsCounted garbage key t true n i e = record {
  ordered = erase-IsOrdered t.root key i.ordered;
  blank = blank-erase t.root key n i.blank;
  counted = omega (arith, i.counted, i.small, e);
  small = omega arith;
}
taken-IsCounted garbage key t false n i e = record {
  ordered = erase-IsOrdered t.root key i.ordered;
  blank = blank-erase t.root key n i.blank;
  counted = omega (arith, i.counted, e);
  small = i.small;
}

removed_from-IsCounted :
    (garbage : ℕ) (key : ℤ) (t : IndexTree)
    → same key (negsuc 0) ≡ false
    → IsCounted garbage t
    → IsCounted garbage (removed_from key t)
unfolding removed_from
removed_from-IsCounted garbage key t n i =
    taken-IsCounted garbage key t (is_found key t.root) n i (size-erase t.root key i.ordered)

root-blank : (t : Tree) → is_blank_root t ≡ true → is_null t ≡ false
root-blank null h = cc
root-blank (node l k o r) h = refl

module _ (hash_fn : Text → ℕ) where
  unfoldable pub run_changes : List Change → IndexTree → Outcome IndexTree
  run_changes [] t = returns t
  run_changes (adding r ∷ cs) t = add_to_tree hash_fn r t >>= run_changes cs
  run_changes (taking key ∷ cs) t = remove key t >>= λ x. run_changes cs x.0

  add_to_tree-grown :
      (r : DbRecord) (t : IndexTree)
      → IsStored r
      → is_blank_root t.root ≡ true
      → add_to_tree hash_fn r t ≡ returns (grown hash_fn r t)
  unfolding add_to_tree grown listed
  add_to_tree-grown r t s b = rw (to_string-sized r s.sized) (
      add_node-grown hash_fn (record r { data_copy = some r.bytes }) t
        (record { sized = record { size_lem = s.sized.size_lem }; stored = s.stored })
        (root-blank t.root b))

  grown-IsCounted :
      (garbage : ℕ) (r : DbRecord) (t : IndexTree)
      → IsCounted garbage t
      → IsCounted garbage (grown hash_fn r t)
  unfolding grown
  grown-IsCounted garbage r t i = record {
    ordered = insert_below-IsOrdered t.root (listed hash_fn r).0 (listed hash_fn r).1 i.ordered;
    blank = blank-insert_below t.root (listed hash_fn r).0 (listed hash_fn r).1 i.blank;
    counted = omega (
      arith,
      i.counted,
      i.small,
      size-insert_below t.root (listed hash_fn r).0 (listed hash_fn r).1,
    );
    small = omega arith;
  }

  -- Whatever records of the right size that have an offset are added to a counted index, and whatever
  -- keys other than -1 are taken out of it: every call returns, the tree stays ordered below the node
  -- that the constructor made, and the number of the nodes keeps to the size of the tree, up to what
  -- the memory held before and with the wrap-around at 64 bits.
  pub run_changes-IsCounted :
      (garbage : ℕ) (cs : List Change) (t : IndexTree)
      → All IsAllowed cs
      → IsCounted garbage t
      → (last : IndexTree) × (run_changes cs t ≡ returns last) × IsCounted garbage last
  unfolding run_changes
  run_changes-IsCounted garbage [] t a i = (t, refl, i)
  run_changes-IsCounted garbage (adding r ∷ cs) t (s, a) i =
      let (last, run, counted) =
        run_changes-IsCounted garbage cs (grown hash_fn r t) a (grown-IsCounted garbage r t i) in
      (last, rw (add_to_tree-grown r t s i.blank) run, counted)
  run_changes-IsCounted garbage (taking key ∷ cs) t (n, a) i =
      let (last, run, counted) =
        run_changes-IsCounted garbage cs (removed_from key t) a
          (removed_from-IsCounted garbage key t n i) in
      (last, rw (remove-removed_from key t i.ordered) run, counted)
