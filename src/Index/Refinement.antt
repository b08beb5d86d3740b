-- ===== src/Index/Refinement.antt =====
-- PicoDB/pico/pico_index.h: the tree stands for the ordered sequence of its keys.
use pico_db.Prelude.{
  ◌+◌, ◌≤◌, ◌<◌, ◌≡◌, refl, Bool, false, not, ◌||◌, List, [], ◌∷◌, ◌++◌, All, Outcome, returns,
  undefined, aborts, throws, waits, Bool-cases, inl, inr, ◌>>=◌, ◌>>◌, require, ℤ, arith,
  if◌then◌else◌, is_empty, ap, sym, ◌∙◌,
}
use mathlib.Core.Path.{subst}
use pico_db.Index.{
  Tree, null, node, is_null, search, IndexTree, insert, insert_below, remove, counted_down,
}
use pico_db.Index.Keys.{above, below, same}
use pico_db.Index.Order.{IsOrdered, insert_below-IsOrdered}
use pico_db.Index.Delete.{erase, is_found, remove_node-erase, erase-IsOrdered}
use pico_db.Index.Sequence.{
  keys, place, remove_first, Other, others-Before, others-after, keys-erase, keys-insert_below,
}

pub data Operation : Type 0 where
  inserting : ℤ → ℤ → Operation
  removing : ℤ → Operation
  searching : ℤ → Operation

-- The answers of a run of operations on the tree, and the tree after them.
unfoldable pub run_index : List Operation → IndexTree → Outcome (List Bool × IndexTree)
unfolding insert remove
run_index [] t = returns ([], t)
run_index (inserting key offset ∷ os) t = insert key offset t >>= run_index os
run_index (removing key ∷ os) t = do
  (after, removed) ← remove key t
  (answers, last) ← run_index os after
  returns (removed ∷ answers, last)
run_index (searching key ∷ os) t = do
  (answers, last) ← run_index os t
  returns (is_found key t.root ∷ answers, last)

unfoldable pub contains : ℤ → List ℤ → Bool
contains key [] = false
contains key (x ∷ xs) = same key x || contains key xs

-- The same on a sequence of keys, which must not be empty where a key is put in.
unfoldable pub run_sequence : List Operation → List ℤ → Outcome (List Bool × List ℤ)
run_sequence [] xs = returns ([], xs)
run_sequence (inserting key offset ∷ os) xs = do
  require (not (is_empty xs))
  run_sequence os (place key xs)
run_sequence (removing key ∷ os) xs = do
  (answers, last) ← run_sequence os (remove_first key xs)
  returns (contains key xs ∷ answers, last)
run_sequence (searching key ∷ os) xs = do
  (answers, last) ← run_sequence os xs
  returns (contains key xs ∷ answers, last)

contains-append :
    (key : ℤ) (xs ys : List ℤ) → contains key (xs ++ ys) ≡ (contains key xs || contains key ys)
unfolding contains
contains-append key [] ys = refl
contains-append key (x ∷ xs) ys = ground (arith, contains-append key xs ys)

contains-none : (key : ℤ) (xs : List ℤ) → All (Other key) xs → contains key xs ≡ false
unfolding contains
contains-none key [] a = refl
contains-none key (x ∷ xs) (h, a) = rw (h, contains-none key xs a) refl

-- A search in an ordered tree finds exactly the keys that stand in it.
pub search-contains : (t : Tree) (key : ℤ) → IsOrdered t → is_found key t ≡ contains key (keys t)
unfolding search keys
search-contains null key s = unfold contains in refl
search-contains (node l k o r) key s =
    let split : contains key (keys l ++ (k ∷ keys r))
        ≡ (contains key (keys l) || (same key k || contains key (keys r))) =
      contains-append key (keys l) (k ∷ keys r) ∙ (unfold contains in refl) in
    ground (
      arith,
      split,
      search-contains l key s.2,
      search-contains r key s.3,
      λ (lt : above key + below k < above k + below key).
          contains-none key (keys r) (others-after r k key s.1 lt),
      λ (le : above k + below key ≤ above key + below k).
          contains-none key (keys l) (others-Before l k key s.0 le),
    )

is_empty-before : (xs ys : List ℤ) → is_empty xs ≡ false → is_empty (xs ++ ys) ≡ false
is_empty-before [] ys h = cc
is_empty-before (x ∷ xs) ys h = refl

is_empty-keys : (t : Tree) → is_empty (keys t) ≡ is_null t
unfolding keys
is_empty-keys null = refl
is_empty-keys (node null k o r) = refl
is_empty-keys (node (node ll lk lo lr) k o r) = ground (
  arith,
  is_empty-keys (node ll lk lo lr),
  is_empty-before (keys ll ++ (lk ∷ keys lr)) (k ∷ keys r),
)

-- What `remove` leaves of an ordered tree.
unfoldable pub removed_from : ℤ → IndexTree → IndexTree
unfolding counted_down
removed_from key t =
    let taken = record t { root = erase key t.root } in
    if is_found key t.root then counted_down taken else taken

pub remove-removed_from :
    (key : ℤ) (t : IndexTree)
    → IsOrdered t.root
    → remove key t ≡ returns (removed_from key t, is_found key t.root)
unfolding remove removed_from
remove-removed_from key t s = rw (remove_node-erase t.root key s) refl

pub root-removed_from : (key : ℤ) (t : IndexTree) → (removed_from key t).root ≡ erase key t.root
unfolding removed_from
root-removed_from key t = ground arith

-- What is seen of a run: the answers and the keys.
seen : List Bool × IndexTree → Outcome (List Bool × List ℤ)
seen x = returns (x.0, keys x.1.root)

abbrev answered {ℓ} : {A : Type ℓ} → Bool → List Bool × A → Outcome (List Bool × A)
answered b x = returns (b ∷ x.0, x.1)

seen-answered :
    (b : Bool) (o : Outcome (List Bool × IndexTree))
    → (o >>= answered b >>= seen) ≡ (o >>= seen >>= answered b)
unfolding seen
seen-answered b (returns x) = refl
seen-answered b aborts = refl
seen-answered b throws = refl
seen-answered b undefined = refl
seen-answered b waits = refl

run_index-seen :
    (os : List Operation) (t : IndexTree)
    → IsOrdered t.root
    → (run_index os t >>= seen) ≡ run_sequence os (keys t.root)
unfolding run_index run_sequence
run_index-seen [] t s = unfold seen in refl
run_index-seen (inserting key offset ∷ os) t s = elim (Bool-cases (is_null t.root)) [
  | inl e ↦ rw (is_empty-keys t.root, e) (unfold insert in refl)
  | inr e ↦
      let after = record t { root = insert_below key offset t.root } in
      rw (is_empty-keys t.root, e)
        (run_index-seen os after (insert_below-IsOrdered t.root key offset s)
          ∙ ap (run_sequence os) (keys-insert_below t.root key offset s))
]
run_index-seen (removing key ∷ os) t s =
    let after = removed_from key t in
    let ordered : IsOrdered after.root =
      subst (λ u. IsOrdered u) (sym (root-removed_from key t)) (erase-IsOrdered t.root key s) in
    let left : keys after.root ≡ remove_first key (keys t.root) =
      ap keys (root-removed_from key t) ∙ keys-erase t.root key s in
    rw (remove-removed_from key t s) (
      seen-answered (is_found key t.root) (run_index os after)
      ∙ ap (λ o. o >>= answered (is_found key t.root))
          (run_index-seen os after ordered ∙ ap (run_sequence os) left)
      ∙ ap (λ b. run_sequence os (remove_first key (keys t.root)) >>= answered b)
          (search-contains t.root key s))
run_index-seen (searching key ∷ os) t s =
    seen-answered (is_found key t.root) (run_index os t)
    ∙ ap (λ o. o >>= answered (is_found key t.root)) (run_index-seen os t s)
    ∙ ap (λ b. run_sequence os (keys t.root) >>= answered b) (search-contains t.root key s)

-- Whatever is inserted into an ordered tree, removed from it and searched for in it: each call answers
-- what it answers on the ordered sequence of the keys, where an insertion places a key behind those
-- that are not greater, and a removal takes the first occurrence out. The keys that are left are that
-- sequence, too. A run is undefined exactly if a key is inserted when the sequence is empty, since
-- the tree has then no root.
pub run_index-run_sequence :
    (os : List Operation) (t : IndexTree)
    → IsOrdered t.root
    → (run_index os t >>= λ x. returns (x.0, keys x.1.root)) ≡ run_sequence os (keys t.root)
run_index-run_sequence os t s = unfold seen in run_index-seen os t s
