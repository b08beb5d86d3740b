-- ===== src/Index/Lookup.antt =====
-- PicoDB/pico/pico_index.h: the tree that is built of records is a table of their keys.
use pico_db.Prelude.{
  ℕ, ◌+◌, ◌%◌, ◌<◌, ◌≡◌, refl, Bool, true, false, List, [], ◌∷◌, All, Option, none, some, returns,
  ℤ, Text, arith, if◌then◌else◌, length, take, is_empty, inl, inr, le→leb, length-take, ap, ◌∙◌,
}
use pico_db.Counters.{is_natural, long_mod}
use pico_db.DbRecord.{DbRecord, IsSized, get_key_as_string}
use pico_db.DbRecord.Key.{Text-cases, not_empty}
use pico_db.Index.{
  Tree, null, node, is_null, search, size, IndexTree, insert, insert_below, counted_up,
}
use pico_db.Index.Keys.{same, to_long}
use pico_db.Index.Order.{IsOrdered, insert_below-IsOrdered, size-insert_below}
use pico_db.Index.Find.{entry, or_else, search-insert_below}
use pico_db.Index.Build.{convert_pico_record_to_index_node, add_node, build_tree}

-- The records that build_tree takes: of the size of the array, with an offset.
pub record IsStored (r : DbRecord) : Type 0 where
  pub sized : IsSized r
  pub stored : is_natural r.offset_of_record ≡ true

-- The text that getKeyAsString gives of such a record.
abbrev pub key_text : DbRecord → Text
key_text r = if is_empty r.key then take 32 r.bytes else r.key

-- The first entry of a key.
unfoldable pub first : ℤ → List (ℤ × ℤ) → Option (ℤ × ℤ)
first q [] = none
first q ((k, o) ∷ es) = let rest = first q es in if same q k then some (k, o) else rest

pub front-not_empty : (r : DbRecord) → IsSized r → is_empty (take 32 r.bytes) ≡ false
front-not_empty r s =
    not_empty (take 32 r.bytes) (omega (arith, length-take 32 r.bytes, s.size_lem))

is_null-insert_below : (key offset : ℤ) (t : Tree) → is_null (insert_below key offset t) ≡ false
unfolding insert_below
is_null-insert_below key offset null = refl
is_null-insert_below key offset (node l k o r) = ground arith

or_else_assoc : (a b c : Option (ℤ × ℤ)) → or_else (or_else a b) c ≡ or_else a (or_else b c)
or_else_assoc none b c = refl
or_else_assoc (some x) b c = refl

none-right : (a : Option (ℤ × ℤ)) → a ≡ or_else a none
none-right none = refl
none-right (some x) = refl

pub one-or_else :
    (b : Bool) (x : ℤ × ℤ) (c : Option (ℤ × ℤ))
    → or_else (if b then some x else none) c ≡ (if b then some x else c)
one-or_else true x c = refl
one-or_else false x c = refl

module _ (hash_fn : Text → ℕ) where
  -- The key and the offset of a record.
  unfoldable pub listed : DbRecord → ℤ × ℤ
  listed r = (to_long (hash_fn (key_text r)), r.offset_of_record)

  unfoldable pub entries : List DbRecord → List (ℤ × ℤ)
  entries [] = []
  entries (r ∷ rs) = listed r ∷ entries rs

  -- The tree with a record in it.
  unfoldable pub grown : DbRecord → IndexTree → IndexTree
  unfolding counted_up
  grown r t = counted_up (record t { root = insert_below (listed r).0 (listed r).1 t.root })

  unfoldable pub built : List DbRecord → IndexTree → IndexTree
  built [] t = t
  built (r ∷ rs) t = built rs (grown r t)

  pub convert_pico_record_to_index_node-listed :
      (r : DbRecord)
      → IsSized r
      → convert_pico_record_to_index_node hash_fn r
        ≡ returns ((listed r).0, (listed r).1, record r { key = key_text r })
  unfolding convert_pico_record_to_index_node listed get_key_as_string
  convert_pico_record_to_index_node-listed r s = elim (Text-cases r.key) [
    | inl e ↦
        rw (e, le→leb 32 (length r.bytes) (omega (arith, s.size_lem)), front-not_empty r s) refl
    | inr (c, cs, e) ↦ rw e refl
  ]

  pub add_node-grown :
      (r : DbRecord) (t : IndexTree)
      → IsStored r
      → is_null t.root ≡ false
      → add_node hash_fn r t ≡ returns (grown r t)
  unfolding add_node grown insert
  add_node-grown r t s h = rw (s.stored, convert_pico_record_to_index_node-listed r s.sized, h) refl

  pub build_tree-built :
      (rs : List DbRecord) (t : IndexTree)
      → All IsStored rs
      → is_null t.root ≡ false
      → build_tree hash_fn rs t ≡ returns (built rs t)
  unfolding build_tree built
  build_tree-built [] t a h = refl
  build_tree-built (r ∷ rs) t (s, a) h = rw (add_node-grown r t s h) (
      build_tree-built rs (grown r t) a
        (unfold grown in is_null-insert_below (listed r).0 (listed r).1 t.root))

  search-grown :
      (r : DbRecord) (t : IndexTree) (q : ℤ)
      → entry (search q (grown r t).root)
        ≡ or_else (entry (search q t.root)) (if same q (listed r).0 then some (listed r) else none)
  unfolding grown
  search-grown r t q = search-insert_below t.root (listed r).0 (listed r).1 q

  size-grown : (r : DbRecord) (t : IndexTree) → size (grown r t).root ≡ size t.root + 1
  unfolding grown
  size-grown r t = size-insert_below t.root (listed r).0 (listed r).1

  pub search-built :
      (rs : List DbRecord) (t : IndexTree) (q : ℤ)
      → entry (search q (built rs t).root)
        ≡ or_else (entry (search q t.root)) (first q (entries rs))
  unfolding built entries first
  search-built [] t q = none-right (entry (search q t.root))
  search-built (r ∷ rs) t q =
      search-built rs (grown r t) q
      ∙ ap (λ a. or_else a (first q (entries rs))) (search-grown r t q)
      ∙ or_else_assoc (entry (search q t.root))
          (if same q (listed r).0 then some (listed r) else none) (first q (entries rs))
      ∙ ap (or_else (entry (search q t.root)))
          (one-or_else (same q (listed r).0) (listed r) (first q (entries rs)))

  pub size-built :
      (rs : List DbRecord) (t : IndexTree) → size (built rs t).root ≡ size t.root + length rs
  unfolding built
  size-built [] t = omega arith
  size-built (r ∷ rs) t = omega (arith, size-built rs (grown r t), size-grown r t)

  pub built-IsOrdered :
      (rs : List DbRecord) (t : IndexTree) → IsOrdered t.root → IsOrdered (built rs t).root
  unfolding built
  built-IsOrdered [] t s = s
  built-IsOrdered (r ∷ rs) t s =
      built-IsOrdered rs (grown r t)
        (unfold grown in insert_below-IsOrdered t.root (listed r).0 (listed r).1 s)

  pub number-built :
      (rs : List DbRecord) (t : IndexTree)
      → t.number_of_nodes < long_mod
      → (built rs t).number_of_nodes ≡ (t.number_of_nodes + length rs) % long_mod
  unfolding built
  number-built [] t h = omega (arith, h)
  number-built (r ∷ rs) t h =
      let up : (grown r t).number_of_nodes ≡ (t.number_of_nodes + 1) % long_mod =
        unfold grown in refl in
      omega (arith, up, number-built rs (grown r t) (omega (arith, up)))
