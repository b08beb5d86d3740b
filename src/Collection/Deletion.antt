-- ===== src/Collection/Deletion.antt =====
-- PicoDB/pico/pico_collection.h: deleteRecord, and the offsets that the collection gives after it.
use pico_db.Prelude.{
  ℕ, ◌≡◌, refl, Bool, true, false, not, ◌&&◌, [], ◌∷◌, ◌++◌, Option, none, some, returns, ◌>>=◌, ℤ,
  negsuc, Text, if◌then◌else◌, ap, ◌∙◌, sym, inl, inr,
}
use pico_db.DbRecord.{DbRecord, IsSized}
use pico_db.DbRecord.Key.{Text-cases}
use pico_db.Index.{Tree, null, node, is_null, min_key, search, IndexTree}
use pico_db.Index.Keys.{same, to_long}
use pico_db.Index.Order.{IsOrdered}
use pico_db.Index.Find.{entry}
use pico_db.Index.Build.{convert_pico_record_to_index_node, search_record, offset_or_minus_one}
use pico_db.Index.Delete.{erase}
use pico_db.Index.Offsets.{search-erase, search-erase_kept, moves_up}
use pico_db.Index.Refinement.{removed_from, remove-removed_from, root-removed_from}
use pico_db.Index.Lookup.{
  key_text, listed, convert_pico_record_to_index_node-listed, front-not_empty,
}
use pico_db.Collection.{Collection, get_offset_of_this_record, if_record_exists, delete_record}

abbrev offset_of_entry : Option (ℤ × ℤ) → ℤ
offset_of_entry none = negsuc 0
offset_of_entry (some x) = x.1

offset-entry : (t : Tree) → offset_or_minus_one t ≡ offset_of_entry (entry t)
offset-entry null = refl
offset-entry (node l k o r) = refl

-- The key of a record that was read is read again.
key_text-read :
    (r : DbRecord) (o : ℤ)
    → IsSized r
    → key_text (record r { key = key_text r; offset_of_record = o }) ≡ key_text r
key_text-read r o s = elim (Text-cases r.key) [
  | inl e ↦ rw e (rw (front-not_empty r s) refl)
  | inr (c, cs, e) ↦ rw e refl
]

module _ (hash_fn : Text → ℕ) where
  search_record-found :
      (r : DbRecord) (t : IndexTree)
      → IsSized r
      → search_record hash_fn r t
        ≡ returns (
          search (listed hash_fn r).0 t.root,
          record r {
            key = key_text r;
            offset_of_record = offset_or_minus_one (search (listed hash_fn r).0 t.root);
          },
        )
  unfolding search_record
  search_record-found r t s = rw (convert_pico_record_to_index_node-listed hash_fn r s) refl

  convert-read :
      (r : DbRecord) (o : ℤ)
      → IsSized r
      → convert_pico_record_to_index_node hash_fn
          (record r { key = key_text r; offset_of_record = o })
        ≡ returns ((listed hash_fn r).0, o, record r { key = key_text r; offset_of_record = o })
  unfolding listed
  convert-read r o s =
      let read = record r { key = key_text r; offset_of_record = o } in
      let same_key : key_text read ≡ key_text r = key_text-read r o s in
      convert_pico_record_to_index_node-listed hash_fn read (record { size_lem = s.size_lem })
      ∙ ap (λ (t : Text). returns (to_long (hash_fn t), o, record read { key = t })) same_key

module _ {ℓ} {Block : Type ℓ} (hash_fn : Text → ℕ) where
  -- The place of a record in the index.
  abbrev pub place_of : DbRecord → Collection Block → Tree
  place_of r c = search (listed hash_fn r).0 c.index.root

  pub get_offset-place :
      (r : DbRecord) (c : Collection Block)
      → IsSized r
      → get_offset_of_this_record hash_fn r c ≡ returns (offset_or_minus_one (place_of r c))
  unfolding get_offset_of_this_record
  get_offset-place r c s = rw (search_record-found hash_fn r c.index s) refl

  pub if_record_exists-place :
      (r : DbRecord) (c : Collection Block)
      → IsSized r
      → if_record_exists hash_fn r c ≡ returns (not (is_null (place_of r c)))
  unfolding if_record_exists
  if_record_exists-place r c s = rw (search_record-found hash_fn r c.index s) refl

  -- The record that deleteRecord gives, and the collection that it leaves.
  abbrev pub deleted : DbRecord → Collection Block → DbRecord
  deleted r c = record r { key = key_text r; offset_of_record = offset_or_minus_one (place_of r c) }

  abbrev pub without : Bool → DbRecord → Collection Block → Collection Block
  without async r c = record c {
    index = removed_from (listed hash_fn r).0 c.index;
    delete_tasks = if async then c.delete_tasks ++ (deleted r c ∷ []) else c.delete_tasks;
  }

  pub delete_record-without :
      (async : Bool) (r : DbRecord) (c : Collection Block)
      → IsSized r
      → IsOrdered c.index.root
      → delete_record hash_fn async r c ≡ returns (deleted r c, without async r c)
  unfolding delete_record
  delete_record-without async r c s o =
      rw
        (
          search_record-found hash_fn r c.index s,
          convert-read hash_fn r (offset_or_minus_one (place_of r c)) s,
          remove-removed_from (listed hash_fn r).0 c.index o,
        )
        refl

  -- The place of another record afterwards.
  place-without :
      (async : Bool) (r q : DbRecord) (c : Collection Block)
      → place_of q (without async r c)
        ≡ search (listed hash_fn q).0 (erase (listed hash_fn r).0 c.index.root)
  place-without async r q c =
      ap (search (listed hash_fn q).0) (root-removed_from (listed hash_fn r).0 c.index)

  -- Deleting a record from an ordered index leaves the offset that the collection gives for another
  -- one, whose key has another hash, unless that hash moves up to the place of the record: it is the
  -- least on the right of a node with two subtrees.
  pub delete_record-kept :
      (async : Bool) (r q : DbRecord) (c : Collection Block)
      → IsSized r
      → IsSized q
      → IsOrdered c.index.root
      → same (listed hash_fn q).0 (listed hash_fn r).0 ≡ false
      → moves_up (place_of r c) (listed hash_fn q).0 ≡ false
      → (delete_record hash_fn async r c >>= λ x. get_offset_of_this_record hash_fn q x.1)
        ≡ get_offset_of_this_record hash_fn q c
  delete_record-kept async r q c sr sq o n m =
      let kept = search-erase_kept c.index.root (listed hash_fn r).0 (listed hash_fn q).0 o n m in
      rw
        (
          delete_record-without async r c sr o,
          get_offset-place q (without async r c) sq,
          get_offset-place q c sq,
          place-without async r q c,
        )
        (ap (λ (x : ℤ). returns x)
          (offset-entry (search (listed hash_fn q).0 (erase (listed hash_fn r).0 c.index.root))
            ∙ ap offset_of_entry kept
            ∙ sym (offset-entry (place_of q c))))

  -- If a record that is deleted from an ordered index stands at a node with two subtrees, the
  -- collection then gives its offset for a record whose key has the least hash on the right of the
  -- node: `deleteNode` moves that key up and leaves the offset.
  pub delete_record-misleads :
      (async : Bool) (r q : DbRecord) (c : Collection Block) {left right : Tree} {k o : ℤ}
      → IsSized r
      → IsSized q
      → IsOrdered c.index.root
      → place_of r c ≡ node left k o right
      → (not (is_null left) && not (is_null right)) ≡ true
      → (listed hash_fn q).0 ≡ min_key right k
      → (delete_record hash_fn async r c >>= λ x. get_offset_of_this_record hash_fn q x.1)
        ≡ get_offset_of_this_record hash_fn r c
  delete_record-misleads async r q c {right} {k} sr sq ord e b h =
      let moved = search-erase c.index.root (listed hash_fn r).0 ord e b in
      rw
        (
          delete_record-without async r c sr ord,
          get_offset-place q (without async r c) sq,
          get_offset-place r c sr,
          place-without async r q c,
        )
        (ap (λ (x : ℤ). returns x)
          (offset-entry (search (listed hash_fn q).0 (erase (listed hash_fn r).0 c.index.root))
            ∙ ap (λ m. offset_of_entry (entry (search m (erase (listed hash_fn r).0 c.index.root))))
                h
            ∙ ap offset_of_entry moved
            ∙ sym (ap offset_or_minus_one e)))
