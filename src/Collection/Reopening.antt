-- ===== src/Collection/Reopening.antt =====
-- PicoDB/pico/pico_collection.h: what a collection finds that is opened on a file that was appended
-- to.
use mathlib.Core.Path.{subst}
use pico_db.Prelude.{
  ℕ, suc, ◌+◌, ◌%◌, ◌<◌, ◌≡◌, refl, true, false, List, [], ◌∷◌, All, none, some, returns, ◌>>=◌, ℤ,
  pos, negsuc, Text, arith, if◌then◌else◌, length, take, ◌==◌, ap, ◌∙◌, sym,
}
use pico_db.Counters.{OffsetManager, long_mod}
use pico_db.DbBlock.{Layout, RecordInDatabase}
use pico_db.DbBlock.Roundtrip.{IsLayout, kept, length-kept}
use pico_db.DbRecord.{DbRecord, IsSized}
use pico_db.Index.{is_null, new_index, search, size}
use pico_db.Index.Keys.{same, to_long}
use pico_db.Index.Find.{entry, or_else}
use pico_db.Index.Order.{IsOrdered}
use pico_db.Index.Lookup.{
  first, entries, IsStored, built, build_tree-built, search-built, size-built, built-IsOrdered,
  number-built, one-or_else, listed,
}
use pico_db.Collection.{
  DbFile, Collection, read_from, read_all_messages_records, pico_collection, get_number_of_messages,
}
use pico_db.Collection.Appending.{
  append_all, EndsAt, written, span, stored, append_all-written, Laid-written, length-span,
  read_from-stored,
}

-- The table of the keys as they come back from the file, the first 32 bytes of what was saved, with the offsets of their blocks.
unfoldable pub table : Layout → (Text → ℕ) → ℕ → List DbRecord → ℕ → List (ℤ × ℤ)
table l hash_fn block_size [] e = []
table l hash_fn block_size (r ∷ rs) e =
    (to_long (hash_fn (take 32 (kept l r.bytes))), pos e)
    ∷ table l hash_fn block_size rs (e + block_size)

entries-stored :
    (l : Layout) (hash_fn : Text → ℕ) (block_size : ℕ) (rs : List DbRecord) (e : ℕ)
    → entries hash_fn (stored l block_size rs e) ≡ table l hash_fn block_size rs e
unfolding entries stored table listed
entries-stored l hash_fn block_size [] e = refl
entries-stored l hash_fn block_size (r ∷ rs) e =
    ap (λ (t : List (ℤ × ℤ)). (to_long (hash_fn (take 32 (kept l r.bytes))), pos e) ∷ t)
      (entries-stored l hash_fn block_size rs (e + block_size))

stored-IsStored :
    (l : Layout) (block_size : ℕ) (rs : List DbRecord) (e : ℕ)
    → All IsSized rs
    → All IsStored (stored l block_size rs e)
unfolding stored
stored-IsStored l block_size [] e a = tt
stored-IsStored l block_size (r ∷ rs) e (s, a) = (
  record { sized = record { size_lem = length-kept l r.bytes s.size_lem }; stored = refl },
  stored-IsStored l block_size rs (e + block_size) a,
)

length-stored :
    (l : Layout) (block_size : ℕ) (rs : List DbRecord) (e : ℕ)
    → length (stored l block_size rs e) ≡ length rs
unfolding stored
length-stored l block_size [] e = refl
length-stored l block_size (r ∷ rs) e = ap suc (length-stored l block_size rs (e + block_size))

-- The collection over records that were read.
abbrev opened {ℓ} :
    {Block : Type ℓ}
    → (Text → ℕ)
    → ℕ
    → List DbRecord
    → OffsetManager
    → DbFile Block
    → Collection Block
opened hash_fn garbage rs m f = record {
  index = built hash_fn rs (new_index garbage);
  offset_manager = m;
  file = f;
  delete_tasks = [];
}

-- The assertion on the size of the index holds.
pico_collection-opened :
    (l : Layout) (hash_fn : Text → ℕ) (garbage block_size : ℕ) (m : OffsetManager)
    (f : DbFile RecordInDatabase) (rs : List DbRecord)
    → read_all_messages_records l block_size m f ≡ returns rs
    → All IsStored rs
    → pico_collection l hash_fn garbage block_size m f ≡ returns (opened hash_fn garbage rs m f)
unfolding pico_collection
pico_collection-opened l hash_fn garbage block_size m f rs read a =
    let root : is_null (new_index garbage).root ≡ false = unfold new_index in refl in
    let one : size (new_index garbage).root ≡ 1 = unfold new_index size in refl in
    let sized : (size (built hash_fn rs (new_index garbage)).root == length rs + 1) ≡ true =
      rw (size-built hash_fn rs (new_index garbage), one) (ground arith) in
    rw (read, build_tree-built hash_fn rs (new_index garbage) a root, sized) refl

-- The root is a node of key -1, which stands before all others.
search-new_index :
    (hash_fn : Text → ℕ) (garbage : ℕ) (rs : List DbRecord) (key : ℤ)
    → entry (search key (built hash_fn rs (new_index garbage)).root)
      ≡ (if same key (negsuc 0) then some (negsuc 0, negsuc 0) else first key (entries hash_fn rs))
search-new_index hash_fn garbage rs key =
    let root : entry (search key (new_index garbage).root)
        ≡ (if same key (negsuc 0) then some (negsuc 0, negsuc 0) else none) =
      unfold new_index search in ground arith in
    search-built hash_fn rs (new_index garbage) key
    ∙ ap (λ a. or_else a (first key (entries hash_fn rs))) root
    ∙ one-or_else (same key (negsuc 0)) (negsuc 0, negsuc 0) (first key (entries hash_fn rs))

counted :
    (hash_fn : Text → ℕ) (garbage : ℕ) (rs : List DbRecord)
    → garbage < long_mod
    → (built hash_fn rs (new_index garbage)).number_of_nodes ≡ (garbage + length rs) % long_mod
unfolding new_index
counted hash_fn garbage rs g = number-built hash_fn rs (new_index garbage) g

number-opened {ℓ} :
    {Block : Type ℓ} (hash_fn : Text → ℕ) (garbage : ℕ) (rs : List DbRecord) (m : OffsetManager)
    (f : DbFile Block)
    → garbage < long_mod
    → get_number_of_messages (opened hash_fn garbage rs m f) ≡ (garbage + length rs) % long_mod
unfolding get_number_of_messages
number-opened hash_fn garbage rs m f g = counted hash_fn garbage rs g

read_all-stored :
    (l : Layout) (block_size : ℕ) (rs : List DbRecord) (c : Collection RecordInDatabase)
    → IsLayout l
    → 0 < block_size
    → All IsSized rs
    → EndsAt l block_size c 0
    → (c' : Collection RecordInDatabase) × (append_all l block_size rs c ≡ returns c')
      × (read_all_messages_records l block_size c'.offset_manager c'.file
          ≡ returns (stored l block_size rs 0))
unfolding read_all_messages_records
read_all-stored l block_size rs c fits positive a h =
    let (c', run, file, ends) = append_all-written l block_size fits rs c 0 a h in
    let laid = Laid-written l block_size positive rs 0 c.file in
    let all =
      read_from-stored l block_size positive fits rs (0 + span block_size rs) 0
        (written l block_size rs 0 c.file) laid a
        (omega (arith, length-span l block_size positive rs)) in
    (
      c',
      run,
      rw ends (
          subst
            (λ f.
              read_from l (0 + span block_size rs) block_size (0 + span block_size rs) 0 f
              ≡ returns (stored l block_size rs 0))
            (sym file) all),
    )

-- Records that are appended to an empty collection are found again in a collection that is opened on
-- its file. Of the 81 bytes of a record only the sections of the type, the key and the value come
-- back, and NULs elsewhere; for each hash the collection finds the offset of the first record for
-- which the first thirty-two of the bytes that come back have that hash. Only for the hash that is -1
-- as a long it finds the node of the constructor, with the offset -1. Its index is ordered, and the
-- number of its messages is that of the records, added to what the memory held and with the
-- wrap-around at 64 bits.
-- The records have the right size, a block has at least one byte, the sections lie within the record,
-- and writing and reading agree on where the type ends.
pub append_all-pico_collection :
    (l : Layout) (hash_fn : Text → ℕ) (garbage block_size : ℕ) (rs : List DbRecord)
    (c : Collection RecordInDatabase)
    → IsLayout l
    → 0 < block_size
    → garbage < long_mod
    → All IsSized rs
    → EndsAt l block_size c 0
    → (last : Collection RecordInDatabase) × ((append_all l block_size rs c >>= λ c'.
          pico_collection l hash_fn garbage block_size c'.offset_manager c'.file)
        ≡ returns last)
      × ((key : ℤ)
          → entry (search key last.index.root) ≡ (
              if same key (negsuc 0)
              then some (negsuc 0, negsuc 0)
              else first key (table l hash_fn block_size rs 0)))
      × IsOrdered last.index.root
      × (get_number_of_messages last ≡ (garbage + length rs) % long_mod)
append_all-pico_collection l hash_fn garbage block_size rs c fits positive g a h =
    let (c', run, read) = read_all-stored l block_size rs c fits positive a h in
    let list = stored l block_size rs 0 in
    let last = opened hash_fn garbage list c'.offset_manager c'.file in
    let done =
      pico_collection-opened l hash_fn garbage block_size c'.offset_manager c'.file list read
        (stored-IsStored l block_size rs 0 a) in
    (
      last,
      rw run done,
      λ key.
          search-new_index hash_fn garbage list key
          ∙ ap (λ es. if same key (negsuc 0) then some (negsuc 0, negsuc 0) else first key es)
              (entries-stored l hash_fn block_size rs 0),
      built-IsOrdered hash_fn list (new_index garbage) (unfold new_index in (tt, tt, tt, tt)),
      number-opened hash_fn garbage list c'.offset_manager c'.file g
          ∙ ap (λ n. (garbage + n) % long_mod) (length-stored l block_size rs 0),
    )
