-- ===== src/Collection/Appending.antt =====
-- PicoDB/pico/pico_collection.h: what is read again from a file that was appended to.
use mathlib.Core.Path.{subst}
use pico_db.Prelude.{
  ℕ, zero, suc, ◌+◌, ◌≤◌, ◌<◌, ◌≡◌, refl, true, List, [], ◌∷◌, All, some, Outcome, returns, ◌>>=◌,
  pos, arith, length, ltb, ◌∙◌, ==-self, ==-ne,
}
use pico_db.Counters.{get_end_of_file_offset, set_end_of_file_offset}
use pico_db.DbBlock.{Layout, RecordInDatabase}
use pico_db.DbBlock.Roundtrip.{
  IsLayout, kept, block_of, save_record-block_of, restore_record-kept, length-kept,
}
use pico_db.DbRecord.{DbRecord, IsSized, new_db_record, copied, copy_over}
use pico_db.DbRecord.Key.{to_string-sized}
use pico_db.Collection.{
  DbFile, Collection, get_initial_offset, write_block, append_a_record, append, retrieve, read_from,
}

module _ (block_size : ℕ) where
  -- How many bytes records take.
  unfoldable pub span : List DbRecord → ℕ
  span [] = 0
  span (r ∷ rs) = block_size + span rs

module _ (l : Layout) (block_size : ℕ) where
  -- The records that are read again, with what was saved of their data, and their offsets.
  unfoldable pub stored : List DbRecord → ℕ → List DbRecord
  stored [] e = []
  stored (r ∷ rs) e =
      record new_db_record { bytes = kept l r.bytes; offset_of_record = pos e }
      ∷ stored rs (e + block_size)

module _ (l : Layout) (block_size : ℕ) where
  -- append, for one record after the other
  unfoldable pub append_all :
      List DbRecord → Collection RecordInDatabase → Outcome (Collection RecordInDatabase)
  unfolding append
  append_all [] c = returns c
  append_all (r ∷ rs) c = do (placed, after) ← append l block_size r c; append_all rs after

  -- Where the file of a collection ends.
  abbrev pub EndsAt : Collection RecordInDatabase → ℕ → Type 0
  EndsAt c e = get_end_of_file_offset (get_initial_offset c.file) c.offset_manager ≡ returns (pos e)

  abbrev pub placed_at : ℕ → DbRecord → DbRecord
  placed_at e r = record r { offset_of_record = pos e }

  unfoldable pub written : List DbRecord → ℕ → DbFile RecordInDatabase → DbFile RecordInDatabase
  written [] e f = f
  written (r ∷ rs) e f =
      written rs (e + block_size) (write_block block_size e (block_of l r.bytes) f)

  append-written :
      IsLayout l
      → (r : DbRecord) (c : Collection RecordInDatabase) (e : ℕ) → IsSized r
      → EndsAt c e
      → append l block_size r c
        ≡ returns (
          placed_at e r,
          record c {
            file = write_block block_size e (block_of l r.bytes) c.file;
            offset_manager = record { offset = pos (e + block_size) };
          },
        )
  unfolding append append_a_record set_end_of_file_offset
  append-written fits r c e s h = rw (h, save_record-block_of l fits r.bytes s.size_lem) refl

  pub append_all-written :
      IsLayout l
      → (rs : List DbRecord) (c : Collection RecordInDatabase) (e : ℕ) → All IsSized rs
      → EndsAt c e
      → (c' : Collection RecordInDatabase) × (append_all rs c ≡ returns c')
        × (c'.file ≡ written rs e c.file)
        × EndsAt c' (e + span block_size rs)
  unfolding append_all written span
  append_all-written fits [] c e a h = (c, refl, refl, subst (λ n. EndsAt c n) (omega arith) h)
  append_all-written fits (r ∷ rs) c e (s, a) h =
      let after = record c {
        file = write_block block_size e (block_of l r.bytes) c.file;
        offset_manager = record { offset = pos (e + block_size) };
      } in
      let moved : EndsAt after (e + block_size) = unfold get_end_of_file_offset in refl in
      let (c', run, file, ends) = append_all-written fits rs after (e + block_size) a moved in
      (
        c',
        (rw (append-written fits r c e s h) run),
        file,
        subst (λ n. EndsAt c' n) (omega arith) ends,
      )

  -- Writing leaves what lies before it.
  blocks-written :
      (rs : List DbRecord) (e at : ℕ) (f : DbFile RecordInDatabase)
      → at < e
      → (written rs e f).blocks at ≡ f.blocks at
  unfolding written write_block
  blocks-written [] e at f h = refl
  blocks-written (r ∷ rs) e at f h =
      blocks-written rs (e + block_size) at (write_block block_size e (block_of l r.bytes) f)
        (omega arith)
      ∙ (rw (==-ne at e (omega arith)) refl)

  -- The blocks of the records stand one behind the other.
  abbrev pub Laid : List DbRecord → ℕ → DbFile RecordInDatabase → Type 0
  Laid [] e f = Unit
  Laid (r ∷ rs) e f = (f.blocks e ≡ some (block_of l r.bytes)) × Laid rs (e + block_size) f

  module _ (positive : 0 < block_size) where
    pub Laid-written :
        (rs : List DbRecord) (e : ℕ) (f : DbFile RecordInDatabase) → Laid rs e (written rs e f)
    unfolding written
    Laid-written [] e f = tt
    Laid-written (r ∷ rs) e f =
        let next = write_block block_size e (block_of l r.bytes) f in
        let here : next.blocks e ≡ some (block_of l r.bytes) =
          unfold write_block in rw (==-self e) refl in
        (
          blocks-written rs (e + block_size) e next (omega arith) ∙ here,
          Laid-written rs (e + block_size) next,
        )

    pub length-span : (rs : List DbRecord) → length rs ≤ span block_size rs
    unfolding span
    length-span [] = omega arith
    length-span (r ∷ rs) = omega (arith, length-span rs)

    module _ (fits : IsLayout l) where
      pub read_from-stored :
          (rs : List DbRecord) (rounds e : ℕ) (f : DbFile RecordInDatabase)
          → Laid rs e f
          → All IsSized rs
          → length rs ≤ rounds
          → read_from l rounds block_size (e + span block_size rs) e f
            ≡ returns (stored l block_size rs e)
      unfolding read_from span stored copied copy_over
      read_from-stored [] zero e f laid a h = ground arith
      read_from-stored [] (suc rounds) e f laid a h = ground arith
      read_from-stored (r ∷ rs) zero e f laid a h = absurd (omega (arith, h))
      read_from-stored (r ∷ rs) (suc rounds) e f (here, laid) (s, a) h =
          let inside : ltb e (e + (block_size + span block_size rs)) ≡ true =
            ground (arith, positive) in
          let got : retrieve l e f ≡ returns (record new_db_record { bytes = kept l r.bytes }) =
            unfold retrieve in rw (here, restore_record-kept l fits r.bytes s.size_lem) refl in
          let rest : read_from l rounds block_size (e + (block_size + span block_size rs))
                (e + block_size) f
              ≡ returns (stored l block_size rs (e + block_size)) =
            subst
              (λ n.
                read_from l rounds block_size n (e + block_size) f
                ≡ returns (stored l block_size rs (e + block_size)))
              (omega arith)
              (read_from-stored rs rounds (e + block_size) f laid a (omega (arith, h))) in
          rw
            (
              read_from,
              span,
              inside,
              got,
              to_string-sized
                  (record new_db_record { bytes = kept l r.bytes; offset_of_record = pos e })
                  (record { size_lem = length-kept l r.bytes s.size_lem }),
              rest,
            )
            refl
