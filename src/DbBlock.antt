-- ===== src/DbBlock.antt =====
-- What a record of the database file is on the disk: `struct recordInDatabase` of
-- PicoDB/pico/pico_collection.h, and the loops that copy the parts of a record into it and back.
pub mod Roundtrip
use pico_db.Prelude.{
  ℕ, zero, suc, ◌+◌, ◌-◌, ◌≤◌, ◌<◌, ◌≡◌, refl, ap, sym, ◌∙◌, Bool, true, false, ◌&&◌, ◌||◌, List,
  [], ◌∷◌, Option, none, some, Outcome, returns, undefined, ◌>>=◌, arith, length, get_elem?,
  replicate, length-replicate, leb, ltb, ◌==◌, ==-self, ==-ne, if◌then◌else◌, Bool-cases, inl, inr,
}
use pico_db.Record.{defined}
use pico_db.DbRecord.{max_size}

-- The constants that the loops take from `DBRecord`, which does not declare them any more.
pub record Layout : Type 0 where
  pub beg_key_type_index : ℕ
  pub end_key_type_index : ℕ
  pub max_key_type_size : ℕ
  pub beg_of_key_index : ℕ
  pub end_of_key_index : ℕ
  pub beg_of_value_index : ℕ
  pub end_of_value_index : ℕ

-- The bytes of each holder that were set, from its first one on; what is behind them is indeterminate.
pub record RecordInDatabase : Type 0 where
  pub type_holder : List ℕ
  pub key_holder : List ℕ
  pub value_holder : List ℕ

-- `holder[i - beg] = record.data_[i]`, for so many rounds from an index on
save_loop : ℕ → ℕ → List ℕ → Outcome (List ℕ)
save_loop zero i bytes = returns []
save_loop (suc rounds) i bytes = do
  c ← defined (get_elem? bytes i)
  rest ← save_loop rounds (suc i) bytes
  returns (c ∷ rest)

-- data_[i] = c
abbrev pub assigned : ℕ → ℕ → List ℕ → List ℕ
assigned i c [] = []
assigned zero c (x ∷ xs) = c ∷ xs
assigned (suc i) c (x ∷ xs) = x ∷ assigned i c xs

-- `data_[i] = holder[i - beg]`, for so many rounds from an index on
restore_loop : ℕ → ℕ → List ℕ → List ℕ → Outcome (List ℕ)
restore_loop zero i holder bytes = returns bytes
restore_loop (suc rounds) i [] bytes = undefined
restore_loop (suc rounds) i (c ∷ holder) bytes =
    let rest = restore_loop rounds (suc i) holder (assigned i c bytes) in
    if ltb i (length bytes) then rest else undefined

module _ (l : Layout) where
  -- The loops of append_a_record. The first one ends at the size of the key type.
  pub save_record : List ℕ → Outcome RecordInDatabase
  unfolding save_loop
  save_record bytes = do
    key_type ← save_loop (l.max_key_type_size - l.beg_key_type_index) l.beg_key_type_index bytes
    key ← save_loop (l.end_of_key_index - l.beg_of_key_index) l.beg_of_key_index bytes
    value ← save_loop (l.end_of_value_index - l.beg_of_value_index) l.beg_of_value_index bytes
    returns (record { type_holder = key_type; key_holder = key; value_holder = value })

  -- The loops of retrieve, on the data of a new record.
  pub restore_record : RecordInDatabase → List ℕ → Outcome (List ℕ)
  unfolding restore_loop
  restore_record b bytes = do
    typed ←
        restore_loop (l.end_key_type_index - l.beg_key_type_index) l.beg_key_type_index
          b.type_holder bytes
    keyed ←
        restore_loop (l.end_of_key_index - l.beg_of_key_index) l.beg_of_key_index b.key_holder typed
    restore_loop (l.end_of_value_index - l.beg_of_value_index) l.beg_of_value_index b.value_holder
        keyed
