-- ===== src/DbRecord.antt =====
-- PicoDB/pico/DBRecord.h: the record of the database file, with its key in the first bytes.
pub mod Key
use pico_db.Prelude.{
  ℕ, zero, suc, ◌≡◌, Bool, true, false, not, ◌&&◌, List, [], ◌∷◌, ◌++◌, Option, none, some, Outcome,
  returns, undefined, ◌>>=◌, ◌>>◌, assert, ℤ, negsuc, Text, codes, text_eq, is_empty, length, take,
  drop, replicate, ◌==◌, if◌then◌else◌,
}
use pico_db.Record.{read_block}

abbrev pub max_key_size : ℕ
max_key_size = 32

abbrev pub end_of_ending_offset_of_value_index : ℕ
end_of_ending_offset_of_value_index = 80

abbrev pub max_size : ℕ
max_size = 81

-- `bytes` is `data_`; `key` and `value` are the texts once they are read; `data_copy` is
-- indeterminate until it is written.
pub record DbRecord : Type 0 where
  pub bytes : List ℕ
  pub data_copy : Option (List ℕ)
  pub offset_of_record : ℤ
  pub key : Text
  pub value : Text

-- The length of the array.
pub record IsSized (r : DbRecord) : Type 0 where
  pub size_lem : length r.bytes ≡ 81

-- DBRecord()
abbrev pub new_db_record : DbRecord
new_db_record = record {
  bytes = replicate max_size 0;
  data_copy = none;
  offset_of_record = negsuc 0;
  key = [];
  value = [];
}

-- the loop of isRecordEmpty
abbrev all_nul : List ℕ → Bool
all_nul [] = true
all_nul (c ∷ cs) = (c == 0) && all_nul cs

is_record_empty : DbRecord → Bool
is_record_empty r = all_nul (take end_of_ending_offset_of_value_index r.bytes)

-- copyOver, and the two assignments: `key` and `value` stay as they are.
unfoldable pub copy_over : DbRecord → DbRecord → DbRecord
copy_over buffer self = record self {
  bytes = buffer.bytes;
  offset_of_record = buffer.offset_of_record;
}

-- DBRecord(const DBRecord&)
unfoldable pub copied : DbRecord → DbRecord
unfolding copy_over
copied buffer = copy_over buffer new_db_record

pub are_keys_equal : DbRecord → DbRecord → Bool
are_keys_equal buffer self = text_eq (take max_key_size self.bytes) (take max_key_size buffer.bytes)

-- The texts are not cleared.
clear : DbRecord → DbRecord
clear r = record r { bytes = replicate max_size 0 }

-- getTheKeyStringFromData: the bytes behind what the text already holds
pub get_the_key_string_from_data : DbRecord → Outcome DbRecord
get_the_key_string_from_data r = do
  chars ← read_block max_key_size r.bytes
  returns (record r { key = r.key ++ chars })

unfoldable pub get_key_as_string : DbRecord → Outcome (Text × DbRecord)
unfolding get_the_key_string_from_data
get_key_as_string r = do
  filled ← (if is_empty r.key then get_the_key_string_from_data r else returns r)
  assert (not (is_empty filled.key))
  returns (filled.key, filled)

-- unpadTheKey on the memory from the pointer on: the index and the pointer both move on.
unfoldable pub unpad_the_key : List ℕ → Outcome Text
unpad_the_key [] = undefined
unpad_the_key (c ∷ []) = if c == 0 then returns [] else undefined
unpad_the_key (c ∷ _ ∷ cs) =
    let rest = unpad_the_key cs in if c == 0 then returns [] else (do key ← rest; returns (c ∷ key))

-- getDataAsString and toString
unfoldable pub to_string : DbRecord → Outcome (Text × DbRecord)
to_string r = do
  text ← read_block max_size r.bytes
  assert (not (is_empty text))
  returns (text, record r { data_copy = some r.bytes })

to_json : DbRecord → Outcome (Text × DbRecord)
to_json r = do
  text ← read_block max_size r.bytes
  returns (
    codes "{ " ++ (codes "data : " ++ (text ++ codes " }")),
    record r { data_copy = some r.bytes },
  )

-- setTheKeyString: its parameter hides the member `key`, which stays as it is.
set_the_key_string : Text → DbRecord → DbRecord
set_the_key_string key r = record r { data_copy = some r.bytes }

-- What the two loops of setTheKeyInData write into `n` bytes: the key up to a NUL, and NULs.
unfoldable pub padded : ℕ → Text → List ℕ
padded zero key = []
padded (suc n) [] = 0 ∷ padded n []
padded (suc n) (c ∷ cs) = let rest = padded n cs in if c == 0 then replicate (suc n) 0 else c ∷ rest

unfoldable pub set_the_key_in_data : Text → DbRecord → DbRecord
unfolding set_the_key_string padded
set_the_key_in_data key r =
    set_the_key_string key
      (record r { bytes = padded max_key_size key ++ drop max_key_size r.bytes })
