-- ===== src/OldRecord.antt =====
-- PicoDB/pico/pico_record_old_version.h: the record of fixed size, with a key, a value and both
-- together in three arrays. Writing or reading beyond an array is undefined.
pub mod Markers
use pico_db.Prelude.{
  ℕ, zero, suc, ◌+◌, ◌-◌, ◌≤◌, ◌<◌, ◌≡◌, refl, Bool, true, false, ◌&&◌, List, [], ◌∷◌, ◌++◌, Option,
  none, some, Outcome, returns, undefined, ◌>>=◌, ◌>>◌, require, ℤ, Text, codes, text_eq, length,
  get_elem?, replicate, ltb, drop, ◌==◌,
}
use pico_db.Record.{defined}

abbrev pub max_key_size : ℕ
max_key_size = 32

abbrev pub max_value_size : ℕ
max_value_size = 128

abbrev pub max_size : ℕ
max_size = 160

pub record OldRecord : Type 0 where
  pub key : List ℕ
  pub value : List ℕ
  pub data_array : List ℕ
  -- indeterminate until it is set
  pub offset_of_record : Option ℤ

-- The lengths of the arrays.
pub record IsSized (r : OldRecord) : Type 0 where
  pub key_size : length r.key ≡ 32
  pub value_size : length r.value ≡ 128
  pub data_size : length r.data_array ≡ 160

-- pico_record()
abbrev pub blank_old_record : OldRecord
blank_old_record = record {
  key = replicate max_key_size 0;
  value = replicate max_value_size 0;
  data_array = replicate max_size 0;
  offset_of_record = none;
}

-- `text.copy(array, text.size(), 0)`, and every marker: the characters over the front of an array
abbrev pub overwrite : Text → List ℕ → List ℕ
overwrite [] array = array
overwrite (c ∷ cs) [] = []
overwrite (c ∷ cs) (x ∷ array) = c ∷ overwrite cs array

-- the loop that writes NUL from an index on
abbrev pub zeros_from : ℕ → List ℕ → List ℕ
zeros_from i [] = []
zeros_from zero (x ∷ array) = 0 ∷ zeros_from zero array
zeros_from (suc i) (x ∷ array) = x ∷ zeros_from i array

-- setKey and setValue on their arrays: the NUL behind the text must lie in the array, too.
set_array : Text → List ℕ → Outcome (List ℕ)
set_array real_data array = do
  require (ltb (length real_data) (length array))
  returns (zeros_from (length real_data) (overwrite real_data array))

pub set_key : Text → OldRecord → Outcome OldRecord
unfolding set_array
set_key real_data r = do key ← set_array real_data r.key; returns (record r { key = key })

pub set_value : Text → OldRecord → Outcome OldRecord
unfolding set_array
set_value real_data r = do value ← set_array real_data r.value; returns (record r { value = value })

-- `n` elements of an array from index `i` on
elements_from : ℕ → ℕ → List ℕ → Outcome (List ℕ)
elements_from i zero array = returns []
elements_from i (suc n) array = do
  x ← defined (get_elem? array i)
  rest ← elements_from (suc i) n array
  returns (x ∷ rest)

-- setData: the second loop reads the value at the indices of the data.
pub set_data : OldRecord → Outcome OldRecord
unfolding elements_from
set_data r = do
  keys ← elements_from 0 max_key_size r.key
  values ← elements_from max_key_size max_value_size r.value
  returns (record r { data_array = keys ++ values })

-- setKeyValue, and the constructor of a key and a value
pub set_key_value : Text → Text → OldRecord → Outcome OldRecord
unfolding set_key set_value set_data
set_key_value key value r = do
  keyed ← set_key key r
  valued ← set_value value keyed
  set_data valued

-- The copy constructor and the two assignments.
copy_old_record : OldRecord → OldRecord → OldRecord
copy_old_record buffer self = record self {
  key = buffer.key;
  value = buffer.value;
  data_array = buffer.data_array;
  offset_of_record = buffer.offset_of_record;
}

pub get_key_as_string : OldRecord → Text
get_key_as_string r = r.key

get_value_as_string : OldRecord → Text
get_value_as_string r = r.value

are_keys_equal : OldRecord → OldRecord → Bool
unfolding get_key_as_string
are_keys_equal buffer self = text_eq (get_key_as_string buffer) (get_key_as_string self)

are_values_equal : OldRecord → OldRecord → Bool
unfolding get_value_as_string
are_values_equal buffer self = text_eq (get_value_as_string buffer) (get_value_as_string self)

pub clear : OldRecord → OldRecord
clear r = record r {
  key = zeros_from 0 r.key;
  value = zeros_from 0 r.value;
  data_array = zeros_from 0 r.data_array;
}

pub to_string : OldRecord → Text
to_string r =
    codes "{ key : "
    ++ r.key
    ++ codes " , value : "
    ++ r.value
    ++ codes ","
    ++ codes "data : "
    ++ r.data_array
    ++ codes " }"

-- `key_[0] == c && key_[1] == d && …`
abbrev pub starts_with : Text → List ℕ → Bool
starts_with [] array = true
starts_with (c ∷ cs) [] = false
starts_with (c ∷ cs) (x ∷ array) = (x == c) && starts_with cs array

pub record_starts_with_begkey : OldRecord → Bool
record_starts_with_begkey r = starts_with (codes "BEGKEY") r.key

pub record_starts_with_conkey : OldRecord → Bool
record_starts_with_conkey r = starts_with (codes "CONKEY") r.key

pub record_is_empty : OldRecord → Bool
record_is_empty r = starts_with (replicate 6 0) r.key

-- The first six characters of the key become a marker, the others are those of the first record.
pub replicate_the_first_record_key_to_other_records : OldRecord → OldRecord → OldRecord
replicate_the_first_record_key_to_other_records first_record current_record =
    record current_record { key = codes "CONKEY" ++ drop 6 first_record.key }

pub add_key_marker_to_first_record : OldRecord → OldRecord
add_key_marker_to_first_record first_record = record first_record {
  key = overwrite (codes "BEGKEY") first_record.key;
}
