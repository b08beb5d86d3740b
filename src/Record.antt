-- ===== src/Record.antt =====
-- PicoDB/pico/pico_record.h: the buffer that travels over the socket.
pub mod SizeInfo
pub mod Memory
use pico_db.Prelude.{
  ℕ, zero, suc, ◌+◌, ◌≡◌, Bool, true, false, not, ◌&&◌, ◌||◌, List, [], ◌∷◌, ◌++◌, Option, none,
  some, Outcome, returns, aborts, undefined, ◌>>=◌, ◌>>◌, assert, require, ℤ, negsuc, Text, codes,
  c_string, is_empty, length, get_elem?, take, drop, replicate, ltb, leb, ◌==◌, if◌then◌else◌,
}
use pico_db.Utils.{hash}

-- `block` is the array that `data_` points to and `data_size` the field `dataSize`; both are
-- indeterminate after the default constructor, which sets only the offset. `data_string` is the
-- cache of `getDataForWrite`.
pub record PicoRecord : Type 0 where
  pub block : Option (List ℕ)
  pub data_size : Option ℕ
  pub offset_of_record : ℤ
  pub data_string : Text

-- pico_record()
abbrev pub blank_record : PicoRecord
blank_record = record {
  block = none;
  data_size = none;
  offset_of_record = negsuc 0;
  data_string = [];
}

-- the copying loop of pico_record(string): `new char[size]`, then one character after the other
copy_chars : Text → List ℕ
copy_chars [] = []
copy_chars (c ∷ cs) = c ∷ copy_chars cs

-- pico_record(string)
unfoldable pub new_record : Text → PicoRecord
unfolding copy_chars
new_record json = record {
  block = some (copy_chars json);
  data_size = some (length json);
  offset_of_record = negsuc 0;
  data_string = [];
}

-- Reading a member that may be indeterminate.
abbrev pub defined {ℓ} : {A : Type ℓ} → Option A → Outcome A
defined none = undefined
defined (some a) = returns a

-- `n` bytes from the start of a block; reading beyond its end is undefined.
abbrev pub read_block : ℕ → List ℕ → Outcome (List ℕ)
read_block n bytes = do require (leb n (length bytes)); returns (take n bytes)

-- sizeof(data_) is the size of a pointer.
abbrev pub pointer_size : ℕ
pointer_size = 8

-- pico_record(const pico_record&): `memcpy` through the indeterminate `data_` of the new object.
copy_record : PicoRecord → Outcome PicoRecord
copy_record r = do from ← defined r.block; text ← read_block pointer_size from; undefined

-- `assert(sizeof(data_) > 0)` holds always; the string has `sizeof(data_)` characters.
pub get_data_as_string : PicoRecord → Outcome Text
get_data_as_string r = do
  bytes ← defined r.block
  text ← read_block pointer_size bytes
  assert (not (is_empty text))
  returns text

to_json : PicoRecord → Outcome Text
to_json r = do
  bytes ← defined r.block
  text ← read_block pointer_size bytes
  returns (codes "{ " ++ codes "data : " ++ text ++ codes " }")

-- The last assertion compares the text with `dataSize`.
unfoldable pub to_string : PicoRecord → Outcome Text
to_string r = do
  bytes ← defined r.block
  size ← defined r.data_size
  text ← read_block size bytes
  assert (not (is_empty text))
  assert (length text == size)
  returns text

-- `string temp(data_)` reads up to the first NUL, beyond the block if the block has none; the second
-- argument is the memory that follows the block.
unfoldable pub get_data_for_write : List ℕ → PicoRecord → Outcome (Text × PicoRecord)
get_data_for_write behind r = do
  bytes ← defined r.block
  temp ← defined (c_string (bytes ++ behind))
  let text = if is_empty r.data_string then r.data_string ++ temp else r.data_string
  assert (ltb 2 (length text))
  returns (text, record r { data_string = text })

-- What `read_some` leaves in a block of `size` bytes: the bytes received, and behind them what the
-- fresh memory held.
abbrev pub filled : ℕ → List ℕ → List ℕ → List ℕ
filled size received fresh =
    take size (received ++ (drop (length received) fresh ++ replicate size 0))

-- getDataForRead, and the socket filling the block that it returns
unfoldable pub get_data_for_read : ℕ → List ℕ → List ℕ → PicoRecord → PicoRecord
get_data_for_read size received fresh r = record r {
  block = some (filled size received fresh);
  data_size = some size;
}

unfoldable pub get_size : PicoRecord → Outcome ℕ
get_size r = defined r.data_size

-- `data_[i+1] == '#' && data_[i+2] == '#' && data_[i+3] == '#'`, for the bytes behind `i`
abbrev pub three_hashes : List ℕ → Bool
three_hashes (a ∷ b ∷ c ∷ _) = (a == hash) && ((b == hash) && (c == hash))
three_hashes _ = false

-- The loop of IsThisRecordASizeInfo, on the bytes from index `i` on; there are more than four of
-- them exactly if `i + 4 < size`.
unfoldable pub is_size_info_bytes : List ℕ → Bool
is_size_info_bytes [] = false
is_size_info_bytes (x ∷ xs) =
    ((x == hash) && (leb 4 (length xs) && three_hashes xs)) || is_size_info_bytes xs

unfoldable pub is_this_record_a_size_info : PicoRecord → Outcome Bool
unfolding is_size_info_bytes
is_this_record_a_size_info r = do
  size ← defined r.data_size
  bytes ← defined r.block
  text ← read_block size bytes
  returns (is_size_info_bytes text)

get_char : ℕ → PicoRecord → Outcome ℕ
get_char i r = do bytes ← defined r.block; defined (get_elem? bytes i)
