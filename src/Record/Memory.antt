-- ===== src/Record/Memory.antt =====
-- What the accessors of PicoDB/pico/pico_record.h read of the block behind `data_`.
use pico_db.Prelude.{
  ℕ, ◌≤◌, ◌<◌, ◌≡◌, refl, ap, ◌≢◌, false, List, [], ◌∷◌, ◌++◌, some, returns, undefined, Text,
  NoNul, c_string, is_empty, length, take, drop, arith, le→leb, lt→ltb, take_all, take-append,
  ==-self, lt→leb, ==-ne, replicate, length-append,
}
use pico_db.Record.{
  PicoRecord, new_record, copy_chars, to_string, get_data_for_write, get_data_for_read, filled,
  read_block, get_data_as_string, is_this_record_a_size_info, is_size_info_bytes,
}

copy_chars_self : (t : Text) → copy_chars t ≡ t
unfolding copy_chars
copy_chars_self [] = refl
copy_chars_self (c ∷ t) = ap (◌∷◌ c) (copy_chars_self t)

new_record-block : (t : Text) → (new_record t).block ≡ some t
unfolding new_record
new_record-block t = ap some (copy_chars_self t)

pub read_block_all : (t : List ℕ) → read_block (length t) t ≡ returns t
read_block_all t =
    rw (le→leb (length t) (length t) (omega arith), take_all (length t) t (omega arith))

pub ne_nil→false : {A : Type 0} (t : List A) → t ≢ [] → is_empty t ≡ false
ne_nil→false [] h = absurd (h refl)
ne_nil→false (c ∷ t) h = refl

-- A record made from a text that is not empty shows that text.
pub to_string-new_record : (t : Text) → t ≢ [] → to_string (new_record t) ≡ returns t
unfolding to_string new_record
to_string-new_record t h =
    rw (copy_chars_self t, read_block_all t, ne_nil→false t h, ==-self (length t))

pub filled-all : (received fresh : List ℕ) → filled (length received) received fresh ≡ received
filled-all received fresh =
    take-append received (drop (length received) fresh ++ replicate (length received) 0)

-- The block of a read shows what was received, if that fills it.
pub to_string-get_data_for_read :
    (received fresh : List ℕ) (r : PicoRecord)
    → received ≢ []
    → to_string (get_data_for_read (length received) received fresh r) ≡ returns received
unfolding to_string get_data_for_read
to_string-get_data_for_read received fresh r h = rw (
  filled-all received fresh,
  read_block_all received,
  ne_nil→false received h,
  ==-self (length received),
)

c_string-append :
    (t rest : List ℕ) (u : Text)
    → NoNul t
    → c_string rest ≡ some u
    → c_string (t ++ rest) ≡ some (t ++ u)
c_string-append [] rest u h e = e
c_string-append (c ∷ t) rest u h e = rw (==-ne c 0 h.0, c_string-append t rest u h.1 e)

-- The text that `getDataForWrite` reads begins with the whole text of the record, if that holds no
-- NUL, and goes on with what stands in memory behind it, up to the first NUL there.
pub get_data_for_write-new_record :
    (behind : List ℕ) (t u : Text)
    → NoNul t
    → c_string behind ≡ some u
    → 2 < length t
    → get_data_for_write behind (new_record t)
      ≡ returns (t ++ u, record (new_record t) { data_string = t ++ u })
unfolding get_data_for_write new_record
get_data_for_write-new_record behind t u h e big =
    rw (copy_chars_self t, c_string-append t behind u h e)
      (rw (lt→ltb 2 (length (t ++ u)) (omega (arith, length-append t u))) refl)

-- `getDataAsString` measures the pointer: of a record with a longer text it returns the first eight
-- characters, and of one with a shorter text it reads beyond the block.
pub get_data_as_string-new_record :
    (t : Text)
    → (8 ≤ length t → get_data_as_string (new_record t) ≡ returns (take 8 t))
      × (length t < 8 → get_data_as_string (new_record t) ≡ undefined)
unfolding get_data_as_string new_record
get_data_as_string-new_record [] = ((λ h. absurd (omega arith)), λ h. refl)
get_data_as_string-new_record (c ∷ t) = (
  (λ h. rw (copy_chars_self t, le→leb 8 (length (c ∷ t)) h)),
  (λ h. rw (copy_chars_self t, lt→leb 8 (length (c ∷ t)) h)),
)

-- Whether such a block is a size message is decided by the bytes that were received.
pub is_this_record_a_size_info-get_data_for_read :
    (received fresh : List ℕ) (r : PicoRecord)
    → is_this_record_a_size_info (get_data_for_read (length received) received fresh r)
      ≡ returns (is_size_info_bytes received)
unfolding is_this_record_a_size_info get_data_for_read
is_this_record_a_size_info-get_data_for_read received fresh r =
    rw (filled-all received fresh, read_block_all received)
