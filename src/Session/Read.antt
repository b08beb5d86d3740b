-- ===== src/Session/Read.antt =====
-- Reading of PicoDB/pico/pico_session.h, when the socket hands over what is asked for.
use pico_db.Prelude.{
  ℕ, ◌+◌, ◌≤◌, ◌<◌, ◌≡◌, refl, ◌∙◌, ◌≢◌, true, false, List, [], ◌∷◌, ◌++◌, some, none, returns,
  throws, ◌>>=◌, ℤ, pos, to_int-small, Text, length,
}
use pico_db.Queue.Vector.{push_back_locked}
use pico_db.Record.{
  PicoRecord, blank_record, new_record, get_data_for_read, get_size, is_size_info_bytes,
}
use pico_db.Record.Memory.{
  ne_nil→false, to_string-get_data_for_read, filled-all, read_block_all,
  is_this_record_a_size_info-get_data_for_read,
}
use pico_db.Message.Fields.{json_form-parse_message}
use pico_db.Message.{Message, Libraries}
use pico_db.Message.Constructors.{parse_message}
use pico_db.Socket.{Arrival, received_all, left_over_all}
use pico_db.AsyncReader.{get_one_buffer, return_the_buffer}
use pico_db.Wire.{size_digits}
use pico_db.Session.{
  Session, Reading, queue_messages, process_data_from_other_side, process_the_buffer_just_read,
  read_sync, read_one_buffer, read_next, read_message, dispatch, returned, next_size,
}

-- The session between the arrival of `bytes` and the decision what they are.
abbrev pub logged : List ℕ → List ℕ → Session → Session
logged bytes rest s = record s {
  async_reader = (get_one_buffer s.async_reader).1;
  number_of_chars_to_read = length bytes;
  incoming = rest;
  message_number = s.message_number + 1;
  list_of_all_messages = push_back_locked s.list_of_all_messages bytes;
}

module _ (lib : Libraries) where
  abbrev buffer_with : List ℕ → List ℕ → PicoRecord
  buffer_with bytes fresh = get_data_for_read (length bytes) bytes fresh blank_record

  read_sync_lem :
      (again : ℤ → Session → Reading) (a : Arrival) (arrivals : List Arrival) (bytes rest : List ℕ)
      (s : Session)
      → bytes ≢ []
      → length bytes ≤ a.count
      → s.incoming ≡ bytes ++ rest
      → read_sync lib again a arrivals (length bytes) s ≡ (
          dispatch lib
            (is_size_info_bytes bytes)
            again
            arrivals
            (buffer_with bytes a.fresh)
            bytes
            (logged bytes rest s)
          >>= returned lib s.async_reader.next_pointer)
  unfolding read_sync process_the_buffer_just_read get_one_buffer
  read_sync_lem again a arrivals bytes rest s ne enough inc = rw (
    inc,
    received_all bytes rest a enough,
    left_over_all bytes rest a enough,
    to_string-get_data_for_read bytes a.fresh blank_record ne,
    is_this_record_a_size_info-get_data_for_read bytes a.fresh blank_record,
  )

  pub read_one_buffer_lem :
      (a : Arrival) (arrivals : List Arrival) (bytes rest : List ℕ) (s : Session)
      → bytes ≢ []
      → length bytes ≤ a.count
      → length bytes < 2147483648
      → s.incoming ≡ bytes ++ rest
      → read_one_buffer lib (a ∷ arrivals) (pos (length bytes)) s ≡ (
          dispatch lib
            (is_size_info_bytes bytes)
            (read_one_buffer lib arrivals)
            arrivals
            (buffer_with bytes a.fresh)
            bytes
            (logged bytes rest s)
          >>= returned lib s.async_reader.next_pointer)
  unfolding read_one_buffer
  read_one_buffer_lem a arrivals [] rest s ne enough fits inc = absurd (ne refl)
  read_one_buffer_lem a arrivals (b ∷ bytes) rest s ne enough fits inc =
      rw (to_int-small (length (b ∷ bytes)) fits)
        (read_sync_lem (read_one_buffer lib arrivals) a arrivals (b ∷ bytes) rest s ne enough inc)

  read_next_lem :
      (again : ℤ → Session → Reading) (bytes fresh : List ℕ) (s : Session) (digits : Text) (z : ℤ)
      → size_digits bytes ≡ some digits
      → lib.cast.to_long digits ≡ some z
      → read_next lib again (buffer_with bytes fresh) s ≡ again z s
  unfolding read_next get_data_for_read get_size
  read_next_lem again bytes fresh s digits z e f =
      rw (filled-all bytes fresh, read_block_all bytes, e, next_size) (rw f)

  -- Reading a size message goes on with reading that many bytes.
  pub read-size :
      (a : Arrival) (arrivals : List Arrival) (bytes rest : List ℕ) (s : Session) (digits : Text)
      (z : ℤ)
      → bytes ≢ []
      → length bytes ≤ a.count
      → length bytes < 2147483648
      → s.incoming ≡ bytes ++ rest
      → is_size_info_bytes bytes ≡ true
      → size_digits bytes ≡ some digits
      → lib.cast.to_long digits ≡ some z
      → read_one_buffer lib (a ∷ arrivals) (pos (length bytes)) s ≡ (
          read_one_buffer lib arrivals z (logged bytes rest s)
          >>= returned lib s.async_reader.next_pointer)
  read-size a arrivals bytes rest s digits z ne enough fits inc size e f =
      read_one_buffer_lem a arrivals bytes rest s ne enough fits inc
      ∙ rw (
        size,
        read_next_lem (read_one_buffer lib arrivals) bytes a.fresh (logged bytes rest s) digits z e
            f,
      )

  -- A size message whose digits are not a number ends the reading with an exception.
  pub read-bad_size :
      (a : Arrival) (arrivals : List Arrival) (bytes rest : List ℕ) (s : Session) (digits : Text)
      → bytes ≢ []
      → length bytes ≤ a.count
      → length bytes < 2147483648
      → s.incoming ≡ bytes ++ rest
      → is_size_info_bytes bytes ≡ true
      → size_digits bytes ≡ some digits
      → lib.cast.to_long digits ≡ none
      → read_one_buffer lib (a ∷ arrivals) (pos (length bytes)) s ≡ throws
  unfolding read_next get_data_for_read get_size
  read-bad_size a arrivals bytes rest s digits ne enough fits inc size e f =
      read_one_buffer_lem a arrivals bytes rest s ne enough fits inc
      ∙ rw (size, dispatch)
          (rw (filled-all bytes a.fresh, read_block_all bytes, e, next_size) (rw f refl))

  -- The session once it has queued the reply to a message.
  abbrev pub answered : List ℕ → List ℕ → Message → Session → Session
  answered bytes rest m s = record s {
    incoming = rest;
    message_number = s.message_number + 1;
    number_of_chars_to_read = 10;
    async_reader = return_the_buffer s.async_reader.next_pointer (get_one_buffer s.async_reader).1;
    buffer_queue = push_back_locked s.buffer_queue (new_record m.json_form_of_message);
    list_of_all_messages = push_back_locked s.list_of_all_messages bytes;
    number_of_message_read = s.number_of_message_read + 1;
  }

  pub read-message :
      (a : Arrival) (arrivals : List Arrival) (bytes rest : List ℕ) (s : Session) (m : Message)
      → bytes ≢ []
      → length bytes ≤ a.count
      → length bytes < 2147483648
      → s.incoming ≡ bytes ++ rest
      → is_size_info_bytes bytes ≡ false
      → parse_message lib bytes ≡ returns m
      → read_one_buffer lib (a ∷ arrivals) (pos (length bytes)) s
        ≡ returns (arrivals, answered bytes rest m s)
  unfolding read_message process_data_from_other_side queue_messages
  read-message a arrivals bytes rest s m ne enough fits inc message parses =
      read_one_buffer_lem a arrivals bytes rest s ne enough fits inc
      ∙ rw (message, parses, read_message)
          (rw (json_form-parse_message lib bytes m parses, ne_nil→false bytes ne))
