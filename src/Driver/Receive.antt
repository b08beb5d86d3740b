-- ===== src/Driver/Receive.antt =====
-- What the driver of PicoDB/pico/pico_client.h reads from its connection.
use pico_db.Prelude.{
  ℕ, suc, ◌+◌, ◌≤◌, ◌<◌, ◌≡◌, refl, ap, ◌∙◌, ◌≢◌, List, [], ◌∷◌, ◌++◌, some, returns, ◌>>=◌, ℤ, pos,
  to_int, to_int-small, Text, length, arith, append_assoc,
}
use pico_db.Queue.Vector.{push_back_locked}
use pico_db.Record.{PicoRecord, blank_record, get_data_for_read, get_size, is_size_info_bytes}
use pico_db.Record.Memory.{
  ne_nil→false, to_string-get_data_for_read, filled-all, read_block_all,
  is_this_record_a_size_info-get_data_for_read,
}
use pico_db.Message.{Message, Libraries}
use pico_db.Message.Fields.{json_form-parse_message}
use pico_db.Socket.{Arrival, received_all, left_over_all}
use pico_db.AsyncReader.{IsAllocated, get_one_buffer, return_the_buffer}
use pico_db.Wire.{
  size_digits, frame_header, IsReadable, length-frame_header, frame_header-size_info,
  size_digits-frame_header,
}
use pico_db.Session.Receive.{nested_buffers, ne_nil-length, to_long-to_text, framed, IsReceivable}
use pico_db.Driver.{
  Driver, Reading, queue_the_response, process_data_from_other_side, process_the_buffer_just_read,
  read_buffer, read_one_buffer, read_next, read_message, dispatch, returned, next_size,
}

module _ (lib : Libraries) where
  -- the driver between the arrival of `bytes` and the decision what they are
  abbrev waiting : List ℕ → Driver → Driver
  waiting rest d = record d { async_reader = (get_one_buffer d.async_reader).1; incoming = rest }

  abbrev buffer_with : List ℕ → List ℕ → PicoRecord
  buffer_with bytes fresh = get_data_for_read (length bytes) bytes fresh blank_record

  read_buffer_lem :
      (again : ℤ → Driver → Reading) (a : Arrival) (arrivals : List Arrival) (bytes rest : List ℕ)
      (d : Driver)
      → bytes ≢ []
      → length bytes ≤ a.count
      → d.incoming ≡ bytes ++ rest
      → read_buffer lib again a arrivals (length bytes) d ≡ (
          dispatch lib
            (is_size_info_bytes bytes)
            again
            arrivals
            (buffer_with bytes a.fresh)
            bytes
            (waiting rest d)
          >>= returned lib d.async_reader.next_pointer)
  unfolding read_buffer process_the_buffer_just_read get_one_buffer
  read_buffer_lem again a arrivals bytes rest d ne enough inc = rw (
    inc,
    received_all bytes rest a enough,
    left_over_all bytes rest a enough,
    to_string-get_data_for_read bytes a.fresh blank_record ne,
    is_this_record_a_size_info-get_data_for_read bytes a.fresh blank_record,
  )

  read_one_buffer_lem :
      (a : Arrival) (arrivals : List Arrival) (bytes rest : List ℕ) (d : Driver)
      → bytes ≢ []
      → length bytes ≤ a.count
      → d.incoming ≡ bytes ++ rest
      → read_one_buffer lib (a ∷ arrivals) (pos (length bytes)) d ≡ (
          dispatch lib
            (is_size_info_bytes bytes)
            (read_one_buffer lib arrivals)
            arrivals
            (buffer_with bytes a.fresh)
            bytes
            (waiting rest d)
          >>= returned lib d.async_reader.next_pointer)
  unfolding read_one_buffer
  read_one_buffer_lem a arrivals [] rest d ne enough inc = absurd (ne refl)
  read_one_buffer_lem a arrivals (b ∷ bytes) rest d ne enough inc =
      read_buffer_lem (read_one_buffer lib arrivals) a arrivals (b ∷ bytes) rest d ne enough inc

  read_next_lem :
      (again : ℤ → Driver → Reading) (bytes fresh : List ℕ) (d : Driver) (digits : Text) (z : ℤ)
      → size_digits bytes ≡ some digits
      → lib.cast.to_long digits ≡ some z
      → read_next lib again (buffer_with bytes fresh) d ≡ again (to_int z) d
  unfolding read_next get_data_for_read get_size
  read_next_lem again bytes fresh d digits z e f =
      rw (filled-all bytes fresh, read_block_all bytes, e, next_size) (rw f)

  dispatch-header :
      (again : ℤ → Driver → Reading) (arrivals : List Arrival) (n : ℕ) (behind fresh : List ℕ)
      (d : Driver)
      → n < 1000000
      → let h = frame_header lib.cast n behind in
        dispatch lib (is_size_info_bytes h) again arrivals (buffer_with h fresh) h d
        ≡ again (pos n) d
  dispatch-header again arrivals n behind fresh d short =
      let h = frame_header lib.cast n behind in
      ap (λ b. dispatch lib b again arrivals (buffer_with h fresh) h d)
        (frame_header-size_info lib.cast n behind)
      ∙ read_next_lem again h fresh d (lib.cast.to_text n) (pos n)
          (size_digits-frame_header lib.cast n behind short) (to_long-to_text lib n short)
      ∙ ap (λ z. again z d) (to_int-small n (omega arith))

  read-header :
      (a : Arrival) (arrivals : List Arrival) (n : ℕ) (behind rest : List ℕ) (d : Driver)
      → 10 ≤ a.count
      → n < 1000000
      → IsReadable lib.cast n behind
      → d.incoming ≡ frame_header lib.cast n behind ++ rest
      → read_one_buffer lib (a ∷ arrivals) (pos 10) d ≡ (
          read_one_buffer lib arrivals (pos n) (waiting rest d)
          >>= returned lib d.async_reader.next_pointer)
  read-header a arrivals n behind rest d enough short readable inc =
      let h = frame_header lib.cast n behind in
      let ten = length-frame_header lib.cast n behind readable in
      rw ten at (
        read_one_buffer_lem a arrivals h rest d (ne_nil-length 9 h ten) (omega arith) inc
        ∙ ap (λ o. o >>= returned lib d.async_reader.next_pointer)
            (dispatch-header (read_one_buffer lib arrivals) arrivals n behind a.fresh
              (waiting rest d) short))

  -- the driver with a message that it has parsed
  abbrev replied : Message → List ℕ → Driver → Driver
  replied m rest d = record d {
    incoming = rest;
    async_reader = return_the_buffer d.async_reader.next_pointer (get_one_buffer d.async_reader).1;
    number_of_message_read = d.number_of_message_read + 1;
    response_queue = push_back_locked d.response_queue (d.next_response, m);
    next_response = suc d.next_response;
  }

  read-text :
      (a : Arrival) (arrivals : List Arrival) (t rest : List ℕ) (d : Driver)
      (r : IsReceivable lib t)
      → length t ≤ a.count
      → d.incoming ≡ t ++ rest
      → read_one_buffer lib (a ∷ arrivals) (pos (length t)) d
        ≡ returns (arrivals, replied r.message rest d)
  unfolding read_message process_data_from_other_side queue_the_response
  read-text a arrivals t rest d r enough inc =
      read_one_buffer_lem a arrivals t rest d r.is_not_empty enough inc
      ∙ rw (r.not_size, r.parses, read_message)
          (rw (json_form-parse_message lib t r.message r.parses, ne_nil→false t r.is_not_empty)
            refl)

  -- The driver once it has read a reply and queued it.
  abbrev pub has_reply : Message → List ℕ → Driver → Driver
  has_reply m rest d = record d {
    incoming = rest;
    async_reader = record {
      single_buffer_list = d.async_reader.single_buffer_list;
      next_pointer = suc (suc d.async_reader.next_pointer);
    };
    number_of_message_read = d.number_of_message_read + 1;
    response_queue = push_back_locked d.response_queue (d.next_response, m);
    next_response = suc d.next_response;
  }

  -- A reply of less than a million bytes that comes in behind its header, each in one piece, is read
  -- by one call of `readOneBuffer`: it stands at the back of the response queue, it is counted, and
  -- both buffers are given back, provided it is not taken for a size and is parsed.
  pub read_one_buffer-reply :
      (t behind rest : List ℕ) (a b : Arrival) (arrivals : List Arrival) (d : Driver)
      → d.incoming ≡ framed lib t behind ++ rest
      → (r : IsReceivable lib t) → IsReadable lib.cast (length t) behind
      → 10 ≤ a.count
      → length t ≤ b.count
      → IsAllocated d.async_reader
      → read_one_buffer lib (a ∷ b ∷ arrivals) (pos 10) d
        ≡ returns (arrivals, has_reply r.message rest d)
  unfolding get_one_buffer
  read_one_buffer-reply t behind rest a b arrivals d inc r readable big big' alloc =
      let h = frame_header lib.cast (length t) behind in
      let p = d.async_reader.next_pointer in
      let ps = d.async_reader.single_buffer_list in
      read-header a (b ∷ arrivals) (length t) behind (t ++ rest) d big r.short readable
        (inc ∙ append_assoc h t rest)
      ∙ (ap (λ o. o >>= returned lib p)
            (read-text b arrivals t rest (waiting (t ++ rest) d) r big' refl)
          ∙ rw (nested_buffers ps p alloc) refl)
