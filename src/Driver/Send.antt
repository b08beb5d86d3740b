-- ===== src/Driver/Send.antt =====
-- What the driver of PicoDB/pico/pico_client.h writes to its connection.
use pico_db.Prelude.{
  false, ℕ, ◌+◌, ◌<◌, ◌≡◌, List, [], ◌∷◌, ◌++◌, some, returns, Text, NoNul, c_string, length,
}
use pico_db.Queue.Ends.{last?-snoc, all_but_last-snoc}
use pico_db.Record.{PicoRecord, new_record, get_size}
use pico_db.Record.Memory.{get_data_for_write-new_record}
use pico_db.Message.{Libraries}
use pico_db.Socket.{Surroundings}
use pico_db.Wire.{frame_header, IsReadable, buffer_of-frame_header}
use pico_db.Session.Write.{buffer_of-append, snoc-is_empty}
use pico_db.Driver.{
  Driver, write_socket, write_one_message_to_other_side, write_record, write_one_buffer,
}

-- The memory around a call that writes a message of `n` bytes: what is read behind the program's
-- own blocks exists, and the connection does not fail.
pub record IsTerminated (lib : Libraries) (around : Surroundings) (n : ℕ) : Type 0 where
  pub tail : Text
  pub terminated : c_string around.behind_record ≡ some tail
  pub readable : IsReadable lib.cast n around.behind_header
  pub header_written : around.header_fails ≡ false
  pub data_written : around.data_fails ≡ false

module _ (lib : Libraries) where
  -- The driver once it has sent the newest of its requests.
  abbrev pub sent : Surroundings → List PicoRecord → Text → Driver → Driver
  sent around queue t d = record d {
    buffer_queue = queue;
    number_of_message_sent = d.number_of_message_sent + 1 + 1;
    outgoing = (d.outgoing ++ frame_header lib.cast (length t) around.behind_header) ++ t;
  }

  write_record_lem :
      (around : Surroundings) (queue : List PicoRecord) (t : Text) (d : Driver)
      → NoNul t
      → 2 < length t
      → IsTerminated lib around (length t)
      → write_record lib around (some (new_record t), queue) d ≡ returns (sent around queue t d)
  unfolding write_one_message_to_other_side write_socket get_size new_record
  write_record_lem around queue t d no_nul long o =
      rw (get_data_for_write-new_record around.behind_record t o.tail no_nul o.terminated long) (
        rw (
          buffer_of-frame_header lib.cast (length t) around.behind_header o.readable,
          o.header_written,
          buffer_of-append t o.tail around.behind_data,
          o.data_written,
        ))

  -- `writeOneBuffer` takes the request that was queued last and sends its header and its text, each
  -- counted as a message, and leaves the others queued: if the text has more than two characters and
  -- no NUL, memory that can be read follows it, and the connection does not fail.
  pub write_one_buffer-request :
      (around : Surroundings) (queue : List PicoRecord) (t : Text) (d : Driver)
      → d.buffer_queue ≡ queue ++ new_record t ∷ []
      → NoNul t
      → 2 < length t
      → IsTerminated lib around (length t)
      → write_one_buffer lib around d ≡ returns (sent around queue t d)
  unfolding write_one_buffer
  write_one_buffer-request around queue t d q no_nul long o =
      rw
        (
          q,
          snoc-is_empty queue (new_record t),
          last?-snoc queue (new_record t),
          all_but_last-snoc queue (new_record t),
        )
        (write_record_lem around queue t d no_nul long o)
