-- ===== src/Session/Write.antt =====
-- Writing of PicoDB/pico/pico_session.h.
use pico_db.Prelude.{
  ℕ, ◌+◌, ◌<◌, ◌≡◌, refl, List, [], ◌∷◌, ◌++◌, some, returns, Text, NoNul, c_string, is_empty,
  length, false, arith, take-append, le→leb, length-append, append_assoc,
}
use pico_db.Queue.Ends.{last?-snoc, all_but_last-snoc}
use pico_db.Record.{PicoRecord, new_record, get_size}
use pico_db.Record.Memory.{get_data_for_write-new_record}
use pico_db.Message.{Libraries}
use pico_db.Socket.{Surroundings, buffer_of}
use pico_db.Wire.{frame_header, IsReadable, buffer_of-frame_header}
use pico_db.Session.{
  Session, write_socket, write_one_message_to_other_side, write_record, write_one_buffer,
}

pub snoc-is_empty : {A : Type 0} (xs : List A) (x : A) → is_empty (xs ++ x ∷ []) ≡ false
snoc-is_empty [] x = refl
snoc-is_empty (y ∷ xs) x = refl

-- The bytes of a text are what is sent of it, even if it goes on in memory.
pub buffer_of-append :
    (t u : Text) (behind : List ℕ) → buffer_of (length t) (t ++ u) behind ≡ returns t
buffer_of-append t u behind = rw (
  append_assoc t u (0 ∷ behind),
  le→leb (length t) (length (t ++ (u ++ 0 ∷ behind)))
      (omega (arith, length-append t (u ++ 0 ∷ behind))),
  take-append t (u ++ 0 ∷ behind),
)

-- The memory around a call that writes a message of `n` bytes: what is read behind the program's
-- own blocks exists, the destroyed text of the size still stands where it stood, and the connection
-- does not fail.
pub record IsOrderly (lib : Libraries) (around : Surroundings) (n : ℕ) : Type 0 where
  pub tail : Text
  pub terminated : c_string around.behind_record ≡ some tail
  pub readable : IsReadable lib.cast n around.behind_header
  pub header_written : around.header_fails ≡ false
  pub data_written : around.data_fails ≡ false
  pub intact : c_string (around.stale (lib.cast.to_text n)) ≡ some (lib.cast.to_text n)

module _ (lib : Libraries) where
  -- The session once it has sent the newest of its messages.
  abbrev pub sent : Surroundings → List PicoRecord → Text → Session → Session
  sent around queue t s = record s {
    buffer_queue = queue;
    number_of_message_sent = s.number_of_message_sent + 1 + 1;
    outgoing = (s.outgoing ++ frame_header lib.cast (length t) around.behind_header) ++ t;
  }

  write_record_lem :
      (around : Surroundings) (queue : List PicoRecord) (t : Text) (s : Session)
      → NoNul t
      → 2 < length t
      → IsOrderly lib around (length t)
      → write_record lib around (some (new_record t), queue) s ≡ returns (sent around queue t s)
  unfolding write_one_message_to_other_side write_socket get_size new_record
  write_record_lem around queue t s no_nul long o =
      rw (get_data_for_write-new_record around.behind_record t o.tail no_nul o.terminated long) (
        rw (
          o.intact,
          buffer_of-frame_header lib.cast (length t) around.behind_header o.readable,
          o.header_written,
          buffer_of-append t o.tail around.behind_data,
          o.data_written,
        ))

  -- `writeOneBuffer` takes the message that was queued last and sends its header and its text, each
  -- counted as a message, and leaves the others queued: if the text has more than two characters and
  -- no NUL, the memory around it is orderly, and the connection does not fail.
  pub write_one_buffer_lem :
      (around : Surroundings) (queue : List PicoRecord) (t : Text) (s : Session)
      → s.buffer_queue ≡ queue ++ new_record t ∷ []
      → NoNul t
      → 2 < length t
      → IsOrderly lib around (length t)
      → write_one_buffer lib around s ≡ returns (sent around queue t s)
  unfolding write_one_buffer
  write_one_buffer_lem around queue t s q no_nul long o =
      rw
        (
          q,
          snoc-is_empty queue (new_record t),
          last?-snoc queue (new_record t),
          all_but_last-snoc queue (new_record t),
        )
        (write_record_lem around queue t s no_nul long o)
