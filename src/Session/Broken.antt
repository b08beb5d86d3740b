-- ===== src/Session/Broken.antt =====
-- A session of PicoDB/pico/pico_session.h whose connection fails when it writes a reply.
use pico_db.Prelude.{
  ℕ, ◌≤◌, ◌<◌, ◌≡◌, refl, ◌⊎◌, inl, inr, false, true, List, [], ◌∷◌, ◌++◌, All, none, some, returns,
  throws, Text, NoNul, c_string, length,
}
use pico_db.Queue.Ends.{last?-snoc, all_but_last-snoc}
use pico_db.Record.{PicoRecord, new_record, get_size}
use pico_db.Record.Memory.{get_data_for_write-new_record}
use pico_db.Message.{Libraries}
use pico_db.Socket.{Arrival, Surroundings}
use pico_db.AsyncReader.{IsAllocated}
use pico_db.Wire.{IsReadable, buffer_of-frame_header}
use pico_db.Session.{
  Session, write_socket, write_one_message_to_other_side, write_record, write_one_buffer, rounds,
  start,
}
use pico_db.Session.Write.{snoc-is_empty, buffer_of-append}
use pico_db.Session.Receive.{IsReceivable, framed, has_read, read_one_buffer-framed}
use pico_db.Session.Echo.{Exchange, IsServed, requests, reads, surroundings, rounds-Served}

-- The memory around a write of `n` bytes is orderly, but the connection fails at the header or at the
-- text.
pub record IsBroken (lib : Libraries) (around : Surroundings) (n : ℕ) : Type 0 where
  pub tail : Text
  pub terminated : c_string around.behind_record ≡ some tail
  pub readable : IsReadable lib.cast n around.behind_header
  pub intact : c_string (around.stale (lib.cast.to_text n)) ≡ some (lib.cast.to_text n)
  pub fails :
      (around.header_fails ≡ true) ⊎ ((around.header_fails ≡ false) × (around.data_fails ≡ true))

module _ (lib : Libraries) where
  -- A message that is received whole, and whose reply cannot be written.
  pub record IsUnanswerable (e : Exchange) : Type 0 where
    pub receivable : IsReceivable lib e.text
    pub no_nul : NoNul e.text
    pub long : 2 < length e.text
    pub readable : IsReadable lib.cast (length e.text) e.behind
    pub whole_header : 10 ≤ e.header_read.count
    pub whole_text : length e.text ≤ e.text_read.count
    pub broken : IsBroken lib e.around (length e.text)

  write_record-broken :
      (around : Surroundings) (queue : List PicoRecord) (t : Text) (s : Session)
      → NoNul t
      → 2 < length t
      → IsBroken lib around (length t)
      → write_record lib around (some (new_record t), queue) s ≡ throws
  unfolding write_one_message_to_other_side write_socket get_size new_record
  write_record-broken around queue t s no_nul long o =
      rw (get_data_for_write-new_record around.behind_record t o.tail no_nul o.terminated long) (
        rw (o.intact, buffer_of-frame_header lib.cast (length t) around.behind_header o.readable)
          (elim o.fails [
            | inl e ↦ rw e refl
            | inr (e, f) ↦ rw (e, buffer_of-append t o.tail around.behind_data, f) refl
          ]))

  write_one_buffer-broken :
      (around : Surroundings) (queue : List PicoRecord) (t : Text) (s : Session)
      → s.buffer_queue ≡ queue ++ new_record t ∷ []
      → NoNul t
      → 2 < length t
      → IsBroken lib around (length t)
      → write_one_buffer lib around s ≡ throws
  unfolding write_one_buffer
  write_one_buffer-broken around queue t s q no_nul long o =
      rw
        (
          q,
          snoc-is_empty queue (new_record t),
          last?-snoc queue (new_record t),
          all_but_last-snoc queue (new_record t),
        )
        (write_record-broken around queue t s no_nul long o)

  -- The session is over when a reply cannot be written, however many messages it has answered.
  pub start-broken :
      (es : List Exchange) (e : Exchange) (rest : List ℕ) (arounds : List Surroundings)
      (arrivals : List Arrival) (s : Session)
      → All (IsServed lib) es
      → IsUnanswerable e
      → s.incoming ≡ requests lib es ++ (framed lib e.text e.behind ++ rest)
      → IsAllocated s.async_reader
      → start lib
          (surroundings lib es ++ e.around ∷ arounds)
          (reads lib es ++ e.header_read ∷ e.text_read ∷ arrivals)
          s
        ≡ returns none
  unfolding start rounds
  start-broken es e rest arounds arrivals s v u inc alloc =
      let (s', runs, done) =
        rounds-Served lib es (framed lib e.text e.behind ++ rest) (e.around ∷ arounds)
          (e.header_read ∷ e.text_read ∷ arrivals) s v inc alloc in
      rw
        (
          runs,
          read_one_buffer-framed lib e.text e.behind rest e.header_read e.text_read arrivals s'
              done.left u.receivable u.readable u.whole_header u.whole_text done.allocated,
          write_one_buffer-broken e.around s'.buffer_queue e.text
              (has_read lib e.text e.behind rest s') refl u.no_nul u.long u.broken,
        )
        refl
