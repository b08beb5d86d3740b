-- ===== src/Session.antt =====
-- PicoDB/pico/pico_session.h: the server's side of a connection. Reading and writing run on one
-- thread, so the queues of the session are used without waiting for their lock.
pub mod Read
pub mod Write
pub mod Receive
pub mod Echo
pub mod Short
pub mod Failure
pub mod HangUp
pub mod Broken
pub mod Trace
use pico_db.Prelude.{
  ℕ, zero, suc, ◌+◌, Bool, true, false, not, List, [], ◌∷◌, ◌++◌, Option, none, some, Outcome,
  returns, aborts, throws, undefined, waits, ◌>>=◌, ◌>>◌, assert, ℤ, pos, negsuc, is_positive,
  to_int, Text, c_string, is_empty, length, if◌then◌else◌,
}
use pico_db.Utils.{get_proper_message_about_size}
use pico_db.Queue.Vector.{pop_locked, push_back_locked}
use pico_db.Record.{
  PicoRecord, blank_record, new_record, defined, to_string, get_data_for_write, get_data_for_read,
  get_size, is_this_record_a_size_info, read_block,
}
use pico_db.Message.{Message, Libraries, get_complete_message_in_json_as_on_buffer}
use pico_db.Message.Constructors.{parse_message}
use pico_db.Message
use pico_db.Socket.{Arrival, Surroundings, received, left_over, buffer_of}
use pico_db.AsyncReader.{AsyncReader, get_one_buffer, return_the_buffer}
use pico_db.Wire.{size_digits}

pub record Session : Type 0 where
  -- the socket: what the client sent and is not read yet, and what was written to it
  pub incoming : List ℕ
  pub outgoing : List ℕ
  pub message_number : ℕ
  pub number_of_chars_to_read : ℕ
  pub async_reader : AsyncReader
  pub buffer_queue : List PicoRecord
  pub list_of_all_messages : List Text
  pub number_of_message_read : ℕ
  pub number_of_message_sent : ℕ

-- The connection as it is accepted, with what the client is going to send.
abbrev pub new_session : List ℕ → Session
new_session incoming = record {
  incoming = incoming;
  outgoing = [];
  message_number = 0;
  number_of_chars_to_read = 10;
  async_reader = record { single_buffer_list = []; next_pointer = 0 };
  buffer_queue = [];
  list_of_all_messages = [];
  number_of_message_read = 0;
  number_of_message_sent = 0;
}

-- A read leaves the arrivals that it did not need.
abbrev pub Reading : Type 0
Reading = Outcome (List Arrival × Session)

-- queueMessages
pub queue_messages : Message → Session → Session
queue_messages message s = record s {
  buffer_queue =
      push_back_locked s.buffer_queue (get_complete_message_in_json_as_on_buffer message);
}

-- processDataFromOtherSide: the reply is the message itself.
pub process_data_from_other_side : Message → Session → Outcome Session
unfolding queue_messages
process_data_from_other_side message s = do
  let counted = record s { number_of_message_read = s.number_of_message_read + 1 }
  let reply = message
  assert (not (is_empty (Message.to_string reply)))
  returns (queue_messages reply counted)

module _ (lib : Libraries) where
  -- convertToSomething<long>
  abbrev next_size : Option Text → Outcome ℤ
  next_size none = undefined
  next_size (some digits) = elim (lib.cast.to_long digits) [ none ↦ throws | some n ↦ returns n ]

  -- the branch of `processTheBufferJustRead` for a size; `again` is `readOneBuffer`
  read_next : (ℤ → Session → Reading) → PicoRecord → Session → Reading
  read_next again buffer s = do
    size ← get_size buffer
    bytes ← defined buffer.block
    chars ← read_block size bytes
    next ← next_size (size_digits chars)
    again next s

  -- the branch for a message
  read_message : List Arrival → Text → Session → Reading
  unfolding process_data_from_other_side
  read_message arrivals text s = do
    last_read_message ← parse_message lib text
    done ← process_data_from_other_side last_read_message s
    returns (arrivals, done)

  abbrev dispatch :
      Bool → (ℤ → Session → Reading) → List Arrival → PicoRecord → Text → Session → Reading
  dispatch true again arrivals buffer text s = read_next again buffer s
  dispatch false again arrivals buffer text s = read_message arrivals text s

  -- processTheBufferJustRead; the number of bytes that were received is an argument of the code that
  -- it does not look at.
  pub process_the_buffer_just_read :
      (ℤ → Session → Reading) → List Arrival → PicoRecord → ℕ → Session → Reading
  unfolding read_next read_message
  process_the_buffer_just_read again arrivals buffer t s = do
    text ← to_string buffer
    let logged = record s {
      message_number = s.message_number + 1;
      list_of_all_messages = push_back_locked s.list_of_all_messages text;
    }
    is_size ← is_this_record_a_size_info buffer
    dispatch is_size again arrivals buffer text logged

  -- the end of `readSync`
  abbrev returned : ℕ → List Arrival × Session → Reading
  returned p (arrivals, s) = returns (
    arrivals,
    record s { async_reader = return_the_buffer p s.async_reader; number_of_chars_to_read = 10 },
  )

  -- readSync
  pub read_sync : (ℤ → Session → Reading) → Arrival → List Arrival → ℕ → Session → Reading
  unfolding process_the_buffer_just_read
  read_sync again a arrivals size s =
      let (p, reader) = get_one_buffer s.async_reader in
      let bytes = received size a s.incoming in
      let buffer = get_data_for_read size bytes a.fresh blank_record in
      process_the_buffer_just_read again arrivals buffer (length bytes) (record s {
        async_reader = reader;
        number_of_chars_to_read = size;
        incoming = left_over size a s.incoming;
      })
      >>= returned p

  -- A buffer of so many characters is allocated, unless the number is negative.
  abbrev allocated : (ℕ → Session → Reading) → ℤ → Session → Reading
  allocated read (pos size) s = read size s
  allocated read (negsuc n) s = throws

  -- readOneBuffer, by recursion on the arrivals: without one, `read_some` does not come back. The
  -- `long` becomes an `int` when it is stored.
  pub read_one_buffer : List Arrival → ℤ → Session → Reading
  unfolding read_sync
  read_one_buffer [] n s = do assert (is_positive n); waits
  read_one_buffer (a ∷ arrivals) n s = do
    assert (is_positive n)
    allocated (read_sync (read_one_buffer arrivals) a arrivals) (to_int n) s

  -- one call of `boost::asio::write`, as `writeOneMessageToOtherSide` makes it; it throws if the
  -- connection fails.
  write_socket : Bool → ℕ → Text → List ℕ → Session → Outcome Session
  write_socket fails size text behind s = do
    bytes ← buffer_of size text behind
    let counted = record s { number_of_message_sent = s.number_of_message_sent + 1 }
    if fails then throws else returns (record counted { outgoing = counted.outgoing ++ bytes })

  -- writeOneMessageToOtherSide(header, 10, true, data, dataSize), and its call of itself
  pub write_one_message_to_other_side :
      Surroundings → Text → ℕ → Text → ℕ → Session → Outcome Session
  unfolding write_socket
  write_one_message_to_other_side around header size real_data real_size s = do
    sent ← write_socket around.header_fails size header around.behind_header s
    write_socket around.data_fails real_size real_data around.behind_data sent

  abbrev write_record :
      Surroundings → Option PicoRecord × List PicoRecord → Session → Outcome Session
  write_record around (none, queue) s = undefined
  write_record around (some buffer, queue) s = do
    (text, loaded) ← get_data_for_write around.behind_record buffer
    size ← get_size loaded
    size_text ← defined (c_string (around.stale (lib.cast.to_text size)))
    write_one_message_to_other_side around (get_proper_message_about_size size_text []) 10 text size
        (record s { buffer_queue = queue })

  -- writeOneBuffer: with an empty queue the session waits for a notification, which only this thread
  -- could send. The text of the size is read through a pointer into a destroyed string.
  pub write_one_buffer : Surroundings → Session → Outcome Session
  unfolding write_one_message_to_other_side
  write_one_buffer around s =
      if is_empty s.buffer_queue then waits else write_record around (pop_locked s.buffer_queue) s

  -- `catch (const std::exception&)` of `start`: the session is over.
  abbrev caught {ℓ} : {A : Type ℓ} → Outcome A → Outcome (Option A)
  caught (returns a) = returns (some a)
  caught throws = returns none
  caught aborts = aborts
  caught undefined = undefined
  caught waits = waits

  -- so many rounds of the loop of `start`, each with its surroundings
  pub rounds : List Surroundings → List Arrival → Session → Reading
  unfolding read_one_buffer write_one_buffer
  rounds [] arrivals s = returns (arrivals, s)
  rounds (around ∷ more) arrivals s = do
    (arrivals', s') ← read_one_buffer arrivals (pos 10) s
    s'' ← write_one_buffer around s'
    rounds more arrivals' s''

  -- start()
  pub start : List Surroundings → List Arrival → Session → Outcome (Option (List Arrival × Session))
  unfolding rounds
  start arounds arrivals s = caught (rounds arounds arrivals s)
