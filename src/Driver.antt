-- ===== src/Driver.antt =====
-- PicoDB/pico/pico_client.h: the client's driver. One thread writes requests and reads replies; the
-- caller's thread queues a request and then looks for its reply.
pub mod Requests
pub mod Order
pub mod Responses
pub mod Send
pub mod Receive
pub mod Trip
pub mod Loop
pub mod Rounds
pub mod Calls
pub mod Conversation
pub mod Connect
pub mod Waking
pub mod Trace
use pico_db.Prelude.{
  ℕ, zero, suc, ◌+◌, ◌*◌, Bool, true, false, not, ◌&&◌, List, [], ◌∷◌, ◌++◌, Option, none, some,
  Outcome, returns, aborts, throws, undefined, waits, ◌>>=◌, ◌>>◌, assert, ℤ, pos, is_positive,
  magnitude, to_int, Text, codes, text_eq, c_string, is_empty, length, leb, ◌==◌, if◌then◌else◌,
}
use pico_db.Utils.{get_proper_message_about_size}
use pico_db.Queue.Vector.{pop_locked, push_back_locked, peek, remove}
use pico_db.Record.{
  PicoRecord, blank_record, defined, to_string, get_data_for_write, get_data_for_read, get_size,
  is_this_record_a_size_info, read_block,
}
use pico_db.Message.{Message, Libraries, get_complete_message_in_json_as_on_buffer}
use pico_db.Message.Constructors.{parse_message, new_message, reply_message}
use pico_db.Message
use pico_db.Socket.{Arrival, Surroundings, received, left_over, buffer_of}
use pico_db.AsyncReader.{AsyncReader, get_one_buffer, return_the_buffer}
use pico_db.Wire.{size_digits}

-- A response is a shared pointer: its address, and the message there.
abbrev pub Response : Type 0
Response = ℕ × Message

pub record Driver : Type 0 where
  -- the socket: what the server sent and is not read yet, and what was written to it
  pub incoming : List ℕ
  pub outgoing : List ℕ
  -- indeterminate until the connection stands
  pub client_is_connected : Option Bool
  pub response_queue : List Response
  -- the address of the next response
  pub next_response : ℕ
  pub buffer_queue : List PicoRecord
  pub database : Text
  pub user : Text
  pub col : Text
  pub async_reader : AsyncReader
  pub number_of_message_read : ℕ
  pub number_of_message_sent : ℕ

-- setDefaultParameter
set_default_parameter : Driver → Driver
set_default_parameter d = record d {
  database = d.database ++ codes "currencyDB";
  user = d.user ++ codes "currencyUser";
  col = d.col ++ codes "currencyCollection";
}

-- PonocoDriver()
unfoldable pub new_driver : Driver
unfolding set_default_parameter
new_driver = set_default_parameter (record {
  incoming = [];
  outgoing = [];
  client_is_connected = none;
  response_queue = [];
  next_response = 0;
  buffer_queue = [];
  database = [];
  user = [];
  col = [];
  async_reader = record { single_buffer_list = []; next_pointer = 0 };
  number_of_message_read = 0;
  number_of_message_sent = 0;
})

-- queueRequestMessages
unfoldable pub queue_request_messages : Message → Driver → Driver
queue_request_messages message d = record d {
  buffer_queue =
      push_back_locked d.buffer_queue (get_complete_message_in_json_as_on_buffer message);
}

-- queueTheResponse
unfoldable pub queue_the_response : Message → Driver → Driver
queue_the_response msg d = record d {
  response_queue = push_back_locked d.response_queue (d.next_response, msg);
  next_response = suc d.next_response;
}

-- processDataFromOtherSide; `processResponse` only logs.
pub process_data_from_other_side : Message → Driver → Outcome Driver
unfolding queue_the_response
process_data_from_other_side message d = do
  let counted = record d { number_of_message_read = d.number_of_message_read + 1 }
  let queued = queue_the_response message counted
  assert (not (is_empty (Message.to_string message)))
  returns queued

abbrev pub Reading : Type 0
Reading = Outcome (List Arrival × Driver)

module _ (lib : Libraries) where
  -- convertToSomething<long>
  abbrev next_size : Option Text → Outcome ℤ
  next_size none = undefined
  next_size (some digits) = elim (lib.cast.to_long digits) [ none ↦ throws | some n ↦ returns n ]

  -- the branch of `processTheBufferJustRead` for a size; `again` is `readOneBuffer`, which takes an
  -- `int`
  read_next : (ℤ → Driver → Reading) → PicoRecord → Driver → Reading
  read_next again buffer d = do
    size ← get_size buffer
    bytes ← defined buffer.block
    chars ← read_block size bytes
    next ← next_size (size_digits chars)
    again (to_int next) d

  -- the branch for a message
  read_message : List Arrival → Text → Driver → Reading
  unfolding process_data_from_other_side
  read_message arrivals str d = do
    last_read_message ← parse_message lib str
    done ← process_data_from_other_side last_read_message d
    returns (arrivals, done)

  abbrev dispatch :
      Bool → (ℤ → Driver → Reading) → List Arrival → PicoRecord → Text → Driver → Reading
  dispatch true again arrivals buffer str d = read_next again buffer d
  dispatch false again arrivals buffer str d = read_message arrivals str d

  -- processTheBufferJustRead, which does not look at the number of bytes that were received
  pub process_the_buffer_just_read :
      (ℤ → Driver → Reading) → List Arrival → PicoRecord → ℕ → Driver → Reading
  unfolding read_next read_message
  process_the_buffer_just_read again arrivals buffer t d = do
    str ← to_string buffer
    is_size ← is_this_record_a_size_info buffer
    dispatch is_size again arrivals buffer str d

  abbrev returned : ℕ → List Arrival × Driver → Reading
  returned p (arrivals, d) =
      returns (arrivals, record d { async_reader = return_the_buffer p d.async_reader })

  -- the body of `readOneBuffer` behind its assertion
  read_buffer : (ℤ → Driver → Reading) → Arrival → List Arrival → ℕ → Driver → Reading
  unfolding process_the_buffer_just_read
  read_buffer again a arrivals size d =
      let (p, reader) = get_one_buffer d.async_reader in
      let bytes = received size a d.incoming in
      let buffer = get_data_for_read size bytes a.fresh blank_record in
      process_the_buffer_just_read again arrivals buffer (length bytes)
        (record d { async_reader = reader; incoming = left_over size a d.incoming })
      >>= returned p

  -- readOneBuffer, by recursion on the arrivals
  pub read_one_buffer : List Arrival → ℤ → Driver → Reading
  unfolding read_buffer
  read_one_buffer [] n d = do assert (is_positive n); waits
  read_one_buffer (a ∷ arrivals) n d = do
    assert (is_positive n)
    read_buffer (read_one_buffer arrivals) a arrivals (magnitude n) d

  -- one call of `boost::asio::write`, as `writeOneMessageToOtherSide` makes it; it throws if the
  -- connection fails.
  write_socket : Bool → ℕ → Text → List ℕ → Driver → Outcome Driver
  write_socket fails size text behind d = do
    let counted = record d { number_of_message_sent = d.number_of_message_sent + 1 }
    bytes ← buffer_of size text behind
    if fails then throws else returns (record counted { outgoing = counted.outgoing ++ bytes })

  -- writeOneMessageToOtherSide(header, 10, true, data, dataSize), and its call of itself
  pub write_one_message_to_other_side : Surroundings → Text → ℕ → Text → ℕ → Driver → Outcome Driver
  unfolding write_socket
  write_one_message_to_other_side around header size real_data real_size d = do
    sent ← write_socket around.header_fails size header around.behind_header d
    write_socket around.data_fails real_size real_data around.behind_data sent

  abbrev write_record : Surroundings → Option PicoRecord × List PicoRecord → Driver → Outcome Driver
  write_record around (none, queue) d = undefined
  write_record around (some buffer, queue) d = do
    (data_text, loaded) ← get_data_for_write around.behind_record buffer
    data_size ← get_size loaded
    let data_size_as_str = lib.cast.to_text data_size
    write_one_message_to_other_side around (get_proper_message_about_size data_size_as_str []) 10
        data_text data_size (record d { buffer_queue = queue })

  -- writeOneBuffer: with an empty queue the thread waits until another one queues a request.
  pub write_one_buffer : Surroundings → Driver → Outcome Driver
  unfolding write_one_message_to_other_side
  write_one_buffer around d =
      if is_empty d.buffer_queue then waits else write_record around (pop_locked d.buffer_queue) d
