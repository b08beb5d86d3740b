-- ===== src/Driver/Trip.antt =====
-- A request of PicoDB/pico/pico_client.h on its way through PicoDB/pico/pico_session.h and back.
use pico_db.Prelude.{
  ℕ, ◌*◌, ◌≤◌, ◌<◌, ◌≡◌, refl, ap, sym, ◌∙◌, [], ◌∷◌, ◌++◌, none, some, returns, returns-injective,
  true, pos, Text, length, append-nil,
}
use pico_db.Message.{Message, Libraries}
use pico_db.Message.Constructors.{new_message}
use pico_db.Message.Json.{ReadsBack}
use pico_db.Message.Fields.{request_members, parse-new_message}
use pico_db.Socket.{Arrival, Surroundings}
use pico_db.AsyncReader.{IsAllocated}
use pico_db.Wire.{frame_header}
use pico_db.Session.{Session, new_session, start}
use pico_db.Session.Echo.{Exchange, IsServed, start-echoes}
use pico_db.Session.Receive.{framed}
use pico_db.Driver.{
  Driver, queue_request_messages, queue_the_response, write_one_buffer, read_one_buffer,
}
use pico_db.Driver.Requests.{arrive, get_the_response_of_request, nanoseconds}
use pico_db.Driver.Order.{IsOrdered, queue_the_response-IsOrdered}
use pico_db.Driver.Send.{IsTerminated, sent, write_one_buffer-request}
use pico_db.Driver.Receive.{has_reply, read_one_buffer-reply}
use pico_db.Driver.Responses.{get_the_response_of_request-answer}

-- What surrounds one trip: the memory around the client's write, the server's side, and the two
-- reads of the client.
pub record Travel : Type 0 where
  pub around : Surroundings
  pub header_read : Arrival
  pub text_read : Arrival
  pub server_around : Surroundings
  pub reply_header_read : Arrival
  pub reply_text_read : Arrival

module _ (lib : Libraries) (w : Travel) where
  abbrev pub exchange : Text → Exchange
  exchange t = record {
    text = t;
    behind = w.around.behind_header;
    header_read = w.header_read;
    text_read = w.text_read;
    around = w.server_around;
  }

  -- Everything that is read is there, and arrives in one piece.
  pub record IsSmooth (t : Text) : Type 0 where
    pub served : IsServed lib (exchange t)
    pub terminated : IsTerminated lib w.around (length t)
    pub whole_header : 10 ≤ w.reply_header_read.count
    pub whole_text : length t ≤ w.reply_text_read.count

  -- The steps of a request that comes back as `reply`.
  pub record ComesBack (timeout elapsed : ℕ) (msg reply : Message) (d : Driver) : Type 0 where
    pub written : Driver
    pub writes : write_one_buffer lib w.around (queue_request_messages msg d) ≡ returns written
    pub session : Session
    pub serves :
        start lib
          (w.server_around ∷ [])
          (w.header_read ∷ w.text_read ∷ [])
          (new_session written.outgoing)
        ≡ returns (some ([], session))
    pub answered : Driver
    pub receives :
        read_one_buffer lib
          (w.reply_header_read ∷ w.reply_text_read ∷ [])
          (pos 10)
          (record written { incoming = session.outgoing })
        ≡ returns ([], answered)
    pub finds :
        get_the_response_of_request lib timeout elapsed
          (record { arrived = []; locked = true } ∷ [])
          msg
          answered
        ≡ returns (reply, record answered { response_queue = d.response_queue })

  comes_back :
      (timeout elapsed : ℕ) (msg : Message) (d : Driver)
      (smooth : IsSmooth msg.json_form_of_message)
      → smooth.served.receivable.message.message_id ≡ msg.message_id
      → d.outgoing ≡ []
      → IsAllocated d.async_reader
      → IsOrdered d
      → elapsed < timeout * nanoseconds
      → ComesBack timeout elapsed msg smooth.served.receivable.message d
  unfolding queue_request_messages queue_the_response arrive
  comes_back timeout elapsed msg d smooth id fresh alloc ordered early =
      let t = msg.json_form_of_message in
      let served = smooth.served in
      let queued = queue_request_messages msg d in
      let written = sent lib w.around d.buffer_queue t queued in
      let stream : written.outgoing ≡ framed lib t w.around.behind_header ++ [] =
        ap (λ o. (o ++ frame_header lib.cast (length t) w.around.behind_header) ++ t) fresh
        ∙ sym (append-nil (framed lib t w.around.behind_header)) in
      let (session, runs, echo) =
        start-echoes lib (exchange t ∷ []) (new_session written.outgoing) (served, tt) stream tt in
      let m = served.receivable.message in
      record {
        written = written;
        writes =
            write_one_buffer-request lib w.around d.buffer_queue t queued refl served.no_nul
              served.long smooth.terminated;
        session = session;
        serves = runs;
        answered = has_reply lib m [] (record written { incoming = session.outgoing });
        receives =
            read_one_buffer-reply lib t w.server_around.behind_header [] w.reply_header_read
              w.reply_text_read [] (record written { incoming = session.outgoing }) echo.answers
              served.receivable served.orderly.readable smooth.whole_header smooth.whole_text alloc;
        finds =
            get_the_response_of_request-answer lib timeout elapsed []
              (record { arrived = []; locked = true }) [] msg m
              (has_reply lib m [] (record written { incoming = session.outgoing })) d.response_queue
              d.next_response early tt (queue_the_response-IsOrdered m d ordered) refl refl id;
      }

  -- A request that the driver makes, whatever its command, comes back as its own reply: the driver
  -- writes it, the session reads it and sends it back, the driver reads that, and the caller gets a
  -- message with all the parts, the id and the hash code of the request, and only the size not set.
  -- The response queue is as it was then. Needed are a request that is received whole and not taken
  -- for a size, a JSON library that reads back what it wrote, a driver that has sent nothing yet and
  -- whose queue is ordered, orderly memory, a connection that does not fail, and a clock that is
  -- called twice within the timeout.
  pub new_message-ComesBack :
      (timeout elapsed : ℕ) (request_id key value command db user collection : Text) (d : Driver)
      → ReadsBack lib.json (request_members lib request_id key value command db user collection)
      → IsSmooth
          (new_message lib request_id key value command db user collection).json_form_of_message
      → d.outgoing ≡ []
      → IsAllocated d.async_reader
      → IsOrdered d
      → elapsed < timeout * nanoseconds
      → let msg = new_message lib request_id key value command db user collection in
        ComesBack timeout elapsed msg (record msg { message_size = none }) d
  new_message-ComesBack timeout elapsed request_id key value command db user collection d back
        smooth fresh alloc ordered early =
      let msg = new_message lib request_id key value command db user collection in
      let same : smooth.served.receivable.message ≡ record msg { message_size = none } =
        returns-injective (
          sym smooth.served.receivable.parses
          ∙ parse-new_message lib request_id key value command db user collection back) in
      rw same at (
        comes_back timeout elapsed msg d smooth (ap (λ m. m.message_id) same) fresh alloc ordered
          early)
