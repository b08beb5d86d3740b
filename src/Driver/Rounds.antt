-- ===== src/Driver/Rounds.antt =====
-- Rounds of `start` of PicoDB/pico/pico_client.h: requests go out and replies come in.
use pico_db.Prelude.{
  ℕ, suc, ◌+◌, ◌*◌, ◌≤◌, ◌<◌, ◌≡◌, refl, ap, sym, ◌∙◌, Bool, true, false, List, [], ◌∷◌, ◌++◌, All,
  some, returns, Text, NoNul, length, arith, append_assoc, append-nil,
}
use pico_db.Record.{PicoRecord, new_record}
use pico_db.Message.{Message, Libraries}
use pico_db.Socket.{Arrival, Surroundings}
use pico_db.AsyncReader.{IsAllocated}
use pico_db.Wire.{frame_header, IsReadable}
use pico_db.Session.Receive.{IsReceivable, framed, All-weaken}
use pico_db.Driver.{Driver, Response}
use pico_db.Driver.Send.{IsTerminated, sent, write_one_buffer-request}
use pico_db.Driver.Receive.{has_reply, read_one_buffer-reply}
use pico_db.Driver.Loop.{rounds, start}

-- One request and its reply, with what the environment does about them.
pub record Call : Type 0 where
  pub request : Text
  pub around : Surroundings
  pub reply : Text
  pub behind : List ℕ
  pub header_read : Arrival
  pub text_read : Arrival

-- the requests in the queue, in which the first call is the newest
abbrev pub pending : List Call → List PicoRecord → List PicoRecord
pending [] queue = queue
pending (c ∷ cs) queue = pending cs queue ++ new_record c.request ∷ []

abbrev pub arounds : List Call → List Surroundings
arounds [] = []
arounds (c ∷ cs) = c.around ∷ arounds cs

abbrev pub arrivals_of : List Call → List Arrival
arrivals_of [] = []
arrivals_of (c ∷ cs) = c.header_read ∷ c.text_read ∷ arrivals_of cs

abbrev pub messages_of : List Response → List Message
messages_of [] = []
messages_of (r ∷ q) = r.1 ∷ messages_of q

messages_of-append :
    (q q' : List Response) → messages_of (q ++ q') ≡ messages_of q ++ messages_of q'
messages_of-append [] q' = refl
messages_of-append (r ∷ q) q' = ap (λ l. r.1 ∷ l) (messages_of-append q q')

module _ (lib : Libraries) where
  pub record IsAnswered (c : Call) : Type 0 where
    pub no_nul : NoNul c.request
    pub long : 2 < length c.request
    pub terminated : IsTerminated lib c.around (length c.request)
    pub receivable : IsReceivable lib c.reply
    pub readable : IsReadable lib.cast (length c.reply) c.behind
    pub whole_header : 10 ≤ c.header_read.count
    pub whole_text : length c.reply ≤ c.text_read.count

  -- what the server gets and what it sends, and the messages in that
  abbrev pub requests : List Call → List ℕ
  requests [] = []
  requests (c ∷ cs) = framed lib c.request c.around.behind_header ++ requests cs

  abbrev pub replies : List Call → List ℕ
  replies [] = []
  replies (c ∷ cs) = framed lib c.reply c.behind ++ replies cs

  abbrev pub messages : (cs : List Call) → All IsAnswered cs → List Message
  messages [] v = []
  messages (c ∷ cs) v = v.0.receivable.message ∷ messages cs v.1

  -- What a driver has done once all calls are answered.
  pub record Exchanged (cs : List Call) (v : All IsAnswered cs) (queue : List PicoRecord)
      (d d' : Driver) : Type 0 where
    pub nothing_left : d'.incoming ≡ []
    pub asked : d'.outgoing ≡ d.outgoing ++ requests cs
    pub rest_of_queue : d'.buffer_queue ≡ queue
    pub responses : messages_of d'.response_queue ≡ messages_of d.response_queue ++ messages cs v
    pub same_buffers : d'.async_reader.single_buffer_list ≡ d.async_reader.single_buffer_list
    pub counts_sent : d'.number_of_message_sent ≡ d.number_of_message_sent + 2 * length cs
    pub counts_read : d'.number_of_message_read ≡ d.number_of_message_read + length cs

  abbrev round : (c : Call) → IsAnswered c → List Call → List PicoRecord → Driver → Driver
  round c v cs queue d =
      has_reply lib v.receivable.message (replies cs)
        (sent lib c.around (pending cs queue) c.request d)

  rounds-step :
      (c : Call) (cs : List Call) (queue : List PicoRecord) (d : Driver) (v : IsAnswered c)
      → d.buffer_queue ≡ pending (c ∷ cs) queue
      → d.incoming ≡ replies (c ∷ cs)
      → IsAllocated d.async_reader
      → rounds lib (arounds (c ∷ cs)) (arrivals_of (c ∷ cs)) d
        ≡ rounds lib (arounds cs) (arrivals_of cs) (round c v cs queue d)
  unfolding rounds
  rounds-step c cs queue d v q inc alloc =
      rw
        (write_one_buffer-request lib c.around (pending cs queue) c.request d q v.no_nul v.long
          v.terminated)
        (rw
          (read_one_buffer-reply lib c.reply c.behind (replies cs) c.header_read c.text_read
            (arrivals_of cs) (sent lib c.around (pending cs queue) c.request d) inc v.receivable
            v.readable v.whole_header v.whole_text alloc)
          refl)

  rounds-Exchanged :
      (cs : List Call) (queue : List PicoRecord) (d : Driver) (v : All IsAnswered cs)
      → d.buffer_queue ≡ pending cs queue
      → d.incoming ≡ replies cs
      → IsAllocated d.async_reader
      → (d' : Driver) × (rounds lib (arounds cs) (arrivals_of cs) d ≡ returns ([], d'))
        × Exchanged cs v queue d d'
  unfolding rounds
  rounds-Exchanged [] queue d v q inc alloc = (
    d,
    refl,
    record {
      nothing_left = inc;
      asked = sym (append-nil d.outgoing);
      rest_of_queue = q;
      responses = sym (append-nil (messages_of d.response_queue));
      same_buffers = refl;
      counts_sent = omega arith;
      counts_read = omega arith;
    },
  )
  rounds-Exchanged (c ∷ cs) queue d v q inc alloc =
      let n = d.async_reader.next_pointer in
      let ps = d.async_reader.single_buffer_list in
      let m = v.0.receivable.message in
      let h = frame_header lib.cast (length c.request) c.around.behind_header in
      let (d', runs, done) =
        rounds-Exchanged cs queue (round c v.0 cs queue d) v.1 refl refl
          (All-weaken (suc n) ps (All-weaken n ps alloc)) in
      (
        d',
        rounds-step c cs queue d v.0 q inc alloc ∙ runs,
        record {
          nothing_left = done.nothing_left;
          asked =
              done.asked
              ∙ (ap (λ l. l ++ requests cs) (append_assoc d.outgoing h c.request)
                  ∙ append_assoc d.outgoing (h ++ c.request) (requests cs));
          rest_of_queue = done.rest_of_queue;
          responses =
              done.responses
              ∙ (ap (λ l. l ++ messages cs v.1)
                    (messages_of-append d.response_queue ((d.next_response, m) ∷ []))
                  ∙ append_assoc (messages_of d.response_queue) (m ∷ []) (messages cs v.1));
          same_buffers = done.same_buffers;
          counts_sent = omega (arith, done.counts_sent);
          counts_read = omega (arith, done.counts_read);
        },
      )

  -- `start` of the driver sends the requests in its queue, the newest first, each with its header, and
  -- queues the reply that it reads after each, in that order. It has read everything then, has left
  -- the older requests in the queue, has given all buffers back, and has counted two messages sent and
  -- one read for each call. The requests are such as can be sent, and the replies such as are received
  -- whole and parsed.
  pub start-Exchanged :
      (handled : Bool) (cs : List Call) (queue : List PicoRecord) (d : Driver)
      (v : All IsAnswered cs)
      → d.buffer_queue ≡ pending cs queue
      → d.incoming ≡ replies cs
      → IsAllocated d.async_reader
      → (d' : Driver) × (start lib handled false (arounds cs) (arrivals_of cs) d
          ≡ returns (some ([], d')))
        × Exchanged cs v queue d d'
  unfolding start
  start-Exchanged handled cs queue d v q inc alloc =
      let (d', runs, done) =
        rounds-Exchanged cs queue (record d { client_is_connected = some true }) v q inc alloc in
      (
        d',
        rw runs refl,
        record {
          nothing_left = done.nothing_left;
          asked = done.asked;
          rest_of_queue = done.rest_of_queue;
          responses = done.responses;
          same_buffers = done.same_buffers;
          counts_sent = done.counts_sent;
          counts_read = done.counts_read;
        },
      )
