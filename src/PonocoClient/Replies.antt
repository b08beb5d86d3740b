-- ===== src/PonocoClient/Replies.antt =====
-- The loop of `insertOneBigRandomData` of PicoDB/pico/PonocoClient.h, when the replies come.
use pico_db.Prelude.{
  ℕ, suc, ◌+◌, ◌*◌, ◌<◌, ◌≡◌, refl, ap, ◌∙◌, true, List, [], ◌∷◌, ◌++◌, All, returns, Text, codes,
  length, arith, append_assoc, append-nil,
}
use pico_db.Queue.Vector.{push_back_locked}
use pico_db.Record.{PicoRecord}
use pico_db.Message.{Message, Libraries, get_complete_message_in_json_as_on_buffer}
use pico_db.Message.Constructors.{new_message}
use pico_db.Driver.{Driver, queue_request_messages, queue_the_response}
use pico_db.Driver.Requests.{Turn, arrive, look, nanoseconds}
use pico_db.Driver.Order.{IsOrdered}
use pico_db.Driver.Responses.{after, Unanswered}
use pico_db.Driver.Calls.{Operation, inserts, call, request_of, call-answer}
use pico_db.PonocoClient.{Ask, random_small_key, insert_random_data}

-- The reply to a request comes after any number of turns in which nothing does.
pub record IsPrompt (default_timeout_in_sec : ℕ) (a : Ask) : Type 0 where
  pub idle : List Turn
  pub turn : Turn
  pub more : List Turn
  pub reply : Message
  pub splits : a.turns ≡ idle ++ turn ∷ more
  pub quiet : All (λ (t : Turn). t.arrived ≡ []) idle
  pub locked : turn.locked ≡ true
  pub arrives : turn.arrived ≡ reply ∷ []
  pub same_id : reply.message_id ≡ a.request_id
  pub early : a.elapsed < default_timeout_in_sec * nanoseconds

module _ (lib : Libraries) where
  after-quiet :
      (idle : List Turn) (d : Driver)
      → All (λ (t : Turn). t.arrived ≡ []) idle
      → after lib idle d ≡ d
  unfolding arrive
  after-quiet [] d h = refl
  after-quiet (t ∷ ts) d h = rw h.0 (after-quiet ts d h.1)

  quiet-Unanswered :
      (msg : Message) (idle : List Turn) (d : Driver)
      → d.response_queue ≡ []
      → All (λ (t : Turn). t.arrived ≡ []) idle
      → Unanswered lib msg idle d
  unfolding arrive look
  quiet-Unanswered msg [] d empty h = tt
  quiet-Unanswered msg (t ∷ ts) d empty h =
      (rw (h.0, empty) refl, rw h.0 (quiet-Unanswered msg ts d empty h.1))

  -- the driver once a request is queued and its reply is taken
  abbrev pub asked : Message → Driver → Driver
  asked msg d = record d {
    buffer_queue = push_back_locked d.buffer_queue (get_complete_message_in_json_as_on_buffer msg);
    response_queue = [];
    next_response = suc d.next_response;
  }

  pub call-asked :
      (timeout : ℕ) (op : Operation) (a : Ask) (v : IsPrompt timeout a) (d : Driver)
      → d.response_queue ≡ []
      → call lib timeout op a.request_id a.elapsed a.turns d
        ≡ returns (v.reply, asked (request_of lib timeout op a.request_id d) d)
  unfolding arrive queue_the_response queue_request_messages
  call-asked timeout op a v d empty =
      let msg = request_of lib timeout op a.request_id d in
      let queued = queue_request_messages msg d in
      let ordered : IsOrdered d = rw empty (omega arith) in
      let arrived : arrive v.turn.arrived (after lib v.idle queued)
          ≡ queue_the_response v.reply queued =
        rw (after-quiet v.idle queued v.quiet, v.arrives) refl in
      let there : (arrive v.turn.arrived (after lib v.idle queued)).response_queue
          ≡ (d.next_response, v.reply) ∷ [] =
        rw (arrived, empty) refl in
      rw v.splits (
        call-answer lib timeout op a.request_id a.elapsed v.idle v.turn v.more v.reply d []
          d.next_response v.early (quiet-Unanswered msg v.idle queued empty v.quiet) ordered
          v.locked there v.same_id
        ∙ ap (λ (x : Driver). returns (v.reply, record x { response_queue = [] })) arrived)

  -- what the loop asks for, from the round `i` on
  abbrev pub requests_from : ℕ → List (List ℕ × List ℕ × Ask) → Text → Text → Text → List PicoRecord
  requests_from i [] database user col = []
  requests_from i ((rands, rands', a) ∷ asks) database user col =
      let key = random_small_key lib i rands rands' in
      get_complete_message_in_json_as_on_buffer
        (new_message lib a.request_id key key (codes "insert") database user col)
      ∷ requests_from (i + 1) asks database user col

  -- The loop of `insertOneBigRandomData` goes through all its rounds: if the reply to each request
  -- comes at some turn, and nothing else comes, each round queues the request to insert its key, with
  -- the key as value, waits for the reply and takes it. At the end all requests have been queued in
  -- the order of the rounds, and the response queue is as empty as before.
  pub insert_random_data-asks :
      (timeout i : ℕ) (asks : List (List ℕ × List ℕ × Ask)) (d : Driver)
      → All (λ (r : List ℕ × List ℕ × Ask). IsPrompt timeout r.2) asks
      → d.response_queue ≡ []
      → insert_random_data lib timeout (length asks) i asks d
        ≡ returns (record d {
          buffer_queue = d.buffer_queue ++ requests_from i asks d.database d.user d.col;
          next_response = d.next_response + length asks;
        })
  unfolding insert_random_data
  insert_random_data-asks timeout i [] d v empty =
      rw (append-nil d.buffer_queue)
        (ap (λ k. returns (record d { next_response = k })) (omega arith))
  insert_random_data-asks timeout i ((rands, rands', a) ∷ asks) d v empty =
      let key = random_small_key lib i rands rands' in
      let msg = request_of lib timeout (inserts key key) a.request_id d in
      let request = get_complete_message_in_json_as_on_buffer msg in
      let more = requests_from (i + 1) asks d.database d.user d.col in
      rw (call-asked timeout (inserts key key) a v.0 d empty) (
        insert_random_data-asks timeout (i + 1) asks (asked msg d) v.1 refl
        ∙ rw (append_assoc d.buffer_queue (request ∷ []) more, empty)
            (ap
              (λ k. returns (record d {
                response_queue = [];
                next_response = k;
                buffer_queue = d.buffer_queue ++ request ∷ more;
              }))
              (omega arith)))
