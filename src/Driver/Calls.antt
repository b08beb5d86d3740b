-- ===== src/Driver/Calls.antt =====
-- The six calls of the driver in PicoDB/pico/pico_client.h, as one operation.
use pico_db.Prelude.{
  ℕ, ◌*◌, ◌<◌, ◌≡◌, refl, sym, ◌∙◌, true, List, [], ◌∷◌, ◌++◌, Outcome, returns, Text, codes,
}
use pico_db.Message.{Message, Libraries}
use pico_db.Message.Constructors.{new_message}
use pico_db.Driver.{Driver, queue_request_messages}
use pico_db.Driver.Requests.{
  Turn, arrive, nanoseconds, get_the_response_of_request, request, insert, delete_collection,
  create_collection, delete_record, update, get,
}
use pico_db.Driver.Order.{IsOrdered}
use pico_db.Driver.Responses.{
  after, Unanswered, get_the_response_of_request-id, get_the_response_of_request-answer,
}

pub data Operation : Type 0 where
  inserts : Text → Text → Operation
  drops : Text → Operation
  creates : Text → Operation
  deletes : Text → Operation
  updates : Text → Text → Operation
  gets : Text → ℕ → Operation

module _ (lib : Libraries) (default_timeout_in_sec : ℕ) where
  abbrev pub call : Operation → Text → ℕ → List Turn → Driver → Outcome (Message × Driver)
  call (inserts key value) request_id = insert lib default_timeout_in_sec request_id key value
  call (drops collection_name) request_id =
      delete_collection lib default_timeout_in_sec request_id collection_name
  call (creates collection_name) request_id =
      create_collection lib default_timeout_in_sec request_id collection_name
  call (deletes key) request_id = delete_record lib default_timeout_in_sec request_id key
  call (updates key new_value) request_id =
      update lib default_timeout_in_sec request_id key new_value
  call (gets key user_time_out) request_id =
      get lib default_timeout_in_sec request_id key user_time_out

  -- the key, the value and the command of the request
  abbrev pub parts : Operation → Text × (Text × Text)
  parts (inserts key value) = (key, (value, codes "insert"))
  parts (drops collection_name) =
      (codes "unimportant", (codes "unimportant", codes "deleteCollection"))
  parts (creates collection_name) =
      (codes "unimportant", (codes "unimportant", codes "createCollection"))
  parts (deletes key) = (key, (codes "unimportant", codes "delete"))
  parts (updates key new_value) = (key, (new_value, codes "update"))
  parts (gets key user_time_out) = (key, ([], codes "get"))

  abbrev pub request_of : Operation → Text → Driver → Message
  request_of op request_id d =
      let (key, rest) = parts op in
      let (value, command) = rest in
      new_message lib request_id key value command d.database d.user d.col

  call-request :
      (op : Operation) (request_id : Text) (elapsed : ℕ) (turns : List Turn) (d : Driver)
      → call op request_id elapsed turns d
        ≡ get_the_response_of_request lib default_timeout_in_sec elapsed turns
            (request_of op request_id d)
            (queue_request_messages (request_of op request_id d) d)
  unfolding insert delete_collection create_collection delete_record update get request
  call-request (inserts key value) request_id elapsed turns d = refl
  call-request (drops collection_name) request_id elapsed turns d = refl
  call-request (creates collection_name) request_id elapsed turns d = refl
  call-request (deletes key) request_id elapsed turns d = refl
  call-request (updates key new_value) request_id elapsed turns d = refl
  call-request (gets key user_time_out) request_id elapsed turns d = refl

  -- Each of the six calls of the driver returns the message that is found at the back of the response
  -- queue with the id of its own request, after any number of turns without one, and takes just that
  -- message out of the queue, if the responses have addresses of their own and the clock is called
  -- twice within the timeout.
  pub call-answer :
      (op : Operation) (request_id : Text) (elapsed : ℕ) (idle : List Turn) (t : Turn)
      (more : List Turn) (m : Message) (d : Driver) (q : List (ℕ × Message)) (p : ℕ)
      → let msg = request_of op request_id d in
        let queued = queue_request_messages msg d in
        elapsed < default_timeout_in_sec * nanoseconds
        → Unanswered lib msg idle queued
        → IsOrdered d
        → t.locked ≡ true
        → (arrive t.arrived (after lib idle queued)).response_queue ≡ q ++ (p, m) ∷ []
        → m.message_id ≡ request_id
        → call op request_id elapsed (idle ++ t ∷ more) d
          ≡ returns (m, record (arrive t.arrived (after lib idle queued)) { response_queue = q })
  unfolding queue_request_messages new_message
  call-answer op request_id elapsed idle t more m d q p early none_found ordered lock e id =
      let msg = request_of op request_id d in
      call-request op request_id elapsed (idle ++ t ∷ more) d
      ∙ get_the_response_of_request-answer lib default_timeout_in_sec elapsed idle t more msg m
          (queue_request_messages msg d) q p early none_found ordered lock e id

  -- Whatever one of the calls returns, an answer or the message about a timeout, has the id of its
  -- request.
  pub call-id :
      (op : Operation) (request_id : Text) (elapsed : ℕ) (turns : List Turn) (d : Driver)
      (m : Message) (d' : Driver)
      → call op request_id elapsed turns d ≡ returns (m, d')
      → m.message_id ≡ request_id
  unfolding new_message
  call-id op request_id elapsed turns d m d' h =
      let msg = request_of op request_id d in
      get_the_response_of_request-id lib default_timeout_in_sec elapsed turns msg
        (queue_request_messages msg d) m d' (sym (call-request op request_id elapsed turns d) ∙ h)
