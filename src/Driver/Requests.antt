-- ===== src/Driver/Requests.antt =====
-- The calls of the driver in PicoDB/pico/pico_client.h that a program makes.
use pico_db.Prelude.{
  ℕ, ◌*◌, Bool, List, [], ◌∷◌, ◌++◌, Option, none, some, Outcome, returns, waits, ◌>>=◌, Text,
  codes, text_eq, is_empty, leb, ◌==◌, if◌then◌else◌,
}
use pico_db.Queue.Vector.{peek, remove}
use pico_db.Message.{Message, Libraries}
use pico_db.Message.Constructors.{new_message, reply_message}
use pico_db.Driver.{Driver, Response, queue_request_messages, queue_the_response}

-- One round of the loop that looks for a reply: the responses that the other thread queues before
-- it, and whether `peek` gets the lock.
pub record Turn : Type 0 where
  pub arrived : List Message
  pub locked : Bool

-- What the other thread does before a turn.
unfoldable pub arrive : List Message → Driver → Driver
unfolding queue_the_response
arrive [] d = d
arrive (m ∷ ms) d = arrive ms (queue_the_response m d)

abbrev pub nanoseconds : ℕ
nanoseconds = 1000000000

-- `responseQueue_.remove(response)` compares pointers.
unfoldable pub remove_response : Response → Driver → Driver
remove_response (p, m) d = record d { response_queue = remove (λ r. r.0 == p) d.response_queue }

-- The peeked response, if its id is that of the request.
abbrev pub matching : Message → Option Response → Option Response
matching msg none = none
matching msg (some r) = if text_eq r.1.message_id msg.message_id then some r else none

-- the look at the queue in one round
unfoldable pub look : Bool → Message → List Response → Outcome (Option Response)
look locked msg queue =
    if is_empty queue
    then returns none
    else do response ← peek (locked ∷ []) queue; returns (matching msg response)

module _ (lib : Libraries) where
  unfoldable pub timeout_response : Message → Message
  timeout_response msg =
      let timeout =
        codes "OPERATION TIMED OUT for this command :  !"
        ++ msg.command
        ++ codes " with this message id : "
        ++ msg.message_id in
      reply_message lib msg.key timeout msg.message_id

  -- getTheResponseOfRequest. Both times are taken in front of the loop: `elapsed` is what passes
  -- between the two calls of the clock, in nanoseconds. Without more turns the loop is still running.
  unfoldable pub get_the_response_of_request :
      ℕ → ℕ → List Turn → Message → Driver → Outcome (Message × Driver)
  unfolding arrive look remove_response timeout_response
  get_the_response_of_request user_time_out elapsed [] msg d = waits
  get_the_response_of_request user_time_out elapsed (turn ∷ turns) msg d =
      let now = arrive turn.arrived d in
      let again = get_the_response_of_request user_time_out elapsed turns msg now in
      look turn.locked msg now.response_queue >>= λ found. elim found [
        | some response ↦ returns (response.1, remove_response response now)
        | none ↦
            if leb (user_time_out * nanoseconds) elapsed
            then returns (timeout_response msg, now)
            else again
      ]

-- PicoConfig::defaultTimeoutInSec is set by the program that uses the driver.
module _ (lib : Libraries) (default_timeout_in_sec : ℕ) where
  -- Each call queues its request and looks for the reply; the id of the request, which is drawn at
  -- random, is an argument.
  unfoldable pub request : ℕ → List Turn → Message → Driver → Outcome (Message × Driver)
  unfolding queue_request_messages get_the_response_of_request
  request elapsed turns msg d =
      get_the_response_of_request lib default_timeout_in_sec elapsed turns msg
        (queue_request_messages msg d)

  unfoldable pub insert : Text → Text → Text → ℕ → List Turn → Driver → Outcome (Message × Driver)
  unfolding request
  insert request_id key value elapsed turns d =
      request elapsed turns
        (new_message lib request_id key value (codes "insert") d.database d.user d.col) d

  -- The name of the collection is not used.
  unfoldable pub delete_collection :
      Text → Text → ℕ → List Turn → Driver → Outcome (Message × Driver)
  unfolding request
  delete_collection request_id collection_name elapsed turns d =
      let key = codes "unimportant" in
      let value = codes "unimportant" in
      request elapsed turns
        (new_message lib request_id key value (codes "deleteCollection") d.database d.user d.col) d

  unfoldable pub create_collection :
      Text → Text → ℕ → List Turn → Driver → Outcome (Message × Driver)
  unfolding request
  create_collection request_id collection_name elapsed turns d =
      let key = codes "unimportant" in
      let value = codes "unimportant" in
      request elapsed turns
        (new_message lib request_id key value (codes "createCollection") d.database d.user d.col) d

  unfoldable pub delete_record : Text → Text → ℕ → List Turn → Driver → Outcome (Message × Driver)
  unfolding request
  delete_record request_id key elapsed turns d =
      request elapsed turns
        (new_message lib request_id key (codes "unimportant") (codes "delete") d.database d.user
          d.col)
        d

  unfoldable pub update : Text → Text → Text → ℕ → List Turn → Driver → Outcome (Message × Driver)
  unfolding request
  update request_id key new_value elapsed turns d =
      request elapsed turns
        (new_message lib request_id key new_value (codes "update") d.database d.user d.col) d

  -- The time that the caller allows is not passed on.
  unfoldable pub get : Text → Text → ℕ → ℕ → List Turn → Driver → Outcome (Message × Driver)
  unfolding request
  get request_id key user_time_out elapsed turns d =
      request elapsed turns
        (new_message lib request_id key [] (codes "get") d.database d.user d.col) d
