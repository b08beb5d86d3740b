-- ===== src/Driver/Connect.antt =====
-- How the driver of PicoDB/pico/pico_client.h comes to a connection, its notifier, and its end.
use pico_db.Prelude.{
  Bool, false, not, List, [], ◌∷◌, Outcome, Option, some, returns, undefined, assert, is_empty,
  Text, if◌then◌else◌,
}
use pico_db.Message.{Libraries}
use pico_db.Socket.{Arrival, Surroundings}
use pico_db.Driver.{Driver}
use pico_db.Driver.Loop

module _ (lib : Libraries) where
  -- start_connect(socket, endpoint_iter), over the endpoints that are left: without one it does
  -- nothing; otherwise `start` is called with the error code of the attempt, and nothing else follows.
  unfoldable pub start_connect :
      Bool
      → List Text
      → Bool
      → List Surroundings
      → List Arrival
      → Driver
      → Outcome (Option (List Arrival × Driver))
  start_connect handled [] ec arounds arrivals d = returns (some (arrivals, d))
  start_connect handled (endpoint ∷ endpoints) ec arounds arrivals d =
      Loop.start lib handled ec arounds arrivals d

  -- handle_connect(ec, endpoint_iter), which nothing calls: the iterator is moved on first.
  unfoldable pub handle_connect :
      Bool
      → Bool
      → List Text
      → Bool
      → List Surroundings
      → List Arrival
      → Driver
      → Outcome (Option (List Arrival × Driver))
  unfolding start_connect
  handle_connect handled is_open [] ec arounds arrivals d =
      if is_open then returns (some (arrivals, d)) else undefined
  handle_connect handled is_open (endpoint ∷ endpoints) ec arounds arrivals d =
      if is_open
      then returns (some (arrivals, d))
      else start_connect handled endpoints ec arounds arrivals d

-- one round of the loop of `notifierService`: which of the two conditions it notifies, for responses
-- and for requests
notifier_service : Driver → Bool × Bool
notifier_service d = (not (is_empty d.response_queue), not (is_empty d.buffer_queue))

-- The constructor sets it to false, and nothing sets it again.
abbrev shut_down_normally : Bool
shut_down_normally = false

-- ~PonocoDriver()
pub destroy_driver : Driver → Outcome (Unit {0})
destroy_driver d = assert shut_down_normally
