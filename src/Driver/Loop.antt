-- ===== src/Driver/Loop.antt =====
-- The thread of PicoDB/pico/pico_client.h that writes requests and reads replies, once it is connected.
use pico_db.Prelude.{
  Bool, true, List, [], ◌∷◌, none, some, Option, Outcome, returns, aborts, throws, undefined, waits,
  ◌>>=◌, pos, if◌then◌else◌,
}
use pico_db.Message.{Libraries}
use pico_db.Socket.{Arrival, Surroundings}
use pico_db.Driver.{Driver, Reading, write_one_buffer, read_one_buffer}

module _ (lib : Libraries) where
  -- The handlers of `start` call `raise(SIGABRT)`. If a handler for that signal is installed, it
  -- comes back, and `start` returns, without what it has read so far.
  abbrev raised : Bool → Reading → Outcome (Option (List Arrival × Driver))
  raised handled (returns r) = returns (some r)
  raised handled throws = if handled then returns none else aborts
  raised handled aborts = aborts
  raised handled undefined = undefined
  raised handled waits = waits

  -- so many rounds of the loop of `start`, each with its surroundings
  unfoldable pub rounds : List Surroundings → List Arrival → Driver → Reading
  unfolding write_one_buffer read_one_buffer
  rounds [] arrivals d = returns (arrivals, d)
  rounds (around ∷ more) arrivals d = do
    written ← write_one_buffer lib around d
    (arrivals', answered) ← read_one_buffer lib arrivals (pos 10) written
    rounds more arrivals' answered

  -- start(ec, endpoint_iter); with an error, it only logs.
  unfoldable pub start :
      Bool
      → Bool
      → List Surroundings
      → List Arrival
      → Driver
      → Outcome (Option (List Arrival × Driver))
  unfolding rounds
  start handled ec arounds arrivals d =
      if ec
      then returns (some (arrivals, d))
      else raised handled (rounds arounds arrivals (record d { client_is_connected = some true }))
