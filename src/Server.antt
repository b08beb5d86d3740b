-- ===== src/Server.antt =====
-- PicoDB/pico/pico_server.h: accepting connections. Everything runs on the one thread that calls
-- `io_service.run()`, the sessions too.
pub mod Clients
pub mod Departure
use pico_db.Prelude.{
  ℕ, Bool, false, List, [], ◌∷◌, Option, none, some, Outcome, returns, aborts, throws, undefined,
  waits, ◌>>=◌, ◌>>◌, assert, if◌then◌else◌,
}
use pico_db.Message.{Libraries}
use pico_db.Socket.{Arrival, Surroundings}
use pico_db.Session.{Session, new_session, start}

-- One completion of `async_accept`: its error code, what the client that connected sends, and what
-- the environment does to its session.
pub record Accepted : Type 0 where
  pub ec : Bool
  pub incoming : List ℕ
  pub arounds : List Surroundings
  pub arrivals : List Arrival

-- The constructor of a session sets it to false, and nothing sets it again.
abbrev shut_down_normally : Bool
shut_down_normally = false

-- ~pico_session()
abbrev destroy_session : Outcome (Unit {0})
destroy_session = assert shut_down_normally

-- What becomes of `start`: its loop still runs, or an exception has ended it and the session is
-- destroyed with the last pointer to it.
abbrev pub session_over : Outcome (Option (List Arrival × Session)) → Outcome (Unit {0})
session_over (returns (some running)) = waits
session_over (returns none) = destroy_session
session_over aborts = aborts
session_over throws = throws
session_over undefined = undefined
session_over waits = waits

module _ (lib : Libraries) where
  -- initClientHandler
  pub init_client_handler : Accepted → Outcome (Unit {0})
  init_client_handler a = session_over (start lib a.arounds a.arrivals (new_session a.incoming))

  -- acceptConnection and its handler, by recursion on the completions: without one, nothing happens.
  accept_connection : List Accepted → Outcome (Unit {0})
  unfolding init_client_handler
  accept_connection [] = waits
  accept_connection (a ∷ more) =
      let again = accept_connection more in if a.ec then again else (init_client_handler a >> again)

  -- runServer()
  pub run_server : List Accepted → Outcome (Unit {0})
  unfolding accept_connection
  run_server accepted = accept_connection accepted
