-- ===== src/Server/Departure.antt =====
-- What the server in PicoDB/pico/pico_server.h does when its client leaves: before a message, or
-- before the reply to one.
use pico_db.Prelude.{◌≡◌, refl, ◌∙◌, true, false, List, [], ◌∷◌, ◌++◌, All, aborts}
use pico_db.Message.{Libraries}
use pico_db.Socket.{Arrival, Surroundings}
use pico_db.Session.{new_session}
use pico_db.Session.Echo.{Exchange, IsServed, requests, reads, surroundings}
use pico_db.Session.HangUp.{IsHangUp, start-hang_up}
use pico_db.Session.Receive.{framed}
use pico_db.Session.Broken.{IsUnanswerable, start-broken}
use pico_db.Server.{Accepted, init_client_handler, run_server}
use pico_db.Server.Clients.{run_server-first}

module _ (lib : Libraries) where
  -- A client that sends these messages and closes the connection then, without any message too.
  abbrev pub leaving : List Exchange → Surroundings → Arrival → Accepted
  leaving es around a = record {
    ec = false;
    incoming = requests lib es;
    arounds = surroundings lib es ++ around ∷ [];
    arrivals = reads lib es ++ a ∷ [];
  }

  -- The first client that is accepted stops the server for everybody when it closes its connection.
  -- Whatever number of messages were received whole and answered before, the next read hands over
  -- nothing, and the session takes the ten bytes of its fresh memory for what was sent: if they are
  -- neither a size nor JSON, parsing them aborts the program.
  pub run_server-hang_up :
      (errors more : List Accepted) (es : List Exchange) (around : Surroundings) (a : Arrival)
      → All (λ (e : Accepted). e.ec ≡ true) errors
      → All (IsServed lib) es
      → IsHangUp lib a
      → run_server lib (errors ++ leaving es around a ∷ more) ≡ aborts
  unfolding init_client_handler
  run_server-hang_up errors more es around a failed v h =
      (run_server-first lib errors more (leaving es around a) failed refl).0
      ∙ rw (start-hang_up lib es around [] a [] (new_session (requests lib es)) v refl tt h) refl

  -- A client that sends these messages, and another one whose reply it does not take.
  abbrev pub vanishing : List Exchange → Exchange → Accepted
  vanishing es e = record {
    ec = false;
    incoming = requests lib es ++ (framed lib e.text e.behind ++ []);
    arounds = surroundings lib es ++ e.around ∷ [];
    arrivals = reads lib es ++ e.header_read ∷ e.text_read ∷ [];
  }

  -- The first client that is accepted stops the server if it is gone when a reply is written to it, the
  -- header or the text, whatever number of messages were answered before: the exception ends the session, and the
  -- destructor of the session aborts the program. The message is one that is received whole and
  -- parsed, and the memory around the reply is orderly.
  pub run_server-vanished :
      (errors more : List Accepted) (es : List Exchange) (e : Exchange)
      → All (λ (a : Accepted). a.ec ≡ true) errors
      → All (IsServed lib) es
      → IsUnanswerable lib e
      → run_server lib (errors ++ vanishing es e ∷ more) ≡ aborts
  unfolding init_client_handler
  run_server-vanished errors more es e failed v u =
      (run_server-first lib errors more (vanishing es e) failed refl).0
      ∙ rw (start-broken lib es e [] [] [] (new_session (vanishing es e).incoming) v u refl tt) refl
