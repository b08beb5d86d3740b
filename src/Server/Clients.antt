-- ===== src/Server/Clients.antt =====
-- Whom the server in PicoDB/pico/pico_server.h serves, and who can stop it.
use pico_db.Prelude.{
  Bool-cases, sym, ◌∙◌, ℕ, ◌≤◌, ◌≡◌, refl, ◌≢◌, true, false, List, [], ◌∷◌, ◌++◌, All, Option, none,
  some, Outcome, returns, aborts, throws, undefined, waits, ◌>>◌, inl, inr,
}
use pico_db.Message.{Libraries}
use pico_db.Socket.{Arrival, Surroundings}
use pico_db.Session.{Session, new_session, start}
use pico_db.Session.Failure.{IsBadHeader, start-bad_header}
use pico_db.Server.{Accepted, session_over, init_client_handler, accept_connection, run_server}

-- Nothing runs behind a session.
session_over-last :
    (o : Outcome (Option (List Arrival × Session))) (more : Outcome (Unit {0}))
    → (session_over o >> more) ≡ session_over o
session_over-last (returns none) more = refl
session_over-last (returns (some running)) more = refl
session_over-last aborts more = refl
session_over-last throws more = refl
session_over-last undefined more = refl
session_over-last waits more = refl

module _ (lib : Libraries) where
  -- The server serves the first client that it accepts, behind any number of failed attempts, and
  -- nobody else: what it does is what that client's session does, whoever connects later. Since a
  -- session runs until an exception ends it, and then fails the assertion of its destructor, the
  -- server never returns.
  pub run_server-first :
      (errors more : List Accepted) (a : Accepted)
      → All (λ (e : Accepted). e.ec ≡ true) errors
      → a.ec ≡ false
      → (run_server lib (errors ++ a ∷ more) ≡ init_client_handler lib a)
        × (init_client_handler lib a ≢ returns tt)
  unfolding run_server init_client_handler
  run_server-first [] more a failed ok =
      let o = start lib a.arounds a.arrivals (new_session a.incoming) in
      (rw ok (session_over-last o (accept_connection lib more)), never o)
    where
      never : (o : Outcome (Option (List Arrival × Session))) → session_over o ≢ returns tt
      never (returns none) e = cc
      never (returns (some running)) e = cc
      never aborts e = cc
      never throws e = cc
      never undefined e = cc
      never waits e = cc
  run_server-first (e ∷ errors) more a failed ok =
      rw failed.0 (run_server-first errors more a failed.1 ok)

  -- Whoever connects, the server never returns.
  pub run_server-unending : (accepted : List Accepted) → run_server lib accepted ≢ returns tt
  unfolding run_server
  run_server-unending [] e = cc
  run_server-unending (a ∷ more) e = elim (Bool-cases a.ec) [
    | inl failed ↦ run_server-unending more (rw failed at e)
    | inr ok ↦ let (same, unending) = run_server-first [] more a tt ok in unending (sym same ∙ e)
  ]

  -- Ten bytes from the first client stop the server, whatever else that client sends and whoever
  -- connects: after a header whose digits do not make a number, or make one that is not positive,
  -- the program aborts.
  pub run_server-bad_header :
      (header rest : List ℕ) (around : Surroundings) (arounds : List Surroundings) (r : Arrival)
      (arrivals : List Arrival) (more : List Accepted)
      → IsBadHeader lib header
      → 10 ≤ r.count
      → run_server lib (
          record {
            ec = false;
            incoming = header ++ rest;
            arounds = around ∷ arounds;
            arrivals = r ∷ arrivals;
          }
          ∷ more)
        ≡ aborts
  unfolding run_server init_client_handler
  run_server-bad_header header rest around arounds r arrivals more b whole =
      elim (start-bad_header lib header rest around arounds r arrivals
        (new_session (header ++ rest)) b whole refl) [ inl e ↦ rw e refl | inr e ↦ rw e refl ]
