-- ===== src/Program.antt =====
-- The program as `main` of PicoDB/MutilThreadedServerClient.cpp runs it: a server, a driver and a
-- client of that driver, on threads of one process. PicoDB/pico/PonocoRunnable.h has what the threads
-- of the driver and the client do.
pub mod Ending
pub mod Departure
use pico_db.Prelude.{
  ℕ, Bool, true, false, ◌||◌, List, [], ◌∷◌, Option, none, some, Outcome, returns, aborts, throws,
  undefined, waits, ◌>>=◌, ◌>>◌, assert, Text, if◌then◌else◌,
}
use pico_db.Message.{Libraries}
use pico_db.Socket.{Arrival, Surroundings}
use pico_db.Files.{Files}
use pico_db.Logger.{Logger}
use pico_db.Startup.{start_up}
use pico_db.Server.{Accepted, run_server}
use pico_db.Driver.{Driver, new_driver}
use pico_db.Driver.Connect.{start_connect, destroy_driver}
use pico_db.PonocoClient.{Ask, new_ponoco_client, set_ponoco_driver, current_test_case}

pub data Signal : Type 0 where
  sig_segv : Signal
  sig_hup : Signal
  sig_int : Signal
  sig_quit : Signal
  sig_ill : Signal
  sig_trap : Signal
  sig_abrt : Signal
  sig_fpe : Signal
  sig_kill : Signal
  sig_sys : Signal
  sig_term : Signal

-- signal(s, printStackTraceHandler): no handler can be installed for SIGKILL.
abbrev signal : Signal → List Signal → List Signal
signal sig_kill handled = handled
signal s handled = s ∷ handled

-- registerPrintStackHandlerForSignals: the signals that are handled then
abbrev register_print_stack_handler_for_signals : List Signal → List Signal
register_print_stack_handler_for_signals handled = signal sig_term (
    signal sig_sys (
      signal sig_segv (
        signal sig_kill (
          signal sig_fpe (
            signal sig_abrt (
              signal sig_trap (
                signal sig_ill (
                  signal sig_quit
                    (signal sig_int (signal sig_hup (signal sig_segv handled)))))))))))

abbrev is_abrt : Signal → Bool
is_abrt sig_abrt = true
is_abrt s = false

abbrev handles_abrt : List Signal → Bool
handles_abrt [] = false
handles_abrt (s ∷ handled) = is_abrt s || handles_abrt handled

-- `raise(SIGABRT)` in a handler of exceptions: printStackTraceHandler comes back, so what stands behind
-- the `try` follows. Without it the process aborts.
abbrev raise_abrt {ℓ} : {A : Type ℓ} → List Signal → A → Outcome A
raise_abrt handled a = if handles_abrt handled then returns a else aborts

abbrev is_some {ℓ} : {A : Type ℓ} → Option A → Bool
is_some none = false
is_some (some a) = true

module _ (lib : Libraries) where
  -- runPonocoDriver: `resolved` is what the resolver finds, or its exception; `none` as a result is a
  -- driver whose thread has ended after an exception.
  pub run_ponoco_driver :
      List Signal
      → Option (List Text)
      → Bool
      → List Surroundings
      → List Arrival
      → Driver
      → Outcome (Option (List Arrival × Driver))
  run_ponoco_driver handled none ec arounds arrivals d = raise_abrt handled none
  run_ponoco_driver handled (some endpoints) ec arounds arrivals d =
      start_connect lib (handles_abrt handled) endpoints ec arounds arrivals d

  -- what is left when the driver's last pointer goes
  abbrev destroyed : Option (List Arrival × Driver) → Outcome (Unit {0})
  destroyed none = destroy_driver new_driver
  destroyed (some (arrivals, d)) = destroy_driver d

  -- runPicoDriver, which owns its driver: an exception of the resolver destroys it on the way.
  run_pico_driver :
      List Signal
      → Option (List Text)
      → Bool
      → List Surroundings
      → List Arrival
      → Outcome (Unit {0})
  run_pico_driver handled none ec arounds arrivals = do
    destroy_driver new_driver
    raise_abrt handled tt
  run_pico_driver handled (some endpoints) ec arounds arrivals = do
    left ← start_connect lib (handles_abrt handled) endpoints ec arounds arrivals new_driver
    destroyed left

  -- the objects of runPoncoClientProgram, by the address of the driver: what the static pointer of
  -- the client is then
  abbrev client_driver : ℕ → Option ℕ → Option ℕ
  client_driver driver_ptr_arg driver_ptr =
      set_ponoco_driver driver_ptr_arg (new_ponoco_client driver_ptr_arg driver_ptr)

  -- runPoncoClientProgram, and the assertion of currentTestCase
  pub run_ponco_client_program : Option ℕ → List (List ℕ × List ℕ × Ask) → Driver → Outcome Driver
  run_ponco_client_program none asks d = aborts
  run_ponco_client_program (some driver_ptr) asks d = do
    assert (is_some (client_driver driver_ptr none))
    current_test_case lib asks d

-- What a thread beside the main one does to the process: an exception that leaves its function ends
-- the process, and so does an abort.
abbrev kills {ℓ} : {A : Type ℓ} → Outcome A → Outcome (Unit {0})
kills (returns a) = returns tt
kills waits = returns tt
kills throws = aborts
kills aborts = aborts
kills undefined = undefined

-- serverThread.join()
abbrev joined : Outcome (Unit {0}) → Outcome (Unit {0})
joined (returns u) = returns tt
joined waits = waits
joined throws = aborts
joined aborts = aborts
joined undefined = undefined

-- clientServerExample: three threads, of which the one of the server is joined. The process ends with
-- the first of them that ends it; they are looked at in this order.
pub client_server_example {ℓ κ} :
    {A : Type ℓ} {B : Type κ} → Outcome (Unit {0}) → Outcome A → Outcome B → Outcome (Unit {0})
client_server_example server driver client = kills driver >> (kills client >> joined server)

-- What the environment does to the program.
pub record World : Type 0 where
  pub mylogger_ptr : Option Logger
  pub files : Files
  pub accepted : List Accepted
  pub resolved : Option (List Text)
  pub ec : Bool
  pub arounds : List Surroundings
  pub arrivals : List Arrival
  pub asks : List (List ℕ × List ℕ × Ask)
  -- the driver as the client's thread sees it
  pub shared : Driver

-- what `main` does behind `start_up`, with its two handlers
abbrev caught : List Signal → Outcome (Unit {0}) → Outcome ℕ
caught handled (returns u) = returns 0
caught handled throws = raise_abrt handled 0
caught handled aborts = aborts
caught handled undefined = undefined
caught handled waits = waits

-- the `try` of `main`: what is done in front of the threads, and the threads
abbrev tried {ℓ} : {A : Type ℓ} → Outcome A → Outcome (Unit {0}) → Outcome ℕ
tried (returns a) rest = caught (register_print_stack_handler_for_signals []) rest
tried throws rest = raise_abrt [] 0
tried aborts rest = aborts
tried undefined rest = undefined
tried waits rest = waits

module _ (lib : Libraries) where
  -- clientServerExample as `main` calls it
  abbrev threads : List Signal → World → Outcome (Unit {0})
  threads handled w =
      client_server_example (run_server lib w.accepted)
        (run_ponoco_driver lib handled w.resolved w.ec w.arounds w.arrivals new_driver)
        (run_ponco_client_program lib (some 0) w.asks w.shared)

  -- main()
  pub main : World → Outcome ℕ
  unfolding client_server_example
  main w =
      tried (start_up w.mylogger_ptr w.files)
        (threads (register_print_stack_handler_for_signals []) w)
