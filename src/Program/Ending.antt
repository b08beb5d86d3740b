-- ===== src/Program/Ending.antt =====
-- How the program of PicoDB/MutilThreadedServerClient.cpp can end.
use pico_db.Prelude.{
  ℕ, List, [], some, ◌>>◌, ◌≢◌, refl, Outcome, returns, waits, aborts, throws, undefined,
}
use pico_db.Message.{Libraries}
use pico_db.Server.{run_server}
use pico_db.Server.Clients.{run_server-unending}
use pico_db.Startup.{start_up}
use pico_db.Program.{
  World, main, client_server_example, kills, joined, threads, caught, tried, Signal,
  register_print_stack_handler_for_signals, run_ponoco_driver, run_ponco_client_program,
}
use pico_db.Driver.{new_driver}

-- Outcomes with which the main thread does not go on.
abbrev IsStuck {ℓ} : {A : Type ℓ} → Outcome A → Type 0
IsStuck (returns a) = ⊥
IsStuck throws = ⊥
IsStuck aborts = Unit
IsStuck undefined = Unit
IsStuck waits = Unit

joined-IsStuck : (server : Outcome (Unit {0})) → server ≢ returns tt → IsStuck (joined server)
joined-IsStuck (returns u) h = absurd (h refl)
joined-IsStuck throws h = tt
joined-IsStuck aborts h = tt
joined-IsStuck undefined h = tt
joined-IsStuck waits h = tt

killed-IsStuck {ℓ} :
    {A : Type ℓ} (thread : Outcome A) (rest : Outcome (Unit {0}))
    → IsStuck rest
    → IsStuck (kills thread >> rest)
killed-IsStuck (returns a) rest h = h
killed-IsStuck waits rest h = h
killed-IsStuck throws rest h = tt
killed-IsStuck aborts rest h = tt
killed-IsStuck undefined rest h = tt

client_server_example-IsStuck {ℓ κ} :
    {A : Type ℓ} {B : Type κ} (server : Outcome (Unit {0})) (driver : Outcome A)
    (client : Outcome B)
    → server ≢ returns tt
    → IsStuck (client_server_example server driver client)
unfolding client_server_example
client_server_example-IsStuck server driver client h =
    killed-IsStuck driver (kills client >> joined server)
      (killed-IsStuck client (joined server) (joined-IsStuck server h))

caught-ne :
    (handled : List Signal) (o : Outcome (Unit {0})) (code : ℕ)
    → IsStuck o
    → caught handled o ≢ returns code
caught-ne handled (returns u) code h e = absurd h
caught-ne handled throws code h e = absurd h
caught-ne handled aborts code h e = cc
caught-ne handled undefined code h e = cc
caught-ne handled waits code h e = cc

tried-ne {ℓ} :
    {A : Type ℓ} (start : Outcome A) (o : Outcome (Unit {0})) (code : ℕ)
    → IsStuck o
    → tried start o ≢ returns code
tried-ne (returns a) o code h e = caught-ne (register_print_stack_handler_for_signals []) o code h e
tried-ne throws o code h e = cc
tried-ne aborts o code h e = cc
tried-ne undefined o code h e = cc
tried-ne waits o code h e = cc

module _ (lib : Libraries) where
  -- `main` never returns, whatever the environment does: whoever connects to the server and whatever
  -- they send, whether the driver finds the server, and whatever the client's calls come to.
  pub main-unending : (w : World) (code : ℕ) → main lib w ≢ returns code
  unfolding main
  main-unending w code =
      let handled = register_print_stack_handler_for_signals [] in
      tried-ne (start_up w.mylogger_ptr w.files) (threads lib handled w) code (
        client_server_example-IsStuck (run_server lib w.accepted)
          (run_ponoco_driver lib handled w.resolved w.ec w.arounds w.arrivals new_driver)
          (run_ponco_client_program lib (some 0) w.asks w.shared)
          (run_server-unending lib w.accepted))
