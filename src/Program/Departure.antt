-- ===== src/Program/Departure.antt =====
-- What a client that leaves does to the program of PicoDB/MutilThreadedServerClient.cpp.
use pico_db.Prelude.{
  ap, ◌≢◌, ◌∙◌, Text, Option, some, [], Bool-cases, true, ◌≡◌, ◌⊎◌, inl, inr, refl, List, ◌∷◌, ◌++◌,
  All, Outcome, returns, waits, aborts, throws, undefined, ◌>>◌, ◌>>=◌, false,
}
use pico_db.Message.{Libraries}
use pico_db.Socket.{Arrival, Surroundings}
use pico_db.Files.{Files, truncate_the_file, path_of, written, deleted_mark}
use pico_db.Logger.{Logger, new_wrapper}
use pico_db.Session.Echo.{Exchange, IsServed}
use pico_db.Session.HangUp.{IsHangUp}
use pico_db.Server.{Accepted, run_server}
use pico_db.Server.Departure.{leaving, run_server-hang_up}
use pico_db.Startup.{start_up, truncate_logs, log_names, configured, initial_config}
use pico_db.Driver.{new_driver}
use pico_db.Program.{
  World, main, tried, client_server_example, kills, joined, threads, run_ponoco_driver,
  run_ponco_client_program, register_print_stack_handler_for_signals,
}

-- The process is at its end: it was aborted, or a thread had undefined behaviour before.
abbrev IsOver {ℓ} : {A : Type ℓ} → Outcome A → Type ℓ
IsOver o = (o ≡ aborts) ⊎ (o ≡ undefined)

killed-IsOver {ℓ} :
    {A : Type ℓ} (thread : Outcome A) (rest : Outcome (Unit {0}))
    → IsOver rest
    → IsOver (kills thread >> rest)
killed-IsOver (returns a) rest h = h
killed-IsOver waits rest h = h
killed-IsOver throws rest h = inl refl
killed-IsOver aborts rest h = inl refl
killed-IsOver undefined rest h = inr refl

client_server_example-IsOver {ℓ κ} :
    {A : Type ℓ} {B : Type κ} (server : Outcome (Unit {0})) (driver : Outcome A)
    (client : Outcome B)
    → server ≡ aborts
    → IsOver (client_server_example server driver client)
unfolding client_server_example
client_server_example-IsOver server driver client e =
    killed-IsOver driver (kills client >> joined server)
      (killed-IsOver client (joined server) (inl (ap joined e)))

truncate_the_file-cases :
    (name : Text) (fs : Files)
    → (truncate_the_file name fs ≡ undefined)
      ⊎ ((fs' : Files) × (truncate_the_file name fs ≡ returns fs'))
unfolding truncate_the_file
truncate_the_file-cases name fs = elim (Bool-cases (fs.may_write (path_of name))) [
  | inl e ↦ inr (written (path_of name) deleted_mark fs, (rw e refl))
  | inr e ↦ inl (rw e refl)
]

bind-ne {ℓ κ} :
    {A : Type ℓ} {B : Type κ} (o : Outcome A) (f : A → B)
    → o ≢ waits
    → (o >>= λ a. returns (f a)) ≢ waits
bind-ne (returns a) f n e = cc
bind-ne aborts f n e = cc
bind-ne throws f n e = cc
bind-ne undefined f n e = cc
bind-ne waits f n e = absurd (n refl)

-- The start of `main` does not wait for anything.
truncate_logs-ne :
    (log_dir : Text) (names : List Text) (fs : Files) → truncate_logs log_dir names fs ≢ waits
unfolding truncate_logs
truncate_logs-ne log_dir [] fs e = cc
truncate_logs-ne log_dir (name ∷ names) fs e = elim (truncate_the_file-cases (log_dir ++ name) fs) [
  | inl u ↦ cc
  | inr (fs', t) ↦ truncate_logs-ne log_dir names fs' (rw t at e)
]

start_up-ne : (mylogger_ptr : Option Logger) (fs : Files) → start_up mylogger_ptr fs ≢ waits
unfolding start_up
start_up-ne mylogger_ptr fs =
    bind-ne (truncate_logs (configured false initial_config).log_dir log_names fs)
      (new_wrapper (configured false initial_config).log_dir mylogger_ptr)
      (truncate_logs-ne (configured false initial_config).log_dir log_names fs)

over-returns {ℓ} : {A : Type ℓ} (a : A) → IsOver (returns a) → ⊥
over-returns a (inl e) = cc
over-returns a (inr e) = cc

over-waits {ℓ} : {A : Type ℓ} (o : Outcome A) → o ≡ waits → IsOver o → ⊥
over-waits o w (inl e) = cc
over-waits o w (inr e) = cc

over-throws {ℓ} : {A : Type ℓ} (o : Outcome A) → o ≡ throws → IsOver o → ⊥
over-throws o t (inl e) = cc
over-throws o t (inr e) = cc

tried-IsOver {ℓ} :
    {A : Type ℓ} (start : Outcome A) (o : Outcome (Unit {0}))
    → start ≢ waits
    → IsOver o
    → IsOver (tried start o)
tried-IsOver (returns a) aborts n h = inl refl
tried-IsOver (returns a) undefined n h = inr refl
tried-IsOver (returns a) (returns u) n h = absurd (over-returns u h)
tried-IsOver (returns a) waits n h = absurd (over-waits waits refl h)
tried-IsOver (returns a) throws n h = absurd (over-throws throws refl h)
tried-IsOver throws o n h = inl refl
tried-IsOver aborts o n h = inl refl
tried-IsOver undefined o n h = inr refl
tried-IsOver waits o n h = absurd (n refl)

module _ (lib : Libraries) where
  -- If the first client that the server accepts leaves, the whole program ends, whatever the driver
  -- and the calls of the client beside it come to, and whatever is in the files: it is aborted, but
  -- for undefined behaviour that it may have met before. The client may have had any number of its
  -- messages answered; where the next one would be read, the fresh memory holds neither a size nor
  -- JSON.
  pub main-hang_up :
      (w : World) (errors more : List Accepted) (es : List Exchange) (around : Surroundings)
      (a : Arrival)
      → w.accepted ≡ errors ++ leaving lib es around a ∷ more
      → All (λ (e : Accepted). e.ec ≡ true) errors
      → All (IsServed lib) es
      → IsHangUp lib a
      → (main lib w ≡ aborts) ⊎ (main lib w ≡ undefined)
  unfolding main
  main-hang_up w errors more es around a e failed v h =
      let handled = register_print_stack_handler_for_signals [] in
      tried-IsOver (start_up w.mylogger_ptr w.files) (threads lib handled w)
        (start_up-ne w.mylogger_ptr w.files)
        (client_server_example-IsOver (run_server lib w.accepted)
          (run_ponoco_driver lib handled w.resolved w.ec w.arounds w.arrivals new_driver)
          (run_ponco_client_program lib (some 0) w.asks w.shared)
          (ap (run_server lib) e ∙ run_server-hang_up lib errors more es around a failed v h))
