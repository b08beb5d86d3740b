-- ===== src/Tests/Programs.antt =====
-- Files, logs, the pool's users, the client and the whole program of PicoDB on small inputs.
use pico_db.Prelude.{
  ℕ, ◌≢◌, ◌≡◌, undefined, refl, true, false, [], ◌∷◌, List, none, some, Text, codes, replicate,
  arith, returns,
}
use pico_db.Files.{Files, path_of, written}
use pico_db.Logger.{Logger}
use pico_db.Logger.Lines.{Entry, IsPlain}
use pico_db.Startup.Logs.{Logged, truncate_logs-Logged}
use pico_db.Program.{World, main}
use pico_db.Program.Ending.{main-unending}
use pico_db.Driver.{new_driver}
use pico_db.ObjectPool.Mongo.{run, run-undefined}
use pico_db.Tests.Sample.{sample_lib}

abbrev empty_disk : Files
empty_disk = record { contents = λ n. none; may_read = λ n. true; may_write = λ n. true }

-- The wrapper's own logger writes to the file that was truncated as `gicapods.log`.
abbrev own_log : Logger
own_log = record { path = path_of (codes "/logs//gicapods.log"); good = true }

abbrev client_log : Logger
client_log = record { path = codes "/logs/client.log"; good = true }

abbrev entry : Logger → Text → Entry
entry lg message = record { by = lg; now = codes "12:00:00.000"; message = message }

abbrev three_entries : List Entry
three_entries =
    entry own_log (codes "one")
    ∷ entry client_log (codes "two")
    ∷ entry own_log (codes "three")
    ∷ []

one-IsPlain : IsPlain (entry own_log (codes "one"))
one-IsPlain = record { plain_time = omega arith; plain_message = omega arith }

two-IsPlain : IsPlain (entry client_log (codes "two"))
two-IsPlain = record { plain_time = omega arith; plain_message = omega arith }

three-IsPlain : IsPlain (entry own_log (codes "three"))
three-IsPlain = record { plain_time = omega arith; plain_message = omega arith }

abbrev old_log : Files
old_log = written (codes "/logs/gicapods.log") (codes "old") empty_disk

truncate_logs-Logged_example : Logged (codes "/logs/") (codes "/gicapods") three_entries old_log
truncate_logs-Logged_example =
    truncate_logs-Logged (codes "/logs/") (codes "/gicapods") (codes "gicapods.log") 2 three_entries
      old_log (refl, (refl, (refl, tt))) refl refl (one-IsPlain, (two-IsPlain, (three-IsPlain, tt)))

abbrev ten : ℕ → List ℕ
ten r = replicate 10 r

-- nobody connects to the server, and the driver finds no endpoint
abbrev quiet_world : World
quiet_world = record {
  mylogger_ptr = none;
  files = empty_disk;
  accepted = [];
  resolved = some [];
  ec = false;
  arounds = [];
  arrivals = [];
  asks = [];
  shared = new_driver;
}

main-unending_example : main sample_lib quiet_world ≢ returns 0
main-unending_example = main-unending sample_lib quiet_world 0

run-undefined_example : run (some false ∷ some true ∷ []) ≡ undefined
run-undefined_example = run-undefined (some false ∷ some true ∷ [])
