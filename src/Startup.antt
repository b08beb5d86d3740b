-- ===== src/Startup.antt =====
-- The configuration and the start of `main` in PicoDB/MutilThreadedServerClient.cpp, up to the threads
-- of the server and the client.
pub mod Logs
use pico_db.Prelude.{
  ℕ, Bool, true, false, List, [], ◌∷◌, ◌++◌, Option, none, some, Outcome, returns, ◌>>=◌, Text,
  codes, if◌then◌else◌,
}
use pico_db.Files.{Files, truncate_the_file}
use pico_db.Logger.{Logger, PicoLoggerWrapper, new_wrapper}

-- PicoDB/pico/PicoConfig.h
pub record PicoConfig : Type 0 where
  pub data_dir : Text
  pub log_dir : Text
  pub log_file_name : Text
  pub default_timeout_in_sec : ℕ

abbrev pub initial_config : PicoConfig
initial_config = record {
  data_dir = codes "/Users/mtaabodi/Documents/pico_data/";
  log_dir = codes "/Users/mtaabodi/Documents/pico_logs/";
  log_file_name = [];
  default_timeout_in_sec = 10;
}

-- the branch of `main` for the setting at home: `clear` and `append`
pub configured : Bool → PicoConfig → PicoConfig
configured home_setting config =
    if home_setting
    then record config {
      log_dir = [] ++ codes "/Users/mahmoudtaabodi/Documents/pico_logs/";
      data_dir = [] ++ codes "/Users/mahmoudtaabodi/Documents/pico_data/";
    }
    else config

abbrev pub log_names : List Text
log_names = codes "session.log" ∷ codes "client.log" ∷ codes "gicapods.log" ∷ []

-- the loop of `main` over the names
unfoldable pub truncate_logs : Text → List Text → Files → Outcome Files
truncate_logs log_dir [] fs = returns fs
truncate_logs log_dir (name ∷ names) fs =
    truncate_the_file (log_dir ++ name) fs >>= λ fs'. truncate_logs log_dir names fs'

-- main(), up to `clientServerExample`: the static logger of the wrapper was made before.
unfoldable pub start_up :
    Option Logger → Files → Outcome (PicoLoggerWrapper × Option Logger × Files)
unfolding configured truncate_logs
start_up mylogger_ptr fs = do
  let config = configured false initial_config
  truncated ← truncate_logs config.log_dir log_names fs
  returns (new_wrapper config.log_dir mylogger_ptr truncated)
