-- ===== src/Logger.antt =====
-- PicoDB/pico/logger.h and PicoDB/pico/pico_logger_wrapper.h: files that lines are appended to. A
-- call of `log` is one action: the calls on one logger take its mutex, while two loggers on one file
-- have a mutex each.
pub mod Lines
use pico_db.Prelude.{
  ℕ, Bool, true, false, List, [], ◌∷◌, ◌++◌, Option, none, some, Text, codes, text_eq,
  if◌then◌else◌,
}
use pico_db.Files.{Files, c_str, path_of, written}

-- The stream of a logger: the name that it was opened with, and whether that succeeded.
pub record Logger : Type 0 where
  pub path : Text
  pub good : Bool

abbrev pub log_path : Text → Text → Text
log_path log_dir filename = (log_dir ++ filename) ++ codes ".log"

-- What a file holds once it is opened for appending.
abbrev pub or_empty : Option (List ℕ) → List ℕ
or_empty none = []
or_empty (some bytes) = bytes

-- logger(filename): the file is opened for appending, and made if there is none.
unfoldable pub new_logger : Text → Text → Files → Logger × Files
new_logger log_dir filename fs =
    let path = path_of (log_path log_dir filename) in
    if fs.may_write path
    then (record { path = path; good = true }, written path (or_empty (fs.contents path)) fs)
    else (record { path = path; good = false }, fs)

-- A write to a file that is not there any more is lost.
abbrev pub extended : Text → Text → Files → Files
extended path str fs = elim (fs.contents path) [
  | none ↦ fs
  | some bytes ↦ written path (bytes ++ str) fs
]

-- append: a stream that did not open ignores the write.
append : Text → Logger → Files → Files
append str lg fs = if lg.good then extended lg.path str fs else fs

-- `boost::format("\nTime : %1%  %2%") % getTimeNowAsString() % str.c_str()`
abbrev pub log_line : Text → Text → Text
log_line now str = codes "Time : " ++ (now ++ (codes "  " ++ c_str str))

-- log(str); the time of day is an argument.
unfoldable pub log : Text → Text → Logger → Files → Files
unfolding append
log now str lg fs = append (b'\n' ∷ log_line now str) lg fs

-- log(wrapper, value) and the operators: the value is converted to a text.
pub log_value {ℓ} : {A : Type ℓ} → (A → Text) → Text → A → Logger → Files → Files
unfolding log
log_value convert_to_string now value lg fs = log now (convert_to_string value) lg fs

-- The loggers that each object of the program has.
pub record PicoLoggerWrapper : Type 0 where
  pub mylogger : Logger
  pub client_logger : Logger
  pub session_logger : Logger

-- pico_logger_wrapper(logFileName)
pub new_wrapper_named : Text → Text → Files → PicoLoggerWrapper × Files
unfolding new_logger
new_wrapper_named log_dir log_file_name fs =
    let (own, fs1) = new_logger log_dir log_file_name fs in
    let (client, fs2) = new_logger log_dir (codes "client") fs1 in
    let (session, fs3) = new_logger log_dir (codes "session") fs2 in
    (record { mylogger = own; client_logger = client; session_logger = session }, fs3)

-- pico_logger_wrapper(): the static pointer is set if it is NULL.
pub new_wrapper : Text → Option Logger → Files → PicoLoggerWrapper × Option Logger × Files
unfolding new_wrapper_named
new_wrapper log_dir (some mylogger_ptr) fs =
    let (wrapper, fs') = new_wrapper_named log_dir (codes "/gicapods") fs in
    (wrapper, some mylogger_ptr, fs')
new_wrapper log_dir none fs =
    let (wrapper, fs') = new_wrapper_named log_dir (codes "/gicapods") fs in
    let (mylogger_ptr, fs'') = new_logger log_dir (codes "/gicapods") fs' in
    (wrapper, some mylogger_ptr, fs'')
