-- ===== src/Startup/Logs.antt =====
-- The log files once `main` of PicoDB/MutilThreadedServerClient.cpp has started.
use mathlib.Core.Path.{subst}
use pico_db.Prelude.{
  ℕ, ◌≡◌, refl, ap, ◌∙◌, true, List, [], ◌∷◌, ◌++◌, All, some, returns, Text, arith, text_eq,
  text_eq_refl, get_elem?, zero, suc, Bool-cases, inl, inr,
}
use pico_db.Files.{Files, path_of, written, deleted_mark}
use pico_db.Files.Laws.{written_self, truncate_the_file-writes}
use pico_db.Logger.{log_path, or_empty, new_logger}
use pico_db.Logger.Lines.{Entry, IsPlain, lines_to, log_all, split_lines, log_all-lines}
use pico_db.Startup.{truncate_logs, log_names}

-- The names under a directory, as the system reads them.
abbrev pub names_in : Text → List Text → List Text
names_in log_dir [] = []
names_in log_dir (name ∷ names) = path_of (log_dir ++ name) ∷ names_in log_dir names

-- The files once all names are truncated.
abbrev pub marked : List Text → Files → Files
marked [] fs = fs
marked (name ∷ names) fs = marked names (written name deleted_mark fs)

marked-keeps :
    (n : Text) (names : List Text) (fs : Files)
    → fs.contents n ≡ some deleted_mark
    → (marked names fs).contents n ≡ some deleted_mark
marked-keeps n [] fs h = h
marked-keeps n (name ∷ names) fs h =
    marked-keeps n names (written name deleted_mark fs)
      (elim (Bool-cases (text_eq n name)) [ inl e ↦ rw e refl | inr e ↦ rw e h ])

all-marked :
    (names : List Text) (fs : Files)
    → All (λ name. (marked names fs).contents name ≡ some deleted_mark) names
all-marked [] fs = tt
all-marked (name ∷ names) fs =
    let now = written name deleted_mark fs in
    (marked-keeps name names now (written_self name deleted_mark fs), all-marked names now)

truncate_logs-marked :
    (log_dir : Text) (names : List Text) (fs : Files)
    → All (λ name. fs.may_write name ≡ true) (names_in log_dir names)
    → truncate_logs log_dir names fs ≡ returns (marked (names_in log_dir names) fs)
unfolding truncate_logs
truncate_logs-marked log_dir [] fs h = refl
truncate_logs-marked log_dir (name ∷ names) fs h =
    rw (truncate_the_file-writes (log_dir ++ name) fs h.0)
      (truncate_logs-marked log_dir names (written (path_of (log_dir ++ name)) deleted_mark fs) h.1)

marked-rights : (names : List Text) (fs : Files) → (marked names fs).may_write ≡ fs.may_write
marked-rights [] fs = refl
marked-rights (name ∷ names) fs = marked-rights names (written name deleted_mark fs)

-- Opening a log file that may be written keeps what it holds.
new_logger-keeps :
    (log_dir filename old : Text) (fs : Files)
    → fs.may_write (path_of (log_path log_dir filename)) ≡ true
    → fs.contents (path_of (log_path log_dir filename)) ≡ some old
    → ((new_logger log_dir filename fs).1.contents (path_of (log_path log_dir filename)) ≡ some old)
      × ((new_logger log_dir filename fs).0
          ≡ record { path = path_of (log_path log_dir filename); good = true })
unfolding new_logger
new_logger-keeps log_dir filename old fs w c =
    let path = path_of (log_path log_dir filename) in
    rw w (rw (c, or_empty) (rw (text_eq_refl path) refl, refl))

all-names_in :
    (P : Text → Type 0) (log_dir name : Text) (names : List Text) (i : ℕ)
    → All P (names_in log_dir names)
    → get_elem? names i ≡ some name
    → P (path_of (log_dir ++ name))
all-names_in P log_dir name [] i h e = cc
all-names_in P log_dir name (n ∷ names) zero h e = subst (λ k. P (path_of (log_dir ++ k))) (cc) h.0
all-names_in P log_dir name (n ∷ names) (suc i) h e = all-names_in P log_dir name names i h.1 e

-- A log file that was truncated, opened and written to.
pub record Logged (log_dir filename : Text) (es : List Entry) (fs : Files) : Type 0 where
  pub truncated : Files
  pub truncates : truncate_logs log_dir log_names fs ≡ returns truncated
  pub text : Text
  pub holds :
      (log_all es (new_logger log_dir filename truncated).1).contents
        (path_of (log_path log_dir filename))
      ≡ some text
  pub lines : split_lines text ≡ deleted_mark ∷ lines_to (path_of (log_path log_dir filename)) es

-- Once `main` has truncated the logs, and a logger is opened whose name stands for one of them, with
-- a slash too many or not: the lines of this file are the notice about the deletion and then one line
-- for each call of `log` on it, by whichever loggers and under whichever of these names it was opened,
-- whatever the file held before, and whatever else is logged. All log files can be written, and what
-- is logged holds no newline.
pub truncate_logs-Logged :
    (log_dir filename name : Text) (i : ℕ) (es : List Entry) (fs : Files)
    → All (λ path. fs.may_write path ≡ true) (names_in log_dir log_names)
    → get_elem? log_names i ≡ some name
    → path_of (log_dir ++ name) ≡ path_of (log_path log_dir filename)
    → All IsPlain es
    → Logged log_dir filename es fs
truncate_logs-Logged log_dir filename name i es fs w at here plain =
    let path = path_of (log_path log_dir filename) in
    let fs1 = marked (names_in log_dir log_names) fs in
    let may : fs1.may_write path ≡ true =
      ap (λ rights. rights path) (marked-rights (names_in log_dir log_names) fs)
      ∙ subst (λ n. fs.may_write n ≡ true) here
          (all-names_in (λ n. fs.may_write n ≡ true) log_dir name log_names i w at) in
    let mark : fs1.contents path ≡ some deleted_mark =
      subst (λ n. fs1.contents n ≡ some deleted_mark) here
        (all-names_in (λ n. fs1.contents n ≡ some deleted_mark) log_dir name log_names i
          (all-marked (names_in log_dir log_names) fs) at) in
    let (kept, same) = new_logger-keeps log_dir filename deleted_mark fs1 may mark in
    let (text, holds, lines) =
      log_all-lines path deleted_mark es (new_logger log_dir filename fs1).1 kept (omega arith)
        plain in
    record {
      truncated = fs1;
      truncates = truncate_logs-marked log_dir log_names fs w;
      text = text;
      holds = holds;
      lines = lines;
    }
