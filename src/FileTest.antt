-- ===== src/FileTest.antt =====
-- PicoDB/file_test.h: examples on files.
use pico_db.Prelude.{
  ℕ, List, ◌++◌, Option, none, some, Outcome, returns, ◌>>=◌, Text, codes, replicate, if◌then◌else◌,
}
use pico_db.Files.{Files, written}
use pico_db.Socket.{buffer_of}

-- What `boost::filesystem` says of a path.
pub data Kind : Type 0 where
  regular_file directory other : Kind

-- fileExamples(), with what it prints: the kind and the size of the path, if it exists
pub file_examples : (ℕ → Text) → Option (Kind × ℕ) → Text
file_examples to_text none = codes "gmon.out" ++ codes "does not exist\n"
file_examples to_text (some (regular_file, size)) =
    codes "gmon.out" ++ (codes " size is " ++ (to_text size ++ codes "\n"))
file_examples to_text (some (directory, size)) = codes "gmon.out" ++ codes "is a directory\n"
file_examples to_text (some (other, size)) =
    codes "gmon.out" ++ codes "exists, but is neither a regular file nor a directory\n"

abbrev pub test_file : Text
test_file = codes "/Users/mahmoudtaabodi/Documents/test-writing-file.dat"

-- write10Records(): the file is opened for writing, and so emptied; what stands behind the two texts
-- in memory is an argument. A stream that does not open ignores what follows.
pub write_10_records : List ℕ → List ℕ → Files → Outcome Files
write_10_records behind_key behind_value fs = do
  key ← buffer_of 50 (codes "this is the first key0") behind_key
  value ← buffer_of 50 (codes "this is the first value0") behind_value
  returns (
      if fs.may_write test_file
      then written test_file (replicate 25 0 ++ (key ++ value)) fs
      else fs)
