-- ===== src/Files.antt =====
-- What the program calls of the file system, and the helpers on files in PicoDB/pico/pico_utils.h.
pub mod Laws
use pico_db.Prelude.{
  ℕ, Bool, true, false, List, [], ◌∷◌, ◌++◌, Option, none, some, Outcome, returns, undefined, ◌>>=◌,
  Text, codes, text_eq, ◌==◌, ◌&&◌, if◌then◌else◌,
}

-- The files by path, `none` where there is none, and what the system allows.
pub record Files : Type 0 where
  pub contents : Text → Option (List ℕ)
  pub may_read : Text → Bool
  pub may_write : Text → Bool

-- c_str(): what a `const char*` into a string is read as, up to the first NUL.
abbrev pub c_str : Text → Text
c_str [] = []
c_str (c ∷ cs) = let rest = c_str cs in if c == 0 then [] else c ∷ rest

-- slashes in a row as one
abbrev one_slash : Text → Text
one_slash [] = []
one_slash (c ∷ []) = c ∷ []
one_slash (c ∷ d ∷ cs) =
    let rest = one_slash (d ∷ cs) in if c == b'/' && d == b'/' then rest else c ∷ rest

-- The file that a name stands for: the system reads the name up to its NUL, and takes slashes in a
-- row for one.
abbrev pub path_of : Text → Text
path_of name = one_slash (c_str name)

abbrev pub written : Text → List ℕ → Files → Files
written name bytes fs = record fs {
  contents = λ n. if text_eq n name then some bytes else fs.contents n;
}

-- A stream that is opened with `in`: whether it is good.
abbrev pub opens : Text → Files → Bool
opens name fs = elim (fs.contents name) [ none ↦ false | some bytes ↦ fs.may_read name ]

-- fopen(name, "w"), some writes and fclose: without a file, they go through NULL.
abbrev overwrite : Text → List ℕ → Files → Outcome Files
overwrite name bytes fs = if fs.may_write name then returns (written name bytes fs) else undefined

-- checkFileExist
pub check_file_exist : Text → Files → Bool
check_file_exist name fs = opens (path_of name) fs

-- openFileIfItDoesntExist
unfoldable pub open_file_if_it_doesnt_exist : Text → Files → Outcome (Bool × Files)
open_file_if_it_doesnt_exist name fs =
    let created = overwrite (path_of name) [] fs >>= λ fs'. returns (false, fs') in
    if opens (path_of name) fs then returns (true, fs) else created

-- `char str[] = "fileContent was deleted!"` has a NUL, which `sizeof` counts.
abbrev pub deleted_mark : List ℕ
deleted_mark = codes "fileContent was deleted!" ++ 0 ∷ []

-- truncateTheFile
unfoldable pub truncate_the_file : Text → Files → Outcome Files
truncate_the_file name fs = overwrite (path_of name) deleted_mark fs
