-- ===== src/Tests/Sample.antt =====
-- Libraries that the models of PicoDB/pico/pico_message.h can run with, and a request.
use pico_db.Prelude.{
  ℕ, ◌≡◌, refl, Bool, true, ◌&&◌, not, List, [], ◌∷◌, ◌++◌, Option, none, some, Text, codes, NoNul,
  length, ◌==◌, if◌then◌else◌, arith,
}
use pico_db.Utils.Decimal.{decimal}
use pico_db.Message.{Message, Libraries}
use pico_db.Message.Constructors.{new_message}
use pico_db.Message.Json.{JsonCpp, ReadsBack, member_or}
use pico_db.Message.Fields.{request_members}

-- A text form of objects with the members of a message: the values, each with a semicolon behind.
abbrev write_values : List (Text × Text) → Text
write_values [] = []
write_values ((n, v) ∷ ms) = v ++ b';' ∷ write_values ms

abbrev put_first : ℕ → List Text → List Text
put_first c [] = (c ∷ []) ∷ []
put_first c (t ∷ ts) = (c ∷ t) ∷ ts

abbrev read_values : Text → List Text
read_values [] = []
read_values (c ∷ cs) =
    let rest = read_values cs in if c == b';' then [] ∷ rest else put_first c rest

abbrev member_names : List Text
member_names =
    codes "key"
    ∷ codes "value"
    ∷ codes "oldvalue"
    ∷ codes "db"
    ∷ codes "user"
    ∷ codes "collection"
    ∷ codes "command"
    ∷ codes "messageId"
    ∷ codes "hashCode"
    ∷ []

abbrev named : List Text → List Text → Option (List (Text × Text))
named [] [] = some []
named [] (v ∷ vs) = none
named (n ∷ ns) [] = none
named (n ∷ ns) (v ∷ vs) = elim (named ns vs) [ none ↦ none | some ms ↦ some ((n, v) ∷ ms) ]

abbrev pub sample_json : JsonCpp
sample_json = record {
  Value = List (Text × Text);
  parse = λ text. named member_names (read_values text);
  get_string = λ root name fallback. some (member_or name fallback root);
  write = write_values;
}

abbrev pub sample_lib : Libraries
sample_lib = record { json = sample_json; cast = decimal; hash_of = length }

abbrev pub sample_request : Message
sample_request =
    new_message sample_lib (codes "17") (codes "k") (codes "v") (codes "insert") (codes "d")
      (codes "u") (codes "c")

abbrev pub sample_text : Text
sample_text = codes "k;v;;d;u;c;insert;17;;"

pub sample-ReadsBack : ReadsBack sample_json (
    request_members sample_lib
      (codes "17")
      (codes "k")
      (codes "v")
      (codes "insert")
      (codes "d")
      (codes "u")
      (codes "c"))
sample-ReadsBack = record {
  root =
      request_members sample_lib (codes "17") (codes "k") (codes "v") (codes "insert") (codes "d")
        (codes "u") (codes "c");
  parses = refl;
  gets = λ name fallback. refl;
}

pub sample_request_text : sample_request.json_form_of_message ≡ sample_text
unfolding new_message
sample_request_text = refl

abbrev without_nul : Text → Bool
without_nul [] = true
without_nul (c ∷ cs) = not (c == 0) && without_nul cs

pub without_nul-NoNul : (t : Text) → without_nul t ≡ true → NoNul t
without_nul-NoNul [] h = tt
without_nul-NoNul (c ∷ t) h = ground (arith, without_nul-NoNul t)
