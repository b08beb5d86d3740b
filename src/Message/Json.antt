-- ===== src/Message/Json.antt =====
-- What PicoDB/pico/pico_message.h calls of the JSON library in PicoDB/third_party/json_cpp: a
-- parameter of the model.
use pico_db.Prelude.{
  ◌≡◌, List, [], ◌∷◌, Option, none, some, Outcome, returns, throws, Text, text_eq, if◌then◌else◌,
}

pub record JsonCpp : Type 1 where
  pub Value : Type 0
  -- Reader::parse; `none` is a failure.
  pub parse : Text → Option Value
  -- Value::get(name, fallback).asString(); `none` is an exception.
  pub get_string : Value → Text → Text → Option Text
  -- StyledWriter::write of an object with these members
  pub write : List (Text × Text) → Text

abbrev pub thrown {ℓ} : {A : Type ℓ} → Option A → Outcome A
thrown none = throws
thrown (some a) = returns a

-- The member of an object, or the fallback.
abbrev pub member_or : Text → Text → List (Text × Text) → Text
member_or name fallback [] = fallback
member_or name fallback ((n, v) ∷ ms) = if text_eq name n then v else member_or name fallback ms

-- What the program relies on: that the object which the writer wrote is read back with its members.
pub record ReadsBack (json : JsonCpp) (ms : List (Text × Text)) : Type 0 where
  pub root : json.Value
  pub parses : json.parse (json.write ms) ≡ some root
  pub gets :
      (name fallback : Text)
      → json.get_string root name fallback ≡ some (member_or name fallback ms)
