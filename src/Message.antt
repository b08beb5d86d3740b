-- ===== src/Message.antt =====
-- PicoDB/pico/pico_message.h: requests and replies, and their JSON form. Message.Constructors has the
-- constructors that parse a text or make a message from its parts.
pub mod Json
pub mod Constructors
pub mod Fields
use Prim.Native.Nat.{◌*◌, ◌%◌, bit_xor}
use pico_db.Prelude.{
  ℕ, Bool, true, false, not, ◌&&◌, List, [], ◌∷◌, Option, none, some, Outcome, returns, aborts,
  ◌>>=◌, ◌>>◌, assert, Text, codes, text_eq, is_empty, length, if◌then◌else◌,
}
use pico_db.Utils.Cast.{LexicalCast}
use pico_db.Record.{PicoRecord, new_record}
use pico_db.Message.Json.{JsonCpp, thrown}

-- `message_size` is indeterminate in a message that was parsed.
pub record Message : Type 0 where
  pub key : Text
  pub value : Text
  pub oldvalue : Text
  pub user : Text
  pub db : Text
  pub command : Text
  pub message_id : Text
  pub collection : Text
  pub json_form_of_message : Text
  pub hash_code_of_message : Text
  pub message_size : Option ℕ

-- The libraries that a message is made with: JSON, the casts, and std::hash on texts.
pub record Libraries : Type 1 where
  pub json : JsonCpp
  pub cast : LexicalCast
  pub hash_of : Text → ℕ

-- pico_message()
abbrev pub blank_message : Message
blank_message = record {
  key = [];
  value = [];
  oldvalue = [];
  user = [];
  db = [];
  command = [];
  message_id = [];
  collection = [];
  json_form_of_message = [];
  hash_code_of_message = [];
  message_size = none;
}

-- The assignment operators and the copy constructor, field by field.
pub assign : Message → Message → Message
assign self msg = record self {
  user = msg.user;
  db = msg.db;
  command = msg.command;
  message_id = msg.message_id;
  collection = msg.collection;
  message_size = msg.message_size;
  key = msg.key;
  value = msg.value;
  oldvalue = msg.oldvalue;
  json_form_of_message = msg.json_form_of_message;
  hash_code_of_message = msg.hash_code_of_message;
}

pub copy_message : Message → Message
unfolding assign
copy_message msg = assign blank_message msg

-- The other operator=, which takes no constant: it returns a copy.
assign_and_copy : Message → Message → Message × Message
unfolding copy_message
assign_and_copy self msg =
    let self' = record self {
      user = msg.user;
      db = msg.db;
      command = msg.command;
      message_id = msg.message_id;
      collection = msg.collection;
      message_size = msg.message_size;
      key = msg.key;
      value = msg.value;
      oldvalue = msg.oldvalue;
      json_form_of_message = msg.json_form_of_message;
      hash_code_of_message = msg.hash_code_of_message;
    } in
    (self', copy_message self')

-- operator==
pub message_eq : Message → Message → Bool
message_eq self msg =
    text_eq self.message_id msg.message_id
    && (text_eq self.key msg.key
        && (text_eq self.json_form_of_message msg.json_form_of_message
            && (text_eq self.db msg.db
                && (text_eq self.collection msg.collection && text_eq self.value msg.value))))

abbrev pub size_t_mod : ℕ
size_t_mod = 18446744073709551616

module _ (lib : Libraries) where
  open lib use {json, cast, hash_of}

  -- `h1 ^ (h2 << 1) ^ h3 ^ h4 ^ h5 ^ h6 ^ h7` on 64-bit words
  hash_code : Message → ℕ
  hash_code m =
      let h1 = hash_of m.user in
      let h2 = hash_of m.db in
      let h3 = hash_of m.command in
      let h4 = hash_of m.collection in
      let h5 = hash_of m.key in
      let h6 = hash_of m.value in
      let h7 = hash_of m.oldvalue in
      bit_xor (bit_xor (bit_xor (bit_xor (bit_xor (bit_xor h1 (h2 * 2 % size_t_mod)) h3) h4) h5) h6)
        h7

  pub set_hash_code : Message → Message
  unfolding hash_code
  set_hash_code m = record m { hash_code_of_message = cast.to_text (hash_code m) }

  -- the members that `convert_message_to_json` sets, in its order
  abbrev pub members : Message → List (Text × Text)
  members m =
      (codes "key", m.key)
      ∷ (codes "value", m.value)
      ∷ (codes "oldvalue", m.oldvalue)
      ∷ (codes "db", m.db)
      ∷ (codes "user", m.user)
      ∷ (codes "collection", m.collection)
      ∷ (codes "command", m.command)
      ∷ (codes "messageId", m.message_id)
      ∷ (codes "hashCode", m.hash_code_of_message)
      ∷ []

  pub convert_message_to_json : Message → Text
  convert_message_to_json m = json.write (members m)

  create_the_key_value_pair : Message → Text
  create_the_key_value_pair m = json.write ((codes "key", m.key) ∷ (codes "value", m.value) ∷ [])

-- toString()
abbrev pub to_string : Message → Text
to_string m = m.json_form_of_message

-- getCompleteMessageInJsonAsOnBuffer()
abbrev pub get_complete_message_in_json_as_on_buffer : Message → PicoRecord
get_complete_message_in_json_as_on_buffer m = new_record m.json_form_of_message
