-- ===== src/Message/Constructors.antt =====
-- The constructors of PicoDB/pico/pico_message.h: from a text that is parsed, and from parts.
use pico_db.Prelude.{
  not, [], none, some, Outcome, returns, aborts, ◌>>=◌, Text, codes, is_empty, length,
  if◌then◌else◌,
}
use pico_db.Message.Json.{thrown}
use pico_db.Message.{Message, Libraries, blank_message, set_hash_code, convert_message_to_json}

module _ (lib : Libraries) where
  open lib use {json}

  -- the parsing that three constructors begin with
  pub parsed : Text → Outcome json.Value
  parsed text = elim (json.parse text) [ none ↦ aborts | some root ↦ returns root ]

  -- `root.get(name, fallback).asString()`
  abbrev pub field : json.Value → Text → Text → Outcome Text
  field root name fallback = thrown (json.get_string root name fallback)

  -- pico_message(message_from_client)
  unfoldable pub parse_message : Text → Outcome Message
  unfolding parsed set_hash_code
  parse_message text = do
    root ← parsed text
    command ← field root (codes "command") (codes "unknown")
    message_id ← field root (codes "messageId") (codes "couldntparseit")
    collection ← field root (codes "collection") (codes "unknown")
    db ← field root (codes "db") (codes "unknown")
    user ← field root (codes "user") (codes "unknown")
    key ← field root (codes "key") (codes "unknown")
    value ← field root (codes "value") (codes "unknown")
    oldvalue ← field root (codes "oldvalue") (codes "unknown")
    returns (
        set_hash_code lib (record {
          key = key;
          value = value;
          oldvalue = oldvalue;
          user = user;
          db = db;
          command = command;
          message_id = message_id;
          collection = collection;
          json_form_of_message = text;
          hash_code_of_message = [];
          message_size = none;
        }))

  -- pico_message(message_from_client, msgId)
  parse_message_with_id : Text → Text → Outcome Message
  unfolding parsed set_hash_code
  parse_message_with_id text msg_id = do
    root ← parsed text
    command ← field root (codes "command") (codes "unknown")
    collection ← field root (codes "collection") (codes "unknown")
    db ← field root (codes "db") (codes "unknown")
    user ← field root (codes "user") (codes "unknown")
    key ← field root (codes "key") (codes "unknown")
    value ← field root (codes "value") (codes "unknown")
    oldvalue ← field root (codes "oldvalue") (codes "unknown")
    returns (
        set_hash_code lib (record {
          key = key;
          value = value;
          oldvalue = oldvalue;
          user = user;
          db = db;
          command = command;
          message_id = msg_id;
          collection = collection;
          json_form_of_message = text;
          hash_code_of_message = [];
          message_size = none;
        }))

  -- pico_message(json_message_from_client, simpleMessage, msgId)
  unfoldable pub simple_message : Text → Text → Outcome Message
  unfolding parsed set_hash_code
  simple_message text msg_id = do
    root ← parsed text
    let msg = record blank_message { message_id = msg_id; json_form_of_message = text }
    returns (if not (is_empty text) then set_hash_code lib msg else msg)

  unfoldable pub build_message_from_string : Text → Text → Outcome Message
  unfolding simple_message
  build_message_from_string value message_id = simple_message value message_id

  -- the last three lines of the constructors that make a message from its parts
  finished : Message → Message
  unfolding convert_message_to_json set_hash_code
  finished m =
      let json_form = convert_message_to_json lib m in
      set_hash_code lib
        (record m { json_form_of_message = json_form; message_size = some (length json_form) })

  -- pico_message(newKey, newValue, com, database, us, col); the request id is an argument.
  unfoldable pub new_message : Text → Text → Text → Text → Text → Text → Text → Message
  unfolding finished
  new_message request_id new_key new_value command database us col =
      finished (record blank_message {
        command = command;
        collection = col;
        db = database;
        user = us;
        key = new_key;
        value = new_value;
        message_id = request_id;
      })

  -- pico_message(newKey, old_value_arg, newValue, com, database, us, col)
  new_update_message : Text → Text → Text → Text → Text → Text → Text → Text → Message
  unfolding finished
  new_update_message request_id new_key old_value new_value command database us col =
      finished (record blank_message {
        command = command;
        collection = col;
        db = database;
        user = us;
        key = new_key;
        oldvalue = old_value;
        value = new_value;
        message_id = request_id;
      })

  -- pico_message(keyFromDB, valueFromDB, messageIdArg)
  unfoldable pub reply_message : Text → Text → Text → Message
  unfolding finished
  reply_message key_from_db value_from_db message_id = finished (record blank_message {
    command = codes "unknown";
    collection = codes "unknown";
    db = codes "unknown";
    user = codes "unknown";
    key = key_from_db;
    value = value_from_db;
    message_id = message_id;
  })
