-- ===== src/Message/Fields.antt =====
-- Laws of the constructors and of the comparison in PicoDB/pico/pico_message.h.
use pico_db.Prelude.{
  &&-true, ◌≡◌, refl, ◌↔◌, true, List, [], none, some, returns, aborts, Ends, Ends-bind,
  Ends-returns, Text, codes, text_eq, text_eq_refl, text_eq→≡,
}
use pico_db.Message.Json.{ReadsBack, thrown, member_or}
use pico_db.Message.{
  Message, Libraries, blank_message, message_eq, copy_message, assign, members, set_hash_code,
}
use pico_db.Message.Constructors.{
  parse_message, new_message, build_message_from_string, parsed, field,
}

-- The parts by which two messages are compared.
pub record SameParts (a b : Message) : Type 0 where
  pub same_id : a.message_id ≡ b.message_id
  pub same_key : a.key ≡ b.key
  pub same_json : a.json_form_of_message ≡ b.json_form_of_message
  pub same_db : a.db ≡ b.db
  pub same_collection : a.collection ≡ b.collection
  pub same_value : a.value ≡ b.value

equal_texts : {x y : Text} → x ≡ y → text_eq x y ≡ true
equal_texts {x} {y} e = rw e (text_eq_refl y)

-- `==` holds exactly between messages with the same id, key, JSON form, database, collection and
-- value; the user, the command, the old value and the hash do not matter.
pub message_eq_iff : (a b : Message) → (message_eq a b ≡ true) ↔ SameParts a b
unfolding message_eq
message_eq_iff a b = (
  (λ h.
      let (i, r1) = &&-true _ _ h in
      let (k, r2) = &&-true _ _ r1 in
      let (j, r3) = &&-true _ _ r2 in
      let (d, r4) = &&-true _ _ r3 in
      let (c, v) = &&-true _ _ r4 in
      record {
        same_id = text_eq→≡ _ _ i;
        same_key = text_eq→≡ _ _ k;
        same_json = text_eq→≡ _ _ j;
        same_db = text_eq→≡ _ _ d;
        same_collection = text_eq→≡ _ _ c;
        same_value = text_eq→≡ _ _ v;
      }),
  λ s. rw (
    equal_texts s.same_id,
    equal_texts s.same_key,
    equal_texts s.same_json,
    equal_texts s.same_db,
    equal_texts s.same_collection,
    equal_texts s.same_value,
  ),
)

-- A copy is the message itself.
copy_message_self : (m : Message) → copy_message m ≡ m
unfolding copy_message assign
copy_message_self m = refl

module _ (lib : Libraries) where
  open lib use {json, cast, hash_of}

  -- The message that the parser makes of an object with these members.
  abbrev read_message : Text → List (Text × Text) → Message
  read_message text ms = set_hash_code lib (record {
    key = member_or (codes "key") (codes "unknown") ms;
    value = member_or (codes "value") (codes "unknown") ms;
    oldvalue = member_or (codes "oldvalue") (codes "unknown") ms;
    user = member_or (codes "user") (codes "unknown") ms;
    db = member_or (codes "db") (codes "unknown") ms;
    command = member_or (codes "command") (codes "unknown") ms;
    message_id = member_or (codes "messageId") (codes "couldntparseit") ms;
    collection = member_or (codes "collection") (codes "unknown") ms;
    json_form_of_message = text;
    hash_code_of_message = [];
    message_size = none;
  })

  thrown-some :
      (root : json.Value) (ms : List (Text × Text))
      → ((n f : Text) → json.get_string root n f ≡ some (member_or n f ms))
      → (n f : Text) → thrown (json.get_string root n f) ≡ returns (member_or n f ms)
  thrown-some root ms gets n f = rw (gets n f)

  parse_message-reads :
      (ms : List (Text × Text)) (text : Text) (root : json.Value)
      → json.parse text ≡ some root
      → ((n f : Text) → json.get_string root n f ≡ some (member_or n f ms))
      → parse_message lib text ≡ returns (read_message text ms)
  unfolding parse_message
  parse_message-reads ms text root p gets = rw (p, parsed) (simp (thrown-some root ms gets))

  -- The members that a new request is written with.
  abbrev pub request_members : Text → Text → Text → Text → Text → Text → Text → List (Text × Text)
  request_members request_id key value command db user collection =
      members lib (record blank_message {
        command = command;
        collection = collection;
        db = db;
        user = user;
        key = key;
        value = value;
        message_id = request_id;
      })

  -- A request that is sent as JSON and parsed on the other side has the parts, the id and the hash
  -- code that it was made with, and only its size is not set, if the JSON library reads back what it
  -- wrote.
  pub parse-new_message :
      (request_id key value command db user collection : Text)
      → ReadsBack json (request_members request_id key value command db user collection)
      → let m = new_message lib request_id key value command db user collection in
        parse_message lib m.json_form_of_message ≡ returns (record m { message_size = none })
  unfolding new_message
  parse-new_message request_id key value command db user collection back =
      parse_message-reads (request_members request_id key value command db user collection)
        (json.write (request_members request_id key value command db user collection)) back.root
        back.parses back.gets

  pub parse_message-aborts :
      (text : Text) → lib.json.parse text ≡ none → parse_message lib text ≡ aborts
  unfolding parse_message
  parse_message-aborts text h = rw (h, parsed) refl

  -- A reply that is built from a text that is not JSON fails the assertion on the parser's result.
  pub build_message_from_string-aborts :
      (value message_id : Text)
      → json.parse value ≡ none
      → build_message_from_string lib value message_id ≡ aborts
  unfolding build_message_from_string
  build_message_from_string-aborts value message_id e = rw (e, parsed)

  keeps_json : (t : Text) → Ends (λ m. m.json_form_of_message ≡ t) (parse_message lib t)
  unfolding parse_message set_hash_code
  keeps_json t = Ends-bind (parsed lib t) λ root.
      Ends-bind (field lib root (codes "command") (codes "unknown")) λ _.
        Ends-bind (field lib root (codes "messageId") (codes "couldntparseit")) λ _.
          Ends-bind (field lib root (codes "collection") (codes "unknown")) λ _.
            Ends-bind (field lib root (codes "db") (codes "unknown")) λ _.
              Ends-bind (field lib root (codes "user") (codes "unknown")) λ _.
                Ends-bind (field lib root (codes "key") (codes "unknown")) λ _.
                  Ends-bind (field lib root (codes "value") (codes "unknown")) λ _.
                    Ends-bind (field lib root (codes "oldvalue") (codes "unknown"))
                      λ _. Ends-returns refl

  -- A message that was parsed has the parsed text as its JSON form.
  pub json_form-parse_message :
      (t : Text) (m : Message) → parse_message lib t ≡ returns m → m.json_form_of_message ≡ t
  json_form-parse_message t m e = (keeps_json t).holds m e
