-- ===== src/RequestProcessor.antt =====
-- PicoDB/pico/request_processor.h: what the server was to do with a request. Its logger's
-- `isTraceEnabled` is always true, so what is logged is also read.
pub mod Table
use pico_db.Prelude.{
  Bool, true, false, not, List, [], ◌∷◌, ◌++◌, Option, none, some, Outcome, returns, undefined,
  ◌>>=◌, ◌>>◌, assert, Text, codes, text_eq, is_empty, if◌then◌else◌,
}
use pico_db.Record.{PicoRecord, blank_record, defined}
use pico_db.Record
use pico_db.Message.{Message, Libraries}
use pico_db.Message.Constructors.{reply_message, build_message_from_string}

-- A pointer that is followed: a null pointer has nothing behind it.
abbrev followed : Option Message → Outcome Message
followed none = undefined
followed (some m) = returns m

-- getOneMessage: the record is one that was never filled, and `msg` is null.
get_one_message : Message → Outcome (Option Message)
get_one_message request_message = do
  let firstrecord = blank_record
  text ← Record.to_string firstrecord
  assert (not (is_empty request_message.message_id))
  let msg = none
  fetched ← followed msg
  returns msg

module _ (lib : Libraries) where
  -- deleteRecords
  delete_records : Message → Message
  delete_records pico_msg =
      let result =
        codes "one message was deleted from database in unknown(todo)"
        ++ codes " seperate records" in
      let key = codes "SUCCESS" in reply_message lib key result pico_msg.message_id

  -- updateRecords
  update_records : Message → Message
  update_records pico_msg =
      let result = codes "records were updated" in
      let key = codes "SUCCESS" in reply_message lib key result pico_msg.message_id

  -- createCollection. `resultOfOperation` is never set, and to read it is undefined. In the first
  -- branch a new `key` hides the one that the reply is made with.
  create_collection : Message → Outcome Message
  create_collection pico_msg = do
    let result_of_operation : Option Bool = none
    added ← defined result_of_operation
    let result : Text =
        codes "collection "
        ++ pico_msg.collection
        ++ (if added
            then codes " was added to database "
            else codes " was not created in database ")
    let key : Text = if added then [] else codes "FAILURE"
    returns (reply_message lib key result pico_msg.message_id)

  -- deleteCollection, which is alike
  delete_collection : Message → Outcome Message
  delete_collection pico_msg = do
    let result_of_operation : Option Bool = none
    deleted ← defined result_of_operation
    let result : Text =
        codes "collection "
        ++ pico_msg.collection
        ++ (if deleted
            then codes " was deleted from database "
            else codes " was not deleted from database ")
    let key : Text = if deleted then [] else codes "FAILURE"
    returns (reply_message lib key result pico_msg.message_id)

  -- The branches of `processRequest`, and the message that it makes if none of them was taken, under
  -- a name that hides `retMsg`.
  ret_msg : Message → Outcome (Option Message)
  unfolding delete_records update_records get_one_message create_collection delete_collection
  ret_msg m =
      if text_eq m.command (codes "insert")
      then returns none
      else if text_eq m.command (codes "delete")
      then returns (some (delete_records m))
      else if text_eq m.command (codes "update")
      then returns (some (update_records m))
      else if text_eq m.command (codes "find")
      then returns none
      else if text_eq m.command (codes "adduser")
      then returns none
      else if text_eq m.command (codes "deleteuser")
      then returns none
      else if text_eq m.command (codes "get")
      then get_one_message m
      else if text_eq m.command (codes "deleteCollection")
      then (delete_collection m >>= λ r. returns (some r))
      else if text_eq m.command (codes "createCollection")
      then (create_collection m >>= λ r. returns (some r))
      else (build_message_from_string lib (codes "request_processr: message wasn't processed")
            m.message_id
          >>= λ hidden. returns none)

  -- processRequest: the reply is logged before it is returned.
  pub process_request : Message → Outcome Message
  unfolding ret_msg
  process_request m = ret_msg m >>= followed

  -- addUser and deleteUser
  add_user : Text → Text → Message → Outcome Message
  add_user db user pico_msg =
      build_message_from_string lib (codes "not done yet") pico_msg.message_id

  delete_user : Text → Text → Message → Outcome Message
  delete_user db user pico_msg =
      build_message_from_string lib (codes "not done yet") pico_msg.message_id

-- convertToJson: the loop drops every record.
convert_to_json : List PicoRecord → Text
convert_to_json [] = []
convert_to_json (r ∷ all_records) = convert_to_json all_records

get_success_message : Text
get_success_message = codes "{ key : "
