-- ===== src/RequestProcessor/Table.antt =====
-- What PicoDB/pico/request_processor.h answers to each command.
use pico_db.Prelude.{◌≡◌, refl, ◌≢◌, ◌⊎◌, Option, none, some, aborts, Text, codes, ne→text_eq}
use pico_db.Message.{Message, Libraries}
use pico_db.Message.Constructors.{reply_message}
use pico_db.Message.Fields.{build_message_from_string-aborts}
use pico_db.RequestProcessor.{ret_msg, process_request}

-- The commands that `processRequest` compares with.
pub data Command : Type 0 where
  inserts : Command
  deletes : Command
  updates : Command
  finds : Command
  adds_user : Command
  deletes_user : Command
  gets : Command
  deletes_collection : Command
  creates_collection : Command

abbrev pub command_text : Command → Text
command_text inserts = codes "insert"
command_text deletes = codes "delete"
command_text updates = codes "update"
command_text finds = codes "find"
command_text adds_user = codes "adduser"
command_text deletes_user = codes "deleteuser"
command_text gets = codes "get"
command_text deletes_collection = codes "deleteCollection"
command_text creates_collection = codes "createCollection"

module _ (lib : Libraries) where
  -- A reply, and the requests that it answers.
  abbrev pub Answers : Message → Message → Type 0
  Answers r m =
      ((m.command ≡ codes "delete")
        × (r
            ≡ reply_message lib (codes "SUCCESS")
                (codes "one message was deleted from database in unknown(todo) seperate records")
                m.message_id))
      ⊎ ((m.command ≡ codes "update")
          × (r ≡ reply_message lib (codes "SUCCESS") (codes "records were updated") m.message_id))

  -- A command that the processor does not know makes it fail an assertion, if the JSON library does
  -- not parse the text that it wants to answer with.
  pub process_request-aborts :
      (m : Message)
      → ((k : Command) → m.command ≢ command_text k)
      → lib.json.parse (codes "request_processr: message wasn't processed") ≡ none
      → process_request lib m ≡ aborts
  unfolding process_request ret_msg
  process_request-aborts m unknown plain =
      let other = λ (k : Command). ne→text_eq m.command (command_text k) (unknown k) in
      rw
        (
          other inserts,
          other deletes,
          other updates,
          other finds,
          other adds_user,
          other deletes_user,
          other gets,
          other deletes_collection,
          other creates_collection,
        )
        (rw
          (build_message_from_string-aborts lib (codes "request_processr: message wasn't processed")
            m.message_id plain)
          refl)

  abbrev Answered : Message → Option Message → Type 0
  Answered m none = Unit
  Answered m (some r) = Answers r m
