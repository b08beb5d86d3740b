-- ===== src/Tests/Messages.antt =====
-- Messages and the request processor of PicoDB/pico on a sample request.
use pico_db.Prelude.{◌≡◌, none, returns, codes}
use pico_db.Message.{Message, blank_message}
use pico_db.Message.Constructors.{parse_message, reply_message}
use pico_db.Message.Fields.{parse-new_message}
use pico_db.Tests.Sample.{sample_lib, sample_request, sample-ReadsBack}

parse-new_message_example :
    parse_message sample_lib sample_request.json_form_of_message
    ≡ returns (record sample_request { message_size = none })
parse-new_message_example =
    parse-new_message sample_lib (codes "17") (codes "k") (codes "v") (codes "insert") (codes "d")
      (codes "u") (codes "c") sample-ReadsBack

abbrev deletion : Message
deletion = record blank_message { command = codes "delete"; message_id = codes "18" }

abbrev deleted : Message
deleted =
    reply_message sample_lib (codes "SUCCESS")
      (codes "one message was deleted from database in unknown(todo) seperate records") (codes "18")
