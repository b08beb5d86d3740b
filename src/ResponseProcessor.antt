-- ===== src/ResponseProcessor.antt =====
-- PicoDB/pico/ClientResponseProcessor.h: what the client does with a response, which is to log it.
use pico_db.Prelude.{Text, codes}
use pico_db.Files.{Files}
use pico_db.Logger.{Logger, log}
use pico_db.Message.{Message}
use pico_db.Message

-- processResponse: each `<<` is a call of `log`, with a time of its own.
unfoldable pub process_response : Text → Text → Message → Logger → Files → Files
unfolding log
process_response now later message_from_other_side mylogger fs =
    log later (Message.to_string message_from_other_side) mylogger (
      log now
        (codes
          "ClientResponseProcessor : this is the message that is going to be processed by the client ")
        mylogger fs)
