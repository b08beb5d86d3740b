-- ===== src/Tests/Replies.antt =====
-- The search of PicoDB/pico/pico_client.h for the reply to a request, its queue of requests, and a
-- client that waits for replies.
use pico_db.Prelude.{List, ◌≡◌, refl, true, [], ◌∷◌, returns, waits, codes, arith}
use pico_db.Message.{Message, blank_message}
use pico_db.Driver.{Driver, new_driver, queue_the_response, queue_request_messages}
use pico_db.Driver.Requests.{Turn, arrive, look, get_the_response_of_request}
use pico_db.Driver.Responses.{get_the_response_of_request-waits}
use pico_db.Driver.Calls.{Operation, gets, call, request_of, call-answer, call-id}
use pico_db.Prelude.{false}
use pico_db.Record.{PicoRecord, new_record}
use pico_db.Driver.Waking.{RequestQueue, waits_for_requests, OwnReach}
use pico_db.Driver.Waking.Progress.{newest-taken}
use pico_db.Tests.Sample.{sample_lib}

abbrev mine : Message
mine = record blank_message { message_id = codes "17" }

abbrev other : Message
other = record blank_message { message_id = [] }

-- a turn in which nothing arrives, and one in which the reply does
abbrev quiet : Turn
quiet = record { arrived = []; locked = true }

abbrev busy : Turn
busy = record { arrived = other ∷ mine ∷ []; locked = true }

abbrev driver : Driver
driver = record new_driver { response_queue = []; next_response = 4 }

abbrev a_get : Operation
a_get = gets (codes "k") 5

abbrev driver_after : Driver
driver_after =
    record (arrive (other ∷ mine ∷ [])
      (queue_request_messages (request_of sample_lib 10 a_get (codes "17") driver) driver)) {
        response_queue = (4, other) ∷ [];
      }

call-answer_example :
    call sample_lib 10 a_get (codes "17") 700 (quiet ∷ busy ∷ []) driver
    ≡ returns (mine, driver_after)
unfolding arrive look queue_the_response queue_request_messages
call-answer_example =
    call-answer sample_lib 10 a_get (codes "17") 700 (quiet ∷ []) busy [] mine driver
      ((4, other) ∷ []) 5 (omega arith) (refl, tt) (omega arith) refl refl refl

answered :
    call sample_lib 10 a_get (codes "17") 700 (quiet ∷ busy ∷ []) driver
    ≡ returns (mine, driver_after)
unfolding arrive look queue_the_response queue_request_messages
answered =
    call-answer sample_lib 10 a_get (codes "17") 700 (quiet ∷ []) busy [] mine driver
      ((4, other) ∷ []) 5 (omega arith) (refl, tt) (omega arith) refl refl refl

call-id_example : mine.message_id ≡ codes "17"
call-id_example =
    call-id sample_lib 10 a_get (codes "17") 700 (quiet ∷ busy ∷ []) driver mine driver_after
      answered

get_the_response_of_request-waits_example :
    get_the_response_of_request sample_lib 10 700 (quiet ∷ quiet ∷ quiet ∷ []) mine driver ≡ waits
unfolding arrive look
get_the_response_of_request-waits_example =
    get_the_response_of_request-waits sample_lib 10 700 (quiet ∷ quiet ∷ quiet ∷ []) mine driver
      (omega arith) (refl, (refl, (refl, tt)))

-- The request came when the writing thread had found the queue empty and did not wait yet.
abbrev a_record : PicoRecord
a_record = new_record (codes "k")

abbrev asleep : RequestQueue
asleep = record {
  buffer_queue = a_record ∷ [];
  writer = waits_for_requests;
  notifier_found = false;
  taken = [];
}

newest-taken_example :
    (t : RequestQueue) × OwnReach asleep t × (t.taken ≡ a_record ∷ []) × (t.buffer_queue ≡ [])
newest-taken_example = newest-taken [] a_record asleep refl (λ e. cc)

abbrev later_records : List PicoRecord
later_records = new_record (codes "l") ∷ new_record (codes "m") ∷ []
