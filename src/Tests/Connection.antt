-- ===== src/Tests/Connection.antt =====
-- The session and the driver of PicoDB/pico on one request.
use pico_db.Prelude.{
  true, false, ℕ, ◌≡◌, refl, List, [], ◌∷◌, ◌++◌, none, some, returns, pos, codes, arith,
}
use pico_db.Record.{new_record}
use pico_db.Socket.{Arrival}
use pico_db.Session.{Session, new_session, read_one_buffer, write_one_buffer, start}
use pico_db.Session.Write.{IsOrderly, write_one_buffer_lem}
use pico_db.Session.Echo.{Echoed, start-echoes, requests}
use pico_db.Session.Receive.{framed, has_read, read_one_buffer-framed}
use pico_db.Session.Write
use pico_db.Driver
use pico_db.Driver.{new_driver}
use pico_db.Session.Read.{answered}
use pico_db.Session.Short.{read_one_buffer-stale}
use pico_db.Driver.Loop
use pico_db.Driver.Rounds.{Call, IsAnswered, Exchanged, replies, start-Exchanged}
use pico_db.Driver.Trip.{IsSmooth, ComesBack, new_message-ComesBack}
use pico_db.Tests.Sample.{
  sample_lib, sample_request, sample-ReadsBack, sample_request_text, sample_text,
}
use pico_db.Tests.Network.{
  all_at_once, tidy, receivable, orderly, terminated, sample_NoNul, one_exchange, served, travel,
  smooth,
}

abbrev on_the_wire : List ℕ
on_the_wire = framed sample_lib sample_text tidy.behind_header

read_one_buffer-framed_example :
    read_one_buffer sample_lib
      (all_at_once ∷ all_at_once ∷ [])
      (pos 10)
      (new_session (on_the_wire ++ []))
    ≡ returns (
      [],
      has_read sample_lib sample_text tidy.behind_header [] (new_session (on_the_wire ++ [])),
    )
read_one_buffer-framed_example =
    read_one_buffer-framed sample_lib sample_text tidy.behind_header [] all_at_once all_at_once []
      (new_session (on_the_wire ++ [])) refl receivable (omega arith) (omega arith) (omega arith) tt

abbrev queued_session : Session
queued_session = record (new_session []) { buffer_queue = new_record sample_text ∷ [] }

write_one_buffer_lem_example :
    write_one_buffer sample_lib tidy queued_session
    ≡ returns (Write.sent sample_lib tidy [] sample_text queued_session)
write_one_buffer_lem_example =
    write_one_buffer_lem sample_lib tidy [] sample_text queued_session refl sample_NoNul
      (omega arith) orderly

start-echoes_example :
    (s' : Session) × (start sample_lib
        (tidy ∷ tidy ∷ [])
        (all_at_once ∷ all_at_once ∷ all_at_once ∷ all_at_once ∷ [])
        (new_session (requests sample_lib (one_exchange ∷ one_exchange ∷ [])))
      ≡ returns (some ([], s')))
    × Echoed sample_lib
        (one_exchange ∷ one_exchange ∷ [])
        (new_session (requests sample_lib (one_exchange ∷ one_exchange ∷ [])))
        s'
start-echoes_example =
    start-echoes sample_lib (one_exchange ∷ one_exchange ∷ [])
      (new_session (requests sample_lib (one_exchange ∷ one_exchange ∷ []))) (served, (served, tt))
      refl tt

smooth_request : IsSmooth sample_lib travel sample_request.json_form_of_message
smooth_request = rw sample_request_text smooth

new_message-ComesBack_example :
    ComesBack sample_lib travel 10 700 sample_request
      (record sample_request { message_size = none })
      new_driver
unfolding new_driver
new_message-ComesBack_example =
    new_message-ComesBack sample_lib travel 10 700 (codes "17") (codes "k") (codes "v")
      (codes "insert") (codes "d") (codes "u") (codes "c") new_driver sample-ReadsBack
      smooth_request refl tt (omega arith) (omega arith)

-- nine bytes arrive, and the block held the end of a request before
abbrev cut_short : Arrival
cut_short = record { count = 9; fresh = codes "old;text;c;insert;17;;" }

abbrev short_session : Session
short_session = new_session (codes "k;v;;d;u;")

read_one_buffer-stale_example :
    read_one_buffer sample_lib (cut_short ∷ []) (pos 22) short_session
    ≡ returns (
      [],
      answered sample_lib sample_text []
          (record sample_request { message_size = none })
          short_session,
    )
unfolding receivable
read_one_buffer-stale_example =
    read_one_buffer-stale sample_lib cut_short [] short_session
      (record sample_request { message_size = none }) (omega arith) (omega arith)
      receivable.not_size receivable.parses

abbrev one_call : Call
one_call = record {
  request = sample_text;
  around = tidy;
  reply = sample_text;
  behind = tidy.behind_header;
  header_read = all_at_once;
  text_read = all_at_once;
}

answered_call : IsAnswered sample_lib one_call
answered_call = record {
  no_nul = sample_NoNul;
  long = omega arith;
  terminated = terminated;
  receivable = receivable;
  readable = omega arith;
  whole_header = omega arith;
  whole_text = omega arith;
}

abbrev two_calls : List Call
two_calls = one_call ∷ one_call ∷ []

abbrev busy_driver : Driver.Driver
busy_driver = record new_driver {
  buffer_queue = new_record (codes "older") ∷ new_record sample_text ∷ new_record sample_text ∷ [];
  incoming = replies sample_lib two_calls;
}

start-Exchanged_example :
    (d' : Driver.Driver) × (Loop.start sample_lib true false
        (tidy ∷ tidy ∷ [])
        (all_at_once ∷ all_at_once ∷ all_at_once ∷ all_at_once ∷ [])
        busy_driver
      ≡ returns (some ([], d')))
    × Exchanged sample_lib two_calls
        (answered_call, (answered_call, tt))
        (new_record (codes "older") ∷ [])
        busy_driver
        d'
unfolding new_driver
start-Exchanged_example =
    start-Exchanged sample_lib true two_calls (new_record (codes "older") ∷ []) busy_driver
      (answered_call, (answered_call, tt)) refl refl tt
