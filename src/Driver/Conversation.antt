-- ===== src/Driver/Conversation.antt =====
-- The loops of PicoDB/pico/pico_client.h and of PicoDB/pico/pico_session.h at the two ends of one
-- connection.
use pico_db.Prelude.{
  Bool, suc, ◌+◌, ◌≡◌, refl, ap, sym, ◌∙◌, false, List, [], ◌∷◌, ◌++◌, All, some, returns, Text,
  length, arith,
}
use pico_db.Record.{PicoRecord}
use pico_db.Message.{Message, Libraries}
use pico_db.AsyncReader.{IsAllocated}
use pico_db.Session.{Session, new_session}
use pico_db.Session
use pico_db.Session.Echo.{Exchange, IsServed, start-echoes, reads, surroundings}
use pico_db.Session.Echo
use pico_db.Session.Receive.{framed}
use pico_db.Driver.{Driver}
use pico_db.Driver.Loop
use pico_db.Driver.Trip.{Travel, exchange, IsSmooth}
use pico_db.Driver.Rounds.{
  Call, IsAnswered, pending, arounds, arrivals_of, messages_of, messages, start-Exchanged, requests,
  replies,
}

-- A request of the driver, and what happens to it on its way to the server and back.
pub record Leg : Type 0 where
  pub text : Text
  pub travel : Travel

abbrev pub call_of : Leg → Call
call_of l = record {
  request = l.text;
  around = l.travel.around;
  reply = l.text;
  behind = l.travel.server_around.behind_header;
  header_read = l.travel.reply_header_read;
  text_read = l.travel.reply_text_read;
}

abbrev pub calls : List Leg → List Call
calls [] = []
calls (l ∷ ls) = call_of l ∷ calls ls

module _ (lib : Libraries) where
  abbrev pub exchanges : List Leg → List Exchange
  exchanges [] = []
  exchanges (l ∷ ls) = exchange lib l.travel l.text ∷ exchanges ls

  abbrev pub AllSmooth : List Leg → Type 0
  AllSmooth = All (λ l. IsSmooth lib l.travel l.text)

  abbrev pub parsed : (ls : List Leg) → AllSmooth ls → List Message
  parsed [] v = []
  parsed (l ∷ ls) v = v.0.served.receivable.message ∷ parsed ls v.1

  all-IsServed : (ls : List Leg) → AllSmooth ls → All (IsServed lib) (exchanges ls)
  all-IsServed [] v = tt
  all-IsServed (l ∷ ls) v = (v.0.served, all-IsServed ls v.1)

  all-IsAnswered : (ls : List Leg) → AllSmooth ls → All (IsAnswered lib) (calls ls)
  all-IsAnswered [] v = tt
  all-IsAnswered (l ∷ ls) v = (
    record {
      no_nul = v.0.served.no_nul;
      long = v.0.served.long;
      terminated = v.0.terminated;
      receivable = v.0.served.receivable;
      readable = v.0.served.orderly.readable;
      whole_header = v.0.whole_header;
      whole_text = v.0.whole_text;
    },
    all-IsAnswered ls v.1,
  )

  messages-parsed :
      (ls : List Leg) (v : AllSmooth ls)
      → messages lib (calls ls) (all-IsAnswered ls v) ≡ parsed ls v
  unfolding all-IsAnswered
  messages-parsed [] v = refl
  messages-parsed (l ∷ ls) v =
      ap (λ ms. v.0.served.receivable.message ∷ ms) (messages-parsed ls v.1)

  -- What one side sends is what the other one gets.
  requests-exchanges : (ls : List Leg) → Echo.requests lib (exchanges ls) ≡ requests lib (calls ls)
  requests-exchanges [] = refl
  requests-exchanges (l ∷ ls) =
      ap (λ r. framed lib l.text l.travel.around.behind_header ++ r) (requests-exchanges ls)

  replies-exchanges : (ls : List Leg) → Echo.replies lib (exchanges ls) ≡ replies lib (calls ls)
  replies-exchanges [] = refl
  replies-exchanges (l ∷ ls) =
      ap (λ r. framed lib l.text l.travel.server_around.behind_header ++ r) (replies-exchanges ls)

  -- Both loops over one connection: each side reads exactly what the other one writes.
  pub record Converse (handled : Bool) (ls : List Leg) (v : AllSmooth ls) (queue : List PicoRecord)
      (d : Driver) : Type 0 where
    pub session : Session
    pub driver : Driver
    pub serves :
        Session.start lib
          (surroundings lib (exchanges ls))
          (reads lib (exchanges ls))
          (new_session driver.outgoing)
        ≡ returns (some ([], session))
    pub drives :
        Loop.start lib handled false
          (arounds (calls ls))
          (arrivals_of (calls ls))
          (record d { incoming = session.outgoing })
        ≡ returns (some ([], driver))
    pub all_read : (session.incoming ≡ []) × (driver.incoming ≡ [])
    pub responses : messages_of driver.response_queue ≡ messages_of d.response_queue ++ parsed ls v
    pub rest_of_queue : driver.buffer_queue ≡ queue
    pub counts :
        (session.number_of_message_read ≡ length ls)
        × (driver.number_of_message_read ≡ d.number_of_message_read + length ls)

  length-exchanges : (ls : List Leg) → length (exchanges ls) ≡ length ls
  length-exchanges [] = refl
  length-exchanges (l ∷ ls) = ap suc (length-exchanges ls)

  length-calls : (ls : List Leg) → length (calls ls) ≡ length ls
  length-calls [] = refl
  length-calls (l ∷ ls) = ap suc (length-calls ls)

  -- The loop of the driver and the loop of the session, at the two ends of one connection: every
  -- request in the driver's queue, the newest first, is sent, read by the session, sent back, and
  -- read by the driver, and the response queue has a message for each of them, in that order, behind
  -- what it held. Nothing is left on the connection, and each side has counted one message read for
  -- each request. Needed are a driver that has sent nothing yet, and requests that are received whole,
  -- parsed and not taken for a size, in orderly memory, and a connection that does not fail.
  pub start-Converse :
      (handled : Bool) (ls : List Leg) (queue : List PicoRecord) (d : Driver) (v : AllSmooth ls)
      → d.buffer_queue ≡ pending (calls ls) queue
      → d.outgoing ≡ []
      → IsAllocated d.async_reader
      → Converse handled ls v queue d
  start-Converse handled ls queue d v q fresh alloc =
      let answers = all-IsAnswered ls v in
      let sent = replies lib (calls ls) in
      let (driver, drives, done) =
        start-Exchanged lib handled (calls ls) queue (record d { incoming = sent }) answers q refl
          alloc in
      let asked : driver.outgoing ≡ Echo.requests lib (exchanges ls) =
        done.asked ∙ (ap (λ o. o ++ requests lib (calls ls)) fresh ∙ sym (requests-exchanges ls)) in
      let (session, serves, echo) =
        start-echoes lib (exchanges ls) (new_session driver.outgoing) (all-IsServed ls v) asked
          tt in
      let answered : session.outgoing ≡ sent = echo.answers ∙ replies-exchanges ls in
      record {
        session = session;
        driver = driver;
        serves = serves;
        drives = rw answered drives;
        all_read = (echo.nothing_left, done.nothing_left);
        responses =
            done.responses ∙ ap (λ ms. messages_of d.response_queue ++ ms) (messages-parsed ls v);
        rest_of_queue = done.rest_of_queue;
        counts = (
          omega (arith, echo.counts_read, length-exchanges ls),
          omega (arith, done.counts_read, length-calls ls),
        );
      }
