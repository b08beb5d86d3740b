-- ===== src/Session/HangUp.antt =====
-- What becomes of a session of PicoDB/pico/pico_session.h when its client closes the connection:
-- `read_some` hands over nothing then, and the error that it reports is not looked at.
use Prim.Native.Nat.{min}
use pico_db.Prelude.{
  ℕ, ◌≤◌, ◌≡◌, refl, sym, ◌∙◌, false, List, [], ◌∷◌, ◌++◌, All, none, aborts, pos, length, arith,
  append-nil, take-nil, drop-nil,
}
use pico_db.Record.{is_size_info_bytes}
use pico_db.Message.{Libraries}
use pico_db.Message.Fields.{parse_message-aborts}
use pico_db.Socket.{Arrival, Surroundings}
use pico_db.AsyncReader.{IsAllocated}
use pico_db.Session.{Session, read_one_buffer, rounds, start, read_message}
use pico_db.Session.Read.{read_one_buffer_lem}
use pico_db.Session.Receive.{ne_nil-length}
use pico_db.Session.Short.{read_one_buffer-with_stale}
use pico_db.Session.Echo.{Exchange, IsServed, requests, reads, surroundings, rounds-Served}

module _ (lib : Libraries) where
  -- A read that hands over nothing into memory which is neither a size nor JSON.
  pub record IsHangUp (a : Arrival) : Type 0 where
    pub ten : length a.fresh ≡ 10
    pub not_size : is_size_info_bytes a.fresh ≡ false
    pub not_json : lib.json.parse a.fresh ≡ none

  read-garbage :
      (text : List ℕ) (a : Arrival) (arrivals : List Arrival) (s : Session)
      → length text ≡ 10
      → is_size_info_bytes text ≡ false
      → lib.json.parse text ≡ none
      → 10 ≤ a.count
      → s.incoming ≡ text ++ []
      → read_one_buffer lib (a ∷ arrivals) (pos (length text)) s ≡ aborts
  unfolding read_message
  read-garbage text a arrivals s ten not_size not_json whole inc =
      read_one_buffer_lem lib a arrivals text [] s (ne_nil-length 9 text ten) (omega arith)
        (omega arith) inc
      ∙ rw (not_size, parse_message-aborts lib text not_json) refl

  read-hang_up :
      (a : Arrival) (arrivals : List Arrival) (s : Session)
      → IsHangUp a
      → s.incoming ≡ []
      → read_one_buffer lib (a ∷ arrivals) (pos (length a.fresh)) s ≡ aborts
  read-hang_up a arrivals s h inc =
      read_one_buffer-with_stale lib a arrivals s (omega (arith, h.ten)) (omega (arith, h.ten))
      ∙ (rw (inc, take-nil (min (length a.fresh) a.count), drop-nil (min (length a.fresh) a.count))
          (read-garbage a.fresh (record { count = length a.fresh; fresh = a.fresh }) arrivals
            (record s { incoming = a.fresh ++ [] }) h.ten h.not_size h.not_json
            (omega (arith, h.ten)) refl))

  -- However many messages it has answered, a session whose client is gone aborts the program, as soon
  -- as its next read finds memory which is neither a size nor JSON.
  pub start-hang_up :
      (es : List Exchange) (around : Surroundings) (arounds : List Surroundings) (a : Arrival)
      (arrivals : List Arrival) (s : Session)
      → All (IsServed lib) es
      → s.incoming ≡ requests lib es
      → IsAllocated s.async_reader
      → IsHangUp a
      → start lib (surroundings lib es ++ around ∷ arounds) (reads lib es ++ a ∷ arrivals) s
        ≡ aborts
  unfolding start rounds
  start-hang_up es around arounds a arrivals s v inc alloc h =
      let (s', runs, done) =
        rounds-Served lib es [] (around ∷ arounds) (a ∷ arrivals) s v
          (inc ∙ sym (append-nil (requests lib es))) alloc in
      rw (runs, (rw h.ten at (read-hang_up a arrivals s' h done.left))) refl
