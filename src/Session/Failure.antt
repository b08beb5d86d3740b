-- ===== src/Session/Failure.antt =====
-- How the loop of PicoDB/pico/pico_session.h ends.
use pico_db.Prelude.{
  ℕ, ◌≤◌, ◌≡◌, refl, ◌∙◌, ◌⊎◌, inl, inr, false, true, List, ◌∷◌, [], ◌++◌, none, some, returns,
  aborts, throws, ℤ, pos, is_positive, Text, length, arith,
}
use pico_db.Message.{Libraries}
use pico_db.Socket.{Arrival, Surroundings}
use pico_db.Record.{is_size_info_bytes}
use pico_db.Wire.{size_digits}
use pico_db.Session.{Session, Reading, read_one_buffer, rounds, start}
use pico_db.Session.Read.{read-size, read-bad_size}
use pico_db.Session.Receive.{ne_nil-length}

module _ (lib : Libraries) where
  -- A header of ten bytes whose digits do not make a number, or make one that is not positive.
  pub record IsBadHeader (header : List ℕ) : Type 0 where
    pub ten : length header ≡ 10
    pub size_info : is_size_info_bytes header ≡ true
    pub digits : Text
    pub has_digits : size_digits header ≡ some digits
    pub bad :
        (lib.cast.to_long digits ≡ none)
        ⊎ ((z : ℤ) × (lib.cast.to_long digits ≡ some z) × (is_positive z ≡ false))

  refused :
      (arrivals : List Arrival) (z : ℤ) (s : Session)
      → is_positive z ≡ false
      → read_one_buffer lib arrivals z s ≡ aborts
  unfolding read_one_buffer
  refused [] z s h = rw h refl
  refused (a ∷ arrivals) z s h = rw h refl

  abbrev IsFailure : Reading → Type 0
  IsFailure r = (r ≡ throws) ⊎ (r ≡ aborts)

  read-bad_header :
      (header rest : List ℕ) (a : Arrival) (arrivals : List Arrival) (s : Session)
      → IsBadHeader header
      → 10 ≤ a.count
      → s.incoming ≡ header ++ rest
      → IsFailure (read_one_buffer lib (a ∷ arrivals) (pos (length header)) s)
  read-bad_header header rest a arrivals s b whole inc =
      let ne = ne_nil-length 9 header b.ten in
      elim b.bad [
        | inl e ↦ inl (
            read-bad_size lib a arrivals header rest s b.digits ne (omega (arith, b.ten))
              (omega (arith, b.ten)) inc b.size_info b.has_digits e)
        | inr (z, e, h) ↦ inr (
            read-size lib a arrivals header rest s b.digits z ne (omega (arith, b.ten))
              (omega (arith, b.ten)) inc b.size_info b.has_digits e
            ∙ rw (refused arrivals z _ h) refl)
      ]

  -- After a bad header the session is over, or the program is.
  pub start-bad_header :
      (header rest : List ℕ) (around : Surroundings) (arounds : List Surroundings) (a : Arrival)
      (arrivals : List Arrival) (s : Session)
      → IsBadHeader header
      → 10 ≤ a.count
      → s.incoming ≡ header ++ rest
      → (start lib (around ∷ arounds) (a ∷ arrivals) s ≡ returns none)
        ⊎ (start lib (around ∷ arounds) (a ∷ arrivals) s ≡ aborts)
  unfolding start rounds
  start-bad_header header rest around arounds a arrivals s b whole inc =
      elim (rw b.ten at (read-bad_header header rest a arrivals s b whole inc)) [
        | inl e ↦ inl (rw e refl)
        | inr e ↦ inr (rw e refl)
      ]
