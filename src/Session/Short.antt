-- ===== src/Session/Short.antt =====
-- Reading of PicoDB/pico/pico_session.h, when the socket hands over less than what is asked for.
use Prim.Native.Nat.{min}
use pico_db.Prelude.{
  ℕ, zero, suc, ◌≤◌, ◌<◌, ◌≡◌, refl, ap, sym, ◌∙◌, ◌≢◌, false, List, [], ◌∷◌, ◌++◌, returns, ℤ, pos,
  to_int-small, length, take, drop, replicate, arith, append_assoc, take-append_le, take_all,
  lengths, length-take,
}
use pico_db.Record.{get_data_for_read, filled, is_size_info_bytes, blank_record}
use pico_db.Record.Memory.{filled-all}
use pico_db.Message.{Message, Libraries}
use pico_db.Message.Constructors.{parse_message}
use pico_db.Socket.{Arrival, received, left_over, received_all, left_over_all}
use pico_db.Session.{Session, Reading, process_the_buffer_just_read, read_sync, read_one_buffer}
use pico_db.Session.Read.{read-message, answered}

-- What stands in a block after a read of `bytes`, of which there may be too few.
abbrev pub with_stale : List ℕ → List ℕ → List ℕ
with_stale bytes fresh = bytes ++ drop (length bytes) fresh

length-with_stale :
    (bytes fresh : List ℕ)
    → length bytes ≤ length fresh
    → length (with_stale bytes fresh) ≡ length fresh
length-with_stale bytes fresh h = simp lengths (omega arith)

filled-with_stale :
    (bytes fresh : List ℕ)
    → length bytes ≤ length fresh
    → filled (length fresh) bytes fresh ≡ with_stale bytes fresh
filled-with_stale bytes fresh h =
    let n = length fresh in
    let size = length-with_stale bytes fresh h in
    ap (take n) (sym (append_assoc bytes (drop (length bytes) fresh) (replicate n 0)))
    ∙ (take-append_le n (with_stale bytes fresh) (replicate n 0) (omega arith)
        ∙ take_all n (with_stale bytes fresh) (omega arith))

same_buffer :
    (bytes fresh : List ℕ)
    → length bytes ≤ length fresh
    → get_data_for_read (length fresh) bytes fresh blank_record
      ≡ get_data_for_read
          (length (with_stale bytes fresh))
          (with_stale bytes fresh)
          fresh
          blank_record
unfolding get_data_for_read
same_buffer bytes fresh h =
    rw
      (
        filled-with_stale bytes fresh h,
        filled-all (with_stale bytes fresh) fresh,
        length-with_stale bytes fresh h,
      )
      refl

received-short : (n : ℕ) (a : Arrival) (incoming : List ℕ) → length (received n a incoming) ≤ n
received-short n a incoming = omega (arith, length-take (min n a.count) incoming)

nonempty : (t : List ℕ) → 0 < length t → t ≢ []
nonempty [] h = absurd (omega arith)
nonempty (c ∷ t) h = λ e. cc

module _ (lib : Libraries) where
  -- The reading of a block is as if the socket had handed over all that stands in it.
  read_sync-with_stale :
      (again : ℤ → Session → Reading) (a : Arrival) (arrivals : List Arrival) (s : Session)
      → let n = length a.fresh in
        let text = with_stale (received n a s.incoming) a.fresh in
        read_sync lib again a arrivals n s
        ≡ read_sync lib again
            (record { count = n; fresh = a.fresh })
            arrivals
            (length text)
            (record s { incoming = text ++ left_over n a s.incoming })
  unfolding read_sync process_the_buffer_just_read
  read_sync-with_stale again a arrivals s =
      let n = length a.fresh in
      let bytes = received n a s.incoming in
      let text = with_stale bytes a.fresh in
      let rest = left_over n a s.incoming in
      let fits = received-short n a s.incoming in
      let whole : Arrival = record { count = n; fresh = a.fresh } in
      let size = length-with_stale bytes a.fresh fits in
      rw
        (
          same_buffer bytes a.fresh fits,
          received_all text rest whole (omega arith),
          left_over_all text rest whole (omega arith),
        )
        (rw size refl)

  read_one_buffer-read_sync :
      (a : Arrival) (arrivals : List Arrival) (n : ℕ) (s : Session)
      → 0 < n
      → n < 2147483648
      → read_one_buffer lib (a ∷ arrivals) (pos n) s
        ≡ read_sync lib (read_one_buffer lib arrivals) a arrivals n s
  unfolding read_one_buffer
  read_one_buffer-read_sync a arrivals zero s some_bytes fits = absurd (omega arith)
  read_one_buffer-read_sync a arrivals (suc n) s some_bytes fits =
      rw (to_int-small (suc n) fits) refl

  -- A read of too few bytes is a read of all that stands in the block then.
  pub read_one_buffer-with_stale :
      (a : Arrival) (arrivals : List Arrival) (s : Session)
      → let n = length a.fresh in
        let text = with_stale (received n a s.incoming) a.fresh in
        0 < n
        → n < 2147483648
        → read_one_buffer lib (a ∷ arrivals) (pos n) s
          ≡ read_one_buffer lib
              (record { count = n; fresh = a.fresh } ∷ arrivals)
              (pos (length text))
              (record s { incoming = text ++ left_over n a s.incoming })
  read_one_buffer-with_stale a arrivals s some_bytes fits =
      let n = length a.fresh in
      let text = with_stale (received n a s.incoming) a.fresh in
      let size =
        length-with_stale (received n a s.incoming) a.fresh (received-short n a s.incoming) in
      read_one_buffer-read_sync a arrivals n s some_bytes fits
      ∙ (read_sync-with_stale (read_one_buffer lib arrivals) a arrivals s
          ∙ sym (
              read_one_buffer-read_sync (record { count = n; fresh = a.fresh }) arrivals
                (length text) (record s { incoming = text ++ left_over n a s.incoming })
                (omega arith) (omega arith)))

  -- `readOneBuffer` does not look at the number of bytes that it received. If that is less than the
  -- block holds, what the fresh memory held before is taken for the rest of the message: the session
  -- parses and queues the bytes that came with the old memory behind them, and would send that back.
  pub read_one_buffer-stale :
      (a : Arrival) (arrivals : List Arrival) (s : Session) (m : Message)
      → let n = length a.fresh in
        let text = with_stale (received n a s.incoming) a.fresh in
        0 < n
        → n < 2147483648
        → is_size_info_bytes text ≡ false
        → parse_message lib text ≡ returns m
        → read_one_buffer lib (a ∷ arrivals) (pos n) s
          ≡ returns (arrivals, answered lib text (left_over n a s.incoming) m s)
  read_one_buffer-stale a arrivals s m some_bytes fits message parses =
      let n = length a.fresh in
      let text = with_stale (received n a s.incoming) a.fresh in
      let rest = left_over n a s.incoming in
      let whole : Arrival = record { count = n; fresh = a.fresh } in
      let s' = record s { incoming = text ++ rest } in
      let size =
        length-with_stale (received n a s.incoming) a.fresh (received-short n a s.incoming) in
      read_one_buffer-with_stale a arrivals s some_bytes fits
      ∙ read-message lib whole arrivals text rest s' m (nonempty text (omega arith)) (omega arith)
          (omega arith) refl message parses
