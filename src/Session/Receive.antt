-- ===== src/Session/Receive.antt =====
-- Reading of a whole message, its header and its text, of PicoDB/pico/pico_session.h.
use pico_db.Prelude.{
  ℕ, suc, ◌+◌, ◌≤◌, ◌<◌, ◌≡◌, refl, ap, ◌∙◌, ◌≢◌, List, [], ◌∷◌, ◌++◌, All, All-append, some,
  returns, ◌>>=◌, false, pos, Text, length, arith, append_assoc,
}
use pico_db.Queue.Vector.{push_back_locked}
use pico_db.Record.{new_record, is_size_info_bytes}
use pico_db.Message.{Message, Libraries}
use pico_db.Message.Constructors.{parse_message}
use pico_db.Message.Fields.{json_form-parse_message}
use pico_db.Socket.{Arrival}
use pico_db.AsyncReader.{IsAllocated, get_one_buffer, return_the_buffer, return_the_buffer-last}
use pico_db.Wire.{
  frame_header, IsReadable, length-frame_header, frame_header-size_info, size_digits-frame_header,
}
use pico_db.Session.{Session, read_one_buffer, returned}
use pico_db.Session.Read.{logged, read-size, read-message}

pub ne_nil-length : {A : Type 0} (n : ℕ) (xs : List A) → length xs ≡ suc n → xs ≢ []
ne_nil-length n [] h = absurd (omega arith)
ne_nil-length n (x ∷ xs) h = λ e. cc

pub All-weaken : (n : ℕ) (ps : List ℕ) → All (λ p. p < n) ps → All (λ p. p < suc n) ps
All-weaken n [] h = tt
All-weaken n (p ∷ ps) h = (omega arith, All-weaken n ps h.1)

-- A reader that has handed out two buffers and got both back, the second one first.
pub nested_buffers :
    (ps : List ℕ) (n : ℕ)
    → All (λ p. p < n) ps
    → return_the_buffer n (
        return_the_buffer (suc n) (record {
          single_buffer_list = (ps ++ n ∷ []) ++ suc n ∷ [];
          next_pointer = suc (suc n);
        }))
      ≡ record { single_buffer_list = ps; next_pointer = suc (suc n) }
nested_buffers ps n h =
    ap (return_the_buffer n) (
      return_the_buffer-last (suc n) (suc (suc n)) (ps ++ n ∷ [])
        (All-append (λ p. p < suc n) ps (n ∷ []) (All-weaken n ps h) (omega arith, tt)))
    ∙ return_the_buffer-last n (suc (suc n)) ps h

module _ (lib : Libraries) where
  pub to_long-to_text : (n : ℕ) → n < 1000000 → lib.cast.to_long (lib.cast.to_text n) ≡ some (pos n)
  to_long-to_text n h =
      let v = lib.cast.to_text_value n in
      lib.cast.to_long_digits (lib.cast.to_text n) (lib.cast.to_text_digits n)
        (lib.cast.to_text_ne_nil n) (omega arith)
      ∙ ap (λ k. some (pos k)) v

  -- A message as it stands on the connection.
  abbrev pub framed : Text → List ℕ → List ℕ
  framed t behind = frame_header lib.cast (length t) behind ++ t

  -- The session once it has read a message and queued the reply.
  abbrev pub has_read : Text → List ℕ → List ℕ → Session → Session
  has_read t behind rest s = record s {
    incoming = rest;
    message_number = s.message_number + 1 + 1;
    number_of_chars_to_read = 10;
    async_reader = record {
      single_buffer_list = s.async_reader.single_buffer_list;
      next_pointer = suc (suc s.async_reader.next_pointer);
    };
    buffer_queue = push_back_locked s.buffer_queue (new_record t);
    list_of_all_messages =
        push_back_locked
          (push_back_locked s.list_of_all_messages (frame_header lib.cast (length t) behind)) t;
    number_of_message_read = s.number_of_message_read + 1;
  }

  -- A message that the session can read in one piece.
  pub record IsReceivable (t : Text) : Type 0 where
    pub is_not_empty : t ≢ []
    pub short : length t < 1000000
    pub not_size : is_size_info_bytes t ≡ false
    pub message : Message
    pub parses : parse_message lib t ≡ returns message

  -- A message of less than a million bytes that comes in behind its header, each in one piece, is read
  -- by one call of `readOneBuffer`: the session has the reply in its queue, has counted one message
  -- and has given both buffers back, provided the message is not taken for a size and is parsed.
  pub read_one_buffer-framed :
      (t behind rest : List ℕ) (a b : Arrival) (arrivals : List Arrival) (s : Session)
      → s.incoming ≡ framed t behind ++ rest
      → IsReceivable t
      → IsReadable lib.cast (length t) behind
      → 10 ≤ a.count
      → length t ≤ b.count
      → IsAllocated s.async_reader
      → read_one_buffer lib (a ∷ b ∷ arrivals) (pos 10) s
        ≡ returns (arrivals, has_read t behind rest s)
  unfolding get_one_buffer
  read_one_buffer-framed t behind rest a b arrivals s inc r readable big big' alloc =
      let h = frame_header lib.cast (length t) behind in
      let ten = length-frame_header lib.cast (length t) behind readable in
      let header =
        read-size lib a (b ∷ arrivals) h (t ++ rest) s (lib.cast.to_text (length t))
          (pos (length t)) (ne_nil-length 9 h ten) (omega arith) (omega arith)
          (inc ∙ append_assoc h t rest) (frame_header-size_info lib.cast (length t) behind)
          (size_digits-frame_header lib.cast (length t) behind r.short)
          (to_long-to_text (length t) r.short) in
      let payload =
        read-message lib b arrivals t rest
          (record (logged h (t ++ rest) s) { number_of_chars_to_read = 10 }) r.message
          r.is_not_empty big' (omega (arith, r.short)) refl r.not_size r.parses in
      (rw ten at header)
      ∙ (ap (λ r. r >>= returned lib s.async_reader.next_pointer) payload
          ∙ rw (json_form-parse_message lib t r.message r.parses) (
              rw
                (nested_buffers s.async_reader.single_buffer_list s.async_reader.next_pointer alloc)
                refl))
