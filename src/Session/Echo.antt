-- ===== src/Session/Echo.antt =====
-- Rounds of `start` of PicoDB/pico/pico_session.h: messages come in and are sent back.
use pico_db.Prelude.{
  ℕ, suc, ◌+◌, ◌≤◌, ◌<◌, ◌≡◌, refl, ap, sym, ◌∙◌, List, [], ◌∷◌, ◌++◌, All, some, returns, ◌*◌,
  Text, NoNul, length, arith, append_assoc, append-nil,
}
use pico_db.Message.{Libraries}
use pico_db.Socket.{Arrival, Surroundings}
use pico_db.AsyncReader.{IsAllocated}
use pico_db.Wire.{frame_header, IsReadable}
use pico_db.Session.{Session, rounds, start}
use pico_db.Session.Write.{sent, IsOrderly, write_one_buffer_lem}
use pico_db.Session.Receive.{IsReceivable, framed, has_read, read_one_buffer-framed, All-weaken}

-- One message of the client, with what the environment does about it: the memory that the client
-- sent behind the header's text, the two reads, and the memory around the session's answer.
pub record Exchange : Type 0 where
  pub text : Text
  pub behind : List ℕ
  pub header_read : Arrival
  pub text_read : Arrival
  pub around : Surroundings

module _ (lib : Libraries) where
  pub record IsServed (e : Exchange) : Type 0 where
    pub receivable : IsReceivable lib e.text
    pub no_nul : NoNul e.text
    pub long : 2 < length e.text
    pub readable : IsReadable lib.cast (length e.text) e.behind
    pub whole_header : 10 ≤ e.header_read.count
    pub whole_text : length e.text ≤ e.text_read.count
    pub orderly : IsOrderly lib e.around (length e.text)

  -- what the client sends, and what it gets
  abbrev pub requests : List Exchange → List ℕ
  requests [] = []
  requests (e ∷ es) = framed lib e.text e.behind ++ requests es

  abbrev pub replies : List Exchange → List ℕ
  replies [] = []
  replies (e ∷ es) = framed lib e.text e.around.behind_header ++ replies es

  abbrev pub reads : List Exchange → List Arrival
  reads [] = []
  reads (e ∷ es) = e.header_read ∷ e.text_read ∷ reads es

  abbrev pub surroundings : List Exchange → List Surroundings
  surroundings [] = []
  surroundings (e ∷ es) = e.around ∷ surroundings es

  -- What a session has done for its client, once it has answered everything.
  pub record Echoed (es : List Exchange) (s s' : Session) : Type 0 where
    pub nothing_left : s'.incoming ≡ []
    pub answers : s'.outgoing ≡ s.outgoing ++ replies es
    pub same_queue : s'.buffer_queue ≡ s.buffer_queue
    pub same_buffers : s'.async_reader.single_buffer_list ≡ s.async_reader.single_buffer_list
    pub counts_read : s'.number_of_message_read ≡ s.number_of_message_read + length es
    pub counts_sent : s'.number_of_message_sent ≡ s.number_of_message_sent + 2 * length es

  -- What a session has done for its client once it has answered these messages, with more to read.
  pub record Served (es : List Exchange) (rest : List ℕ) (s s' : Session) : Type 0 where
    pub left : s'.incoming ≡ rest
    pub answers : s'.outgoing ≡ s.outgoing ++ replies es
    pub same_queue : s'.buffer_queue ≡ s.buffer_queue
    pub same_buffers : s'.async_reader.single_buffer_list ≡ s.async_reader.single_buffer_list
    pub allocated : IsAllocated s'.async_reader
    pub counts_read : s'.number_of_message_read ≡ s.number_of_message_read + length es
    pub counts_sent : s'.number_of_message_sent ≡ s.number_of_message_sent + 2 * length es

  abbrev round : Exchange → List ℕ → Session → Session
  round e rest s = sent lib e.around s.buffer_queue e.text (has_read lib e.text e.behind rest s)

  rounds-step :
      (e : Exchange) (rest : List ℕ) (arounds : List Surroundings) (arrivals : List Arrival)
      (s : Session)
      → IsServed e
      → s.incoming ≡ framed lib e.text e.behind ++ rest
      → IsAllocated s.async_reader
      → rounds lib (e.around ∷ arounds) (e.header_read ∷ e.text_read ∷ arrivals) s
        ≡ rounds lib arounds arrivals (round e rest s)
  unfolding rounds
  rounds-step e rest arounds arrivals s v inc alloc =
      rw
        (read_one_buffer-framed lib e.text e.behind rest e.header_read e.text_read arrivals s inc
          v.receivable v.readable v.whole_header v.whole_text alloc)
        (rw
          (write_one_buffer_lem lib e.around s.buffer_queue e.text
            (has_read lib e.text e.behind rest s) refl v.no_nul v.long v.orderly)
          refl)

  -- The first rounds of the loop answer the messages that come first.
  pub rounds-Served :
      (es : List Exchange) (rest : List ℕ) (arounds : List Surroundings) (arrivals : List Arrival)
      (s : Session)
      → All IsServed es
      → s.incoming ≡ requests es ++ rest
      → IsAllocated s.async_reader
      → (s' : Session) × (rounds lib (surroundings es ++ arounds) (reads es ++ arrivals) s
          ≡ rounds lib arounds arrivals s')
        × Served es rest s s'
  rounds-Served [] rest arounds arrivals s v inc alloc = (
    s,
    refl,
    record {
      left = inc;
      answers = sym (append-nil s.outgoing);
      same_queue = refl;
      same_buffers = refl;
      allocated = alloc;
      counts_read = omega arith;
      counts_sent = omega arith;
    },
  )
  rounds-Served (e ∷ es) rest arounds arrivals s v inc alloc =
      let n = s.async_reader.next_pointer in
      let ps = s.async_reader.single_buffer_list in
      let h = frame_header lib.cast (length e.text) e.around.behind_header in
      let next = requests es ++ rest in
      let (s', runs, done) =
        rounds-Served es rest arounds arrivals (round e next s) v.1 refl
          (All-weaken (suc n) ps (All-weaken n ps alloc)) in
      (
        s',
        rounds-step e next (surroundings es ++ arounds) (reads es ++ arrivals) s v.0
              (inc ∙ append_assoc (framed lib e.text e.behind) (requests es) rest) alloc
            ∙ runs,
        record {
          left = done.left;
          answers =
              done.answers
              ∙ ap (λ l. l ++ replies es) (append_assoc s.outgoing h e.text)
              ∙ append_assoc s.outgoing (h ++ e.text) (replies es);
          same_queue = done.same_queue;
          same_buffers = done.same_buffers;
          allocated = done.allocated;
          counts_read = omega (arith, done.counts_read);
          counts_sent = omega (arith, done.counts_sent);
        },
      )

  rounds-echo :
      (es : List Exchange) (s : Session)
      → All IsServed es
      → s.incoming ≡ requests es
      → IsAllocated s.async_reader
      → (s' : Session) × (rounds lib (surroundings es) (reads es) s ≡ returns ([], s'))
        × Echoed es s s'
  unfolding rounds
  rounds-echo es s v inc alloc =
      let (s', runs, done) =
        rounds-Served es [] [] [] s v (inc ∙ sym (append-nil (requests es))) alloc in
      (
        s',
        rw (append-nil (surroundings es), append-nil (reads es)) at runs,
        record {
          nothing_left = done.left;
          answers = done.answers;
          same_queue = done.same_queue;
          same_buffers = done.same_buffers;
          counts_read = done.counts_read;
          counts_sent = done.counts_sent;
        },
      )

  -- `start` is an echo server: it reads every message that the client sends and answers each with a
  -- header of its own and the same text, in order. It has nothing left to read or to send then, has
  -- given all buffers back, and has counted one message read and two sent for each. The messages are
  -- ones that are received whole and parsed, the memory around each answer is orderly, and the
  -- connection does not fail.
  pub start-echoes :
      (es : List Exchange) (s : Session)
      → All IsServed es
      → s.incoming ≡ requests es
      → IsAllocated s.async_reader
      → (s' : Session) × (start lib (surroundings es) (reads es) s ≡ returns (some ([], s')))
        × Echoed es s s'
  unfolding start
  start-echoes es s v inc alloc =
      let (s', runs, echo) = rounds-echo es s v inc alloc in (s', rw runs refl, echo)
