-- ===== src/Socket.antt =====
-- What PicoDB/pico/pico_session.h and PicoDB/pico/pico_client.h call of Boost.Asio: a connection is
-- the bytes that have not been read yet and the bytes that were written. How many of them each call
-- of `read_some` hands over is the environment's choice.
use Prim.Native.Nat.{min}
use pico_db.Prelude.{
  Bool, ℕ, ◌≤◌, ◌≡◌, List, ◌∷◌, ◌++◌, Text, length, take, drop, Outcome, arith, take-append,
  drop-append, ◌∙◌, ap,
}
use pico_db.Record.{read_block}

-- One call of `read_some`: the most bytes that it hands over, and what the memory that the program
-- allocates for it held before.
pub record Arrival : Type 0 where
  pub count : ℕ
  pub fresh : List ℕ

-- The memory that a call of `write_one_buffer` can see beyond its own: behind the block of the
-- record, behind the text of the header and behind the text of the data; what a `const char*` into a
-- destroyed text still points to; and whether the connection fails when the header and when the data
-- is written.
pub record Surroundings : Type 0 where
  pub behind_record : List ℕ
  pub behind_header : List ℕ
  pub behind_data : List ℕ
  pub stale : Text → List ℕ
  pub header_fails : Bool
  pub data_fails : Bool

abbrev pub handed_over : ℕ → Arrival → ℕ
handed_over size a = min size a.count

abbrev pub received : ℕ → Arrival → List ℕ → List ℕ
received size a incoming = take (handed_over size a) incoming

abbrev pub left_over : ℕ → Arrival → List ℕ → List ℕ
left_over size a incoming = drop (handed_over size a) incoming

-- boost::asio::buffer(text.c_str(), n): `n` bytes of the text, its NUL and what follows that.
abbrev pub buffer_of : ℕ → Text → List ℕ → Outcome (List ℕ)
buffer_of n text behind = read_block n (text ++ 0 ∷ behind)

-- A read of all that was asked for, where the connection has that much.
pub received_all :
    (t rest : List ℕ) (a : Arrival) → length t ≤ a.count → received (length t) a (t ++ rest) ≡ t
received_all t rest a h = ap (λ n. take n (t ++ rest)) (omega arith) ∙ take-append t rest

pub left_over_all :
    (t rest : List ℕ) (a : Arrival) → length t ≤ a.count → left_over (length t) a (t ++ rest) ≡ rest
left_over_all t rest a h = ap (λ n. drop n (t ++ rest)) (omega arith) ∙ drop-append t rest
