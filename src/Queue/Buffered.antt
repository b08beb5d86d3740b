-- ===== src/Queue/Buffered.antt =====
-- PicoDB/pico/pico_buffered_message.h: a message as a list of buffers. An object holds a shared
-- pointer to a `ConcurrentVector`, so a copy of it shares the vector: the vectors stand in a store.
pub mod Sharing
use pico_db.Prelude.{
  ℕ, suc, ◌+◌, ◌≡◌, refl, ◌≢◌, Bool, List, [], Option, Outcome, returns, ◌>>=◌, ℤ, Text, ◌==◌,
  if◌then◌else◌, arith, ==-self, ==-ne,
}
use pico_db.Queue.Vector

-- The vectors on the heap, by address, and the next free address.
pub record Store {ℓ} (A : Type ℓ) : Type ℓ where
  pub vector_at : ℕ → List A
  pub next_address : ℕ

-- `msg_in_buffers`
pub record BufferedMessage : Type 0 where
  pub msg_in_buffers : ℕ

module _ {ℓ} {A : Type ℓ} where
  abbrev write : ℕ → List A → Store A → Store A
  write p v s = record s { vector_at = λ q. if q == p then v else s.vector_at q }

  -- pico_buffered_message()
  pub new_message : Store A → BufferedMessage × Store A
  new_message s = (
    record { msg_in_buffers = s.next_address },
    record {
      vector_at = λ q. if q == s.next_address then [] else s.vector_at q;
      next_address = suc s.next_address;
    },
  )

  -- pico_buffered_message(list): the empty vector of the initialiser is dropped for the given one.
  message_over : ℕ → Store A → BufferedMessage × Store A
  message_over p s = (record { msg_in_buffers = p }, s)

  -- The copy constructor and the assignment copy the pointer.
  pub copy_message : BufferedMessage → Store A → BufferedMessage × Store A
  copy_message m s = (record { msg_in_buffers = m.msg_in_buffers }, s)

  pub append : BufferedMessage → A → Store A → Store A
  append m a s = write m.msg_in_buffers (Vector.append (s.vector_at m.msg_in_buffers) a) s

  pub pop : List Bool → BufferedMessage → Store A → Outcome (Option A × Store A)
  pop attempts m s = do
    (a, v) ← Vector.pop attempts (s.vector_at m.msg_in_buffers)
    returns (a, write m.msg_in_buffers v s)

  pub pop_at : (A → Text) → List Bool → ℤ → BufferedMessage → Store A → Outcome (Option A × Store A)
  pop_at show attempts n m s = do
    (a, v) ← Vector.pop_at show attempts n (s.vector_at m.msg_in_buffers)
    returns (a, write m.msg_in_buffers v s)

  pub peek : List Bool → BufferedMessage → Store A → Outcome (Option A)
  peek attempts m s = Vector.peek attempts (s.vector_at m.msg_in_buffers)

  pub empty : BufferedMessage → Store A → Bool
  empty m s = Vector.empty (s.vector_at m.msg_in_buffers)

  pub size : BufferedMessage → Store A → ℕ
  size m s = Vector.size (s.vector_at m.msg_in_buffers)

  pub clear : BufferedMessage → Store A → Store A
  clear m s = write m.msg_in_buffers (Vector.clear (s.vector_at m.msg_in_buffers)) s

  pub to_string : (A → Text) → BufferedMessage → Store A → Text
  to_string show m s = Vector.to_string show (s.vector_at m.msg_in_buffers)
