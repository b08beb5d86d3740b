-- ===== src/WriterBufferContainer.antt =====
-- PicoDB/pico/writer_buffer_container.h: a shared pointer to a vector of buffers. The vectors stand in
-- the store of the buffered messages.
use pico_db.Prelude.{ℕ, suc, ◌≡◌, refl, ◌≢◌, [], ◌∷◌, ◌++◌, ◌==◌, ==-self, ==-ne, if◌then◌else◌}
use pico_db.Queue.Vector.{push_back_locked}
use pico_db.Queue.Buffered.{Store}
use pico_db.Record.{PicoRecord}

pub record WriterBufferContainer : Type 0 where
  pub writer_message_list : ℕ

-- writer_buffer_container()
pub new_container : Store PicoRecord → WriterBufferContainer × Store PicoRecord
new_container s = (
  record { writer_message_list = s.next_address },
  record {
    vector_at = λ p. if p == s.next_address then [] else s.vector_at p;
    next_address = suc s.next_address;
  },
)

-- writer_buffer_container(list)
pub container_over : ℕ → WriterBufferContainer
container_over list = record { writer_message_list = list }

-- addToAllBuffers
pub add_to_all_buffers : PicoRecord → WriterBufferContainer → Store PicoRecord → Store PicoRecord
add_to_all_buffers msg c s = record s {
  vector_at = λ p.
      if p == c.writer_message_list
      then push_back_locked (s.vector_at c.writer_message_list) msg
      else s.vector_at p;
}

-- A buffer that is added shows to everybody who has the list, and no other list changes.
pub add_to_all_buffers-shared :
    (msg : PicoRecord) (list : ℕ) (s : Store PicoRecord)
    → let s' = add_to_all_buffers msg (container_over list) s in
      (s'.vector_at list ≡ s.vector_at list ++ msg ∷ [])
      × ((p : ℕ) → p ≢ list → s'.vector_at p ≡ s.vector_at p)
unfolding add_to_all_buffers container_over
add_to_all_buffers-shared msg list s = (rw (==-self list) refl, λ p ne. rw (==-ne p list ne) refl)
