-- ===== src/Queue/Buffered/Sharing.antt =====
-- Copies of PicoDB/pico/pico_buffered_message.h, and new messages.
use pico_db.Prelude.{
  ◌<◌, ◌≡◌, ap, sym, ◌∙◌, List, [], ◌∷◌, ◌++◌, Text, arith, ==-self, ==-ne, append-nil,
  append_assoc, false, ◌==◌,
}
use pico_db.Queue.Vector
use pico_db.Queue.Buffered.{
  Store, BufferedMessage, new_message, copy_message, append, to_string, clear,
}

module _ {ℓ} {A : Type ℓ} (show : A → Text) where
  to_string-append :
      (v : List A) (a : A)
      → Vector.to_string show (Vector.append v a) ≡ Vector.to_string show v ++ show a
  unfolding Vector.to_string Vector.append
  to_string-append [] a = append-nil (show a)
  to_string-append (x ∷ xs) a =
      ap (◌++◌ (show x)) (to_string-append xs a)
      ∙ sym (append_assoc (show x) (Vector.to_string show xs) (show a))

  -- What is appended to a message shows at the end of every copy that was made of it.
  pub append-copy_message :
      (m : BufferedMessage) (a : A) (s : Store A)
      → let (c, s') = copy_message m s in
        to_string show c (append m a s') ≡ to_string show m s ++ show a
  unfolding append to_string copy_message
  append-copy_message m a s =
      rw (==-self m.msg_in_buffers) (to_string-append (s.vector_at m.msg_in_buffers) a)

  -- A new message is empty, and what is done to it leaves every message that was there before alone.
  pub append-new_message :
      (m : BufferedMessage) (a : A) (s : Store A)
      → m.msg_in_buffers < s.next_address
      → let (n, s') = new_message s in
        (to_string show n s' ≡ [])
        × (to_string show m (append n a s') ≡ to_string show m s)
        × (to_string show m (clear n s') ≡ to_string show m s)
  unfolding append to_string new_message clear Vector.to_string
  append-new_message m a s h =
      let other : (m.msg_in_buffers == s.next_address) ≡ false =
        ==-ne m.msg_in_buffers s.next_address (omega arith) in
      (rw (==-self s.next_address), rw other, rw other)
