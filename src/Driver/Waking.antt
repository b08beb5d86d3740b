-- ===== src/Driver/Waking.antt =====
-- The request queue of PicoDB/pico/pico_client.h between three threads: callers queue requests, the
-- thread of `start` waits for them in `writeOneBuffer`, and that of `notifierService` wakes it.
pub mod Progress
pub mod Starvation
use pico_db.Prelude.{
  ℕ, ◌≡◌, ◌≢◌, refl, Bool, true, false, not, List, [], ◌∷◌, ◌++◌, Option, none, some, is_empty,
  if◌then◌else◌,
}
use pico_db.Queue.Vector.{pop_locked, push_back_locked}
use pico_db.Record.{PicoRecord}

-- Where the writing thread stands in `writeOneBuffer`.
pub data WriterPlace : Type 0 where
  -- while (bufferQueuePtr_->empty())
  at_empty : WriterPlace
  -- the queue was found empty, and the lock for waiting is not taken yet
  before_wait : WriterPlace
  -- bufferQueueIsEmpty.wait(writeOneBufferLock)
  waits_for_requests : WriterPlace
  -- bufferQueuePtr_->pop()
  at_pop : WriterPlace
  -- the request is written to the socket, and the reply is read by `readOneBuffer`: both block
  at_socket : WriterPlace

-- `taken` only records what was popped.
pub record RequestQueue : Type 0 where
  pub buffer_queue : List PicoRecord
  pub writer : WriterPlace
  -- the notifier has found the queue filled, and is about to notify
  pub notifier_found : Bool
  pub taken : List PicoRecord

abbrev pub initial_queue : RequestQueue
initial_queue = record { buffer_queue = []; writer = at_empty; notifier_found = false; taken = [] }

-- A writer that is notified tests the queue again.
abbrev pub woken : WriterPlace → WriterPlace
woken waits_for_requests = at_empty
woken place = place

abbrev pub tested : List PicoRecord → WriterPlace
tested queue = if is_empty queue then before_wait else at_pop

abbrev pub noted : Option PicoRecord → List PicoRecord
noted none = []
noted (some r) = r ∷ []

-- One step of some thread; the flag says whether it is one of the driver's own two threads.
pub data Step : Bool → RequestQueue → RequestQueue → Type 0 where
  queues :
      (r : PicoRecord) (s : RequestQueue)
      → Step false s (record s { buffer_queue = push_back_locked s.buffer_queue r })
  -- the notification of `queueRequestMessages`, which is a step of its own, or a spurious wake-up
  wakes : (s : RequestQueue) → Step false s (record s { writer = woken s.writer })
  -- The server has taken the request and replied: the loop of `start` comes to `writeOneBuffer` again.
  replies :
      (s : RequestQueue) → s.writer ≡ at_socket → Step false s (record s { writer = at_empty })
  tests :
      (s : RequestQueue)
      → s.writer ≡ at_empty
      → Step true s (record s { writer = tested s.buffer_queue })
  goes_to_sleep :
      (s : RequestQueue)
      → s.writer ≡ before_wait
      → Step true s (record s { writer = waits_for_requests })
  pops :
      (s : RequestQueue)
      → s.writer ≡ at_pop
      → Step true s (record s {
        writer = at_socket;
        buffer_queue = (pop_locked s.buffer_queue).1;
        taken = s.taken ++ noted (pop_locked s.buffer_queue).0;
      })
  -- if (!bufferQueuePtr_->empty()) in notifierService
  looks :
      (s : RequestQueue)
      → s.notifier_found ≡ false
      → Step true s (record s { notifier_found = not (is_empty s.buffer_queue) })
  notifies :
      (s : RequestQueue)
      → s.notifier_found ≡ true
      → Step true s (record s { writer = woken s.writer; notifier_found = false })

pub data Reach (s : RequestQueue) : RequestQueue → Type 0 where
  here : Reach s s
  next : {own : Bool} {t u : RequestQueue} → Reach s t → Step own t u → Reach s u

-- steps of the driver's own threads
pub data OwnReach (s : RequestQueue) : RequestQueue → Type 0 where
  stays : OwnReach s s
  goes : {t u : RequestQueue} → OwnReach s t → Step true t u → OwnReach s u
