-- ===== src/Driver/Waking/Progress.antt =====
-- What becomes of a request in the queue of PicoDB/pico/pico_client.h.
use pico_db.Prelude.{
  ◌≡◌, ◌≢◌, refl, inl, inr, Bool, true, false, not, List, [], ◌∷◌, ◌++◌, is_empty, Bool-cases,
}
use pico_db.Queue.Vector.{pop_locked, push_back_locked}
use pico_db.Record.{PicoRecord}
use pico_db.Queue.Ends.{last?-snoc, all_but_last-snoc}
use pico_db.Session.Write.{snoc-is_empty}
use pico_db.Driver.Waking.{
  WriterPlace, at_empty, before_wait, waits_for_requests, at_pop, at_socket, RequestQueue,
  initial_queue, woken, tested, noted, Step, queues, wakes, replies, tests, goes_to_sleep, pops,
  looks, notifies, Reach, here, next, OwnReach, stays, goes,
}

-- A writer that is about to pop has something to pop.
abbrev Filled : WriterPlace → List PicoRecord → Type 0
Filled at_empty queue = Unit
Filled before_wait queue = Unit
Filled waits_for_requests queue = Unit
Filled at_pop queue = is_empty queue ≡ false
Filled at_socket queue = Unit

abbrev IsFilled : RequestQueue → Type 0
IsFilled s = Filled s.writer s.buffer_queue

tested-Filled : (queue : List PicoRecord) → Filled (tested queue) queue
tested-Filled [] = tt
tested-Filled (r ∷ queue) = refl

woken-Filled :
    (place : WriterPlace) (queue : List PicoRecord)
    → Filled place queue
    → Filled (woken place) queue
woken-Filled at_empty queue h = h
woken-Filled before_wait queue h = h
woken-Filled waits_for_requests queue h = tt
woken-Filled at_pop queue h = h
woken-Filled at_socket queue h = tt

pushed-Filled :
    (place : WriterPlace) (queue : List PicoRecord) (r : PicoRecord)
    → Filled place queue
    → Filled place (push_back_locked queue r)
pushed-Filled at_empty queue r h = tt
pushed-Filled before_wait queue r h = tt
pushed-Filled waits_for_requests queue r h = tt
pushed-Filled at_pop [] r h = refl
pushed-Filled at_pop (x ∷ queue) r h = refl
pushed-Filled at_socket queue r h = tt

Step-IsFilled : {own : Bool} {s t : RequestQueue} → Step own s t → IsFilled s → IsFilled t
Step-IsFilled (queues r s) h = pushed-Filled s.writer s.buffer_queue r h
Step-IsFilled (wakes s) h = woken-Filled s.writer s.buffer_queue h
Step-IsFilled (replies s e) h = tt
Step-IsFilled (tests s e) h = tested-Filled s.buffer_queue
Step-IsFilled (goes_to_sleep s e) h = tt
Step-IsFilled (pops s e) h = tt
Step-IsFilled (looks s e) h = h
Step-IsFilled (notifies s e) h = woken-Filled s.writer s.buffer_queue h

Reach-IsFilled : {s t : RequestQueue} → IsFilled s → Reach s t → IsFilled t
Reach-IsFilled h here = h
Reach-IsFilled h (next r st) = Step-IsFilled st (Reach-IsFilled h r)

-- The writing thread never pops from an empty queue, in whatever order the threads go on: it is the
-- only one that pops, so the queue that it found filled is filled still.
pub at_pop-filled :
    (s : RequestQueue) → Reach initial_queue s → s.writer ≡ at_pop → s.buffer_queue ≢ []
at_pop-filled s r e empty =
    let filled : Filled s.writer s.buffer_queue = Reach-IsFilled tt r in
    let found : is_empty s.buffer_queue ≡ false = rw e at filled in
    let wrong : true ≡ false = rw empty at found in cc

OwnReach-trans : {s t u : RequestQueue} → OwnReach s t → OwnReach t u → OwnReach s u
OwnReach-trans r stays = r
OwnReach-trans r (goes q st) = goes (OwnReach-trans r q) st

-- The newest request is taken by steps of the driver's own threads.
abbrev Taken : RequestQueue → List PicoRecord → PicoRecord → Type 0
Taken s q r =
    (t : RequestQueue) × OwnReach s t × (t.taken ≡ s.taken ++ r ∷ []) × (t.buffer_queue ≡ q)

module _ (q : List PicoRecord) (r : PicoRecord) where
  from_pop : (s : RequestQueue) → s.buffer_queue ≡ q ++ r ∷ [] → s.writer ≡ at_pop → Taken s q r
  from_pop s e p = (
    record s {
      writer = at_socket;
      buffer_queue = (pop_locked s.buffer_queue).1;
      taken = s.taken ++ noted (pop_locked s.buffer_queue).0;
    },
    goes stays (pops s p),
    rw (e, last?-snoc q r) refl,
    rw e (all_but_last-snoc q r),
  )

  from_empty : (s : RequestQueue) → s.buffer_queue ≡ q ++ r ∷ [] → s.writer ≡ at_empty → Taken s q r
  from_empty s e p =
      let (t, reach, taken, left) =
        from_pop (record s { writer = tested s.buffer_queue }) e (rw (e, snoc-is_empty q r) refl) in
      (t, OwnReach-trans (goes stays (tests s p)) reach, taken, left)

  from_notified :
      (s : RequestQueue)
      → s.buffer_queue ≡ q ++ r ∷ []
      → s.writer ≡ waits_for_requests
      → s.notifier_found ≡ true
      → Taken s q r
  from_notified s e p f =
      let (t, reach, taken, left) =
        from_empty (record s { writer = woken s.writer; notifier_found = false }) e (rw p refl) in
      (t, OwnReach-trans (goes stays (notifies s f)) reach, taken, left)

  from_sleep :
      (s : RequestQueue)
      → s.buffer_queue ≡ q ++ r ∷ []
      → s.writer ≡ waits_for_requests
      → Taken s q r
  from_sleep s e p = elim (Bool-cases s.notifier_found) [
    | inl f ↦ from_notified s e p f
    | inr f ↦
        let (t, reach, taken, left) =
          from_notified (record s { notifier_found = not (is_empty s.buffer_queue) }) e p
            (rw (e, snoc-is_empty q r) refl) in
        (t, OwnReach-trans (goes stays (looks s f)) reach, taken, left)
  ]

  from_place :
      (place : WriterPlace) (s : RequestQueue)
      → s.writer ≡ place
      → s.writer ≢ at_socket
      → s.buffer_queue ≡ q ++ r ∷ []
      → Taken s q r
  from_place at_empty s p h e = from_empty s e p
  from_place before_wait s p h e =
      let (t, reach, taken, left) = from_sleep (record s { writer = waits_for_requests }) e refl in
      (t, OwnReach-trans (goes stays (goes_to_sleep s p)) reach, taken, left)
  from_place waits_for_requests s p h e = from_sleep s e p
  from_place at_pop s p h e = from_pop s e p
  from_place at_socket s p h e = absurd (h p)

  -- No wake-up is lost for good: if the writing thread is not busy at the socket with an earlier
  -- request, then wherever else it stands, and even if the notification of the caller came too early,
  -- the driver's own two threads can go on until the newest request is taken out of the queue,
  -- without any step of a caller or of the server.
  pub newest-taken :
      (s : RequestQueue)
      → s.buffer_queue ≡ q ++ r ∷ []
      → s.writer ≢ at_socket
      → (t : RequestQueue) × OwnReach s t × (t.taken ≡ s.taken ++ r ∷ []) × (t.buffer_queue ≡ q)
  newest-taken s e h = from_place s.writer s refl h e
