-- ===== src/ThreadPool/Running.antt =====
-- Workers of PicoDB/pico/ThreadPool.h that nobody told to stop.
use pico_db.Prelude.{
  ℕ, zero, suc, ◌≡◌, refl, Bool, true, false, List, [], ◌∷◌, ◌++◌, some, none, Option, get_elem?,
  replicate, arith, ◌≤◌,
}
use pico_db.ThreadPool.{
  Place, at_stop_flag, at_queue, at_pop, runs, before_wait, waits_for_tasks, ended, ThreadWorker,
  update_at, advance, notified, new_worker, popped_place, stop_first, woken_place,
}
use pico_db.Queue.Vector.{pop_locked}

-- A worker that was not told to stop and did not end.
pub record IsRunning (w : ThreadWorker) : Type 0 where
  pub not_stopped : w.stop_flag ≡ false
  pub not_ended : ¬ (w.place ≡ ended)

-- All workers run, but for the first ones that the number says.
abbrev pub AllRunFrom : ℕ → List ThreadWorker → Type 0
AllRunFrom n [] = Unit
AllRunFrom zero (w ∷ ws) = IsRunning w × AllRunFrom zero ws
AllRunFrom (suc n) (w ∷ ws) = AllRunFrom n ws

AllRunFrom-zero : (n : ℕ) (ws : List ThreadWorker) → AllRunFrom zero ws → AllRunFrom n ws
AllRunFrom-zero zero ws h = h
AllRunFrom-zero (suc n) [] h = tt
AllRunFrom-zero (suc n) (w ∷ ws) h = AllRunFrom-zero n ws h.1

pub AllRunFrom-append :
    (n : ℕ) (ws vs : List ThreadWorker)
    → AllRunFrom n ws
    → AllRunFrom zero vs
    → AllRunFrom n (ws ++ vs)
AllRunFrom-append n [] vs h k = AllRunFrom-zero n vs k
AllRunFrom-append zero (w ∷ ws) vs h k = (h.0, AllRunFrom-append zero ws vs h.1 k)
AllRunFrom-append (suc n) (w ∷ ws) vs h k = AllRunFrom-append n ws vs h k

pub AllRunFrom-update_at :
    (f : ThreadWorker → ThreadWorker) (n i : ℕ) (ws : List ThreadWorker)
    → ((w : ThreadWorker) → get_elem? ws i ≡ some w → IsRunning w → IsRunning (f w))
    → AllRunFrom n ws
    → AllRunFrom n (update_at i f ws)
AllRunFrom-update_at f n i [] k h = h
AllRunFrom-update_at f zero zero (w ∷ ws) k h = (k w refl h.0, h.1)
AllRunFrom-update_at f (suc n) zero (w ∷ ws) k h = h
AllRunFrom-update_at f zero (suc i) (w ∷ ws) k h = (h.0, AllRunFrom-update_at f zero i ws k h.1)
AllRunFrom-update_at f (suc n) (suc i) (w ∷ ws) k h = AllRunFrom-update_at f n i ws k h

pub AllRunFrom-stop_first :
    (n : ℕ) (ws : List ThreadWorker) → AllRunFrom n ws → AllRunFrom n (stop_first n ws)
AllRunFrom-stop_first zero ws h = h
AllRunFrom-stop_first (suc n) [] h = h
AllRunFrom-stop_first (suc n) (w ∷ ws) h = AllRunFrom-stop_first n ws h

new_worker-IsRunning : IsRunning new_worker
new_worker-IsRunning = record { not_stopped = refl; not_ended = λ e. cc }

pub new_workers-AllRunFrom : (num : ℕ) → AllRunFrom zero (replicate num new_worker)
new_workers-AllRunFrom zero = tt
new_workers-AllRunFrom (suc num) = (new_worker-IsRunning, new_workers-AllRunFrom num)

pub first_workers-AllRunFrom : (num : ℕ) → AllRunFrom num (replicate num new_worker)
first_workers-AllRunFrom zero = tt
first_workers-AllRunFrom (suc num) = first_workers-AllRunFrom num

pub AllRunFrom-get_elem? :
    (n i : ℕ) (w : ThreadWorker) (ws : List ThreadWorker)
    → AllRunFrom n ws
    → n ≤ i
    → get_elem? ws i ≡ some w
    → IsRunning w
AllRunFrom-get_elem? n i w [] h le e = cc
AllRunFrom-get_elem? zero zero w (v ∷ ws) h le e = let same : w ≡ v = cc in rw same h.0
AllRunFrom-get_elem? zero (suc i) w (v ∷ ws) h le e =
    AllRunFrom-get_elem? zero i w ws h.1 (omega arith) e
AllRunFrom-get_elem? (suc n) zero w (v ∷ ws) h le e = absurd (omega arith)
AllRunFrom-get_elem? (suc n) (suc i) w (v ∷ ws) h le e =
    AllRunFrom-get_elem? n i w ws h (omega arith) e

popped_place-not_ended : (task : Option ℕ) → ¬ (popped_place task ≡ ended)
popped_place-not_ended none e = cc
popped_place-not_ended (some t) e = cc

pub advance-IsRunning :
    (throws : Bool) (q : List ℕ) (place : Place) (w : ThreadWorker)
    → w.place ≡ place
    → IsRunning w
    → IsRunning (advance throws q place w).0
unfolding advance
advance-IsRunning throws q at_stop_flag w e h = record {
  not_stopped = h.not_stopped;
  not_ended = rw h.not_stopped (λ e. cc);
}
advance-IsRunning throws [] at_queue w e h = record {
  not_stopped = h.not_stopped;
  not_ended = λ e. cc;
}
advance-IsRunning throws (x ∷ q) at_queue w e h = record {
  not_stopped = h.not_stopped;
  not_ended = λ e. cc;
}
advance-IsRunning throws q at_pop w e h = record {
  not_stopped = h.not_stopped;
  not_ended = popped_place-not_ended (pop_locked q).0;
}
advance-IsRunning true q (runs u) w e h = record {
  not_stopped = h.not_stopped;
  not_ended = λ e. cc;
}
advance-IsRunning false q (runs u) w e h = record {
  not_stopped = h.not_stopped;
  not_ended = λ e. cc;
}
advance-IsRunning throws q before_wait w e h = record {
  not_stopped = h.not_stopped;
  not_ended = λ e. cc;
}
advance-IsRunning throws q waits_for_tasks w e h = h
advance-IsRunning throws q ended w e h = h

woken_place-not_ended : (place : Place) → ¬ (place ≡ ended) → ¬ (woken_place place ≡ ended)
woken_place-not_ended at_stop_flag h e = cc
woken_place-not_ended at_queue h e = cc
woken_place-not_ended at_pop h e = cc
woken_place-not_ended (runs u) h e = cc
woken_place-not_ended before_wait h e = cc
woken_place-not_ended waits_for_tasks h e = cc
woken_place-not_ended ended h e = h e

pub notified-IsRunning : (w : ThreadWorker) → IsRunning w → IsRunning (notified w)
unfolding notified
notified-IsRunning w h = record {
  not_stopped = h.not_stopped;
  not_ended = woken_place-not_ended w.place h.not_ended;
}
