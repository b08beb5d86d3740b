-- ===== src/ThreadPool/Inside.antt =====
-- Workers of PicoDB/ThreadWorker.h inside the body of their outer loop.
use mathlib.Core.Path.{subst}
use pico_db.Prelude.{
  ℕ, zero, suc, ◌≡◌, refl, ap, sym, ◌≢◌, Bool, true, false, List, [], ◌∷◌, ◌++◌, All, Option, some,
  none, Option-cases, ◌⊎◌, inl, inr, get_elem?,
}
use pico_db.Queue.Vector.{pop_locked}
use pico_db.ThreadPool.{
  Place, at_stop_flag, at_queue, at_pop, runs, before_wait, waits_for_tasks, ended, ThreadWorker,
  ThreadPool, Action, works, assigns, notifies, shuts_down, starts_workers, update_at, advance,
  notified, perform, work, assign_job, notify, shut_down, run, popped_place, stop_first,
  start_workers,
}

-- Inside the body of the outer loop, whose condition is not looked at before its end.
abbrev pub IsInside : Place → Type 0
IsInside at_stop_flag = ⊥
IsInside at_queue = Unit
IsInside at_pop = Unit
IsInside (runs t) = Unit
IsInside before_wait = Unit
IsInside waits_for_tasks = Unit
IsInside ended = ⊥

-- the same, and not waiting yet
abbrev pub IsBusy : Place → Type 0
IsBusy at_stop_flag = ⊥
IsBusy at_queue = Unit
IsBusy at_pop = Unit
IsBusy (runs t) = Unit
IsBusy before_wait = Unit
IsBusy waits_for_tasks = ⊥
IsBusy ended = ⊥

-- Actions that neither notify a worker nor let a task of it throw.
abbrev pub Spares : ℕ → Action → Type 0
Spares i (works j throws) = (throws ≡ false) ⊎ (j ≢ i)
Spares i (assigns t) = Unit
Spares i (notifies j) = j ≢ i
Spares i shuts_down = Unit
Spares i starts_workers = Unit

-- The worker at an index is inside.
abbrev pub InsideAt : ℕ → List ThreadWorker → Type 0
InsideAt i [] = ⊥
InsideAt zero (w ∷ ws) = IsInside w.place
InsideAt (suc i) (w ∷ ws) = InsideAt i ws

InsideAt-update_other :
    (f : ThreadWorker → ThreadWorker) (i j : ℕ) (ws : List ThreadWorker)
    → j ≢ i
    → InsideAt i ws
    → InsideAt i (update_at j f ws)
InsideAt-update_other f i j [] ne h = h
InsideAt-update_other f zero zero (w ∷ ws) ne h = absurd (ne refl)
InsideAt-update_other f (suc i) zero (w ∷ ws) ne h = h
InsideAt-update_other f zero (suc j) (w ∷ ws) ne h = h
InsideAt-update_other f (suc i) (suc j) (w ∷ ws) ne h =
    InsideAt-update_other f i j ws (λ e. ne (ap suc e)) h

InsideAt-update_at :
    (f : ThreadWorker → ThreadWorker) (i j : ℕ) (ws : List ThreadWorker)
    → ((w : ThreadWorker) → get_elem? ws j ≡ some w → IsInside w.place → IsInside (f w).place)
    → InsideAt i ws
    → InsideAt i (update_at j f ws)
InsideAt-update_at f i j [] k h = h
InsideAt-update_at f zero zero (w ∷ ws) k h = k w refl h
InsideAt-update_at f (suc i) zero (w ∷ ws) k h = h
InsideAt-update_at f zero (suc j) (w ∷ ws) k h = h
InsideAt-update_at f (suc i) (suc j) (w ∷ ws) k h = InsideAt-update_at f i j ws k h

InsideAt-append : (i : ℕ) (ws vs : List ThreadWorker) → InsideAt i ws → InsideAt i (ws ++ vs)
InsideAt-append i [] vs h = absurd h
InsideAt-append zero (w ∷ ws) vs h = h
InsideAt-append (suc i) (w ∷ ws) vs h = InsideAt-append i ws vs h

InsideAt-stop_first :
    (i n : ℕ) (ws : List ThreadWorker) → InsideAt i ws → InsideAt i (stop_first n ws)
InsideAt-stop_first i zero ws h = h
InsideAt-stop_first i (suc n) [] h = h
InsideAt-stop_first zero (suc n) (w ∷ ws) h = h
InsideAt-stop_first (suc i) (suc n) (w ∷ ws) h = InsideAt-stop_first i n ws h

popped_place-IsInside : (task : Option ℕ) → IsInside (popped_place task)
popped_place-IsInside none = tt
popped_place-IsInside (some t) = tt

advance-IsInside :
    (q : List ℕ) (place : Place) (w : ThreadWorker)
    → w.place ≡ place
    → IsInside place
    → IsInside (advance false q place w).0.place
unfolding advance
advance-IsInside q at_stop_flag w e h = absurd h
advance-IsInside [] at_queue w e h = tt
advance-IsInside (x ∷ q) at_queue w e h = tt
advance-IsInside q at_pop w e h = popped_place-IsInside (pop_locked q).0
advance-IsInside q (runs t) w e h = tt
advance-IsInside q before_wait w e h = tt
advance-IsInside q waits_for_tasks w e h = subst IsInside (sym e) h
advance-IsInside q ended w e h = absurd h

work-InsideAt :
    (i j : ℕ) (throws : Bool) (p : ThreadPool)
    → (throws ≡ false) ⊎ (j ≢ i)
    → InsideAt i p.workers
    → InsideAt i (work j throws p).workers
unfolding work
work-InsideAt i j throws p s h = elim (Option-cases (get_elem? p.workers j)) [
  | inl e ↦ rw (e, work) h
  | inr (w, e) ↦ elim s [
    | inl calm ↦
        let next = (advance throws p.task_queue w.place w).0 in
        rw (e, work)
          (InsideAt-update_at (λ old. next) i j p.workers
            (λ v found inside.
              let same : w ≡ v = cc in
              rw calm (
                advance-IsInside p.task_queue w.place w refl
                  (subst (λ (u : ThreadWorker). IsInside u.place) (sym same) inside)))
            h)
    | inr ne ↦
        let next = (advance throws p.task_queue w.place w).0 in
        rw (e, work) (InsideAt-update_other (λ old. next) i j p.workers ne h)
  ]
]

perform-InsideAt :
    (i : ℕ) (a : Action) (p : ThreadPool)
    → Spares i a
    → InsideAt i p.workers
    → InsideAt i (perform a p).workers
unfolding perform assign_job notify shut_down start_workers
perform-InsideAt i (works j throws) p s h = work-InsideAt i j throws p s h
perform-InsideAt i (assigns t) p s h = h
perform-InsideAt i (notifies j) p s h = InsideAt-update_other notified i j p.workers s h
perform-InsideAt i shuts_down p s h = InsideAt-stop_first i p.num_of_thread_workers p.workers h
perform-InsideAt i starts_workers p s h = InsideAt-append i p.workers _ h

pub run-InsideAt :
    (i : ℕ) (actions : List Action) (p : ThreadPool)
    → All (Spares i) actions
    → InsideAt i p.workers
    → InsideAt i (run actions p).workers
unfolding run
run-InsideAt i [] p s h = h
run-InsideAt i (a ∷ actions) p s h =
    run-InsideAt i actions (perform a p) s.1 (perform-InsideAt i a p s.0 h)

pub InsideAt-get_elem? :
    (i : ℕ) (ws : List ThreadWorker)
    → InsideAt i ws
    → (w : ThreadWorker) × (get_elem? ws i ≡ some w) × IsInside w.place
InsideAt-get_elem? i [] h = absurd h
InsideAt-get_elem? zero (w ∷ ws) h = (w, refl, h)
InsideAt-get_elem? (suc i) (w ∷ ws) h = InsideAt-get_elem? i ws h

notified-IsInside :
    (place : Place) (w : ThreadWorker)
    → w.place ≡ place
    → IsBusy place
    → IsInside (notified w).place
unfolding notified
notified-IsInside at_stop_flag w e h = absurd h
notified-IsInside at_queue w e h = rw e tt
notified-IsInside at_pop w e h = rw e tt
notified-IsInside (runs t) w e h = rw e tt
notified-IsInside before_wait w e h = rw e tt
notified-IsInside waits_for_tasks w e h = absurd h
notified-IsInside ended w e h = absurd h

pub busy-InsideAt :
    (n i : ℕ) (w : ThreadWorker) (ws : List ThreadWorker)
    → get_elem? ws i ≡ some w
    → IsBusy w.place
    → InsideAt i (update_at i notified (stop_first n ws))
unfolding notified
busy-InsideAt n i w [] e h = cc
busy-InsideAt zero zero w (v ∷ ws) e h =
    let same : w ≡ v = cc in
    notified-IsInside v.place v refl (subst (λ (u : ThreadWorker). IsBusy u.place) same h)
busy-InsideAt (suc n) zero w (v ∷ ws) e h =
    let same : w ≡ v = cc in
    notified-IsInside v.place (record v { stop_flag = true }) refl
      (subst (λ (u : ThreadWorker). IsBusy u.place) same h)
busy-InsideAt zero (suc i) w (v ∷ ws) e h = busy-InsideAt zero i w ws e h
busy-InsideAt (suc n) (suc i) w (v ∷ ws) e h = busy-InsideAt n i w ws e h
