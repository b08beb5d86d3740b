-- ===== src/ThreadPool/Tasks.antt =====
-- Where the tasks of PicoDB/pico/ThreadPool.h are.
use pico_db.Prelude.{
  ℕ, zero, suc, ◌+◌, ◌≡◌, refl, ap, Bool, true, false, List, [], ◌∷◌, ◌++◌, some, Option-cases, inl,
  inr, get_elem?, replicate, arith, ◌==◌, if◌then◌else◌, Bool-cases,
}
use pico_db.Queue.Ends.{last?, all_but_last}
use pico_db.ThreadPool.{
  Place, at_stop_flag, at_queue, at_pop, runs, before_wait, waits_for_tasks, ended, ThreadWorker,
  ThreadPool, Action, works, assigns, notifies, shuts_down, starts_workers, update_at, advance,
  notified, perform, work, new_pool, new_worker, assign_job, notify, shut_down, run, popped_place,
  stop_first, start_workers, woken_place,
}

abbrev pub one : ℕ → ℕ → ℕ
one t u = if u == t then 1 else 0

-- How often a task stands in a list.
abbrev pub times : ℕ → List ℕ → ℕ
times t [] = 0
times t (u ∷ us) = one t u + times t us

-- how often a worker, and how often all of them, have it in hand
abbrev pub in_hand : ℕ → Place → ℕ
in_hand t (runs u) = one t u
in_hand t place = 0

abbrev pub held : ℕ → List ThreadWorker → ℕ
held t [] = 0
held t (w ∷ ws) = in_hand t w.place + held t ws

-- Where the tasks are that were submitted.
pub record IsConserved (p : ThreadPool) : Type 0 where
  pub kept :
      (t : ℕ) → times t p.submitted ≡ times t p.task_queue + held t p.workers + times t p.finished

times-append : (t : ℕ) (us vs : List ℕ) → times t (us ++ vs) ≡ times t us + times t vs
times-append t [] vs = omega arith
times-append t (u ∷ us) vs = omega (arith, times-append t us vs)

held-update_at :
    (t i : ℕ) (w w' : ThreadWorker) (ws : List ThreadWorker)
    → get_elem? ws i ≡ some w
    → held t (update_at i (λ old. w') ws) + in_hand t w.place ≡ held t ws + in_hand t w'.place
held-update_at t i w w' [] e = cc
held-update_at t zero w w' (v ∷ ws) e =
    let same : v ≡ w = cc in
    let hand : in_hand t v.place ≡ in_hand t w.place = ap (λ x. in_hand t x.place) same in
    omega arith
held-update_at t (suc i) w w' (v ∷ ws) e = omega (arith, held-update_at t i w w' ws e)

times-pop :
    (t : ℕ) (q : List ℕ) → times t q ≡ times t (all_but_last q) + in_hand t (popped_place (last? q))
times-pop t [] = refl
times-pop t (x ∷ []) = omega arith
times-pop t (x ∷ y ∷ q) = omega (arith, times-pop t (y ∷ q))

advance-kept :
    (t : ℕ) (throws : Bool) (q : List ℕ) (place : Place) (w : ThreadWorker)
    → w.place ≡ place
    → let (w', q', done) = advance throws q place w in
      times t q + in_hand t place ≡ times t q' + in_hand t w'.place + times t done
unfolding advance
advance-kept t throws q at_stop_flag w e = elim (Bool-cases w.stop_flag) [
  | inl b ↦ rw b (omega arith)
  | inr b ↦ rw b (omega arith)
]
advance-kept t throws [] at_queue w e = omega arith
advance-kept t throws (x ∷ q) at_queue w e = omega arith
advance-kept t throws q at_pop w e = omega (arith, times-pop t q)
advance-kept t true q (runs u) w e = omega arith
advance-kept t false q (runs u) w e = omega arith
advance-kept t throws q before_wait w e = omega arith
advance-kept t throws q waits_for_tasks w e = rw e (omega arith)
advance-kept t throws q ended w e = rw e (omega arith)

in_hand-woken : (t : ℕ) (place : Place) → in_hand t (woken_place place) ≡ in_hand t place
in_hand-woken t at_stop_flag = refl
in_hand-woken t at_queue = refl
in_hand-woken t at_pop = refl
in_hand-woken t (runs u) = refl
in_hand-woken t before_wait = refl
in_hand-woken t waits_for_tasks = refl
in_hand-woken t ended = refl

held-notified : (t i : ℕ) (ws : List ThreadWorker) → held t (update_at i notified ws) ≡ held t ws
unfolding notified
held-notified t i [] = refl
held-notified t zero (w ∷ ws) = ap (λ n. n + held t ws) (in_hand-woken t w.place)
held-notified t (suc i) (w ∷ ws) = omega (arith, held-notified t i ws)

held-stop_first : (t n : ℕ) (ws : List ThreadWorker) → held t (stop_first n ws) ≡ held t ws
held-stop_first t zero ws = refl
held-stop_first t (suc n) [] = refl
held-stop_first t (suc n) (w ∷ ws) = omega (arith, held-stop_first t n ws)

held-append : (t : ℕ) (ws vs : List ThreadWorker) → held t (ws ++ vs) ≡ held t ws + held t vs
held-append t [] vs = omega arith
held-append t (w ∷ ws) vs = omega (arith, held-append t ws vs)

held-new_workers : (t num : ℕ) → held t (replicate num new_worker) ≡ 0
held-new_workers t zero = refl
held-new_workers t (suc num) = omega (arith, held-new_workers t num)

start_workers-IsConserved : (p : ThreadPool) → IsConserved p → IsConserved (start_workers p)
unfolding start_workers
start_workers-IsConserved p h = record {
  kept = λ t. omega (
    arith,
    h.kept t,
    held-append t p.workers (replicate p.num_of_thread_workers new_worker),
    held-new_workers t p.num_of_thread_workers,
  );
}

work-IsConserved :
    (i : ℕ) (throws : Bool) (p : ThreadPool) → IsConserved p → IsConserved (work i throws p)
unfolding work
work-IsConserved i throws p h = elim (Option-cases (get_elem? p.workers i)) [
  | inl e ↦ rw (e, work) h
  | inr (w, e) ↦
      rw (e, work)
        (record {
          kept = λ t. omega (
            arith,
            h.kept t,
            advance-kept t throws p.task_queue w.place w refl,
            held-update_at t i w (advance throws p.task_queue w.place w).0 p.workers e,
            times-append t p.finished (advance throws p.task_queue w.place w).2,
          );
        })
]

perform-IsConserved : (a : Action) (p : ThreadPool) → IsConserved p → IsConserved (perform a p)
unfolding perform assign_job notify shut_down
perform-IsConserved (works i throws) p h = work-IsConserved i throws p h
perform-IsConserved (assigns t) p h = record {
  kept = λ u.
      omega (
        arith,
        h.kept u,
        times-append u p.submitted (t ∷ []),
        times-append u p.task_queue (t ∷ []),
      );
}
perform-IsConserved (notifies i) p h = record {
  kept = λ u. omega (arith, h.kept u, held-notified u i p.workers);
}
perform-IsConserved shuts_down p h = record {
  kept = λ u. omega (arith, h.kept u, held-stop_first u p.num_of_thread_workers p.workers);
}
perform-IsConserved starts_workers p h = start_workers-IsConserved p h

run-IsConserved :
    (actions : List Action) (p : ThreadPool) → IsConserved p → IsConserved (run actions p)
unfolding run
run-IsConserved [] p h = h
run-IsConserved (a ∷ actions) p h =
    run-IsConserved actions (perform a p) (perform-IsConserved a p h)

new_pool-IsConserved : (num : ℕ) → IsConserved (new_pool num)
unfolding new_pool
new_pool-IsConserved num =
    start_workers-IsConserved
      (record {
        task_queue = [];
        workers = [];
        stop = false;
        num_of_thread_workers = num;
        submitted = [];
        finished = [];
      })
      (record { kept = λ t. refl })

-- Whatever the threads of a new pool do, in whatever order, and whichever tasks throw: every task
-- stands in the queue, with a worker, or among the finished ones, as often as it was submitted. No
-- task is lost, and none is run more often than it was submitted.
pub run-new_pool-IsConserved :
    (actions : List Action) (num : ℕ) → IsConserved (run actions (new_pool num))
run-new_pool-IsConserved actions num =
    run-IsConserved actions (new_pool num) (new_pool-IsConserved num)
