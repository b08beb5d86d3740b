-- ===== src/ThreadPool/Joining.antt =====
-- `shutDownAfterWorkers` and `runThreadPool` of PicoDB/pico/ThreadPool.h: a thread that submits tasks
-- to a pool of its own and then joins the pool's threads.
use pico_db.Prelude.{
  ℕ, zero, suc, ◌<◌, ◌≤◌, length, ◌≡◌, refl, List, [], ◌∷◌, ◌++◌, All, Outcome, returns, waits,
  ◌>>=◌, undefined, Option-cases, inl, inr, get_elem?, replicate, arith, Bool,
}
use pico_db.ThreadPool.{
  Place, at_stop_flag, at_queue, at_pop, runs, before_wait, waits_for_tasks, ended, ThreadWorker,
  ThreadPool, Action, works, assigns, notifies, shuts_down, starts_workers, advance, notified,
  perform, work, new_pool, new_worker, assign_job, notify, run, submit_task, start_workers,
}
use pico_db.ThreadPool.Shutdown.{run-Outlives, new_pool-Outlives}
use pico_db.ThreadPool.Racing.{Event, actions_of, new_pool_racing, run_racing, new_pool_racing-run}
use pico_db.ThreadPool.Running.{
  AllRunFrom, AllRunFrom-append, AllRunFrom-update_at, new_workers-AllRunFrom, advance-IsRunning,
  notified-IsRunning,
}

-- `join` of a thread comes back once the thread has ended.
abbrev join_worker : Place → Outcome (Unit {0}) → Outcome (Unit {0})
join_worker at_stop_flag more = waits
join_worker at_queue more = waits
join_worker at_pop more = waits
join_worker (runs t) more = waits
join_worker before_wait more = waits
join_worker waits_for_tasks more = waits
join_worker ended more = more

-- the loop of `shutDownAfterWorkers`, as far as it is when the workers stand there
abbrev join_first : ℕ → List ThreadWorker → Outcome (Unit {0})
join_first zero ws = returns tt
join_first (suc n) [] = undefined
join_first (suc n) (w ∷ ws) = join_worker w.place (join_first n ws)

pub shut_down_after_workers : ThreadPool → Outcome (Unit {0})
shut_down_after_workers p = join_first p.num_of_thread_workers p.workers

-- the loop of `runThreadPool`: the tasks stand for their addresses
abbrev submissions : ThreadPool → List (ℕ × ℕ) → List Action
submissions p [] = []
submissions p ((random, t) ∷ tasks) = submit_task random t p ++ submissions p tasks

-- What the thread of `runThreadPool` does before it joins the others.
abbrev pub run_thread_pool : List (ℕ × ℕ) → List Action
run_thread_pool tasks = submissions (new_pool 2) tasks

-- What two threads do, in an order that keeps the order of each.
pub data Interleaves : List Action → List Action → List Action → Type 0 where
  no_more : Interleaves [] [] []
  goes_first :
      {a : Action} {xs ys zs : List Action}
      → Interleaves xs ys zs
      → Interleaves (a ∷ xs) ys (a ∷ zs)
  goes_second :
      {a : Action} {xs ys zs : List Action}
      → Interleaves xs ys zs
      → Interleaves xs (a ∷ ys) (a ∷ zs)

-- Anything but `shutDown`.
abbrev pub KeepsRunning : Action → Type 0
KeepsRunning (works i throws) = Unit
KeepsRunning (assigns t) = Unit
KeepsRunning (notifies i) = Unit
KeepsRunning shuts_down = ⊥
KeepsRunning starts_workers = Unit

interleaved :
    {xs ys zs : List Action}
    → Interleaves xs ys zs
    → All KeepsRunning xs
    → All KeepsRunning ys
    → All KeepsRunning zs
interleaved no_more h k = tt
interleaved (goes_first i) h k = (h.0, interleaved i h.1 k)
interleaved (goes_second i) h k = (k.0, interleaved i h k.1)

submissions-KeepsRunning :
    (p : ThreadPool) (tasks : List (ℕ × ℕ)) → All KeepsRunning (submissions p tasks)
unfolding submit_task
submissions-KeepsRunning p [] = tt
submissions-KeepsRunning p ((random, t) ∷ tasks) =
    (tt, (tt, (tt, submissions-KeepsRunning p tasks)))

work-AllRunFrom :
    (i : ℕ) (throws : Bool) (p : ThreadPool)
    → AllRunFrom zero p.workers
    → AllRunFrom zero (work i throws p).workers
unfolding work
work-AllRunFrom i throws p h = elim (Option-cases (get_elem? p.workers i)) [
  | inl e ↦ rw (e, work) h
  | inr (w, e) ↦
      let next = (advance throws p.task_queue w.place w).0 in
      rw (e, work)
        (AllRunFrom-update_at (λ old. next) zero i p.workers
          (λ v found r.
            let same : w ≡ v = cc in
            advance-IsRunning throws p.task_queue w.place w refl (rw same r))
          h)
]

perform-AllRunFrom :
    (a : Action) (p : ThreadPool)
    → KeepsRunning a
    → AllRunFrom zero p.workers
    → AllRunFrom zero (perform a p).workers
unfolding perform assign_job notify start_workers
perform-AllRunFrom (works i throws) p k h = work-AllRunFrom i throws p h
perform-AllRunFrom (assigns t) p k h = h
perform-AllRunFrom (notifies i) p k h =
    AllRunFrom-update_at notified zero i p.workers (λ w e. notified-IsRunning w) h
perform-AllRunFrom shuts_down p k h = absurd k
perform-AllRunFrom starts_workers p k h =
    AllRunFrom-append zero p.workers (replicate p.num_of_thread_workers new_worker) h
      (new_workers-AllRunFrom p.num_of_thread_workers)

run-AllRunFrom :
    (actions : List Action) (p : ThreadPool)
    → All KeepsRunning actions
    → AllRunFrom zero p.workers
    → AllRunFrom zero (run actions p).workers
unfolding run
run-AllRunFrom [] p k h = h
run-AllRunFrom (a ∷ actions) p k h =
    run-AllRunFrom actions (perform a p) k.1 (perform-AllRunFrom a p k.0 h)

join_worker-waits :
    (place : Place) (more : Outcome (Unit {0})) → ¬ (place ≡ ended) → join_worker place more ≡ waits
join_worker-waits at_stop_flag more h = refl
join_worker-waits at_queue more h = refl
join_worker-waits at_pop more h = refl
join_worker-waits (runs t) more h = refl
join_worker-waits before_wait more h = refl
join_worker-waits waits_for_tasks more h = refl
join_worker-waits ended more h = absurd (h refl)

join_first-waits :
    (n : ℕ) (ws : List ThreadWorker)
    → 0 < n
    → n ≤ length ws
    → AllRunFrom zero ws
    → join_first n ws ≡ waits
join_first-waits zero ws pos enough h = absurd (omega arith)
join_first-waits (suc n) [] pos enough h = absurd (omega arith)
join_first-waits (suc n) (w ∷ ws) pos enough h =
    join_worker-waits w.place (join_first n ws) h.0.not_ended

joining-waits :
    (tasks : List (ℕ × ℕ)) (others actions : List Action)
    → Interleaves (run_thread_pool tasks) others actions
    → All KeepsRunning others
    → shut_down_after_workers (run actions (new_pool 2)) ≡ waits
unfolding shut_down_after_workers new_pool start_workers
joining-waits tasks others actions order keep =
    let p = run actions (new_pool 2) in
    let kept = run-Outlives actions 2 2 (new_pool 2) (new_pool-Outlives 2) in
    join_first-waits p.num_of_thread_workers p.workers (omega (arith, kept.made_with))
      (omega (arith, kept.made_with, kept.there))
      (run-AllRunFrom actions (new_pool 2)
        (interleaved order (submissions-KeepsRunning (new_pool 2) tasks) keep)
        (new_workers-AllRunFrom 2))

-- `shutDownAfterWorkers` does not shut anything down: in `runThreadPool`, which calls it once the
-- tasks are submitted, it never comes back, in whatever order the threads go on, and whether the
-- tasks throw or not, as long as nobody calls `shutDown`, and unless a thread that is started comes
-- to its flag before the constructor of its worker has set it, which is undefined.
pub shut_down_after_workers-waits :
    (first : List Bool) (tasks : List (ℕ × ℕ)) (others : List Action) (events : List Event)
    (p : ThreadPool)
    → Interleaves (run_thread_pool tasks) others (actions_of events)
    → All KeepsRunning others
    → (new_pool_racing first 2 >>= run_racing events) ≡ returns p
    → shut_down_after_workers p ≡ waits
shut_down_after_workers-waits first tasks others events p order keep goes =
    rw (new_pool_racing-run first 2 events p goes)
      (joining-waits tasks others (actions_of events) order keep)
