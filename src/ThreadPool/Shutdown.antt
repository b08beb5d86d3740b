-- ===== src/ThreadPool/Shutdown.antt =====
-- Which workers `shutDown` of PicoDB/pico/ThreadPool.h reaches.
use mathlib.Core.Path.{subst}
use pico_db.Prelude.{
  returns, ◌>>=◌, ap, sym, ◌∙◌, ℕ, zero, suc, ◌≡◌, refl, Bool, List, [], ◌∷◌, ◌++◌, some,
  Option-cases, inl, inr, get_elem?, replicate, length, length-replicate, arith, ◌+◌, ◌≤◌, ◌<◌,
  length-append,
}
use pico_db.ThreadPool.{
  ThreadWorker, ThreadPool, Action, works, assigns, notifies, shuts_down, starts_workers, update_at,
  advance, notified, perform, work, new_pool, new_worker, assign_job, notify, shut_down, run,
  stop_first, start_workers,
}
use pico_db.ThreadPool.Racing.{
  Event, actions_of, new_pool_racing, run_racing, new_pool_racing-run, actions_of-append,
}
use pico_db.ThreadPool.Running.{
  IsRunning, AllRunFrom, AllRunFrom-append, AllRunFrom-update_at, AllRunFrom-stop_first,
  new_workers-AllRunFrom, first_workers-AllRunFrom, AllRunFrom-get_elem?, advance-IsRunning,
  notified-IsRunning,
}

-- A pool that was made with so many workers, and has at least the second number of them: those that
-- came later run.
pub record Outlives (num least : ℕ) (p : ThreadPool) : Type 0 where
  pub made_with : p.num_of_thread_workers ≡ num
  pub there : least ≤ length p.workers
  pub later_run : AllRunFrom num p.workers

length-update_at :
    (f : ThreadWorker → ThreadWorker) (i : ℕ) (ws : List ThreadWorker)
    → length (update_at i f ws) ≡ length ws
length-update_at f i [] = refl
length-update_at f zero (w ∷ ws) = refl
length-update_at f (suc i) (w ∷ ws) = omega (arith, length-update_at f i ws)

length-stop_first : (n : ℕ) (ws : List ThreadWorker) → length (stop_first n ws) ≡ length ws
length-stop_first zero ws = refl
length-stop_first (suc n) [] = refl
length-stop_first (suc n) (w ∷ ws) = omega (arith, length-stop_first n ws)

pub get_elem?-length :
    (ws : List ThreadWorker) (i : ℕ)
    → i < length ws
    → (w : ThreadWorker) × (get_elem? ws i ≡ some w)
get_elem?-length [] i h = absurd (omega arith)
get_elem?-length (w ∷ ws) zero h = (w, refl)
get_elem?-length (w ∷ ws) (suc i) h = get_elem?-length ws i (omega arith)

start_workers-Outlives :
    (num least : ℕ) (p : ThreadPool)
    → Outlives num least p
    → Outlives num (least + num) (start_workers p)
unfolding start_workers
start_workers-Outlives num least p h = record {
  made_with = h.made_with;
  there = rw h.made_with (
      omega (
        arith,
        h.there,
        length-append p.workers (replicate num new_worker),
        length-replicate num new_worker,
      ));
  later_run =
      AllRunFrom-append num p.workers (replicate p.num_of_thread_workers new_worker) h.later_run
        (new_workers-AllRunFrom p.num_of_thread_workers);
}

work-Outlives :
    (i : ℕ) (throws : Bool) (num least : ℕ) (p : ThreadPool)
    → Outlives num least p
    → Outlives num least (work i throws p)
unfolding work
work-Outlives i throws num least p h = elim (Option-cases (get_elem? p.workers i)) [
  | inl e ↦ rw (e, work) h
  | inr (w, e) ↦
      let next = (advance throws p.task_queue w.place w).0 in
      rw (e, work)
        (record {
          made_with = h.made_with;
          there = omega (arith, h.there, length-update_at (λ old. next) i p.workers);
          later_run =
              AllRunFrom-update_at (λ old. next) num i p.workers
                (λ v found r.
                  let same : w ≡ v = cc in
                  advance-IsRunning throws p.task_queue w.place w refl (rw same r))
                h.later_run;
        })
]

perform-Outlives :
    (a : Action) (num least : ℕ) (p : ThreadPool)
    → Outlives num least p
    → Outlives num least (perform a p)
unfolding perform assign_job notify shut_down
perform-Outlives (works i throws) num least p h = work-Outlives i throws num least p h
perform-Outlives (assigns t) num least p h = record {
  made_with = h.made_with;
  there = h.there;
  later_run = h.later_run;
}
perform-Outlives (notifies i) num least p h = record {
  made_with = h.made_with;
  there = omega (arith, h.there, length-update_at notified i p.workers);
  later_run =
      AllRunFrom-update_at notified num i p.workers (λ w e. notified-IsRunning w) h.later_run;
}
perform-Outlives shuts_down num least p h = record {
  made_with = h.made_with;
  there = omega (arith, h.there, length-stop_first p.num_of_thread_workers p.workers);
  later_run = rw h.made_with (AllRunFrom-stop_first num p.workers h.later_run);
}
perform-Outlives starts_workers num least p h =
    let more = start_workers-Outlives num least p h in
    record {
      made_with = more.made_with;
      there = omega (arith, more.there);
      later_run = more.later_run;
    }

pub run-Outlives :
    (actions : List Action) (num least : ℕ) (p : ThreadPool)
    → Outlives num least p
    → Outlives num least (run actions p)
unfolding run
run-Outlives [] num least p h = h
run-Outlives (a ∷ actions) num least p h =
    run-Outlives actions num least (perform a p) (perform-Outlives a num least p h)

pub new_pool-Outlives : (num : ℕ) → Outlives num num (new_pool num)
unfolding new_pool start_workers
new_pool-Outlives num = record {
  made_with = refl;
  there = omega (arith, length-replicate num new_worker);
  later_run = first_workers-AllRunFrom num;
}

pub run-append :
    (before after : List Action) (p : ThreadPool)
    → run (before ++ after) p ≡ run after (run before p)
unfolding run
run-append [] after p = refl
run-append (a ∷ before) after p = run-append before after (perform a p)

added_workers-IsRunning :
    (before actions : List Action) (num i : ℕ)
    → num ≤ i
    → i < num + num
    → let p = run (before ++ starts_workers ∷ actions) (new_pool num) in
      (w : ThreadWorker) × (get_elem? p.workers i ≡ some w) × IsRunning w
unfolding run perform
added_workers-IsRunning before actions num i later h =
    let started = run before (new_pool num) in
    let kept = run-Outlives actions num (num + num) (start_workers started) (
      start_workers-Outlives num num started
        (run-Outlives before num num (new_pool num) (new_pool-Outlives num))) in
    let ws = (run actions (start_workers started)).workers in
    let there : num + num ≤ length ws = kept.there in
    let (w, found) = get_elem?-length ws i (omega (arith, there)) in
    rw (run-append before (starts_workers ∷ actions) (new_pool num))
      (w, found, AllRunFrom-get_elem? num i w ws kept.later_run later found)

-- `shutDown` reaches only as many workers as the pool was made with. The workers that the first
-- call of `start` adds to a pool are told to stop by no call of `shutDown` and never end, whatever
-- the threads do before that call and after it, unless a thread that is started, with these or with
-- others, comes to its flag before the constructor of its worker has set it, which is undefined.
pub shut_down-misses :
    (first second : List Bool) (before after : List Event) (num i : ℕ) (p : ThreadPool)
    → (new_pool_racing first num
        >>= run_racing (before ++ record { action = starts_workers; early = second } ∷ after))
      ≡ returns p
    → num ≤ i
    → i < num + num
    → (w : ThreadWorker) × (get_elem? p.workers i ≡ some w) × IsRunning w
shut_down-misses first second before after num i p goes later h =
    let start : Event = record { action = starts_workers; early = second } in
    let same : p ≡ run (actions_of before ++ starts_workers ∷ actions_of after) (new_pool num) =
      new_pool_racing-run first num (before ++ start ∷ after) p goes
      ∙ ap (λ done. run done (new_pool num)) (actions_of-append before (start ∷ after)) in
    subst (λ q. (w : ThreadWorker) × (get_elem? q.workers i ≡ some w) × IsRunning w) (sym same)
      (added_workers-IsRunning (actions_of before) (actions_of after) num i later h)
