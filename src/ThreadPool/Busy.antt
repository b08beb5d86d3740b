-- ===== src/ThreadPool/Busy.antt =====
-- What `shutDown` of PicoDB/pico/ThreadPool.h does to a worker that is busy, and to one that waits.
use mathlib.Core.Path.{subst}
use pico_db.Prelude.{
  ℕ, zero, suc, ◌<◌, ◌≡◌, refl, ap, ◌≢◌, Bool, true, List, [], ◌∷◌, ◌++◌, All, some, get_elem?,
  arith,
}
use pico_db.ThreadPool.{
  Place, at_stop_flag, waits_for_tasks, ended, ThreadWorker, ThreadPool, Action, works, notifies,
  shuts_down, update_at, advance, notified, perform, work, new_pool, notify, shut_down, run,
  stop_first,
}
use pico_db.ThreadPool.Shutdown.{run-Outlives, new_pool-Outlives, run-append}
use pico_db.ThreadPool.Inside.{
  IsInside, IsBusy, Spares, run-InsideAt, InsideAt-get_elem?, busy-InsideAt,
}

inside-ne-ended : (place : Place) → IsInside place → place ≢ ended
inside-ne-ended place h e = subst IsInside e h

-- A worker that is looking for tasks, runs one, or is about to wait when `shutDown` sets its flag and
-- notifies it never ends after that: it looks at the flag only behind a wait that nobody ends any
-- more. That holds whatever was done with the pool before, and whatever all threads do afterwards, as
-- long as no task of this worker throws, and it is not notified again and does not wake up by itself.
pub shut_down-busy :
    (before actions : List Action) (num i : ℕ) (w : ThreadWorker)
    → get_elem? (run before (new_pool num)).workers i ≡ some w
    → IsBusy w.place
    → All (Spares i) actions
    → let p = run (before ++ shuts_down ∷ notifies i ∷ actions) (new_pool num) in
      (w' : ThreadWorker) × (get_elem? p.workers i ≡ some w') × (w'.place ≢ ended)
unfolding run perform notify shut_down
shut_down-busy before actions num i w found busy spares =
    let p = run before (new_pool num) in
    let told = notify i (shut_down p) in
    let (w', here, inside) = InsideAt-get_elem? i (run actions told).workers (
      run-InsideAt i actions told spares
        (busy-InsideAt p.num_of_thread_workers i w p.workers found busy)) in
    rw (run-append before (shuts_down ∷ notifies i ∷ actions) (new_pool num))
      (w', here, inside-ne-ended w'.place inside)

stopped-at :
    (n i : ℕ) (w : ThreadWorker) (ws : List ThreadWorker)
    → i < n
    → get_elem? ws i ≡ some w
    → w.place ≡ waits_for_tasks
    → get_elem? (update_at i notified (stop_first n ws)) i
      ≡ some (record w { stop_flag = true; place = at_stop_flag })
unfolding notified
stopped-at n i w [] lt e waits = cc
stopped-at zero i w (v ∷ ws) lt e waits = absurd (omega arith)
stopped-at (suc n) zero w (v ∷ ws) lt e waits = let same : v ≡ w = cc in rw same (rw waits refl)
stopped-at (suc n) (suc i) w (v ∷ ws) lt e waits = stopped-at n i w ws (omega arith) e waits

get_elem?-update_at :
    (f : ThreadWorker → ThreadWorker) (i : ℕ) (w : ThreadWorker) (ws : List ThreadWorker)
    → get_elem? ws i ≡ some w
    → get_elem? (update_at i f ws) i ≡ some (f w)
get_elem?-update_at f i w [] e = cc
get_elem?-update_at f zero w (v ∷ ws) e = let same : v ≡ w = cc in ap (λ u. some (f u)) same
get_elem?-update_at f (suc i) w (v ∷ ws) e = get_elem?-update_at f i w ws e

work-stopped :
    (i : ℕ) (throws : Bool) (w : ThreadWorker) (p : ThreadPool)
    → get_elem? p.workers i ≡ some (record w { stop_flag = true; place = at_stop_flag })
    → get_elem? (work i throws p).workers i ≡ some (record w { stop_flag = true; place = ended })
unfolding work advance
work-stopped i throws w p here =
    rw (here, work)
      (get_elem?-update_at (λ old. record w { stop_flag = true; place = ended }) i
        (record w { stop_flag = true; place = at_stop_flag }) p.workers here)

-- A worker of the first ones, which waits for tasks when `shutDown` sets its flag and notifies it,
-- ends with its next step, whatever was done with the pool before.
pub shut_down-waiting :
    (before : List Action) (num i : ℕ) (w : ThreadWorker) (throws : Bool)
    → i < num
    → get_elem? (run before (new_pool num)).workers i ≡ some w
    → w.place ≡ waits_for_tasks
    → let p = run (before ++ shuts_down ∷ notifies i ∷ works i throws ∷ []) (new_pool num) in
      (w' : ThreadWorker) × (get_elem? p.workers i ≡ some w') × (w'.place ≡ ended)
unfolding run perform notify shut_down
shut_down-waiting before num i w throws lt found waits =
    let p = run before (new_pool num) in
    let told = notify i (shut_down p) in
    let made = (run-Outlives before num num (new_pool num) (new_pool-Outlives num)).made_with in
    let here : get_elem? told.workers i
        ≡ some (record w { stop_flag = true; place = at_stop_flag }) =
      stopped-at p.num_of_thread_workers i w p.workers (omega (arith, made)) found waits in
    rw (run-append before (shuts_down ∷ notifies i ∷ works i throws ∷ []) (new_pool num))
      (record w { stop_flag = true; place = ended }, work-stopped i throws w told here, refl)
