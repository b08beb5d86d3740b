-- ===== src/ThreadPool/Racing.antt =====
-- The start of a worker in PicoDB/ThreadWorker.h: the initializer list starts the thread, and the body
-- of the constructor sets the queue and the flag that the thread uses.
use pico_db.Prelude.{
  ℕ, ◌≡◌, refl, Bool, false, ◌||◌, List, [], ◌∷◌, Outcome, returns, undefined, ◌>>=◌, if◌then◌else◌,
  ap, sym, ◌∙◌, ◌++◌, Bool-cases, inl, inr, returns-injective, >>=-eq-returns,
}
use pico_db.ThreadPool.{
  ThreadPool, Action, works, assigns, notifies, shuts_down, starts_workers, perform, run, new_pool,
  start_workers,
}

abbrev is_any : List Bool → Bool
is_any [] = false
is_any (b ∷ bs) = b || is_any bs

-- startWokers, by which of the new threads come to their flag before the constructor has set it: what
-- such a thread reads is indeterminate.
unfoldable pub start_workers_racing : List Bool → ThreadPool → Outcome ThreadPool
start_workers_racing early p = if is_any early then undefined else returns (start_workers p)

-- a pool without its workers
abbrev bare_pool : ℕ → ThreadPool
bare_pool num = record {
  task_queue = [];
  workers = [];
  stop = false;
  num_of_thread_workers = num;
  submitted = [];
  finished = [];
}

-- ThreadPool(num)
unfoldable pub new_pool_racing : List Bool → ℕ → Outcome ThreadPool
unfolding start_workers_racing
new_pool_racing early num = start_workers_racing early (bare_pool num)

-- What a thread does, with the threads that come too early where it starts some.
pub record Event : Type 0 where
  pub action : Action
  pub early : List Bool

abbrev pub actions_of : List Event → List Action
actions_of [] = []
actions_of (e ∷ es) = e.action ∷ actions_of es

unfoldable pub perform_racing : List Bool → Action → ThreadPool → Outcome ThreadPool
unfolding start_workers_racing
perform_racing early (works i throws) p = returns (perform (works i throws) p)
perform_racing early (assigns t) p = returns (perform (assigns t) p)
perform_racing early (notifies i) p = returns (perform (notifies i) p)
perform_racing early shuts_down p = returns (perform shuts_down p)
perform_racing early starts_workers p = start_workers_racing early p

unfoldable pub run_racing : List Event → ThreadPool → Outcome ThreadPool
unfolding perform_racing
run_racing [] p = returns p
run_racing (e ∷ es) p = perform_racing e.early e.action p >>= run_racing es

start_workers_racing-returns :
    (early : List Bool) (p q : ThreadPool)
    → start_workers_racing early p ≡ returns q
    → q ≡ start_workers p
unfolding start_workers_racing
start_workers_racing-returns early p q h = elim (Bool-cases (is_any early)) [
  | inl e ↦ let bad : undefined ≡ returns q = rw e at h in cc
  | inr e ↦
      let good : returns (start_workers p) ≡ returns q = rw e at h in sym (returns-injective good)
]

perform_racing-perform :
    (early : List Bool) (a : Action) (p q : ThreadPool)
    → perform_racing early a p ≡ returns q
    → q ≡ perform a p
unfolding perform_racing
perform_racing-perform early (works i throws) p q h = sym (returns-injective h)
perform_racing-perform early (assigns t) p q h = sym (returns-injective h)
perform_racing-perform early (notifies i) p q h = sym (returns-injective h)
perform_racing-perform early shuts_down p q h = sym (returns-injective h)
perform_racing-perform early starts_workers p q h =
    unfold perform in start_workers_racing-returns early p q h

-- Where no thread comes too early, the threads do what `run` says.
pub run_racing-run :
    (es : List Event) (p q : ThreadPool) → run_racing es p ≡ returns q → q ≡ run (actions_of es) p
unfolding run_racing run
run_racing-run [] p q h = sym (returns-injective h)
run_racing-run (e ∷ es) p q h =
    let (next, first, rest) =
      >>=-eq-returns (perform_racing e.early e.action p) (run_racing es) h in
    run_racing-run es next q rest
    ∙ ap (run (actions_of es)) (perform_racing-perform e.early e.action p next first)

pub new_pool_racing-run :
    (early : List Bool) (num : ℕ) (es : List Event) (q : ThreadPool)
    → (new_pool_racing early num >>= run_racing es) ≡ returns q
    → q ≡ run (actions_of es) (new_pool num)
unfolding new_pool_racing new_pool
new_pool_racing-run early num es q h =
    let (p, made, rest) = >>=-eq-returns (new_pool_racing early num) (run_racing es) h in
    run_racing-run es p q rest
    ∙ ap (run (actions_of es)) (start_workers_racing-returns early (bare_pool num) p made)

pub actions_of-append :
    (es fs : List Event) → actions_of (es ++ fs) ≡ actions_of es ++ actions_of fs
actions_of-append [] fs = refl
actions_of-append (e ∷ es) fs = ap (◌∷◌ e.action) (actions_of-append es fs)
