-- ===== src/ThreadPool/Wakeup.antt =====
-- Waiting and notification in PicoDB/ThreadWorker.h.
use pico_db.Prelude.{ℕ, ◌≡◌, false, List, [], ◌∷◌, ◌++◌, All}
use pico_db.ThreadPool.{
  waits_for_tasks, ThreadWorker, ThreadPool, Action, works, assigns, notifies, shuts_down,
  starts_workers, new_pool, submit_task,
}

-- Actions of workers.
abbrev pub IsWork : Action → Type 0
IsWork (works i throws) = Unit
IsWork (assigns t) = ⊥
IsWork (notifies i) = ⊥
IsWork shuts_down = ⊥
IsWork starts_workers = ⊥

-- All workers wait.
abbrev pub IsAsleep : ThreadPool → Type 0
IsAsleep p = All (λ (w : ThreadWorker). w.place ≡ waits_for_tasks) p.workers

-- the one worker finds the queue empty, and a task is submitted before it waits
abbrev unlucky : ℕ → ℕ → List Action
unlucky random t =
    works 0 false ∷ works 0 false ∷ submit_task random t (new_pool 1) ++ works 0 false ∷ []
