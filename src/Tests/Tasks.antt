-- ===== src/Tests/Tasks.antt =====
-- The thread pool and the object pool of PicoDB on small inputs.
use pico_db.Prelude.{
  inl, ◌≢◌, ℕ, ◌≡◌, refl, true, false, List, [], ◌∷◌, ◌++◌, some, get_elem?, arith,
}
use pico_db.ThreadPool.{
  Action, ThreadWorker, works, assigns, starts_workers, shuts_down, notifies, run, new_pool,
}
use pico_db.ThreadPool.{runs, ended}
use pico_db.ThreadPool.Busy.{shut_down-busy}
use pico_db.Prelude.{waits}
use pico_db.ThreadPool.{submit_task}
use pico_db.ThreadPool.Joining.{
  no_more, goes_first, goes_second, shut_down_after_workers, shut_down_after_workers-waits,
}
use pico_db.ThreadPool.{ThreadPool}
use pico_db.ThreadPool.Racing.{Event, new_pool_racing, run_racing}
use pico_db.ThreadPool.Running.{IsRunning}
use pico_db.ThreadPool.Shutdown.{shut_down-misses}
use pico_db.ThreadPool.Tasks.{IsConserved, run-new_pool-IsConserved}
use pico_db.Printing
use pico_db.Printing.{Who, producer, consumer, finished, three_hundred, thread_example}
use pico_db.Printing.Phases.{printed, other}
use pico_db.Printing.Exclusion.{rounds, run-rounds}
use pico_db.Prelude.{ℕ, ◌+◌, Text, codes}

abbrev one_task : List Action
one_task = assigns 7 ∷ works 0 false ∷ works 0 false ∷ works 0 false ∷ works 0 true ∷ []

run-new_pool-IsConserved_example : IsConserved (run one_task (new_pool 1))
run-new_pool-IsConserved_example = run-new_pool-IsConserved one_task 1

-- threads that come to their flags in time
abbrev in_time : List Action → List Event
in_time [] = []
in_time (a ∷ actions) = record { action = a; early = false ∷ false ∷ [] } ∷ in_time actions

-- a pool of one worker is started again and shut down, and both workers look at their flags
abbrev shut_down_and_work : List Action
shut_down_and_work = shuts_down ∷ notifies 0 ∷ notifies 1 ∷ works 0 false ∷ works 1 false ∷ []

abbrev shut_pool : ThreadPool
shut_pool = run (assigns 7 ∷ starts_workers ∷ shut_down_and_work) (new_pool 1)

shut_down-misses_example :
    (w : ThreadWorker) × (get_elem? shut_pool.workers 1 ≡ some w) × IsRunning w
unfolding new_pool_racing run_racing run new_pool
shut_down-misses_example =
    shut_down-misses (false ∷ []) (false ∷ false ∷ []) (in_time (assigns 7 ∷ []))
      (in_time shut_down_and_work) 1 1 shut_pool refl (omega arith) (omega arith)

-- the worker runs a task when it is told to stop, and then finds nothing more to do
abbrev busy_pool : List Action
busy_pool = assigns 7 ∷ works 0 false ∷ works 0 false ∷ works 0 false ∷ []

abbrev goes_on : List Action
goes_on = works 0 false ∷ works 0 false ∷ works 0 false ∷ works 0 false ∷ []

shut_down-busy_example :
    let p = run (busy_pool ++ shuts_down ∷ notifies 0 ∷ goes_on) (new_pool 1) in
    (w' : ThreadWorker) × (get_elem? p.workers 0 ≡ some w') × (w'.place ≢ ended)
unfolding run new_pool
shut_down-busy_example =
    shut_down-busy busy_pool goes_on 1 0
      (record { place = runs 7; free = false; stop_flag = false }) refl tt
      (inl refl, (inl refl, (inl refl, (inl refl, tt))))

-- two tasks are submitted while the workers go on
abbrev two_tasks : List (ℕ × ℕ)
two_tasks = (0, 7) ∷ (1, 8) ∷ []

abbrev both_workers : List Action
both_workers = works 0 false ∷ works 1 true ∷ []

abbrev all_actions : List Action
all_actions =
    assigns 7
    ∷ works 0 false
    ∷ notifies 0
    ∷ notifies 0
    ∷ assigns 8
    ∷ works 1 true
    ∷ notifies 1
    ∷ notifies 1
    ∷ []

shut_down_after_workers-waits_example :
    shut_down_after_workers (run all_actions (new_pool 2)) ≡ waits
unfolding submit_task new_pool new_pool_racing run_racing run
shut_down_after_workers-waits_example =
    shut_down_after_workers-waits (false ∷ false ∷ []) two_tasks both_workers (in_time all_actions)
      (run all_actions (new_pool 2))
      (goes_first (
        goes_second
          (goes_first (goes_first (goes_first (goes_second (goes_first (goes_first no_more))))))))
      (tt, (tt, tt)) refl

abbrev sample_id : Who → Text
sample_id producer = codes "7"
sample_id consumer = codes "8"

run-rounds_example :
    let last =
      Printing.run three_hundred sample_id
        ((consumer ∷ producer ∷ consumer ∷ []) ++ rounds (three_hundred + three_hundred + 4))
        thread_example in
    (who : Who) × (last.producer_place ≡ finished)
    × (last.consumer_place ≡ finished)
    × (last.cout
        ≡ printed three_hundred sample_id who three_hundred
          ++ printed three_hundred sample_id (other who) three_hundred)
run-rounds_example = run-rounds three_hundred sample_id (consumer ∷ producer ∷ consumer ∷ [])
