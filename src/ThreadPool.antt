-- ===== src/ThreadPool.antt =====
-- PicoDB/pico/ThreadPool.h and PicoDB/ThreadWorker.h: workers on threads of their own that take tasks
-- from one queue. What the threads do is a sequence of actions, in any order.
pub mod Tasks
pub mod Wakeup
pub mod Running
pub mod Shutdown
pub mod Inside
pub mod Busy
pub mod Joining
pub mod Racing
use pico_db.Prelude.{
  ℕ, zero, suc, ◌%◌, Bool, true, false, List, [], ◌∷◌, ◌++◌, Option, none, some, is_empty,
  replicate, length, get_elem?, if◌then◌else◌,
}
use pico_db.Queue.Vector.{pop_locked, push_back_locked}

-- Where a worker stands in `runIndefinitely`; a task is a shared pointer, and stands for its address.
pub data Place : Type 0 where
  -- while (!stopFlag_)
  at_stop_flag : Place
  -- while (!queueOfTasks->empty())
  at_queue : Place
  -- queueOfTasks->pop()
  at_pop : Place
  -- task->run()
  runs : ℕ → Place
  -- the queue was found empty, and the lock for waiting is not taken yet
  before_wait : Place
  -- workerQueueIsEmpty.wait(workerLock)
  waits_for_tasks : Place
  ended : Place

pub record ThreadWorker : Type 0 where
  pub place : Place
  pub free : Bool
  pub stop_flag : Bool

-- `submitted` and `finished` only record what happened.
pub record ThreadPool : Type 0 where
  pub task_queue : List ℕ
  pub workers : List ThreadWorker
  pub stop : Bool
  pub num_of_thread_workers : ℕ
  pub submitted : List ℕ
  pub finished : List ℕ

-- ThreadWorker(queueOfTasks), once its body has run. The thread is started before that: see
-- ThreadPool.Racing for threads that come to the flag too early.
abbrev pub new_worker : ThreadWorker
new_worker = record { place = at_stop_flag; free = true; stop_flag = false }

-- startWokers, which `start` calls once more
unfoldable pub start_workers : ThreadPool → ThreadPool
start_workers p = record p { workers = p.workers ++ replicate p.num_of_thread_workers new_worker }

-- ThreadPool(num)
unfoldable pub new_pool : ℕ → ThreadPool
unfolding start_workers
new_pool num = start_workers (record {
  task_queue = [];
  workers = [];
  stop = false;
  num_of_thread_workers = num;
  submitted = [];
  finished = [];
})

abbrev pub update_at : ℕ → (ThreadWorker → ThreadWorker) → List ThreadWorker → List ThreadWorker
update_at i f [] = []
update_at zero f (w ∷ ws) = f w ∷ ws
update_at (suc i) f (w ∷ ws) = w ∷ update_at i f ws

-- What the queue gave to `pop`: without a task the worker looks at the queue again.
abbrev pub popped_place : Option ℕ → Place
popped_place none = at_queue
popped_place (some t) = runs t

-- The next step of a worker on the queue: the worker, the queue, and the tasks that are done with it.
-- A task that throws is caught outside of the inner loop.
unfoldable pub advance : Bool → List ℕ → Place → ThreadWorker → ThreadWorker × List ℕ × List ℕ
advance throws queue at_stop_flag w =
    (record w { place = if w.stop_flag then ended else at_queue }, queue, [])
advance throws queue at_queue w =
    if is_empty queue
    then (record w { place = before_wait; free = true }, queue, [])
    else (record w { place = at_pop; free = false }, queue, [])
advance throws queue at_pop w =
    let (task, rest) = pop_locked queue in (record w { place = popped_place task }, rest, [])
advance throws queue (runs t) w =
    (record w { place = if throws then at_stop_flag else at_queue }, queue, t ∷ [])
advance throws queue before_wait w = (record w { place = waits_for_tasks }, queue, [])
advance throws queue waits_for_tasks w = (w, queue, [])
advance throws queue ended w = (w, queue, [])

-- A worker that is notified leaves `wait` and comes to the end of the outer loop.
abbrev woken_place : Place → Place
woken_place waits_for_tasks = at_stop_flag
woken_place place = place

unfoldable pub notified : ThreadWorker → ThreadWorker
notified w = record w { place = woken_place w.place }

pub data Action : Type 0 where
  -- a worker goes on; the flag says whether a task that it runs throws
  works : ℕ → Bool → Action
  -- assignJobToWorker, up to its notification
  assigns : ℕ → Action
  -- a worker is notified, or wakes up by itself
  notifies : ℕ → Action
  -- shutDown, up to its notifications
  shuts_down : Action
  -- start()
  starts_workers : Action

unfoldable pub work : ℕ → Bool → ThreadPool → ThreadPool
unfolding advance
work i throws p = elim (get_elem? p.workers i) [
  | none ↦ p
  | some w ↦
      let (w', queue, done) = advance throws p.task_queue w.place w in
      record p {
        task_queue = queue;
        workers = update_at i (λ old. w') p.workers;
        finished = p.finished ++ done;
      }
]

unfoldable pub assign_job : ℕ → ThreadPool → ThreadPool
assign_job t p = record p {
  task_queue = push_back_locked p.task_queue t;
  submitted = p.submitted ++ t ∷ [];
}

unfoldable pub notify : ℕ → ThreadPool → ThreadPool
unfolding notified
notify i p = record p { workers = update_at i notified p.workers }

-- the loop of `shutDown` over the number of workers that the pool was made with
abbrev stop_first : ℕ → List ThreadWorker → List ThreadWorker
stop_first zero ws = ws
stop_first (suc n) [] = []
stop_first (suc n) (w ∷ ws) = record w { stop_flag = true } ∷ stop_first n ws

unfoldable pub shut_down : ThreadPool → ThreadPool
shut_down p = record p { stop = true; workers = stop_first p.num_of_thread_workers p.workers }

unfoldable pub perform : Action → ThreadPool → ThreadPool
unfolding work assign_job notify shut_down start_workers
perform (works i throws) p = work i throws p
perform (assigns t) p = assign_job t p
perform (notifies i) p = notify i p
perform shuts_down p = shut_down p
perform starts_workers p = start_workers p

unfoldable pub run : List Action → ThreadPool → ThreadPool
unfolding perform
run [] p = p
run (a ∷ actions) p = run actions (perform a p)

-- submitTask, which draws the worker at random: what its thread does, in order.
unfoldable pub submit_task : ℕ → ℕ → ThreadPool → List Action
submit_task random t p =
    let random_index = random % p.num_of_thread_workers in
    assigns t ∷ notifies random_index ∷ notifies random_index ∷ []
