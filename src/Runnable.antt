-- ===== src/Runnable.antt =====
-- PicoDB/Runnable.h: the task of a thread pool; `run` belongs to the classes that derive from it, of
-- which PicoDB/SimpleRunnable.h is one.
pub mod Outputs
use pico_db.Counters.{AtomicCounter, increment}
use pico_db.Prelude.{
  ℕ, zero, suc, ◌++◌, Text, codes, Bool, false, Option, none, some, ℤ, negsuc, pos, ◌==◌,
}

-- `task_done` is indeterminate in a task that was made with an id.
pub record Runnable : Type 0 where
  pub task_id : ℤ
  pub task_done : Option Bool

-- Runnable()
new_runnable : Runnable
new_runnable = record { task_id = negsuc 1; task_done = some false }

-- Runnable(int)
runnable_of : ℤ → Runnable
runnable_of id = record { task_id = id; task_done = none }

-- operator=, which returns its argument and assigns nothing
assign_runnable : Runnable → Runnable → Runnable × Runnable
assign_runnable self r = (self, r)

abbrev same_int : ℤ → ℤ → Bool
same_int (pos a) (pos b) = a == b
same_int (pos a) (negsuc b) = false
same_int (negsuc a) (pos b) = false
same_int (negsuc a) (negsuc b) = a == b

-- operator==
runnable_eq : Runnable → Runnable → Bool
runnable_eq self r = same_int self.task_id r.task_id

get_task_id : Runnable → ℤ
get_task_id r = r.task_id

is_task_done : Runnable → Option Bool
is_task_done r = r.task_done

set_task_done : Bool → Runnable → Runnable
set_task_done done r = record r { task_done = some done }

-- `number_of_outputs` is not set by the constructor.
pub record SimpleRunnable : Type 0 where
  pub task : Runnable
  pub number_of_outputs : AtomicCounter

-- SimpleRunnable(taskId)
simple_runnable_of : ℤ → AtomicCounter → SimpleRunnable
simple_runnable_of id unset = record { task = runnable_of id; number_of_outputs = unset }

-- so many rounds of the loop of `run`; `show` is convertToString<long>
pub output_rounds : ℕ → (ℕ → Text) → Text → AtomicCounter → Text × AtomicCounter
output_rounds zero show str outputs = (str, outputs)
output_rounds (suc n) show str outputs =
    let counted = increment outputs in
    output_rounds n show (str ++ codes " this is the num : " ++ show counted.count) counted

-- run(), with the text of the thread's id; the text that is made is not used.
pub run_simple : (ℕ → Text) → Text → SimpleRunnable → Text × SimpleRunnable
unfolding output_rounds
run_simple show thread_id r =
    let begin = codes "Simple Runnable is running ... by a thread  with id : " ++ thread_id in
    let (str, outputs) = output_rounds 99 show begin r.number_of_outputs in
    (str, record r { number_of_outputs = outputs })
