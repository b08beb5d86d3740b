-- ===== src/Runnable/Outputs.antt =====
-- The outputs of a task of PicoDB/SimpleRunnable.h.
use pico_db.Prelude.{ℕ, zero, suc, ◌+◌, ◌%◌, ◌<◌, ◌≡◌, ◌∙◌, Text, codes, ◌++◌, arith}
use pico_db.Counters.{AtomicCounter, increment, long_mod}
use pico_db.Runnable.{SimpleRunnable, output_rounds, run_simple}

output_rounds-count :
    (n : ℕ) (show : ℕ → Text) (str : Text) (outputs : AtomicCounter)
    → outputs.count < long_mod
    → (output_rounds n show str outputs).1.count ≡ (outputs.count + n) % long_mod
unfolding output_rounds increment
output_rounds-count zero show str outputs h = omega arith
output_rounds-count (suc n) show str outputs h =
    output_rounds-count n show _ (increment outputs) (omega arith) ∙ omega arith

-- A task adds 99 to its count of outputs, on words of 64 bits.
pub run_simple-count :
    (show : ℕ → Text) (thread_id : Text) (r : SimpleRunnable)
    → r.number_of_outputs.count < long_mod
    → (run_simple show thread_id r).1.number_of_outputs.count
      ≡ (r.number_of_outputs.count + 99) % long_mod
unfolding run_simple
run_simple-count show thread_id r h =
    output_rounds-count 99 show
      (codes "Simple Runnable is running ... by a thread  with id : " ++ thread_id)
      r.number_of_outputs h
