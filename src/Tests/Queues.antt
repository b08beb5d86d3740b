-- ===== src/Tests/Queues.antt =====
-- The queues of PicoDB/pico on short lists of numbers.
use pico_db.Prelude.{ℕ, true, false, none, ◌≡◌, List, [], ◌∷◌, some, returns}
use pico_db.Queue.Vector.Stack.{
  Call, pushes, pops, peeks, appends, clears, run_vector, run_vector-run_stack,
}
use pico_db.Queue.ConcurrentList.Fifo.{run_list, run_list-run_queue}

abbrev calls : List (Call ℕ)
calls =
    pushes 2 5
    ∷ pushes 0 6
    ∷ peeks true
    ∷ pops 1
    ∷ peeks false
    ∷ appends 7
    ∷ pops 0
    ∷ clears
    ∷ pops 3
    ∷ []

run_vector-run_stack_example :
    run_vector calls (4 ∷ []) ≡ returns (some 6 ∷ some 6 ∷ none ∷ some 7 ∷ none ∷ [], [])
run_vector-run_stack_example = run_vector-run_stack calls (4 ∷ [])

run_list-run_queue_example :
    run_list calls (4 ∷ []) ≡ returns (some 4 ∷ some 4 ∷ none ∷ some 5 ∷ none ∷ [], [])
run_list-run_queue_example = run_list-run_queue calls (4 ∷ [])
