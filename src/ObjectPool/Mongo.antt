-- ===== src/ObjectPool/Mongo.antt =====
-- `MongoThread` and `poolTestExample` of PicoDB/ObjectPool.h, the users of the pool.
use pico_db.Prelude.{
  ℕ, zero, suc, ◌≡◌, refl, true, false, [], ◌∷◌, none, some, Outcome, returns, aborts, undefined,
  ◌>>=◌, ◌⊎◌, inl, inr,
}
use pico_db.Record.{defined}
use pico_db.ObjectPool.{ObjectPool, new_object_pool, get_object, return_object_back_too_pool}

-- delete mongoPtr: the pool keeps the pointer, and there is no flag behind it any more.
abbrev delete_object : ℕ → ObjectPool → ObjectPool
delete_object i [] = []
delete_object zero (flag ∷ bag) = none ∷ bag
delete_object (suc i) (flag ∷ bag) = flag ∷ delete_object i bag

-- so many rounds of the loop of `run`; `connect` and `disconnect` log, and need an object
run_rounds : ℕ → ObjectPool → Outcome ObjectPool
unfolding get_object return_object_back_too_pool
run_rounds zero bag = returns bag
run_rounds (suc n) bag = do
  (obj, lent) ← get_object bag
  mongo_ptr ← defined obj
  run_rounds n (delete_object mongo_ptr (return_object_back_too_pool mongo_ptr lent))

-- run()
pub run : ObjectPool → Outcome ObjectPool
unfolding run_rounds
run bag = run_rounds 10 bag

-- MongoThread(const MongoThread&) is an assertion that fails.
abbrev copy_thread : ObjectPool → Outcome ObjectPool
copy_thread pool = aborts

-- poolTestExample(): `std::bind` copies the thread object before anything runs.
pub pool_test_example : Outcome ObjectPool
unfolding run new_object_pool
pool_test_example = do bound_member_fn ← copy_thread new_object_pool; run bound_member_fn

-- What a round does to the next one.
record Spoilt (bag : ObjectPool) : Type 0 where
  object : ℕ
  lent : ObjectPool
  lends : get_object bag ≡ returns (some object, lent)
  then_undefined :
      get_object (delete_object object (return_object_back_too_pool object lent)) ≡ undefined

abbrev IsOneOff : ObjectPool → Type 0
IsOneOff bag =
    (get_object bag ≡ undefined)
    ⊎ ((bag' : ObjectPool) × (get_object bag ≡ returns (none, bag')))
    ⊎ Spoilt bag

get_object-IsOneOff : (bag : ObjectPool) → IsOneOff bag
unfolding get_object return_object_back_too_pool
get_object-IsOneOff [] = inr (inl ([], refl))
get_object-IsOneOff (none ∷ bag) = inl refl
get_object-IsOneOff (some true ∷ bag) =
    inr (inr (record { object = 0; lent = some false ∷ bag; lends = refl; then_undefined = refl }))
get_object-IsOneOff (some false ∷ bag) = elim (get_object-IsOneOff bag) [
  | inl e ↦ inl (rw e refl)
  | inr (inl (bag', e)) ↦ inr (inl (some false ∷ bag', rw e refl))
  | inr (inr s) ↦ inr (
      inr (record {
        object = suc s.object;
        lent = some false ∷ s.lent;
        lends = rw s.lends refl;
        then_undefined = rw s.then_undefined refl;
      }))
]

-- `run` of a thread that is alone on a pool is undefined, however many objects the pool has, and
-- whichever of their flags are set and how.
pub run-undefined : (bag : ObjectPool) → run bag ≡ undefined
unfolding run
run-undefined bag = elim (get_object-IsOneOff bag) [
  | inl e ↦ rw e refl
  | inr (inl (bag', e)) ↦ rw e refl
  | inr (inr s) ↦ rw s.lends (rw s.then_undefined refl)
]

-- The example does not get as far as that.
pool_test_example-aborts : pool_test_example ≡ aborts
unfolding pool_test_example
pool_test_example-aborts = refl
