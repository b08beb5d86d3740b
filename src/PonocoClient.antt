-- ===== src/PonocoClient.antt =====
-- PicoDB/pico/PonocoClient.h and PicoDB/pico/PonocoRunnable.h: the program that calls the driver.
pub mod Keys
pub mod Replies
use pico_db.Prelude.{
  ℕ, zero, suc, ◌+◌, List, [], ◌∷◌, ◌++◌, Option, none, some, Outcome, returns, waits, ◌>>=◌, Text,
  codes,
}
use pico_db.Utils.Random.{random_string_after}
use pico_db.Message.{Message, Libraries}
use pico_db.Driver.{Driver}
use pico_db.Driver.Requests.{
  Turn, insert, update, get, delete_record, delete_collection, create_collection,
}

-- What the environment does about one call of the driver: the random id of the request, the time
-- between the two calls of the clock, and the turns of the search for the reply.
pub record Ask : Type 0 where
  pub request_id : Text
  pub elapsed : ℕ
  pub turns : List Turn

-- PonocoClient(driverPtrArg): the static pointer is replaced.
abbrev pub new_ponoco_client : ℕ → Option ℕ → Option ℕ
new_ponoco_client driver_ptr_arg driver_ptr = some driver_ptr_arg

-- setPonocoDriver
abbrev pub set_ponoco_driver : ℕ → Option ℕ → Option ℕ
set_ponoco_driver driver_ptr_arg none = some driver_ptr_arg
set_ponoco_driver driver_ptr_arg (some driver_ptr) = some driver_ptr

-- pico_test::smallKey0 and pico_test::smallValue0; bigValue0 is an argument.
abbrev pub small_key0 : Text
small_key0 = codes "smallKey0"

abbrev pub small_value0 : Text
small_value0 = codes "smallValue0"

module _ (lib : Libraries) where
  -- `convertToString(i).append(random_string(key, 10).append(random_string(key, 10)))`, with the
  -- values of `rand()` for the two random strings
  pub random_small_key : ℕ → List ℕ → List ℕ → Text
  random_small_key i rands rands' =
      lib.cast.to_text i
      ++ (random_string_after small_key0 rands ++ random_string_after small_key0 rands')

module _ (lib : Libraries) (default_timeout_in_sec : ℕ) where
  -- One call with what the environment does about it. The programs drop the message.
  abbrev inserts : Text → Text → Ask → Driver → Outcome Driver
  inserts key value a d = do
    (message, d') ← insert lib default_timeout_in_sec a.request_id key value a.elapsed a.turns d
    returns d'

  -- updateOneBigData
  pub update_one_big_data : Text → Ask → Ask → Driver → Outcome Driver
  update_one_big_data big_value0 a b d = do
    inserted ← inserts small_key0 big_value0 a d
    (message, updated) ←
        update lib default_timeout_in_sec b.request_id small_key0 small_value0 b.elapsed b.turns
          inserted
    returns updated

  -- deleteOneBigData
  pub delete_one_big_data : Text → Ask → Ask → Driver → Outcome Driver
  delete_one_big_data big_value0 a b d = do
    inserted ← inserts small_key0 big_value0 a d
    (message, deleted) ←
        delete_record lib default_timeout_in_sec b.request_id small_key0 b.elapsed b.turns inserted
    returns deleted

  -- getOneBigData
  pub get_one_big_data : Text → Ask → Ask → Driver → Outcome Driver
  get_one_big_data big_value0 a b d = do
    inserted ← inserts small_key0 big_value0 a d
    (message, got) ←
        get lib default_timeout_in_sec b.request_id small_key0 10 b.elapsed b.turns inserted
    returns got

  -- insertOneBigData
  pub insert_one_big_data : Text → Ask → Driver → Outcome Driver
  insert_one_big_data big_value0 a d = inserts small_key0 big_value0 a d

  -- deleteAndCreateCollectionTest
  pub delete_and_create_collection_test : Text → Ask → Ask → Driver → Outcome Driver
  delete_and_create_collection_test collection_name a b d = do
    (message, deleted) ←
        delete_collection lib default_timeout_in_sec a.request_id collection_name a.elapsed a.turns
          d
    (message', created) ←
        create_collection lib default_timeout_in_sec b.request_id collection_name b.elapsed b.turns
          deleted
    returns created

  -- so many rounds of the loop of `insertOneBigRandomData`, from the round `i` on
  pub insert_random_data : ℕ → ℕ → List (List ℕ × List ℕ × Ask) → Driver → Outcome Driver
  unfolding random_small_key
  insert_random_data zero i asks d = returns d
  insert_random_data (suc n) i [] d = waits
  insert_random_data (suc n) i ((rands, rands', a) ∷ asks) d = do
    let key = random_small_key lib i rands rands'
    inserted ← inserts key key a d
    insert_random_data n (i + 1) asks inserted

  -- insertOneBigRandomData
  pub insert_one_big_random_data : List (List ℕ × List ℕ × Ask) → Driver → Outcome Driver
  unfolding insert_random_data
  insert_one_big_random_data asks d = insert_random_data 1000 0 asks d

-- currentTestCase, which sets the timeout to 1 and then, in `write1000smallRandomDataUsing100Threads`,
-- to 10: one thread inserts.
pub current_test_case : Libraries → List (List ℕ × List ℕ × Ask) → Driver → Outcome Driver
unfolding insert_one_big_random_data
current_test_case lib asks d =
    let default_timeout_in_sec : ℕ = 10 in
    insert_one_big_random_data lib default_timeout_in_sec asks d
