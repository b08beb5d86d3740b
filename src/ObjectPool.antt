-- ===== src/ObjectPool.antt =====
-- PicoDB/ObjectPool.h: a pool of objects that are lent to one caller at a time. An object is a pointer
-- and stands for its position; its flag is indeterminate until it is set.
pub mod Mongo
use pico_db.Prelude.{
  ℕ, zero, suc, Bool, true, false, List, [], ◌∷◌, ◌++◌, Option, none, some, Outcome, returns,
  undefined, ◌>>=◌, length, replicate,
}
use pico_db.Record.{defined}

-- `_isAvailable` of each object of `_bag`
abbrev pub ObjectPool : Type 0
ObjectPool = List (Option Bool)

-- the objects of the factory, whose constructor does not set the flag
abbrev pub pool_size : ℕ
pool_size = 20

-- ObjectPool(objFactoryPtr)
unfoldable pub new_object_pool : ObjectPool
new_object_pool = replicate pool_size none

pub insert : Option Bool → ObjectPool → ObjectPool
insert item bag = bag ++ item ∷ []

-- What the rest of the loop found, counted from one object earlier.
abbrev behind : Option Bool → Option ℕ × ObjectPool → Option ℕ × ObjectPool
behind flag (none, bag) = (none, flag ∷ bag)
behind flag (some i, bag) = (some (suc i), flag ∷ bag)

-- getObject: the position of the object, or NULL
unfoldable pub get_object : ObjectPool → Outcome (Option ℕ × ObjectPool)
get_object [] = returns (none, [])
get_object (flag ∷ bag) =
    let rest = get_object bag in
    defined flag >>= λ available. elim available [
      | true ↦ returns (some zero, some false ∷ bag)
      | false ↦ (rest >>= λ found. returns (behind flag found))
    ]

-- setAvailable(true) on the object at a position
unfoldable pub return_object_back_too_pool : ℕ → ObjectPool → ObjectPool
return_object_back_too_pool i [] = []
return_object_back_too_pool zero (flag ∷ bag) = some true ∷ bag
return_object_back_too_pool (suc i) (flag ∷ bag) = flag ∷ return_object_back_too_pool i bag

pub size : ObjectPool → ℕ
size bag = length bag
