-- ===== src/Queue/Vector.antt =====
-- PicoDB/pico/ConcurrentVector.h. A vector is the list of its elements, front first; `none` stands
-- for the default-constructed element that the code returns when there is nothing to return.
pub mod Stack
pub mod Remove
use pico_db.Prelude.{
  codes, ℕ, zero, suc, ◌+◌, Bool, true, false, not, List, [], ◌∷◌, ◌++◌, Option, none, some,
  Outcome, returns, aborts, undefined, waits, ◌>>=◌, ◌>>◌, assert, ℤ, pos, negsuc, Text, is_empty,
  length, get_elem?, if◌then◌else◌,
}
use pico_db.Queue.Ends.{last?, all_but_last, erase_at, spin}

-- the position that the loop `for (i = 0; i < sequenceNumber; i++) ++iter` reaches
abbrev pub steps : ℤ → ℕ
steps (pos n) = n
steps (negsuc n) = 0

module _ {ℓ} {A : Type ℓ} where
  -- the body of `pop` once it has the lock
  abbrev pub pop_locked : List A → Option A × List A
  pop_locked v = (last? v, all_but_last v)

  unfoldable pub pop : List Bool → List A → Outcome (Option A × List A)
  pop attempts v = spin attempts (pop_locked v)

  abbrev pub push_back_locked : List A → A → List A
  push_back_locked v a = v ++ a ∷ []

  unfoldable pub push_back : List Bool → List A → A → Outcome (List A)
  push_back attempts v a = spin attempts (push_back_locked v a)

  -- `peek` does not try again: without the lock it answers with the empty instance.
  unfoldable pub peek : List Bool → List A → Outcome (Option A)
  peek [] v = waits
  peek (true ∷ attempts) v = returns (last? v)
  peek (false ∷ attempts) v = returns none

  taken : (A → Text) → ℕ → List A → Option A → Outcome (Option A × List A)
  taken show i v none = undefined
  taken show i v (some a) = do assert (not (is_empty (show a))); returns (some a, erase_at i v)

  pop_at_locked : (A → Text) → ℤ → List A → Outcome (Option A × List A)
  unfolding taken
  pop_at_locked show n [] = returns (none, [])
  pop_at_locked show n (x ∷ xs) = taken show (steps n) (x ∷ xs) (get_elem? (x ∷ xs) (steps n))

  -- pop(int); an iterator beyond the end is undefined.
  unfoldable pub pop_at : (A → Text) → List Bool → ℤ → List A → Outcome (Option A × List A)
  unfolding pop_at_locked
  pop_at show attempts n v = spin attempts v >>= pop_at_locked show n

  -- The loop of `remove` at index `i`. `same` is the comparison with the element; the iterator
  -- moves with the index, and `erase` shifts the rest of the vector under it. The standard makes the
  -- iterator invalid by `erase`; here it is a position, which it is in the usual implementations.
  remove_loop : ℕ → (A → Bool) → ℕ → List A → List A
  remove_loop zero same i v = v
  remove_loop (suc fuel) same i v = elim (get_elem? v i) [
    | none ↦ v
    | some x ↦ remove_loop fuel same (suc i) (if same x then erase_at i v else v)
  ]

  -- Each round raises `i` or shortens the vector, so its length is fuel enough.
  unfoldable pub remove : (A → Bool) → List A → List A
  unfolding remove_loop
  remove same v = remove_loop (length v) same 0 v

  unfoldable pub append : List A → A → List A
  append v a = v ++ a ∷ []

  unfoldable pub empty : List A → Bool
  empty v = is_empty v

  unfoldable pub size : List A → ℕ
  size v = length v

  clear_loop : ℕ → List A → List A
  clear_loop zero v = v
  clear_loop (suc fuel) v =
      let rest = clear_loop fuel (all_but_last v) in if is_empty v then v else rest

  unfoldable pub clear : List A → List A
  unfolding clear_loop
  clear v = clear_loop (length v) v

  unfoldable pub to_string : (A → Text) → List A → Text
  to_string show [] = []
  to_string show (x ∷ xs) = show x ++ to_string show xs

  -- printAll, as the texts that it logs; `show` is the function of the traits
  pub print_all : (A → Text) → List A → List Text
  print_all show [] = []
  print_all show (x ∷ xs) = codes "list iterator ==> " ∷ show x ∷ codes "\n" ∷ print_all show xs

  -- the positions of the iterators `begin()` and `end()`, under the names that the code gives them
  get_last_buffer : List A → ℕ
  get_last_buffer v = 0

  get_first_buffer : List A → ℕ
  get_first_buffer v = length v
