-- ===== src/Queue/ConcurrentList.antt =====
-- PicoDB/pico/pico_concurrent_list.h: the same interface over a `std::list`. A list is given front
-- first; `none` stands for the default-constructed element.
pub mod Fifo
use pico_db.Prelude.{
  codes, ℕ, zero, suc, Bool, true, false, not, List, [], ◌∷◌, ◌++◌, Option, none, some, Outcome,
  returns, undefined, waits, ◌>>=◌, ◌>>◌, assert, ℤ, Text, is_empty, length, get_elem?, keep, ◌==◌,
  if◌then◌else◌,
}
use pico_db.Queue.Ends.{last?, all_but_last, spin}
use pico_db.Queue.Vector.{steps}

module _ {ℓ} {A : Type ℓ} where
  abbrev pub pop_locked : List A → Option A × List A
  pop_locked l = (last? l, all_but_last l)

  pub pop : List Bool → List A → Outcome (Option A × List A)
  pop attempts l = spin attempts (pop_locked l)

  abbrev pub push_locked : List A → A → List A
  push_locked l a = a ∷ l

  pub push : List Bool → List A → A → Outcome (List A)
  push attempts l a = spin attempts (push_locked l a)

  pub peek : List Bool → List A → Outcome (Option A)
  peek [] l = waits
  peek (true ∷ attempts) l = returns (last? l)
  peek (false ∷ attempts) l = returns none

  -- std::list::remove erases every element that is equal
  pub remove : (A → Bool) → List A → List A
  remove same l = if is_empty l then l else keep (λ a. not (same a)) l

  taken : (A → A → Bool) → (A → Text) → List A → Option A → Outcome (Option A × List A)
  taken eq show l none = undefined
  taken eq show l (some a) = do
    assert (not (is_empty (show a)))
    returns (some a, keep (λ b. not (eq b a)) l)

  pop_at_locked : (A → A → Bool) → (A → Text) → ℤ → List A → Outcome (Option A × List A)
  unfolding taken
  pop_at_locked eq show n [] = returns (none, [])
  pop_at_locked eq show n (x ∷ xs) = taken eq show (x ∷ xs) (get_elem? (x ∷ xs) (steps n))

  -- pop(int) removes by value: `underlying_list.remove(*iter)`.
  pub pop_at : (A → A → Bool) → (A → Text) → List Bool → ℤ → List A → Outcome (Option A × List A)
  unfolding pop_at_locked
  pop_at eq show attempts n l = spin attempts l >>= pop_at_locked eq show n

  -- the loop of `get`, with its counter
  get_from : ℕ → ℕ → List A → Option A
  get_from i index [] = none
  get_from i index (x ∷ xs) = if i == index then some x else get_from (suc i) index xs

  pub get : ℕ → List A → Option A
  unfolding get_from
  get index l = get_from 0 index l

  -- As `push`, but with no lock.
  pub append : List A → A → List A
  append l a = a ∷ l

  pub size : List A → ℕ
  size l = length l

  pub clear : List A → List A
  clear [] = []
  clear (x ∷ xs) = clear xs

  pub to_string : (A → Text) → List A → Text
  to_string show [] = []
  to_string show (x ∷ xs) = show x ++ to_string show xs

  -- printAll(msg), as the texts that it logs
  print_all : (A → Text) → Text → List A → List Text
  print_all show msg [] = []
  print_all show msg (x ∷ xs) = msg ∷ show x ∷ codes "\n" ∷ print_all show msg xs
