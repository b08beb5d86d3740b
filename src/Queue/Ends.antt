-- ===== src/Queue/Ends.antt =====
-- What the queues use of `std::vector` and `std::list`: the two ends, erasing at a position, and
-- the loop that tries for the lock.
use pico_db.Prelude.{
  ℕ, zero, suc, ◌≡◌, refl, ap, Bool, true, false, List, [], ◌∷◌, ◌++◌, Option, none, some, Outcome,
  returns, waits,
}

module _ {ℓ} {A : Type ℓ} where
  -- back(), with nothing on an empty container
  abbrev pub last? : List A → Option A
  last? [] = none
  last? (x ∷ []) = some x
  last? (x ∷ y ∷ xs) = last? (y ∷ xs)

  -- pop_back()
  abbrev pub all_but_last : List A → List A
  all_but_last [] = []
  all_but_last (x ∷ []) = []
  all_but_last (x ∷ y ∷ xs) = x ∷ all_but_last (y ∷ xs)

  -- erase(begin() + i)
  abbrev pub erase_at : ℕ → List A → List A
  erase_at i [] = []
  erase_at zero (x ∷ xs) = xs
  erase_at (suc i) (x ∷ xs) = x ∷ erase_at i xs

  -- `while (true) { scoped_lock lock(mutex, try_to_lock); if (lock) … return; }`: one entry of the
  -- list for each attempt, `true` where the lock is obtained.
  abbrev pub spin : List Bool → A → Outcome A
  spin [] a = waits
  spin (true ∷ attempts) a = returns a
  spin (false ∷ attempts) a = spin attempts a

module _ {ℓ} {A : Type ℓ} where
  pub last?-snoc : (xs : List A) (a : A) → last? (xs ++ a ∷ []) ≡ some a
  last?-snoc [] a = refl
  last?-snoc (x ∷ []) a = refl
  last?-snoc (x ∷ y ∷ xs) a = last?-snoc (y ∷ xs) a

  pub all_but_last-snoc : (xs : List A) (a : A) → all_but_last (xs ++ a ∷ []) ≡ xs
  all_but_last-snoc [] a = refl
  all_but_last-snoc (x ∷ []) a = refl
  all_but_last-snoc (x ∷ y ∷ xs) a = ap (◌∷◌ x) (all_but_last-snoc (y ∷ xs) a)
