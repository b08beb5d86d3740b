-- ===== src/Queue/Vector/Stack.antt =====
-- Sequences of calls of PicoDB/pico/ConcurrentVector.h, and a stack.
use mathlib.Core.List.{reverse, reverse-cons, reverse-reverse}
use pico_db.Prelude.{
  ℕ, zero, suc, ◌≡◌, refl, Bool, true, false, List, [], ◌∷◌, Option, none, some, Outcome, returns,
  ◌>>=◌,
}
use pico_db.Queue.Ends.{last?, spin, last?-snoc, all_but_last-snoc}
use pico_db.Queue.Vector.{pop_locked, push_back_locked, pop, push_back, peek, append, clear}
use pico_db.Queue.Vector.Remove.{clear-nil}

-- What a caller asks of a queue, with the failed attempts that the call makes to get the lock before
-- it succeeds. For a look at the element that is popped next, the flag says whether its one attempt
-- succeeds.
pub data Call {ℓ} (A : Type ℓ) : Type ℓ where
  pushes : ℕ → A → Call A
  pops : ℕ → Call A
  peeks : Bool → Call A
  appends : A → Call A
  clears : Call A

-- `n` failed attempts, and then the lock.
abbrev pub after_failures : ℕ → List Bool
after_failures zero = true ∷ []
after_failures (suc n) = false ∷ after_failures n

abbrev pub first? {ℓ} : {A : Type ℓ} → List A → Option A
first? [] = none
first? (a ∷ s) = some a

-- What a look returns of the element that is there.
abbrev pub seen {ℓ} : {A : Type ℓ} → Bool → Option A → Option A
seen true a = a
seen false a = none

module _ {ℓ} {A : Type ℓ} where
  -- The specification, top of the stack first: what the pops and the looks return, and what is left.
  abbrev pub run_stack : List (Call A) → List A → List (Option A) × List A
  run_stack [] s = ([], s)
  run_stack (pushes n a ∷ cs) s = run_stack cs (a ∷ s)
  run_stack (pops n ∷ cs) [] = let (out, s') = run_stack cs [] in (none ∷ out, s')
  run_stack (pops n ∷ cs) (a ∷ s) = let (out, s') = run_stack cs s in (some a ∷ out, s')
  run_stack (peeks locked ∷ cs) s =
      let (out, s') = run_stack cs s in (seen locked (first? s) ∷ out, s')
  run_stack (appends a ∷ cs) s = run_stack cs (a ∷ s)
  run_stack (clears ∷ cs) s = run_stack cs []

  -- The same calls on the vector.
  abbrev pub run_vector : List (Call A) → List A → Outcome (List (Option A) × List A)
  run_vector [] v = returns ([], v)
  run_vector (pushes n a ∷ cs) v = push_back (after_failures n) v a >>= run_vector cs
  run_vector (pops n ∷ cs) v = do
    (a, v') ← pop (after_failures n) v
    (out, w) ← run_vector cs v'
    returns (a ∷ out, w)
  run_vector (peeks locked ∷ cs) v = do
    a ← peek (locked ∷ []) v
    (out, w) ← run_vector cs v
    returns (a ∷ out, w)
  run_vector (appends a ∷ cs) v = run_vector cs (append v a)
  run_vector (clears ∷ cs) v = run_vector cs (clear v)

pub spin-after_failures {ℓ} : {A : Type ℓ} (n : ℕ) (a : A) → spin (after_failures n) a ≡ returns a
spin-after_failures zero a = refl
spin-after_failures (suc n) a = spin-after_failures n a

module _ {ℓ} {A : Type ℓ} where
  push_back-top :
      (n : ℕ) (s : List A) (a : A)
      → push_back (after_failures n) (reverse s) a ≡ returns (reverse (a ∷ s))
  unfolding push_back
  push_back-top n s a =
      rw (spin-after_failures n (push_back_locked (reverse s) a), reverse-cons a s)

  pop-top :
      (n : ℕ) (s : List A) (a : A)
      → pop (after_failures n) (reverse (a ∷ s)) ≡ returns (some a, reverse s)
  unfolding pop
  pop-top n s a = rw (
    spin-after_failures n (pop_locked (reverse (a ∷ s))),
    reverse-cons a s,
    last?-snoc (reverse s) a,
    all_but_last-snoc (reverse s) a,
  )

  pop-empty : (n : ℕ) → pop {A = A} (after_failures n) [] ≡ returns (none, [])
  unfolding pop
  pop-empty n = spin-after_failures n (pop_locked [])

  pub last?-reverse : (s : List A) → last? (reverse s) ≡ first? s
  last?-reverse [] = refl
  last?-reverse (a ∷ s) = rw (reverse-cons a s) (last?-snoc (reverse s) a)

  peek-top :
      (locked : Bool) (s : List A)
      → peek (locked ∷ []) (reverse s) ≡ returns (seen locked (first? s))
  unfolding peek
  peek-top true s = rw (last?-reverse s) refl
  peek-top false s = refl

  append-top : (s : List A) (a : A) → append (reverse s) a ≡ reverse (a ∷ s)
  unfolding append
  append-top s a = rw (reverse-cons a s) refl

  run_vector-reverse :
      (cs : List (Call A)) (s : List A)
      → run_vector cs (reverse s) ≡ returns ((run_stack cs s).0, reverse (run_stack cs s).1)
  run_vector-reverse [] s = refl
  run_vector-reverse (pushes n a ∷ cs) s = rw (push_back-top n s a) (run_vector-reverse cs (a ∷ s))
  run_vector-reverse (pops n ∷ cs) [] = rw (pop-empty n, run_vector-reverse cs [])
  run_vector-reverse (pops n ∷ cs) (a ∷ s) = rw (pop-top n s a, run_vector-reverse cs s)
  run_vector-reverse (peeks locked ∷ cs) s = rw (peek-top locked s, run_vector-reverse cs s)
  run_vector-reverse (appends a ∷ cs) s = rw (append-top s a) (run_vector-reverse cs (a ∷ s))
  run_vector-reverse (clears ∷ cs) s = rw (clear-nil (reverse s)) (run_vector-reverse cs [])

  -- For every sequence of calls of `push_back`, `append`, `clear`, `peek` and the `pop` without an
  -- argument on a vector, and however often each push and pop fails to get the lock before it does:
  -- every call returns. The pops and the looks that get the lock return what they would return on a
  -- stack whose top is the back of the vector, and a look that does not get it returns the empty
  -- element; the vector that is left is that stack, too.
  pub run_vector-run_stack :
      (cs : List (Call A)) (v : List A)
      → run_vector cs v
        ≡ returns ((run_stack cs (reverse v)).0, reverse (run_stack cs (reverse v)).1)
  run_vector-run_stack cs v = rw (reverse-reverse v) at (run_vector-reverse cs (reverse v))
