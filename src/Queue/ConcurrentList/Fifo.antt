-- ===== src/Queue/ConcurrentList/Fifo.antt =====
-- Sequences of calls of PicoDB/pico/pico_concurrent_list.h, a queue, and `get`.
use mathlib.Core.List.{reverse, reverse-cons, reverse-append, reverse-reverse}
use pico_db.Prelude.{
  ℕ, zero, suc, ◌+◌, ◌≡◌, refl, List, [], ◌∷◌, ◌++◌, Option, none, some, Outcome, returns, ◌>>=◌,
  arith, get_elem?, Bool, true, false,
}
use pico_db.Queue.Ends.{last?-snoc, all_but_last-snoc}
use pico_db.Queue.Vector.Stack.{
  Call, pushes, pops, peeks, appends, clears, first?, seen, after_failures, spin-after_failures,
  last?-reverse,
}
use pico_db.Queue.ConcurrentList.{
  pop, pop_locked, push, push_locked, get, get_from, peek, append, clear,
}

module _ {ℓ} {A : Type ℓ} where
  -- The specification, oldest element first.
  abbrev pub run_queue : List (Call A) → List A → List (Option A) × List A
  run_queue [] q = ([], q)
  run_queue (pushes n a ∷ cs) q = run_queue cs (q ++ a ∷ [])
  run_queue (pops n ∷ cs) [] = let (out, q') = run_queue cs [] in (none ∷ out, q')
  run_queue (pops n ∷ cs) (a ∷ q) = let (out, q') = run_queue cs q in (some a ∷ out, q')
  run_queue (peeks locked ∷ cs) q =
      let (out, q') = run_queue cs q in (seen locked (first? q) ∷ out, q')
  run_queue (appends a ∷ cs) q = run_queue cs (q ++ a ∷ [])
  run_queue (clears ∷ cs) q = run_queue cs []

  -- The same calls on the list.
  abbrev pub run_list : List (Call A) → List A → Outcome (List (Option A) × List A)
  run_list [] l = returns ([], l)
  run_list (pushes n a ∷ cs) l = push (after_failures n) l a >>= run_list cs
  run_list (pops n ∷ cs) l = do
    (a, l') ← pop (after_failures n) l
    (out, r) ← run_list cs l'
    returns (a ∷ out, r)
  run_list (peeks locked ∷ cs) l = do
    a ← peek (locked ∷ []) l
    (out, r) ← run_list cs l
    returns (a ∷ out, r)
  run_list (appends a ∷ cs) l = run_list cs (append l a)
  run_list (clears ∷ cs) l = run_list cs (clear l)

module _ {ℓ} {A : Type ℓ} where
  push-back :
      (n : ℕ) (q : List A) (a : A)
      → push (after_failures n) (reverse q) a ≡ returns (reverse (q ++ a ∷ []))
  unfolding push
  push-back n q a =
      rw (spin-after_failures n (push_locked (reverse q) a), reverse-append q (a ∷ []))

  pop-front :
      (n : ℕ) (q : List A) (a : A)
      → pop (after_failures n) (reverse (a ∷ q)) ≡ returns (some a, reverse q)
  unfolding pop
  pop-front n q a = rw (
    spin-after_failures n (pop_locked (reverse (a ∷ q))),
    reverse-cons a q,
    last?-snoc (reverse q) a,
    all_but_last-snoc (reverse q) a,
  )

  pop-nil : (n : ℕ) → pop {A = A} (after_failures n) [] ≡ returns (none, [])
  unfolding pop
  pop-nil n = spin-after_failures n (pop_locked [])

  peek-front :
      (locked : Bool) (q : List A)
      → peek (locked ∷ []) (reverse q) ≡ returns (seen locked (first? q))
  unfolding peek
  peek-front true q = rw (last?-reverse q) refl
  peek-front false q = refl

  append-back : (q : List A) (a : A) → append (reverse q) a ≡ reverse (q ++ a ∷ [])
  unfolding append
  append-back q a = rw (reverse-append q (a ∷ [])) refl

  clear-nil : (l : List A) → clear l ≡ []
  unfolding clear
  clear-nil [] = refl
  clear-nil (x ∷ l) = clear-nil l

  run_list-reverse :
      (cs : List (Call A)) (q : List A)
      → run_list cs (reverse q) ≡ returns ((run_queue cs q).0, reverse (run_queue cs q).1)
  run_list-reverse [] q = refl
  run_list-reverse (pushes n a ∷ cs) q = rw (push-back n q a) (run_list-reverse cs (q ++ a ∷ []))
  run_list-reverse (pops n ∷ cs) [] = rw (pop-nil n, run_list-reverse cs [])
  run_list-reverse (pops n ∷ cs) (a ∷ q) = rw (pop-front n q a, run_list-reverse cs q)
  run_list-reverse (peeks locked ∷ cs) q = rw (peek-front locked q, run_list-reverse cs q)
  run_list-reverse (appends a ∷ cs) q = rw (append-back q a) (run_list-reverse cs (q ++ a ∷ []))
  run_list-reverse (clears ∷ cs) q = rw (clear-nil (reverse q)) (run_list-reverse cs [])

  -- For every sequence of calls of `push`, `append`, `clear`, `peek` and the `pop` without an argument
  -- on a list, and however often each push and pop fails to get the lock before it does: every call
  -- returns. The pops return the elements in the order in which they were pushed or appended, after
  -- those that the list held, its back first; a look that gets the lock returns the element that would
  -- be popped next, and one that does not the empty element; what is left is the rest of that queue.
  pub run_list-run_queue :
      (cs : List (Call A)) (l : List A)
      → run_list cs l ≡ returns ((run_queue cs (reverse l)).0, reverse (run_queue cs (reverse l)).1)
  run_list-run_queue cs l = rw (reverse-reverse l) at (run_list-reverse cs (reverse l))

  get_from-get_elem? : (i k : ℕ) (l : List A) → get_from i (i + k) l ≡ get_elem? l k
  unfolding get_from
  get_from-get_elem? i k [] = refl
  get_from-get_elem? i zero (x ∷ xs) = ground arith
  get_from-get_elem? i (suc k) (x ∷ xs) = ground (arith, get_from-get_elem? (suc i) k xs)

  -- The scan of `get` returns the element at its index, and the empty element beyond the end.
  get-get_elem? : (k : ℕ) (l : List A) → get k l ≡ get_elem? l k
  unfolding get
  get-get_elem? k l = let e : 0 + k ≡ k = omega arith in rw e at (get_from-get_elem? 0 k l)
