-- ===== src/Queue/Vector/Remove.antt =====
-- `remove`, `pop(int)` and `clear` of PicoDB/pico/ConcurrentVector.h.
use pico_db.Prelude.{
  ℕ, zero, suc, ◌≤◌, ◌≡◌, refl, ap, ◌∙◌, Bool, true, false, not, List, [], ◌∷◌, ◌++◌, Option, none,
  some, returns, ℤ, Text, is_empty, arith, length, get_elem?, take, drop, keep, if◌then◌else◌,
  Bool-cases, inl, inr, append-nil, All,
}
use pico_db.Queue.Ends.{erase_at, all_but_last}
use pico_db.Queue.Vector.{
  remove, remove_loop, clear, clear_loop, pop_at, pop_at_locked, taken, steps,
}

module _ {ℓ} {A : Type ℓ} where
  -- What the loop of `remove` computes: after an element that it erases it steps over one more.
  abbrev pub remove_skipping : (A → Bool) → List A → List A
  remove_skipping same [] = []
  remove_skipping same (x ∷ []) = if same x then [] else x ∷ []
  remove_skipping same (x ∷ y ∷ xs) =
      if same x then y ∷ remove_skipping same xs else x ∷ remove_skipping same (y ∷ xs)

  -- No two neighbours match.
  abbrev pub Sparse : (A → Bool) → List A → Type 0
  Sparse same [] = Unit
  Sparse same (x ∷ []) = Unit
  Sparse same (x ∷ y ∷ xs) = (same x ≡ true → same y ≡ false) × Sparse same (y ∷ xs)

module _ {ℓ} {A : Type ℓ} where
  get_elem?-length :
      (pre : List A) (x : A) (xs : List A) → get_elem? (pre ++ x ∷ xs) (length pre) ≡ some x
  get_elem?-length [] x xs = refl
  get_elem?-length (p ∷ pre) x xs = get_elem?-length pre x xs

  get_elem?-ge : (xs : List A) (i : ℕ) → length xs ≤ i → get_elem? xs i ≡ none
  get_elem?-ge [] i h = refl
  get_elem?-ge (x ∷ xs) zero h = elim h [ ]
  get_elem?-ge (x ∷ xs) (suc i) h = get_elem?-ge xs i (omega arith)

  erase_at-length :
      (pre : List A) (x : A) (xs : List A) → erase_at (length pre) (pre ++ x ∷ xs) ≡ pre ++ xs
  erase_at-length [] x xs = refl
  erase_at-length (p ∷ pre) x xs = ap (◌∷◌ p) (erase_at-length pre x xs)

  length-snoc : (pre : List A) (x : A) → length (pre ++ x ∷ []) ≡ suc (length pre)
  length-snoc [] x = refl
  length-snoc (p ∷ pre) x = ap suc (length-snoc pre x)

  snoc-append : (pre : List A) (y : A) (xs : List A) → (pre ++ y ∷ []) ++ xs ≡ pre ++ y ∷ xs
  snoc-append [] y xs = refl
  snoc-append (p ∷ pre) y xs = ap (◌∷◌ p) (snoc-append pre y xs)

  length-all_but_last :
      (x : A) (xs : List A) → suc (length (all_but_last (x ∷ xs))) ≡ length (x ∷ xs)
  length-all_but_last x [] = refl
  length-all_but_last x (y ∷ xs) = ap suc (length-all_but_last y xs)

  module _ (same : A → Bool) where
    remove_loop-end : (fuel i : ℕ) (v : List A) → length v ≤ i → remove_loop fuel same i v ≡ v
    unfolding remove_loop
    remove_loop-end zero i v h = refl
    remove_loop-end (suc fuel) i v h = rw (get_elem?-ge v i h, remove_loop)

    remove_loop-suc :
        (fuel : ℕ) (pre : List A) (x : A) (xs : List A)
        → remove_loop (suc fuel) same (length pre) (pre ++ x ∷ xs)
          ≡ remove_loop fuel same (suc (length pre)) (if same x then pre ++ xs else pre ++ x ∷ xs)
    unfolding remove_loop
    remove_loop-suc fuel pre x xs =
        rw (get_elem?-length pre x xs, remove_loop) (rw (erase_at-length pre x xs))

    shift :
        (fuel : ℕ) (pre : List A) (y : A) (xs r : List A)
        → remove_loop fuel same (length (pre ++ y ∷ [])) ((pre ++ y ∷ []) ++ xs)
          ≡ (pre ++ y ∷ []) ++ r
        → remove_loop fuel same (suc (length pre)) (pre ++ y ∷ xs) ≡ pre ++ y ∷ r
    shift fuel pre y xs r h = rw (length-snoc pre y, snoc-append pre y xs, snoc-append pre y r) at h

    remove_loop_lem :
        (fuel : ℕ) (pre xs : List A)
        → length xs ≤ fuel
        → remove_loop fuel same (length pre) (pre ++ xs) ≡ pre ++ remove_skipping same xs
    remove_loop_lem fuel pre [] h =
        rw append-nil (remove_loop-end fuel (length pre) pre (omega arith))
    remove_loop_lem zero pre (x ∷ xs) h = elim h [ ]
    remove_loop_lem (suc fuel) pre (x ∷ []) h = elim (Bool-cases (same x)) [
      | inl hit ↦
          rw (remove_loop-suc fuel pre x [], hit, append-nil)
            (remove_loop-end fuel (suc (length pre)) pre (omega arith))
      | inr miss ↦
          rw (remove_loop-suc fuel pre x [], miss)
            (remove_loop-end fuel (suc (length pre)) (pre ++ x ∷ [])
              (omega (arith, length-snoc pre x)))
    ]
    remove_loop_lem (suc fuel) pre (x ∷ y ∷ xs) h = elim (Bool-cases (same x)) [
      | inl hit ↦
          rw (remove_loop-suc fuel pre x (y ∷ xs), hit)
            (shift fuel pre y xs (remove_skipping same xs)
              (remove_loop_lem fuel (pre ++ y ∷ []) xs (omega arith)))
      | inr miss ↦
          rw (remove_loop-suc fuel pre x (y ∷ xs), miss)
            (shift fuel pre x (y ∷ xs) (remove_skipping same (y ∷ xs))
              (remove_loop_lem fuel (pre ++ x ∷ []) (y ∷ xs) (omega arith)))
    ]

    remove-remove_skipping : (v : List A) → remove same v ≡ remove_skipping same v
    unfolding remove
    remove-remove_skipping v = remove_loop_lem (length v) [] v (omega arith)

    remove_skipping-keep :
        (v : List A) → Sparse same v → remove_skipping same v ≡ keep (λ a. not (same a)) v
    remove_skipping-keep [] h = refl
    remove_skipping-keep (x ∷ []) h = ground arith
    remove_skipping-keep (x ∷ y ∷ []) h = ground arith
    remove_skipping-keep (x ∷ y ∷ z ∷ xs) h =
        ground (arith, remove_skipping-keep (y ∷ z ∷ xs) h.1, remove_skipping-keep (z ∷ xs) h.1.1)

    -- If no two neighbours match, `remove` erases exactly the elements that match, and keeps the
    -- order of the others.
    pub remove-keep : (v : List A) → Sparse same v → remove same v ≡ keep (λ a. not (same a)) v
    remove-keep v h = remove-remove_skipping v ∙ remove_skipping-keep v h

    remove_skipping-append :
        (pre xs : List A)
        → All (λ a. same a ≡ false) pre
        → remove_skipping same (pre ++ xs) ≡ pre ++ remove_skipping same xs
    remove_skipping-append [] xs h = refl
    remove_skipping-append (p ∷ []) [] h = ground arith
    remove_skipping-append (p ∷ []) (x ∷ xs) h = ground arith
    remove_skipping-append (p ∷ q ∷ pre) xs h =
        rw (h.0) (ap (◌∷◌ p) (remove_skipping-append (q ∷ pre) xs h.1))

    -- The first element that matches is erased, but the element behind it stays whether it matches
    -- or not: `remove` steps over it.
    pub remove-second :
        (pre : List A) (x y : A) (post : List A)
        → All (λ a. same a ≡ false) pre
        → same x ≡ true
        → remove same (pre ++ x ∷ y ∷ post) ≡ pre ++ y ∷ remove same post
    remove-second pre x y post h hit =
        rw (remove-remove_skipping (pre ++ x ∷ y ∷ post), remove-remove_skipping post)
          (remove_skipping-append pre (x ∷ y ∷ post) h ∙ rw hit)

  clear_loop-nil : (fuel : ℕ) (v : List A) → length v ≤ fuel → clear_loop fuel v ≡ []
  unfolding clear_loop
  clear_loop-nil zero [] h = refl
  clear_loop-nil zero (x ∷ xs) h = elim h [ ]
  clear_loop-nil (suc fuel) [] h = refl
  clear_loop-nil (suc fuel) (x ∷ xs) h =
      clear_loop-nil fuel (all_but_last (x ∷ xs)) (omega (arith, length-all_but_last x xs))

  -- The loop of `clear` ends with an empty vector.
  pub clear-nil : (v : List A) → clear v ≡ []
  unfolding clear
  clear-nil v = clear_loop-nil (length v) v (omega arith)

  taken_lem :
      (show : A → Text) (i : ℕ) (v : List A) (o : Option A) (a : A) (w : List A)
      → taken show i v o ≡ returns (some a, w)
      → (o ≡ some a) × (w ≡ erase_at i v) × (is_empty (show a) ≡ false)
  unfolding taken
  taken_lem show i v none a w h = cc
  taken_lem show i v (some b) a w h = ground arith

  split_at :
      (i : ℕ) (v : List A) (a : A)
      → get_elem? v i ≡ some a
      → v ≡ take i (erase_at i v) ++ a ∷ drop i (erase_at i v)
  split_at i [] a h = cc
  split_at zero (x ∷ xs) a h = ground arith
  split_at (suc i) (x ∷ xs) a h = ap (◌∷◌ x) (split_at i xs a h)

  pop_at_locked_lem :
      (show : A → Text) (n : ℤ) (v : List A) (a : A) (w : List A)
      → pop_at_locked show n v ≡ returns (some a, w)
      → (v ≡ take (steps n) w ++ a ∷ drop (steps n) w) × (is_empty (show a) ≡ false)
  unfolding pop_at_locked
  pop_at_locked_lem show n [] a w h = cc
  pop_at_locked_lem show n (x ∷ xs) a w h =
      let (found, rest, shown) =
        taken_lem show (steps n) (x ∷ xs) (get_elem? (x ∷ xs) (steps n)) a w h in
      (rw rest (split_at (steps n) (x ∷ xs) a found), shown)

  -- An indexed pop that returns an element took it from the vector at that index (at 0 for a
  -- negative number), left the rest in order, and returned an element whose text is not empty.
  pub pop_at-split :
      (show : A → Text) (attempts : List Bool) (n : ℤ) (v : List A) (a : A) (w : List A)
      → pop_at show attempts n v ≡ returns (some a, w)
      → (v ≡ take (steps n) w ++ a ∷ drop (steps n) w) × (is_empty (show a) ≡ false)
  unfolding pop_at
  pop_at-split show [] n v a w h = cc
  pop_at-split show (true ∷ attempts) n v a w h = pop_at_locked_lem show n v a w h
  pop_at-split show (false ∷ attempts) n v a w h = pop_at-split show attempts n v a w h
