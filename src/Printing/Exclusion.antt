-- ===== src/Printing/Exclusion.antt =====
-- PicoDB/MutilThreadedServerClient.cpp: the two printing threads end, and their lines do not mix.
use pico_db.Prelude.{
  ℕ, zero, suc, ◌+◌, ◌-◌, ◌≤◌, ◌≡◌, refl, List, [], ◌∷◌, ◌++◌, Text, arith, ap, ◌∙◌,
}
use pico_db.Printing.{
  Who, producer, consumer, finished, Threads, place_of, take_turn, run, thread_example,
}
use pico_db.Printing.Phases.{
  Phase, untouched, first_prints, first_ended, second_prints, both_ended, other, printed, state_of,
  next_phase, IsInside, turns_left, turn-next_phase, next_phase-IsInside, next_phase-turns_left,
}

-- So many rounds in which each thread has its turn.
unfoldable pub rounds : ℕ → List Who
rounds zero = []
rounds (suc n) = producer ∷ (consumer ∷ rounds n)

run-append :
    (insertions : ℕ) (thread_id : Who → Text) (xs ys : List Who) (s : Threads)
    → run insertions thread_id (xs ++ ys) s
      ≡ run insertions thread_id ys (run insertions thread_id xs s)
unfolding run
run-append insertions thread_id [] ys s = refl
run-append insertions thread_id (x ∷ xs) ys s =
    run-append insertions thread_id xs ys (take_turn insertions thread_id x (place_of x s) s)

module _ (insertions : ℕ) (thread_id : Who → Text) where
  phases : List Who → Phase → Phase
  phases [] p = p
  phases (who ∷ rest) p = phases rest (next_phase insertions thread_id who p)

  run-phases :
      (ws : List Who) (p : Phase)
      → IsInside insertions thread_id p
      → (run insertions thread_id ws (state_of insertions thread_id p)
          ≡ state_of insertions thread_id (phases ws p))
        × IsInside insertions thread_id (phases ws p)
  unfolding run phases
  run-phases [] p h = (refl, h)
  run-phases (who ∷ rest) p h =
      let (runs, inside) =
        run-phases rest (next_phase insertions thread_id who p)
          (next_phase-IsInside insertions thread_id who p h) in
      (
        ap (run insertions thread_id rest) (turn-next_phase insertions thread_id who p h) ∙ runs,
        inside,
      )

  turns_left-rounds :
      (n : ℕ) (p : Phase)
      → IsInside insertions thread_id p
      → turns_left insertions thread_id (phases (rounds n) p)
        ≤ turns_left insertions thread_id p - n
  unfolding phases rounds
  turns_left-rounds zero p h = omega arith
  turns_left-rounds (suc n) p h =
      let p' = next_phase insertions thread_id producer p in
      let p'' = next_phase insertions thread_id consumer p' in
      let h' = next_phase-IsInside insertions thread_id producer p h in
      let h'' = next_phase-IsInside insertions thread_id consumer p' h' in
      omega (arith, turns_left-rounds n p'' h'', next_phase-turns_left insertions thread_id p h)

  turns_left-most : (p : Phase) → turns_left insertions thread_id p ≤ insertions + insertions + 4
  turns_left-most untouched = omega arith
  turns_left-most (first_prints who i) = omega arith
  turns_left-most (first_ended who) = omega arith
  turns_left-most (second_prints who i) = omega arith
  turns_left-most (both_ended who) = omega arith

  ended : (p : Phase) → turns_left insertions thread_id p ≤ 0 → (who : Who) × (p ≡ both_ended who)
  ended untouched h = absurd (omega (arith, h))
  ended (first_prints who i) h = absurd (omega (arith, h))
  ended (first_ended who) h = absurd (omega (arith, h))
  ended (second_prints who i) h = absurd (omega (arith, h))
  ended (both_ended who) h = (who, refl)

  both_ended-fields :
      (who : Who)
      → let last = state_of insertions thread_id (both_ended who) in
        (last.producer_place ≡ finished)
        × (last.consumer_place ≡ finished)
        × (last.cout
            ≡ printed insertions thread_id who insertions
              ++ printed insertions thread_id (other who) insertions)
  unfolding state_of
  both_ended-fields producer = (refl, refl, refl)
  both_ended-fields consumer = (refl, refl, refl)

  untouched-example :
      (ws : List Who)
      → run insertions thread_id ws thread_example
        ≡ run insertions thread_id ws (state_of insertions thread_id untouched)
  unfolding state_of
  untouched-example ws = refl

  -- Whatever turns the two threads had, if then each has its turn twice as often as there are
  -- insertions, and four times more, both have ended, and one of them has printed all its lines before
  -- the other one printed any.
  pub run-rounds :
      (ws : List Who)
      → let last =
          run insertions thread_id (ws ++ rounds (insertions + insertions + 4)) thread_example in
        (who : Who) × (last.producer_place ≡ finished)
        × (last.consumer_place ≡ finished)
        × (last.cout
            ≡ printed insertions thread_id who insertions
              ++ printed insertions thread_id (other who) insertions)
  run-rounds ws =
      let n = insertions + insertions + 4 in
      let p = phases ws untouched in
      let (before, inside) = run-phases ws untouched tt in
      let (after, _) = run-phases (rounds n) p inside in
      let (who, e) =
        ended (phases (rounds n) p)
          (omega (arith, turns_left-rounds n p inside, turns_left-most p)) in
      let whole : run insertions thread_id (ws ++ rounds n) thread_example
          ≡ state_of insertions thread_id (both_ended who) =
        run-append insertions thread_id ws (rounds n) thread_example
        ∙ ap (λ s. run insertions thread_id (rounds n) s) (untouched-example ws ∙ before)
        ∙ after
        ∙ ap (state_of insertions thread_id) e in
      let (first, second, out) = both_ended-fields who in
      (
        who,
        ap (λ s. s.producer_place) whole ∙ first,
        ap (λ s. s.consumer_place) whole ∙ second,
        ap (λ s. s.cout) whole ∙ out,
      )
