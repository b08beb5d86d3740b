-- ===== src/Printing/Phases.antt =====
-- PicoDB/MutilThreadedServerClient.cpp: the states that the two printing threads come to.
use pico_db.Prelude.{
  ℕ, zero, suc, ◌+◌, ◌-◌, ◌≤◌, ◌≡◌, refl, Bool, true, false, List, [], ◌∷◌, ◌++◌, Text, ltb, arith,
  append-nil, append_assoc, if◌then◌else◌, ap, sym,
}
use pico_db.Printing.{
  Who, producer, consumer, Place, starting, printing, finished, Threads, place_of, insertion,
  take_turn, thread_example,
}

-- Nobody has begun; the first one prints, or has ended; the second one prints, or has ended.
pub data Phase : Type 0 where
  untouched : Phase
  first_prints : Who → ℕ → Phase
  first_ended : Who → Phase
  second_prints : Who → ℕ → Phase
  both_ended : Who → Phase

-- The thread that is not `who`.
abbrev pub other : Who → Who
other producer = consumer
other consumer = producer

-- The threads when `who` stands at one place and the other one at another.
abbrev pub placed : Who → Place → Place → Bool → List Text → Threads
placed producer p q held out = record {
  producer_place = p;
  consumer_place = q;
  my_mutex = held;
  cout = out;
}
placed consumer p q held out = record {
  producer_place = q;
  consumer_place = p;
  my_mutex = held;
  cout = out;
}

module _ (insertions : ℕ) (thread_id : Who → Text) where
  -- What `who` has put out after so many insertions.
  unfoldable pub printed : Who → ℕ → List Text
  printed who zero = []
  printed who (suc i) = printed who i ++ (insertion thread_id who i ∷ [])

  -- The state of a phase; the argument of a phase is the thread that was first.
  unfoldable pub state_of : Phase → Threads
  state_of untouched = thread_example
  state_of (first_prints who i) = placed who (printing i) starting true (printed who i)
  state_of (first_ended who) = placed who finished starting false (printed who insertions)
  state_of (second_prints who i) =
      placed who finished (printing i) true (printed who insertions ++ printed (other who) i)
  state_of (both_ended who) =
      placed who finished finished false (printed who insertions ++ printed (other who) insertions)

  -- The phase after the turn of a thread.
  unfoldable pub next_phase : Who → Phase → Phase
  next_phase turn untouched = first_prints turn 0
  next_phase producer (first_prints producer i) =
      if ltb i insertions then first_prints producer (suc i) else first_ended producer
  next_phase consumer (first_prints consumer i) =
      if ltb i insertions then first_prints consumer (suc i) else first_ended consumer
  next_phase producer (first_prints consumer i) = first_prints consumer i
  next_phase consumer (first_prints producer i) = first_prints producer i
  next_phase producer (first_ended consumer) = second_prints consumer 0
  next_phase consumer (first_ended producer) = second_prints producer 0
  next_phase producer (first_ended producer) = first_ended producer
  next_phase consumer (first_ended consumer) = first_ended consumer
  next_phase producer (second_prints consumer i) =
      if ltb i insertions then second_prints consumer (suc i) else both_ended consumer
  next_phase consumer (second_prints producer i) =
      if ltb i insertions then second_prints producer (suc i) else both_ended producer
  next_phase producer (second_prints producer i) = second_prints producer i
  next_phase consumer (second_prints consumer i) = second_prints consumer i
  next_phase turn (both_ended who) = both_ended who

  -- The insertions of a phase are no more than there are.
  abbrev pub IsInside : Phase → Type 0
  IsInside (first_prints who i) = i ≤ insertions
  IsInside (second_prints who i) = i ≤ insertions
  IsInside _ = Unit

  abbrev pub turn_of : Who → Threads → Threads
  turn_of who s = take_turn insertions thread_id who (place_of who s) s

  pub turn-next_phase :
      (who : Who) (p : Phase) → IsInside p → turn_of who (state_of p) ≡ state_of (next_phase who p)
  unfolding take_turn state_of next_phase printed
  turn-next_phase producer untouched h = refl
  turn-next_phase consumer untouched h = refl
  turn-next_phase producer (first_prints producer i) h = ground (arith, h)
  turn-next_phase consumer (first_prints consumer i) h = ground (arith, h)
  turn-next_phase producer (first_prints consumer i) h = refl
  turn-next_phase consumer (first_prints producer i) h = refl
  turn-next_phase producer (first_ended consumer) h =
      ap (λ (out : List Text). placed consumer finished (printing 0) true out)
        (sym (append-nil (printed consumer insertions)))
  turn-next_phase consumer (first_ended producer) h =
      ap (λ (out : List Text). placed producer finished (printing 0) true out)
        (sym (append-nil (printed producer insertions)))
  turn-next_phase producer (first_ended producer) h = refl
  turn-next_phase consumer (first_ended consumer) h = refl
  turn-next_phase producer (second_prints consumer i) h =
      let e : other consumer ≡ producer = refl in
      ground (
        arith,
        h,
        e,
        append_assoc (printed consumer insertions) (printed producer i)
            (insertion thread_id producer i ∷ []),
      )
  turn-next_phase consumer (second_prints producer i) h =
      let e : other producer ≡ consumer = refl in
      ground (
        arith,
        h,
        e,
        append_assoc (printed producer insertions) (printed consumer i)
            (insertion thread_id consumer i ∷ []),
      )
  turn-next_phase producer (second_prints producer i) h = refl
  turn-next_phase consumer (second_prints consumer i) h = refl
  turn-next_phase producer (both_ended producer) h = refl
  turn-next_phase producer (both_ended consumer) h = refl
  turn-next_phase consumer (both_ended producer) h = refl
  turn-next_phase consumer (both_ended consumer) h = refl

  -- How many turns are still to be had, of the one thread or the other.
  abbrev pub turns_left : Phase → ℕ
  turns_left untouched = insertions + insertions + 4
  turns_left (first_prints who i) = (insertions - i) + insertions + 3
  turns_left (first_ended who) = insertions + 2
  turns_left (second_prints who i) = (insertions - i) + 1
  turns_left (both_ended who) = 0

  pub next_phase-IsInside : (who : Who) (p : Phase) → IsInside p → IsInside (next_phase who p)
  unfolding next_phase
  next_phase-IsInside producer untouched h = ground (arith, h)
  next_phase-IsInside producer (first_prints producer i) h = ground (arith, h)
  next_phase-IsInside producer (first_prints consumer i) h = ground (arith, h)
  next_phase-IsInside producer (first_ended producer) h = ground (arith, h)
  next_phase-IsInside producer (first_ended consumer) h = ground (arith, h)
  next_phase-IsInside producer (second_prints producer i) h = ground (arith, h)
  next_phase-IsInside producer (second_prints consumer i) h = ground (arith, h)
  next_phase-IsInside producer (both_ended producer) h = ground (arith, h)
  next_phase-IsInside producer (both_ended consumer) h = ground (arith, h)
  next_phase-IsInside consumer untouched h = ground (arith, h)
  next_phase-IsInside consumer (first_prints producer i) h = ground (arith, h)
  next_phase-IsInside consumer (first_prints consumer i) h = ground (arith, h)
  next_phase-IsInside consumer (first_ended producer) h = ground (arith, h)
  next_phase-IsInside consumer (first_ended consumer) h = ground (arith, h)
  next_phase-IsInside consumer (second_prints producer i) h = ground (arith, h)
  next_phase-IsInside consumer (second_prints consumer i) h = ground (arith, h)
  next_phase-IsInside consumer (both_ended producer) h = ground (arith, h)
  next_phase-IsInside consumer (both_ended consumer) h = ground (arith, h)

  -- A round in which each has its turn brings them on.
  pub next_phase-turns_left :
      (p : Phase)
      → IsInside p
      → turns_left (next_phase consumer (next_phase producer p)) ≤ turns_left p - 1
  unfolding next_phase
  next_phase-turns_left untouched h = ground (arith, h)
  next_phase-turns_left (first_prints producer i) h = ground (arith, h)
  next_phase-turns_left (first_prints consumer i) h = ground (arith, h)
  next_phase-turns_left (first_ended producer) h = ground (arith, h)
  next_phase-turns_left (first_ended consumer) h = ground (arith, h)
  next_phase-turns_left (second_prints producer i) h = ground (arith, h)
  next_phase-turns_left (second_prints consumer i) h = ground (arith, h)
  next_phase-turns_left (both_ended producer) h = ground (arith, h)
  next_phase-turns_left (both_ended consumer) h = ground (arith, h)
