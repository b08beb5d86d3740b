-- ===== src/Printing.antt =====
-- PicoDB/MutilThreadedServerClient.cpp, runProducerThread and runConsumerThread, and PicoDB/Examples.h,
-- threadExample: two threads that print under one mutex.
pub mod Phases
pub mod Exclusion
use pico_db.Prelude.{
  ℕ, zero, suc, ◌+◌, ◌%◌, Bool, true, false, List, [], ◌∷◌, ◌++◌, Text, codes, ltb, ◌==◌,
  if◌then◌else◌,
}

pub data Who : Type 0 where
  producer consumer : Who

-- Where a thread stands: before `lock`, behind so many insertions into `cout`, or behind `unlock`.
pub data Place : Type 0 where
  starting finished : Place
  printing : ℕ → Place

pub record Threads : Type 0 where
  pub producer_place : Place
  pub consumer_place : Place
  pub my_mutex : Bool
  pub cout : List Text

abbrev pub place_of : Who → Threads → Place
place_of producer s = s.producer_place
place_of consumer s = s.consumer_place

abbrev pub at_place : Who → Place → Threads → Threads
at_place producer p s = record s { producer_place = p }
at_place consumer p s = record s { consumer_place = p }

-- The loop has a hundred rounds, each with three insertions.
abbrev pub three_hundred : ℕ
three_hundred = 300

abbrev greeting : Who → Text
greeting producer = codes " producer thread started , thread id is : "
greeting consumer = codes " consumer thread started , thread id is : "

module _ (thread_id : Who → Text) where
  -- What the insertion of this number puts out.
  unfoldable pub insertion : Who → ℕ → Text
  insertion who i =
      if i % 3 == 0 then greeting who else if i % 3 == 1 then thread_id who else codes "\n"

-- The number of the insertions, and what a thread prints as its id.
module _ (insertions : ℕ) (thread_id : Who → Text) where
  -- What a thread does when it is its turn; at `lock`, it waits while the mutex is held.
  unfoldable pub take_turn : Who → Place → Threads → Threads
  unfolding insertion
  take_turn who starting s =
      if s.my_mutex then s else at_place who (printing 0) (record s { my_mutex = true })
  take_turn who (printing i) s =
      if ltb i insertions
      then at_place who (printing (i + 1))
          (record s { cout = s.cout ++ (insertion thread_id who i ∷ []) })
      else at_place who finished (record s { my_mutex = false })
  take_turn who finished s = s

  -- The threads in the order in which it is their turn.
  unfoldable pub run : List Who → Threads → Threads
  unfolding take_turn
  run [] s = s
  run (who ∷ rest) s = run rest (take_turn who (place_of who s) s)

-- threadExample, before the threads go on; it joins both.
abbrev pub thread_example : Threads
thread_example = record {
  producer_place = starting;
  consumer_place = starting;
  my_mutex = false;
  cout = [];
}
