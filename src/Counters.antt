-- ===== src/Counters.antt =====
-- PicoDB/pico/AtomicCounter.h and PicoDB/pico/OffsetManager.h.
use pico_db.Prelude.{
  ℕ, zero, suc, ◌+◌, ◌-◌, ◌%◌, ◌<◌, ◌≡◌, refl, Bool, true, false, Outcome, returns, aborts, ◌>>=◌,
  ◌>>◌, assert, ℤ, pos, negsuc, arith, if◌then◌else◌,
}

abbrev pub long_mod : ℕ
long_mod = 18446744073709551616

-- The value of a counter is a long of 64 bits, which wraps around; a negative one stands for its
-- residue.
pub record AtomicCounter : Type 0 where
  pub count : ℕ

new_counter : AtomicCounter
new_counter = record { count = 0 }

unfoldable pub increment : AtomicCounter → AtomicCounter
increment c = record { count = (c.count + 1) % long_mod }

decrement : AtomicCounter → AtomicCounter
decrement c = record { count = (c.count + (long_mod - 1)) % long_mod }

pub get : AtomicCounter → ℕ
get c = c.count

pub set : ℕ → AtomicCounter → AtomicCounter
set val c = record { count = val % long_mod }

-- `offset` is one for all managers, and -1 until it is set. `getInitialOffset` is declared and not
-- defined: what it returns is an argument.
pub record OffsetManager : Type 0 where
  pub offset : ℤ

-- MutilThreadedServerClient.cpp
abbrev pub initial_manager : OffsetManager
initial_manager = record { offset = negsuc 0 }

abbrev pub is_minus_one : ℤ → Bool
is_minus_one (pos n) = false
is_minus_one (negsuc zero) = true
is_minus_one (negsuc (suc n)) = false

abbrev pub is_natural : ℤ → Bool
is_natural (pos n) = true
is_natural (negsuc n) = false

-- The initial offset is not stored.
unfoldable pub get_end_of_file_offset : Outcome ℤ → OffsetManager → Outcome ℤ
get_end_of_file_offset get_initial_offset m = do
  x ← (if is_minus_one m.offset then get_initial_offset else returns m.offset)
  assert (is_natural x)
  returns x

unfoldable pub set_end_of_file_offset : ℤ → OffsetManager → Outcome OffsetManager
set_end_of_file_offset x m = do assert (is_natural x); returns (record m { offset = x })

-- What a manager was set to is what it gives from then on, without asking for the initial offset; a
-- negative offset is refused by an assertion, so that -1 is never stored.
pub set_end_of_file_offset-get :
    (x : ℤ) (m : OffsetManager) (initial : Outcome ℤ)
    → (set_end_of_file_offset x m >>= get_end_of_file_offset initial)
      ≡ (if is_natural x then returns x else aborts)
unfolding set_end_of_file_offset get_end_of_file_offset
set_end_of_file_offset-get (pos n) m initial = refl
set_end_of_file_offset-get (negsuc n) m initial = refl

-- Counting up and counting down undo each other, also where the counter wraps around.
increment-decrement :
    (c : AtomicCounter)
    → c.count < long_mod
    → (get (increment (decrement c)) ≡ get c) × (get (decrement (increment c)) ≡ get c)
unfolding increment decrement get
increment-decrement c h = (omega arith, omega arith)
