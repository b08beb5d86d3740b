-- ===== src/Prelude/Int.antt =====
-- Signed numbers, as far as the program needs them: a `long` that a text stands for.
use Prim.Native.Nat.{ℕ, zero, suc, ◌-◌, ◌%◌, ◌<◌}
use mathlib.Core.Path.{◌≡◌, refl}
use native.Mathlib.Omega.{arith}
use native.Mathlib.Nat.{mod-eq_of_lt}
use pico_db.Prelude.Tests.{ltb, lt→ltb, if◌then◌else◌}
use mathlib.Core.Bool.{Bool, true, false}

-- `negsuc n` is -(n + 1).
pub data ℤ : Type 0 where
  pos : ℕ → ℤ
  negsuc : ℕ → ℤ

abbrev pub is_positive : ℤ → Bool
is_positive (pos zero) = false
is_positive (pos (suc n)) = true
is_positive (negsuc n) = false

-- The size that a positive number stands for.
abbrev pub magnitude : ℤ → ℕ
magnitude (pos n) = n
magnitude (negsuc n) = suc n

abbrev pub int_mod : ℕ
int_mod = 4294967296

abbrev pub max_int : ℕ
max_int = 2147483647

-- The conversion of a `long` to an `int` of 32 bits.
pub to_int : ℤ → ℤ
to_int (pos n) = let r = n % int_mod in if ltb r 2147483648 then pos r else negsuc (int_mod - 1 - r)
to_int (negsuc n) =
    let r = n % int_mod in if ltb r 2147483648 then negsuc r else pos (int_mod - 1 - r)

pub to_int-small : (n : ℕ) → n < 2147483648 → to_int (pos n) ≡ pos n
unfolding to_int
to_int-small n h =
    let small : n % int_mod ≡ n = mod-eq_of_lt (omega arith) in
    rw small (rw (lt→ltb n 2147483648 h) refl)
