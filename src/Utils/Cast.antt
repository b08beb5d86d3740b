-- ===== src/Utils/Cast.antt =====
-- boost::lexical_cast between texts and numbers, which `convertToString`, `toStr` and
-- `convertToSomething` of PicoDB/pico/pico_utils.h call: a parameter with its documented behaviour.
use Prim.Native.Nat.{◌^◌}
use native.Mathlib.Nat.{pow-suc}
use pico_db.Prelude.{
  ℕ, suc, ◌+◌, ◌-◌, ◌*◌, ◌≤◌, ◌<◌, ◌≡◌, refl, ◌≢◌, [], ◌∷◌, Text, All, length, Option, some, ℤ, pos,
  arith, keep, not, ◌==◌, NoNul, ==-ne, ap,
}

abbrev pub IsDigit : ℕ → Type 0
IsDigit c = (48 ≤ c) × (c ≤ 57)

abbrev pub value_from : ℕ → Text → ℕ
value_from acc [] = acc
value_from acc (c ∷ cs) = value_from (acc * 10 + (c - 48)) cs

-- The number that decimal digits stand for.
abbrev pub decimal_value : Text → ℕ
decimal_value t = value_from 0 t

abbrev pub max_long : ℕ
max_long = 9223372036854775807

pub record LexicalCast : Type 0 where
  -- lexical_cast<string>(n)
  pub to_text : ℕ → Text
  -- lexical_cast<long>(t); `none` is bad_lexical_cast
  pub to_long : Text → Option ℤ
  pub to_text_digits : (n : ℕ) → All IsDigit (to_text n)
  pub to_text_ne_nil : (n : ℕ) → to_text n ≢ []
  pub to_text_value : (n : ℕ) → decimal_value (to_text n) ≡ n
  -- no leading zeros
  pub to_text_length : (n k : ℕ) → n < 10 ^ suc k → length (to_text n) ≤ suc k
  pub to_long_digits :
      (t : Text)
      → All IsDigit t
      → t ≢ []
      → decimal_value t ≤ max_long
      → to_long t ≡ some (pos (decimal_value t))

pub digits-NoNul : (t : Text) → All IsDigit t → NoNul t
digits-NoNul [] h = tt
digits-NoNul (c ∷ t) h = ((λ e. omega arith), digits-NoNul t h.1)

-- Digits pass the filter that drops '#'.
pub keep-digits : (t : Text) → All IsDigit t → keep (λ c. not (c == 35)) t ≡ t
keep-digits [] h = refl
keep-digits (c ∷ t) h = rw (==-ne c 35 (λ e. omega arith)) (ap (◌∷◌ c) (keep-digits t h.1))

room : (a d p v : ℕ) → d ≤ 9 → v < (a * 10 + d + 1) * p → v < (a + 1) * (p * 10)
room a d p v h k = grind arith

value_from-lt : (acc : ℕ) (t : Text) → All IsDigit t → value_from acc t < (acc + 1) * 10 ^ length t
value_from-lt acc [] h = omega arith
value_from-lt acc (c ∷ t) h =
    rw (pow-suc 10 (length t)) (
      room acc (c - 48) (10 ^ length t) _ (omega arith) (value_from-lt (acc * 10 + (c - 48)) t h.1))

pub decimal_value-lt : (t : Text) → All IsDigit t → decimal_value t < 10 ^ length t
decimal_value-lt t h = omega (arith, value_from-lt 0 t h)
