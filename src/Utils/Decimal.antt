-- ===== src/Utils/Decimal.antt =====
-- A cast that behaves as PicoDB/pico/pico_utils.h relies on: decimal digits, printed and read back.
use Prim.Native.Nat.{◌/◌, ◌%◌, ◌^◌}
use native.Mathlib.Nat.{pow-suc}
use pico_db.Prelude.{
  false, ℕ, zero, suc, ◌+◌, ◌*◌, ◌≤◌, ◌<◌, ◌≡◌, refl, ◌≢◌, [], ◌∷◌, Text, All, length, Option, none,
  some, ℤ, pos, arith, Bool, true, ◌&&◌, ltb, leb, if◌then◌else◌, Bool-cases, inl, inr, is_empty,
  not, le→leb, ap,
}
use pico_db.Utils.Cast.{LexicalCast, IsDigit, value_from, decimal_value, max_long}

-- The digits of `n` in front of `acc`; `n` rounds are enough.
digits_from : ℕ → ℕ → Text → Text
digits_from zero n acc = (48 + n % 10) ∷ acc
digits_from (suc f) n acc =
    let rest = digits_from f (n / 10) ((48 + n % 10) ∷ acc) in
    if ltb n 10 then (48 + n % 10) ∷ acc else rest

pub print : ℕ → Text
unfolding digits_from
print n = digits_from n n []

abbrev pub all_digits : Text → Bool
all_digits [] = true
all_digits (c ∷ cs) = leb 48 c && (leb c 57 && all_digits cs)

pub read : Text → Option ℤ
read t =
    if not (is_empty t) && (all_digits t && leb (decimal_value t) max_long)
    then some (pos (decimal_value t))
    else none

digits_from-digits : (f n : ℕ) (acc : Text) → All IsDigit acc → All IsDigit (digits_from f n acc)
unfolding digits_from
digits_from-digits zero n acc h = (omega arith, h)
digits_from-digits (suc f) n acc h =
    ground (arith, digits_from-digits f (n / 10) ((48 + n % 10) ∷ acc))

digits_from-ne_nil : (f n : ℕ) (acc : Text) → digits_from f n acc ≢ []
unfolding digits_from
digits_from-ne_nil zero n acc e = cc
digits_from-ne_nil (suc f) n acc e =
    ground (arith, digits_from-ne_nil f (n / 10) ((48 + n % 10) ∷ acc))

value_step : (n : ℕ) (acc : Text) → value_from (n / 10) ((48 + n % 10) ∷ acc) ≡ value_from n acc
value_step n acc = ap (λ m. value_from m acc) (omega arith)

value_below : (n : ℕ) (acc : Text) → n < 10 → value_from 0 ((48 + n % 10) ∷ acc) ≡ value_from n acc
value_below n acc h = ap (λ m. value_from m acc) (omega arith)

digits_from-value :
    (f n : ℕ) (acc : Text) → n ≤ f → value_from 0 (digits_from f n acc) ≡ value_from n acc
unfolding digits_from
digits_from-value zero n acc h = value_below n acc (omega arith)
digits_from-value (suc f) n acc h = elim (Bool-cases (ltb n 10)) [
  | inl small ↦ rw small (value_below n acc (ground arith))
  | inr large ↦
      rw large
        (rw (digits_from-value f (n / 10) ((48 + n % 10) ∷ acc) (ground arith)) (value_step n acc))
]

digits_from-length :
    (f n k : ℕ) (acc : Text)
    → n ≤ f
    → n < 10 ^ suc k
    → length (digits_from f n acc) ≤ suc k + length acc
unfolding digits_from
digits_from-length zero n k acc h lt = omega arith
digits_from-length (suc f) n zero acc h lt = rw (lt10 n lt) (omega arith)
  where
    lt10 : (n : ℕ) → n < 10 ^ 1 → ltb n 10 ≡ true
    lt10 n lt = ground arith
digits_from-length (suc f) n (suc k) acc h lt = elim (Bool-cases (ltb n 10)) [
  | inl small ↦ rw small (omega arith)
  | inr large ↦ rw large (
      omega (
        arith,
        digits_from-length f (n / 10) k ((48 + n % 10) ∷ acc) (ground arith)
            (tenth n (10 ^ suc k) (rw (pow-suc 10 (suc k)) at lt)),
      ))
]
  where
    tenth : (n p : ℕ) → n < p * 10 → n / 10 < p
    tenth n p lt = omega arith

all_digits-true : (t : Text) → All IsDigit t → all_digits t ≡ true
all_digits-true [] h = refl
all_digits-true (c ∷ t) h = ground (arith, all_digits-true t h.1)

pub read-digits :
    (t : Text)
    → All IsDigit t
    → t ≢ []
    → decimal_value t ≤ max_long
    → read t ≡ some (pos (decimal_value t))
unfolding read
read-digits [] h ne le = absurd (ne refl)
read-digits (c ∷ t) h ne le =
    rw (all_digits-true (c ∷ t) h, le→leb (decimal_value (c ∷ t)) max_long le)

pub print-digits : (n : ℕ) → All IsDigit (print n)
unfolding print
print-digits n = digits_from-digits n n [] tt

pub print-ne_nil : (n : ℕ) → print n ≢ []
unfolding print
print-ne_nil n = digits_from-ne_nil n n []

pub print-value : (n : ℕ) → decimal_value (print n) ≡ n
unfolding print
print-value n = digits_from-value n n [] (omega arith)

pub print-length : (n k : ℕ) → n < 10 ^ suc k → length (print n) ≤ suc k
unfolding print
print-length n k lt = omega (arith, digits_from-length n n k [] (omega arith) lt)

abbrev pub decimal : LexicalCast
unfolding print read
decimal = record {
  to_text = print;
  to_long = read;
  to_text_digits = print-digits;
  to_text_ne_nil = print-ne_nil;
  to_text_value = print-value;
  to_text_length = print-length;
  to_long_digits = read-digits;
}

-- A text with a character that is not a digit is not a number.
pub read-not_digits : (t : Text) → all_digits t ≡ false → decimal.to_long t ≡ none
unfolding read print
read-not_digits t h = ground arith
