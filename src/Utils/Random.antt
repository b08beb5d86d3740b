-- ===== src/Utils/Random.antt =====
-- `random_string`, `random_number` and `calc_request_id` of PicoDB/pico/pico_utils.h. `rand()` and
-- the clock are not modelled: their values come as arguments, one for each call.
use Prim.Native.Nat.{◌%◌, bit_xor}
use pico_db.Prelude.{
  ◌+◌, length-append, ℕ, zero, suc, ◌<◌, ◌≡◌, refl, ap, List, [], ◌∷◌, ◌++◌, Text, codes, length,
  All, arith, Bool, true, ◌&&◌, ◌||◌, leb,
}
use pico_db.Utils.Cast.{IsDigit}

abbrev alphanumerics : Text
alphanumerics = codes "0123456789ABCDEFGHIJKLMNOPQRSTUVWXYZabcdefghijklmnopqrstuvwxyz"

abbrev shuffled_digits : Text
shuffled_digits = codes "09182736455463728190"

-- charset[i]; an index beyond the array is not reached, and reads the NUL here.
abbrev char_at : Text → ℕ → ℕ
char_at [] i = 0
char_at (c ∷ cs) zero = c
char_at (c ∷ cs) (suc i) = char_at cs i

-- `charset[rand() % max_index]`
randchar : ℕ → ℕ
randchar r = char_at alphanumerics (r % 62)

-- std::generate_n over the string, one value of `rand()` for each character
generate : (ℕ → ℕ) → List ℕ → Text
generate f [] = []
generate f (r ∷ rs) = f r ∷ generate f rs

random_string : List ℕ → Text
unfolding generate randchar
random_string rands = generate randchar rands

-- random_string(firstPart, length): the first part is put at the end.
pub random_string_after : Text → List ℕ → Text
unfolding generate randchar
random_string_after first_part rands = generate randchar rands ++ first_part

-- `charset[(rand() ^ now.count() ^ now.count()) % max_index]`, for `rand()` and the clock's count
random_digit : ℕ → ℕ → ℕ
random_digit now r = char_at shuffled_digits (bit_xor (bit_xor r now) now % 20)

-- the digits of random_number(N), in front of the cast to a number
random_digits : List (ℕ × ℕ) → Text
unfolding random_digit
random_digits [] = []
random_digits ((r, now) ∷ rs) = random_digit now r ∷ random_digits rs

pub calc_request_id : List (ℕ × ℕ) → Text
unfolding random_digits
calc_request_id draws = random_digits draws

abbrev pub IsAlphanumeric : ℕ → Type 0
IsAlphanumeric c =
    ((leb 48 c && leb c 57) || ((leb 65 c && leb c 90) || (leb 97 c && leb c 122))) ≡ true

-- Over a small range, check every index by evaluation.
all_below : ℕ → (ℕ → Bool) → Bool
all_below zero p = true
all_below (suc n) p = p n && all_below n p

all_below_lem : (n : ℕ) (p : ℕ → Bool) (i : ℕ) → all_below n p ≡ true → i < n → p i ≡ true
unfolding all_below
all_below_lem zero p i h lt = absurd (omega arith)
all_below_lem (suc n) p i h lt = ground (arith, all_below_lem n p i)

abbrev alphanumeric : ℕ → Bool
alphanumeric c = (leb 48 c && leb c 57) || ((leb 65 c && leb c 90) || (leb 97 c && leb c 122))

alphanumerics_table : all_below 62 (λ i. alphanumeric (char_at alphanumerics i)) ≡ true
unfolding all_below
alphanumerics_table = refl

digits_table :
    all_below 20 (λ i. leb 48 (char_at shuffled_digits i) && leb (char_at shuffled_digits i) 57)
    ≡ true
unfolding all_below
digits_table = refl

randchar-IsAlphanumeric : (r : ℕ) → IsAlphanumeric (randchar r)
unfolding randchar
randchar-IsAlphanumeric r =
    all_below_lem 62 (λ i. alphanumeric (char_at alphanumerics i)) (r % 62) alphanumerics_table
      (omega arith)

-- A random string has one letter or digit for each value that `rand()` gives, whatever the values:
-- the index never leaves the character set.
random_string-IsAlphanumeric :
    (rands : List ℕ)
    → (length (random_string rands) ≡ length rands) × All IsAlphanumeric (random_string rands)
unfolding random_string
random_string-IsAlphanumeric [] = (refl, tt)
random_string-IsAlphanumeric (r ∷ rs) =
    let (len, all) = random_string-IsAlphanumeric rs in
    (ap suc len, (randchar-IsAlphanumeric r, all))

length-generate : (f : ℕ → ℕ) (rands : List ℕ) → length (generate f rands) ≡ length rands
unfolding generate
length-generate f [] = refl
length-generate f (r ∷ rs) = ap suc (length-generate f rs)

pub length-random_string_after :
    (first_part : Text) (rands : List ℕ)
    → length (random_string_after first_part rands) ≡ length rands + length first_part
unfolding random_string_after
length-random_string_after first_part rands =
    omega
      (arith, length-append (generate randchar rands) first_part, length-generate randchar rands)

random_digit-IsDigit : (now r : ℕ) → IsDigit (random_digit now r)
unfolding random_digit
random_digit-IsDigit now r =
    let i : ℕ = bit_xor (bit_xor r now) now % 20 in
    both (char_at shuffled_digits i) (
      all_below_lem 20
        (λ i. leb 48 (char_at shuffled_digits i) && leb (char_at shuffled_digits i) 57) i
        digits_table (omega arith))
  where
    both : (c : ℕ) → (leb 48 c && leb c 57) ≡ true → IsDigit c
    both c h = ground arith

-- A request id has one decimal digit for each draw, whatever `rand()` and the clock give.
calc_request_id-digits :
    (draws : List (ℕ × ℕ))
    → (length (calc_request_id draws) ≡ length draws) × All IsDigit (calc_request_id draws)
unfolding calc_request_id
calc_request_id-digits [] = (refl, tt)
calc_request_id-digits ((r, now) ∷ rs) =
    let (len, all) = calc_request_id-digits rs in (ap suc len, (random_digit-IsDigit now r, all))
