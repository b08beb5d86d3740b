-- ===== src/Prelude/Texts.antt =====
-- A `std::string`, or the bytes of a buffer: the list of its characters.
use Prim.Native.Nat.{ℕ}
use Prim.Native.Char.{code}
use Prim.Native.String.{String}
use mathlib.Core.Path.{◌≡◌, refl}
use mathlib.Core.Logic.{◌≢◌, inl, inr}
use mathlib.Core.Bool.{Bool, true, false, ◌&&◌}
use mathlib.Core.List.{List, [], ◌∷◌, ◌++◌}
use mathlib.Core.Option.{Option, none, some}
use native.Mathlib.Omega.{arith}
use pico_db.Prelude.Tests.{◌==◌, if◌then◌else◌, ==-ne, Bool-cases}
use pico_db.Prelude.Lists.{All}

abbrev pub Text : Type 0
Text = List ℕ

-- The characters of a literal.
abbrev pub codes : String → Text
codes String.[] = []
codes (String.◌∷◌ c s) = code c ∷ codes s

-- a.compare(b) == 0
abbrev pub text_eq : Text → Text → Bool
text_eq [] [] = true
text_eq [] (y ∷ ys) = false
text_eq (x ∷ xs) [] = false
text_eq (x ∷ xs) (y ∷ ys) = (x == y) && text_eq xs ys

abbrev pub is_empty {ℓ} : {A : Type ℓ} → List A → Bool
is_empty [] = true
is_empty (x ∷ xs) = false

abbrev prefixed : ℕ → Option Text → Option Text
prefixed c none = none
prefixed c (some t) = some (c ∷ t)

-- What the program reads through a `const char*`: the bytes in front of the first NUL. `none`
-- means that there is no NUL in the memory at hand.
abbrev pub c_string : List ℕ → Option Text
c_string [] = none
c_string (c ∷ cs) = if c == 0 then some [] else prefixed c (c_string cs)

abbrev pub NoNul : Text → Type 0
NoNul = All (λ c. c ≢ 0)

pub text_eq_refl : (xs : Text) → text_eq xs xs ≡ true
text_eq_refl [] = refl
text_eq_refl (x ∷ xs) = ground (arith, text_eq_refl xs)

pub text_eq→≡ : (xs ys : Text) → text_eq xs ys ≡ true → xs ≡ ys
text_eq→≡ [] [] h = refl
text_eq→≡ [] (y ∷ ys) h = cc
text_eq→≡ (x ∷ xs) [] h = cc
text_eq→≡ (x ∷ xs) (y ∷ ys) h = ground (arith, text_eq→≡ xs ys)

pub ne→text_eq : (xs ys : Text) → xs ≢ ys → text_eq xs ys ≡ false
ne→text_eq xs ys h = elim (Bool-cases (text_eq xs ys)) [
  | inl e ↦ absurd (h (text_eq→≡ xs ys e))
  | inr e ↦ e
]

-- A text without a NUL, in front of a NUL, is read back whole, whatever stands behind it.
pub c_string-NoNul : (t rest : Text) → NoNul t → c_string (t ++ 0 ∷ rest) ≡ some t
c_string-NoNul [] rest h = refl
c_string-NoNul (c ∷ t) rest h = rw (==-ne c 0 h.0, c_string-NoNul t rest h.1)
