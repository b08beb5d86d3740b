-- ===== src/Prelude/Outcomes.antt =====
-- How a call of the program can end.
use mathlib.Core.Path.{◌≡◌, refl, transport}
use mathlib.Core.Bool.{Bool, true, false}

-- `aborts` is a failed `assert`, `throws` an exception that leaves the call, `undefined` a step
-- whose effect the language does not define, and `waits` a call that has not come back when what
-- the environment supplies is used up.
pub data Outcome {ℓ} (A : Type ℓ) : Type ℓ where
  returns : A → Outcome A
  aborts : Outcome A
  throws : Outcome A
  undefined : Outcome A
  waits : Outcome A

infixl 5 ◌>>=◌ ◌>>◌
abbrev pub ◌>>=◌ {ℓ κ} : {A : Type ℓ} {B : Type κ} → Outcome A → (A → Outcome B) → Outcome B
returns a >>= f = f a
aborts >>= f = aborts
throws >>= f = throws
undefined >>= f = undefined
waits >>= f = waits

abbrev pub ◌>>◌ {ℓ} : {B : Type ℓ} → Outcome (Unit {0}) → Outcome B → Outcome B
m >> k = m >>= λ _. k

-- assert(b)
abbrev pub assert : Bool → Outcome (Unit {0})
assert true = returns tt
assert false = aborts

-- A step that is defined only if `b` holds.
abbrev pub require : Bool → Outcome (Unit {0})
require true = returns tt
require false = undefined

-- Inversion of a successful bind.
pub >>=-eq-returns {ℓ κ} :
    {A : Type ℓ} {B : Type κ} (m : Outcome A) (f : A → Outcome B) {b : B}
    → (m >>= f) ≡ returns b
    → (a : A) × (m ≡ returns a) × (f a ≡ returns b)
>>=-eq-returns (returns a) f h = (a, refl, h)
>>=-eq-returns aborts f h = cc
>>=-eq-returns throws f h = cc
>>=-eq-returns undefined f h = cc
>>=-eq-returns waits f h = cc

-- What holds of the result, if the call returns.
pub record Ends {ℓ κ} {A : Type ℓ} (P : A → Type κ) (o : Outcome A) : Type (ℓ ⊔ κ) where
  pub holds : (a : A) → o ≡ returns a → P a

pub Ends-bind {ℓ κ λ'} :
    {A : Type ℓ} {B : Type κ} {P : B → Type λ'} (m : Outcome A) {f : A → Outcome B}
    → ((a : A) → Ends P (f a))
    → Ends P (m >>= f)
Ends-bind m {f} h = record {
  holds = λ b e. let (a, _, fa) = >>=-eq-returns m f e in (h a).holds b fa;
}

pub returns-injective {ℓ} : {A : Type ℓ} {a b : A} → returns a ≡ returns b → a ≡ b
returns-injective e = cc

pub Ends-returns {ℓ κ} : {A : Type ℓ} {P : A → Type κ} {a : A} → P a → Ends P (returns a)
Ends-returns {P} p = record { holds = λ b e. transport (λ i. P (returns-injective e i)) p }
