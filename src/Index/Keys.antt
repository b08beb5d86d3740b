-- ===== src/Index/Keys.antt =====
-- The keys of PicoDB/pico/pico_index.h: `offsetType` is a long of 64 bits.
use pico_db.Prelude.{
  ℕ, suc, ◌+◌, ◌-◌, ◌%◌, ◌≡◌, Bool, true, ℤ, pos, negsuc, arith, ltb, ◌==◌, ap, if◌then◌else◌,
}
use pico_db.Counters.{long_mod}

-- A number is `above` minus `below`, one of which is 0.
unfoldable pub above : ℤ → ℕ
above (pos n) = n
above (negsuc n) = 0

unfoldable pub below : ℤ → ℕ
below (pos n) = 0
below (negsuc n) = suc n

-- `a < b`
abbrev pub less : ℤ → ℤ → Bool
less a b = ltb (above a + below b) (above b + below a)

-- `a == b`
abbrev pub same : ℤ → ℤ → Bool
same a b = (above a + below b) == (above b + below a)

-- The conversion of the `size_t` that a hash is to a long.
unfoldable pub to_long : ℕ → ℤ
to_long n =
    let r = n % long_mod in if ltb r 9223372036854775808 then pos r else negsuc (long_mod - 1 - r)

-- Keys that the program takes for the same are the same.
pub same→≡ : (a b : ℤ) → same a b ≡ true → a ≡ b
unfolding above below
same→≡ (pos m) (pos n) h = ap pos (ground arith)
same→≡ (pos m) (negsuc n) h = ground arith
same→≡ (negsuc m) (pos n) h = ground arith
same→≡ (negsuc m) (negsuc n) h = ap negsuc (ground arith)

pub same_refl : (a : ℤ) → same a a ≡ true
same_refl a = ground arith
