-- ===== src/Currency/Order.antt =====
-- The comparisons of PicoDB/currency.h, and its hash code.
use pico_db.Prelude.{&&-true, ℕ, ◌≡◌, ap, true, false, Text, text_eq→≡, arith, ltb}
use pico_db.Currency.{Currency, currency_eq, less, currency_hash_code}

currency_eq→≡ : (a b : Currency) → currency_eq a b ≡ true → a ≡ b
unfolding currency_eq
currency_eq→≡ a b h =
    let (n, r1) = &&-true _ _ h in
    let (p, r2) = &&-true _ _ r1 in
    let (s, r3) = &&-true _ _ r2 in
    let (t, r4) = &&-true _ _ r3 in
    let (y, r5) = &&-true _ _ r4 in
    let (u, v) = &&-true _ _ r5 in
    λ i. record {
      name = text_eq→≡ a.name b.name n i;
      price = text_eq→≡ a.price b.price p i;
      symbol = text_eq→≡ a.symbol b.symbol s i;
      ts = text_eq→≡ a.ts b.ts t i;
      type = text_eq→≡ a.type b.type y i;
      utctime = text_eq→≡ a.utctime b.utctime u i;
      volume = text_eq→≡ a.volume b.volume v i;
    }

ltb_self : (n : ℕ) → ltb n n ≡ false
ltb_self n = ground arith

pub less_irrefl : (hash_of : Text → ℕ) (a : Currency) → less hash_of a a ≡ false
unfolding less
less_irrefl hash_of a = ltb_self (hash_of a.name)

-- Currencies that are equal by `==` are the same in every part, have the same hash code, and neither
-- is less than the other, as unordered maps and multisets of them need.
pub currency_eq-agrees :
    (hash_of : Text → ℕ) (a b : Currency)
    → currency_eq a b ≡ true
    → (a ≡ b)
      × (currency_hash_code hash_of a ≡ currency_hash_code hash_of b)
      × (less hash_of a b ≡ false)
      × (less hash_of b a ≡ false)
currency_eq-agrees hash_of a b h =
    let same = currency_eq→≡ a b h in
    (
      same,
      ap (currency_hash_code hash_of) same,
      rw same (less_irrefl hash_of b),
      rw same (less_irrefl hash_of b),
    )
