-- ===== src/Currency/Containers.antt =====
-- The examples of PicoDB/MutilThreadedServerClient.cpp that keep currencies in containers of the
-- standard library and behind pointers: each is the list of the lines that it prints.
use pico_db.Prelude.{
  ℕ, Bool, true, false, ◌||◌, List, [], ◌∷◌, ◌++◌, Option, none, some, Text, codes, ltb, ◌==◌, keep,
  is_empty, not, ◌≡◌, refl, ap, replicate, zero, suc, if◌then◌else◌,
}
use pico_db.Currency.Order.{less_irrefl}
use mathlib.Core.List.{map}
use pico_db.Currency.{
  Currency, default_currency, set_name, set_price, set_volume, currency_to_json, currency_eq, less,
}

-- A multiset or multimap in the order of its keys: an element goes behind those that are not greater.
abbrev insert_ordered {ℓ} : {A : Type ℓ} → (A → A → Bool) → A → List A → List A
insert_ordered before a [] = a ∷ []
insert_ordered before a (b ∷ bs) =
    let rest = insert_ordered before a bs in if before a b then a ∷ b ∷ bs else b ∷ rest

-- erase(key) takes out all elements that are equivalent to it.
abbrev erase_equivalent {ℓ} : {A : Type ℓ} → (A → A → Bool) → A → List A → List A
erase_equivalent before a bs = keep (λ b. before a b || before b a) bs

-- A set without an order takes in what is not equal to an element yet.
abbrev insert_unique : Currency → List Currency → List Currency
insert_unique c cs = if is_empty (keep (currency_eq c) cs) then c ∷ cs else cs

-- std::string::operator<
abbrev text_before : Text → Text → Bool
text_before [] [] = false
text_before [] (b ∷ bs) = true
text_before (a ∷ rest_a) [] = false
text_before (a ∷ rest_a) (b ∷ bs) =
    let rest = text_before rest_a bs in if ltb a b then true else if a == b then rest else false

abbrev key_before : Text × Currency → Text × Currency → Bool
key_before (k, c) (l, d) = text_before k l

abbrev with_json : Text → Currency → Text
with_json text c = text ++ currency_to_json c

abbrev entry_line : Text → Text × Currency → Text
entry_line text (key, c) =
    text ++ codes " : key : " ++ key ++ codes " ==> " ++ codes " value : " ++ currency_to_json c

abbrev jpy : Currency
jpy = set_name (codes "jpy") default_currency

abbrev usa : Currency
usa = set_name (codes "usa") default_currency

abbrev iri : Currency
iri = set_name (codes "iri") default_currency

-- The order in which a container without an order is gone through is an argument.
unordered_map_examples : (List (Text × Currency) → List (Text × Currency)) → List Text
unordered_map_examples order =
    map (entry_line (codes "unordered_map entry"))
      (order ((codes "jpy", jpy) ∷ (codes "usa", usa) ∷ (codes "ir", iri) ∷ []))

-- both sets begin with six currencies, three of them without a name of their own
abbrev six_currencies : List Currency
six_currencies = jpy ∷ usa ∷ iri ∷ default_currency ∷ default_currency ∷ default_currency ∷ []

abbrev all_unique : List Currency → List Currency
all_unique [] = []
all_unique (c ∷ cs) = insert_unique c (all_unique cs)

unordered_multiset_examples : (List Currency → List Currency) → List Text
unordered_multiset_examples order =
    let multi_cur = usa ∷ iri ∷ iri ∷ iri ∷ iri ∷ six_currencies in
    let all_cur = insert_unique usa (all_unique six_currencies) in
    let erased = keep (λ c. not (currency_eq jpy c)) all_cur in
    map (with_json (codes "unordered  set entry : ")) (order erased)
    ++ map (with_json (codes "unordered  multi set entry : ")) (order multi_cur)

multimap_examples : List Text
multimap_examples =
    let c = default_currency in
    let entries =
      insert_ordered key_before (codes "ir", c)
        (insert_ordered key_before (codes "usa", c)
          (insert_ordered key_before (codes "jpy", c) [])) in
    map (entry_line (codes "map entry")) (erase_equivalent key_before (codes "jpy", c) entries)

pub multiset_examples : (Text → ℕ) → List Text
unfolding less
multiset_examples hash_of =
    let c = default_currency in
    let before = less hash_of in
    let bag =
      insert_ordered before c
        (insert_ordered before c (insert_ordered before c (insert_ordered before c []))) in
    map (with_json (codes "set iterator ==> ")) (erase_equivalent before c bag)

-- the loop `while (!listOfCurrencies.empty())`
abbrev fronts : List Currency → List Text
fronts [] = []
fronts (c ∷ cs) = with_json (codes " list front ") c ∷ fronts cs

list_examples : List Text
list_examples =
    let list_of_currencies = default_currency ∷ default_currency ∷ [] in
    map (with_json (codes "list iterator ==> ")) list_of_currencies ++ fronts list_of_currencies

-- A weak pointer is locked: it has an object, or it is expired.
abbrev read_currency_via_weak_pointer : Option Currency → List Text
read_currency_via_weak_pointer (some c) = with_json (codes " reading via weak ptr ") c ∷ []
read_currency_via_weak_pointer none = codes " can't read via weak ptr " ∷ []

abbrev priced_jpy : Currency
priced_jpy = set_volume (codes "10000") (set_price (codes "12.12") jpy)

unique_pointer_example : List Text
unique_pointer_example =
    let line = with_json (codes "unique pointer : ") default_currency in
    codes "this is the unique pointer example" ∷ line ∷ line ∷ []

weak_pointer_example : List Text
weak_pointer_example =
    codes "this is the weak pointer example"
      ∷ with_json (codes "shared pointer ") priced_jpy
      ∷ read_currency_via_weak_pointer none
    ++ codes "w_ptr.use_count() inside scope: 1"
      ∷ read_currency_via_weak_pointer (some default_currency)
    ++ codes "w_ptr.use_count() out of scope: 0" ∷ []

module _ {A : Type 0} (before : A → A → Bool) (c : A) (irrefl : before c c ≡ false) where
  insert_ordered-replicate : (n : ℕ) → insert_ordered before c (replicate n c) ≡ replicate (suc n) c
  insert_ordered-replicate zero = refl
  insert_ordered-replicate (suc n) = rw irrefl (ap (λ bs. c ∷ bs) (insert_ordered-replicate n))

  erase_equivalent-replicate : (n : ℕ) → erase_equivalent before c (replicate n c) ≡ []
  erase_equivalent-replicate zero = refl
  erase_equivalent-replicate (suc n) = rw irrefl (erase_equivalent-replicate n)

-- Erasing one of some equal currencies takes out all, so the example of multisets prints nothing.
pub multiset_examples-nil : (hash_of : Text → ℕ) → multiset_examples hash_of ≡ []
unfolding multiset_examples
multiset_examples-nil hash_of =
    let c = default_currency in
    let before = less hash_of in
    let irrefl = less_irrefl hash_of c in
    let inserted = insert_ordered-replicate before c irrefl in
    rw (inserted 1, inserted 2, inserted 3, erase_equivalent-replicate before c irrefl 4) refl
