-- ===== src/Index/Sequence.antt =====
-- PicoDB/pico/pico_index.h: the tree as the sequence of its keys.
use pico_db.Prelude.{
  ◌+◌, ◌≤◌, ◌<◌, ◌≡◌, refl, true, false, not, ◌&&◌, List, [], ◌∷◌, ◌++◌, All, ℤ, arith,
  if◌then◌else◌, append-nil, All-append, ap, ◌∙◌, sym,
}
use pico_db.Index.{Tree, null, node, min_key, insert_below, is_null}
use pico_db.Index.Keys.{above, below, less, same, same→≡, same_refl}
use pico_db.Index.Order.{IsOrdered, AllKeys, AllKeys-imp, Before, NotBefore}
use pico_db.Index.Delete.{erase}

-- The keys from the left to the right.
unfoldable pub keys : Tree → List ℤ
keys null = []
keys (node l k _ r) = keys l ++ (k ∷ keys r)

-- A sequence without the first occurrence of `key`.
unfoldable pub remove_first : ℤ → List ℤ → List ℤ
remove_first key [] = []
remove_first key (x ∷ xs) = let rest = remove_first key xs in if same key x then xs else x ∷ rest

-- A sequence with `key` in front of what is greater.
unfoldable pub place : ℤ → List ℤ → List ℤ
place key [] = key ∷ []
place key (x ∷ xs) = let rest = place key xs in if less key x then key ∷ (x ∷ xs) else x ∷ rest

abbrev pub Other : ℤ → ℤ → Type 0
Other key x = same key x ≡ false

remove_first-none : (key : ℤ) (xs : List ℤ) → All (Other key) xs → remove_first key xs ≡ xs
unfolding remove_first
remove_first-none key [] a = refl
remove_first-none key (x ∷ xs) (h, a) =
    rw h (ap (λ (t : List ℤ). x ∷ t) (remove_first-none key xs a))

remove_first-left :
    (key : ℤ) (xs ys : List ℤ)
    → All (Other key) ys
    → remove_first key (xs ++ ys) ≡ remove_first key xs ++ ys
unfolding remove_first
remove_first-left key [] ys a = remove_first-none key ys a
remove_first-left key (x ∷ xs) ys a = ground (arith, remove_first-left key xs ys a)

remove_first-right :
    (key : ℤ) (xs ys : List ℤ)
    → All (Other key) xs
    → remove_first key (xs ++ ys) ≡ xs ++ remove_first key ys
unfolding remove_first
remove_first-right key [] ys a = refl
remove_first-right key (x ∷ xs) ys (h, a) =
    rw h (ap (λ (t : List ℤ). x ∷ t) (remove_first-right key xs ys a))

keys-All {κ} : (P : ℤ → Type κ) (t : Tree) → AllKeys P t → All P (keys t)
unfolding keys
keys-All P null a = tt
keys-All P (node l k o r) (al, ak, ar) =
    All-append P (keys l) (k ∷ keys r) (keys-All P l al) (ak, keys-All P r ar)

pub others-Before :
    (t : Tree) (k key : ℤ)
    → AllKeys (Before k) t
    → above k + below key ≤ above key + below k
    → All (Other key) (keys t)
others-Before t k key a h =
    keys-All (Other key) t (AllKeys-imp {Q = Other key} (λ x lt. ground (arith, h, lt)) t a)

pub others-after :
    (t : Tree) (k key : ℤ)
    → AllKeys (NotBefore k) t
    → above key + below k < above k + below key
    → All (Other key) (keys t)
others-after t k key a h =
    keys-All (Other key) t (AllKeys-imp {Q = Other key} (λ x lt. ground (arith, h, lt)) t a)

-- The first key is the least.
keys-min_key :
    (l : Tree) (k o : ℤ) (r : Tree) → (rest : List ℤ) × (keys (node l k o r) ≡ min_key l k ∷ rest)
unfolding keys min_key
keys-min_key null k o r = (keys r, refl)
keys-min_key (node ll lk lo lr) k o r =
    let (rest, e) = keys-min_key ll lk lo lr in
    (rest ++ (k ∷ keys r), ap (λ (t : List ℤ). t ++ (k ∷ keys r)) e)

-- Without the least key, and with it in front, the sequence is the same.
least-first :
    (r : Tree) (k : ℤ)
    → is_null r ≡ false
    → min_key r k ∷ remove_first (min_key r k) (keys r) ≡ keys r
unfolding min_key
least-first null k h = cc
least-first (node rl rk ro rr) k h =
    let (rest, e) = keys-min_key rl rk ro rr in
    rw e (unfold remove_first in rw (same_refl (min_key rl rk)) refl)

-- Where the first occurrence stands, from one comparison.
removed-left :
    (l : Tree) (k o : ℤ) (r : Tree) (key : ℤ)
    → IsOrdered (node l k o r)
    → less key k ≡ true
    → remove_first key (keys l ++ (k ∷ keys r)) ≡ remove_first key (keys l) ++ (k ∷ keys r)
removed-left l k o r key s e =
    remove_first-left key (keys l) (k ∷ keys r)
      (ground (arith, e), others-after r k key s.1 (ground (arith, e)))

removed-right :
    (l : Tree) (k o : ℤ) (r : Tree) (key : ℤ)
    → IsOrdered (node l k o r)
    → less k key ≡ true
    → remove_first key (keys l ++ (k ∷ keys r)) ≡ keys l ++ (k ∷ remove_first key (keys r))
removed-right l k o r key s e =
    let step : remove_first key (k ∷ keys r) ≡ k ∷ remove_first key (keys r) =
      unfold remove_first in ground (arith, e) in
    remove_first-right key (keys l) (k ∷ keys r) (others-Before l k key s.0 (ground (arith, e)))
    ∙ ap (λ (t : List ℤ). keys l ++ t) step

removed-here :
    (l : Tree) (k o : ℤ) (r : Tree)
    → IsOrdered (node l k o r)
    → remove_first k (keys l ++ (k ∷ keys r)) ≡ keys l ++ keys r
removed-here l k o r s =
    let step : remove_first k (k ∷ keys r) ≡ keys r =
      unfold remove_first in rw (same_refl k) refl in
    remove_first-right k (keys l) (k ∷ keys r) (others-Before l k k s.0 (omega arith))
    ∙ ap (λ (t : List ℤ). keys l ++ t) step

-- One of the two subtrees stands for both, if the other is null.
keys-one :
    (l r : Tree)
    → (not (is_null l) && not (is_null r)) ≡ false
    → keys (if is_null l then r else l) ≡ keys l ++ keys r
unfolding keys
keys-one null r h = refl
keys-one (node ll lk lo lr) null h = sym (append-nil (keys ll ++ (lk ∷ keys lr)))
keys-one (node ll lk lo lr) (node rl rk ro rr) h = cc

-- Erasing a key takes its first occurrence out of the sequence.
pub keys-erase : (t : Tree) (key : ℤ) → IsOrdered t → keys (erase key t) ≡ remove_first key (keys t)
unfolding keys erase
keys-erase null key s = unfold remove_first in refl
keys-erase (node l k o r) key s = ground (
  arith,
  keys-erase l key s.2,
  keys-erase r key s.3,
  keys-erase r (min_key r k) s.3,
  least-first r k,
  keys-one l r,
  removed-left l k o r key s,
  removed-right l k o r key s,
  removed-here l k o r s,
  same→≡ key k,
)

place-left :
    (key k : ℤ) (xs ys : List ℤ)
    → less key k ≡ true
    → place key (xs ++ (k ∷ ys)) ≡ place key xs ++ (k ∷ ys)
unfolding place
place-left key k [] ys e = rw e refl
place-left key k (x ∷ xs) ys e = ground (arith, place-left key k xs ys e)

place-right :
    (key k : ℤ) (xs ys : List ℤ)
    → All (λ x. less key x ≡ false) xs
    → less key k ≡ false
    → place key (xs ++ (k ∷ ys)) ≡ xs ++ (k ∷ place key ys)
unfolding place
place-right key k [] ys a e = rw e refl
place-right key k (x ∷ xs) ys (h, a) e =
    rw h (ap (λ (t : List ℤ). x ∷ t) (place-right key k xs ys a e))

none-greater :
    (t : Tree) (k key : ℤ)
    → AllKeys (Before k) t
    → less key k ≡ false
    → All (λ x. less key x ≡ false) (keys t)
none-greater t k key a h =
    keys-All (λ x. less key x ≡ false) t
      (AllKeys-imp {Q = λ x. less key x ≡ false} (λ x lt. ground (arith, h, lt)) t a)

-- Inserting a key places it in the sequence.
pub keys-insert_below :
    (t : Tree) (key offset : ℤ)
    → IsOrdered t
    → keys (insert_below key offset t) ≡ place key (keys t)
unfolding keys insert_below
keys-insert_below null key offset s = unfold place in refl
keys-insert_below (node l k o r) key offset s = ground (
  arith,
  keys-insert_below l key offset s.2,
  keys-insert_below r key offset s.3,
  place-left key k (keys l) (keys r),
  place-right key k (keys l) (keys r),
  none-greater l k key s.0,
)
