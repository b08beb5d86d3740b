-- ===== src/Index/Order.antt =====
-- PicoDB/pico/pico_index.h: the order of the keys in the tree.
use pico_db.Prelude.{◌+◌, ◌≤◌, ◌<◌, ◌≡◌, refl, ℤ, arith}
use pico_db.Index.{Tree, null, node, min_key, insert_below, size}
use pico_db.Index.Keys.{above, below}

-- Every key of the tree satisfies `P`.
abbrev pub AllKeys {κ} : (ℤ → Type κ) → Tree → Type κ
AllKeys P null = Unit
AllKeys P (node l k _ r) = AllKeys P l × P k × AllKeys P r

-- `x < k`
abbrev pub Before : ℤ → ℤ → Type 0
Before k x = above x + below k < above k + below x

-- `k <= x`
abbrev pub NotBefore : ℤ → ℤ → Type 0
NotBefore k x = above k + below x ≤ above x + below k

-- What is smaller stands on the left, all else on the right.
abbrev pub IsOrdered : Tree → Type 0
IsOrdered null = Unit
IsOrdered (node l k _ r) =
    AllKeys (Before k) l × AllKeys (NotBefore k) r × IsOrdered l × IsOrdered r

pub AllKeys-imp {κ λ'} :
    {P : ℤ → Type κ} {Q : ℤ → Type λ'}
    → ((x : ℤ) → P x → Q x)
    → (t : Tree) → AllKeys P t
    → AllKeys Q t
AllKeys-imp f null a = tt
AllKeys-imp f (node l k _ r) (pl, pk, pr) = (AllKeys-imp f l pl, f k pk, AllKeys-imp f r pr)

AllKeys-insert_below {κ} :
    (P : ℤ → Type κ) (t : Tree) (key offset : ℤ)
    → P key
    → AllKeys P t
    → AllKeys P (insert_below key offset t)
unfolding insert_below
AllKeys-insert_below P null key offset p a = (tt, p, tt)
AllKeys-insert_below P (node l k o r) key offset p a =
    ground (arith, AllKeys-insert_below P l key offset p, AllKeys-insert_below P r key offset p)

-- Inserting keeps the order.
pub insert_below-IsOrdered :
    (t : Tree) (key offset : ℤ) → IsOrdered t → IsOrdered (insert_below key offset t)
unfolding insert_below
insert_below-IsOrdered null key offset s = (tt, tt, tt, tt)
insert_below-IsOrdered (node l k o r) key offset s = ground (
  arith,
  insert_below-IsOrdered l key offset,
  insert_below-IsOrdered r key offset,
  AllKeys-insert_below (Before k) l key offset,
  AllKeys-insert_below (NotBefore k) r key offset,
)

pub size-insert_below : (t : Tree) (key offset : ℤ) → size (insert_below key offset t) ≡ size t + 1
unfolding insert_below size
size-insert_below null key offset = refl
size-insert_below (node l k o r) key offset =
    ground (arith, size-insert_below l key offset, size-insert_below r key offset)

-- The least key is below none of the others.
pub min_key-NotBefore :
    (l : Tree) (k o : ℤ) (r : Tree)
    → IsOrdered (node l k o r)
    → AllKeys (NotBefore (min_key l k)) (node l k o r)
unfolding min_key
min_key-NotBefore null k o r s = (tt, omega arith, s.1)
min_key-NotBefore (node ll lk lo lr) k o r s =
    let ih = min_key-NotBefore ll lk lo lr s.2 in
    let under : NotBefore (min_key ll lk) lk = ih.1 in
    let over : Before k lk = s.0.1 in
    (ih, omega arith, AllKeys-imp (λ x h. omega (arith, under, over, h)) r s.1)

-- It is one of the keys.
pub AllKeys-min_key {κ} :
    (P : ℤ → Type κ) (l : Tree) (k o : ℤ) (r : Tree) → AllKeys P (node l k o r) → P (min_key l k)
unfolding min_key
AllKeys-min_key P null k o r a = a.1
AllKeys-min_key P (node ll lk lo lr) k o r a = AllKeys-min_key P ll lk lo lr a.0
