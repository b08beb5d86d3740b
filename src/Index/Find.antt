-- ===== src/Index/Find.antt =====
-- PicoDB/pico/pico_index.h: what a search finds after an insertion.
use pico_db.Prelude.{◌≡◌, false, Option, none, some, ℤ, arith, if◌then◌else◌}
use pico_db.Index.{Tree, null, node, min_key, insert_below, search, is_null}
use pico_db.Index.Keys.{same, same→≡}
use pico_db.Index.Order.{IsOrdered, AllKeys-min_key, Before}

-- The key and the offset that a pointer to a node leads to.
abbrev pub entry : Tree → Option (ℤ × ℤ)
entry null = none
entry (node _ k o _) = some (k, o)

-- `a` if there is one, else `b`
abbrev pub or_else {ℓ} : {A : Type ℓ} → Option A → Option A → Option A
or_else none b = b
or_else (some a) b = some a

pub search-insert_below :
    (t : Tree) (key offset q : ℤ)
    → entry (search q (insert_below key offset t))
      ≡ or_else (entry (search q t)) (if same q key then some (key, offset) else none)
unfolding search insert_below
search-insert_below null key offset q = ground arith
search-insert_below (node l k o r) key offset q = ground (
  arith,
  same→≡ q k,
  same→≡ q key,
  search-insert_below l key offset q,
  search-insert_below r key offset q,
)

-- The least key is found.
pub search-min_key :
    (l : Tree) (k o : ℤ) (r : Tree)
    → IsOrdered (node l k o r)
    → is_null (search (min_key l k) (node l k o r)) ≡ false
unfolding search min_key
search-min_key null k o r s = ground arith
search-min_key (node ll lk lo lr) k o r s =
    ground (arith, search-min_key ll lk lo lr s.2, AllKeys-min_key (Before k) ll lk lo lr s.0)
