-- ===== src/Index/Delete.antt =====
-- PicoDB/pico/pico_index.h: deleteNode.
use pico_db.Prelude.{
  ◌≡◌, refl, Bool, true, false, not, ◌&&◌, returns, ℤ, arith, if◌then◌else◌, Bool-cases, inl, inr,
}
use pico_db.Index.{Tree, null, node, min_key, delete_node, search, is_null, remove_node}
use pico_db.Index.Keys.{less, same, same→≡}
use pico_db.Index.Order.{
  IsOrdered, AllKeys, AllKeys-imp, AllKeys-min_key, min_key-NotBefore, Before, NotBefore,
}
use pico_db.Index.Find.{search-min_key}

-- deleteNode as a function of the tree alone.
unfoldable pub erase : ℤ → Tree → Tree
erase key null = null
erase key (node l k o r) = elim (less key k) [
  | true ↦ node (erase key l) k o r
  | false ↦ elim (less k key) [
    | true ↦ node l k o (erase key r)
    | false ↦ elim (not (is_null l) && not (is_null r)) [
      | true ↦ node l (min_key r k) o (erase (min_key r k) r)
      | false ↦ if is_null l then r else l
    ]
  ]
]

abbrev pub is_found : ℤ → Tree → Bool
is_found key t = not (is_null (search key t))

pub least-found :
    (r : Tree) (k : ℤ) → is_null r ≡ false → IsOrdered r → is_found (min_key r k) r ≡ true
unfolding min_key
least-found null k h s = cc
least-found (node rl rk ro rr) k h s = rw (search-min_key rl rk ro rr s) refl

-- Below a parent, deleteNode comes back, and it removes a node exactly if the key is found.
pub delete_node-erase :
    (t : Tree) (key : ℤ)
    → IsOrdered t
    → delete_node true key t ≡ returns (erase key t, is_found key t)
unfolding delete_node erase search
delete_node-erase null key s = refl
delete_node-erase (node l k o r) key s = ground (
  arith,
  delete_node-erase l key s.2,
  delete_node-erase r key s.3,
  delete_node-erase r (min_key r k) s.3,
  least-found r k,
  same→≡ key k,
)

delete_node-orphan :
    (l : Tree) (k o : ℤ) (r : Tree) (key : ℤ)
    → same k key ≡ false
    → delete_node false key (node l k o r) ≡ delete_node true key (node l k o r)
unfolding delete_node
delete_node-orphan l k o r key e = ground arith

-- A root of another key is removed nowhere, so that the parent that is not there is not asked for.
pub remove_node-erase :
    (t : Tree) (key : ℤ) → IsOrdered t → remove_node key t ≡ returns (erase key t, is_found key t)
unfolding remove_node
remove_node-erase null key s = unfold erase search in refl
remove_node-erase (node l k o r) key s = elim (Bool-cases (same k key)) [
  | inl e ↦ rw e (delete_node-erase (node l k o r) key s)
  | inr e ↦ rw (e, delete_node-orphan l k o r key e) (delete_node-erase (node l k o r) key s)
]

pub least-kept {κ} : (P : ℤ → Type κ) (r : Tree) (k : ℤ) → P k → AllKeys P r → P (min_key r k)
unfolding min_key
least-kept P null k p a = p
least-kept P (node rl rk ro rr) k p a = AllKeys-min_key P rl rk ro rr a

AllKeys-erase {κ} : (P : ℤ → Type κ) (t : Tree) (key : ℤ) → AllKeys P t → AllKeys P (erase key t)
unfolding erase
AllKeys-erase P null key a = tt
AllKeys-erase P (node l k o r) key a = ground (
  arith,
  AllKeys-erase P l key,
  AllKeys-erase P r key,
  AllKeys-erase P r (min_key r k),
  least-kept P r k,
)

-- What stands right of the least key that takes the place of a removed one.
pub under-least :
    (l r : Tree) (k : ℤ)
    → is_null r ≡ false
    → IsOrdered r
    → AllKeys (Before k) l
    → AllKeys (NotBefore k) r
    → AllKeys (Before (min_key r k)) l × AllKeys (NotBefore (min_key r k)) r
unfolding min_key
under-least l null k h s lo hi = cc
under-least l (node rl rk ro rr) k h s lo hi =
    let up : NotBefore k (min_key rl rk) = AllKeys-min_key (NotBefore k) rl rk ro rr hi in
    (AllKeys-imp (λ x lt. omega (arith, up, lt)) l lo, min_key-NotBefore rl rk ro rr s)

pub erase-IsOrdered : (t : Tree) (key : ℤ) → IsOrdered t → IsOrdered (erase key t)
unfolding erase
erase-IsOrdered null key s = tt
erase-IsOrdered (node l k o r) key s = ground (
  arith,
  erase-IsOrdered l key,
  erase-IsOrdered r key,
  erase-IsOrdered r (min_key r k),
  AllKeys-erase (Before k) l key,
  AllKeys-erase (NotBefore k) r key,
  AllKeys-erase (NotBefore (min_key r k)) r (min_key r k),
  under-least l r k,
)
