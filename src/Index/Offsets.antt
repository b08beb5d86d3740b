-- ===== src/Index/Offsets.antt =====
-- PicoDB/pico/pico_index.h: the offsets after deleteNode, which moves a key and not its offset.
use pico_db.Prelude.{
  ◌≡◌, refl, Bool, true, false, not, ◌&&◌, some, ℤ, arith, if◌then◌else◌, Bool-cases, inl, inr, sym,
}
use pico_db.Index.{Tree, null, node, min_key, search, is_null}
use pico_db.Index.Keys.{less, same, same→≡, same_refl}
use pico_db.Index.Order.{IsOrdered, AllKeys, AllKeys-imp, AllKeys-min_key, Before, NotBefore}
use pico_db.Index.Find.{entry}
use pico_db.Index.Delete.{erase, least-kept, under-least}
use mathlib.Core.Path.{subst}

-- What is found satisfies what all keys do, is ordered, and has the key.
search-AllKeys {κ} : (P : ℤ → Type κ) (t : Tree) (key : ℤ) → AllKeys P t → AllKeys P (search key t)
unfolding search
search-AllKeys P null key a = tt
search-AllKeys P (node l k o r) key a =
    ground (arith, search-AllKeys P l key, search-AllKeys P r key)

search-IsOrdered : (t : Tree) (key : ℤ) → IsOrdered t → IsOrdered (search key t)
unfolding search
search-IsOrdered null key s = tt
search-IsOrdered (node l k o r) key s =
    ground (arith, search-IsOrdered l key s.2, search-IsOrdered r key s.3)

abbrev HasKey : ℤ → Tree → Type 0
HasKey key null = Unit
HasKey key (node _ k _ _) = k ≡ key

search-HasKey : (t : Tree) (key : ℤ) → HasKey key (search key t)
unfolding search
search-HasKey null key = tt
search-HasKey (node l k o r) key =
    ground (arith, search-HasKey l key, search-HasKey r key, same→≡ key k)

-- The least key on the right of the node that is found, in a part of the tree where all satisfy `P`.
least-AllKeys {κ} :
    (P : ℤ → Type κ) (t : Tree) (key : ℤ) {l r : Tree} {k o : ℤ}
    → search key t ≡ node l k o r
    → AllKeys P t
    → P (min_key r k)
least-AllKeys P t key {l} {r} {k} {o} e a =
    let (al, ak, ar) = subst (λ u. AllKeys P u) e (search-AllKeys P t key a) in
    least-kept P r k ak ar

-- It is not before the key that is found.
least-NotBefore :
    (t : Tree) (key : ℤ) {l r : Tree} {k o : ℤ}
    → search key t ≡ node l k o r
    → IsOrdered t
    → NotBefore key (min_key r k)
least-NotBefore t key {l} {r} {k} {o} e s =
    let ordered = subst (λ u. IsOrdered u) e (search-IsOrdered t key s) in
    let here : k ≡ key = subst (λ u. HasKey key u) e (search-HasKey t key) in
    subst (λ u. NotBefore u (min_key r k)) here
      (least-kept (NotBefore k) r k (omega arith) ordered.1)

pub search-erase :
    (t : Tree) (key : ℤ) {l r : Tree} {k o : ℤ}
    → IsOrdered t
    → search key t ≡ node l k o r
    → (not (is_null l) && not (is_null r)) ≡ true
    → entry (search (min_key r k) (erase key t)) ≡ some (min_key r k, o)
unfolding search erase
search-erase null key s e h = cc
search-erase (node tree_left tk to tree_right) key {l} {r} {k} {o} s e h = ground (
  arith,
  search-erase tree_left key {l = l} {r = r} {k = k} {o = o} s.2,
  search-erase tree_right key {l = l} {r = r} {k = k} {o = o} s.3,
  least-AllKeys (Before tk) tree_left key {l = l} {r = r} {k = k} {o = o},
  least-NotBefore tree_right key {l = l} {r = r} {k = k} {o = o},
  same→≡ key tk,
  same_refl (min_key r k),
)

-- No key that is searched for stands in the tree.
search-absent : (t : Tree) (q : ℤ) → AllKeys (λ x. same q x ≡ false) t → search q t ≡ null
unfolding search
search-absent null q a = refl
search-absent (node l k o r) q a = ground (arith, search-absent l q a.0, search-absent r q a.2)

search-Before : (t : Tree) (k q : ℤ) → AllKeys (Before k) t → less q k ≡ false → search q t ≡ null
search-Before t k q a h =
    search-absent t q (AllKeys-imp {Q = λ x. same q x ≡ false} (λ x lt. ground (arith, h, lt)) t a)

search-after : (t : Tree) (k q : ℤ) → AllKeys (NotBefore k) t → less q k ≡ true → search q t ≡ null
search-after t k q a h =
    search-absent t q (AllKeys-imp {Q = λ x. same q x ≡ false} (λ x lt. ground (arith, h, lt)) t a)

-- Whether `q` is the key that moves up to the place of a node.
abbrev pub moves_up : Tree → ℤ → Bool
moves_up null q = false
moves_up (node l k _ r) q = (not (is_null l) && not (is_null r)) && same q (min_key r k)

-- The node of the least key has nothing on its left, so that nothing moves up to its place.
least-moves_up :
    (l : Tree) (k o : ℤ) (r : Tree) (q : ℤ)
    → IsOrdered (node l k o r)
    → moves_up (search (min_key l k) (node l k o r)) q ≡ false
unfolding search min_key
least-moves_up null k o r q s = ground (arith, same_refl k)
least-moves_up (node ll lk lo lr) k o r q s =
    ground (arith, least-moves_up ll lk lo lr q s.2, AllKeys-min_key (Before k) ll lk lo lr s.0)

least-moves_up_in : (r : Tree) (k q : ℤ) → IsOrdered r → moves_up (search (min_key r k) r) q ≡ false
least-moves_up_in null k q s = unfold search in refl
least-moves_up_in (node rl rk ro rr) k q s = unfold min_key in least-moves_up rl rk ro rr q s

-- The node that takes the place of the one removed gives what the two did.
kept-one :
    (l : Tree) (k o : ℤ) (r : Tree) (q : ℤ)
    → IsOrdered (node l k o r)
    → same q k ≡ false
    → (not (is_null l) && not (is_null r)) ≡ false
    → search q (if is_null l then r else l) ≡ search q (node l k o r)
unfolding search
kept-one null k o r q s n b = ground (arith, search-after r k q s.1)
kept-one (node ll lk lo lr) k o null q s n b =
    ground (arith, search-Before (node ll lk lo lr) k q s.0)
kept-one (node ll lk lo lr) k o (node rl rk ro rr) q s n b = cc

kept-two :
    (l : Tree) (k o : ℤ) (r : Tree) (q : ℤ)
    → IsOrdered (node l k o r)
    → is_null r ≡ false
    → same q k ≡ false
    → same q (min_key r k) ≡ false
    → entry (search q (erase (min_key r k) r)) ≡ entry (search q r)
    → entry (search q (node l (min_key r k) o (erase (min_key r k) r)))
      ≡ entry (search q (node l k o r))
unfolding search
kept-two l k o r q s b n m ih =
    let up : NotBefore k (min_key r k) = least-kept (NotBefore k) r k (omega arith) s.1 in
    let least = under-least l r k b s.3 s.0 s.1 in
    ground (
      arith,
      up,
      ih,
      search-Before l k q s.0,
      search-after r (min_key r k) q least.1,
      search-after r k q s.1,
    )

kept-here :
    (l : Tree) (k o : ℤ) (r : Tree) (q : ℤ)
    → IsOrdered (node l k o r)
    → same q k ≡ false
    → moves_up (search k (node l k o r)) q ≡ false
    → (same q (min_key r k) ≡ false → entry (search q (erase (min_key r k) r)) ≡ entry (search q r))
    → entry (search q (erase k (node l k o r))) ≡ entry (search q (node l k o r))
unfolding erase
kept-here l k o r q s n m ih =
    let own : search k (node l k o r) ≡ node l k o r =
      unfold search in ground (arith, same_refl k) in
    ground (arith, own, kept-one l k o r q s n, kept-two l k o r q s)

pub search-erase_kept :
    (t : Tree) (key q : ℤ)
    → IsOrdered t
    → same q key ≡ false
    → moves_up (search key t) q ≡ false
    → entry (search q (erase key t)) ≡ entry (search q t)
unfolding search erase
search-erase_kept null key q s n m = refl
search-erase_kept (node l k o r) key q s n m = elim (Bool-cases (less key k)) [
  | inl e ↦ ground (arith, e, search-erase_kept l key q s.2)
  | inr e ↦ elim (Bool-cases (less k key)) [
    | inl f ↦ ground (arith, e, f, search-erase_kept r key q s.3)
    | inr f ↦
        subst
          (λ x.
            same q x ≡ false
            → moves_up (search x (node l k o r)) q ≡ false
            → entry (search q (erase x (node l k o r))) ≡ entry (search q (node l k o r)))
          (sym (same→≡ key k (ground (arith, e, f))))
          (λ n' m'.
            kept-here l k o r q s n' m'
              (λ d. search-erase_kept r (min_key r k) q s.3 d (least-moves_up_in r k q s.3)))
          n m
  ]
]
