-- ===== src/AsyncReader.antt =====
-- PicoDB/pico/asyncReader.h: the buffers that are being read into, by their addresses.
use pico_db.Prelude.{
  ℕ, suc, ◌<◌, ◌≡◌, refl, ap, ◌∙◌, not, List, [], ◌∷◌, ◌++◌, All, keep, ◌==◌, arith, ==-self, ==-ne,
  append-nil, keep-append,
}
use pico_db.Queue.Vector.{push_back_locked, remove}
use pico_db.Queue.Vector.Remove.{Sparse, remove-keep}

pub record AsyncReader : Type 0 where
  pub single_buffer_list : List ℕ
  pub next_pointer : ℕ

-- getOneBuffer()
unfoldable pub get_one_buffer : AsyncReader → ℕ × AsyncReader
get_one_buffer r = (
  r.next_pointer,
  record {
    single_buffer_list = push_back_locked r.single_buffer_list r.next_pointer;
    next_pointer = suc r.next_pointer;
  },
)

-- returnTheBuffer(shared_ptr): the comparison is one of pointers.
unfoldable pub return_the_buffer : ℕ → AsyncReader → AsyncReader
return_the_buffer p r = record r { single_buffer_list = remove (λ q. q == p) r.single_buffer_list }

-- Every listed buffer has an address that was given out.
abbrev pub IsAllocated : AsyncReader → Type 0
IsAllocated r = All (λ p. p < r.next_pointer) r.single_buffer_list

keep_others : (n : ℕ) (ps : List ℕ) → All (λ p. p < n) ps → keep (λ q. not (q == n)) ps ≡ ps
keep_others n [] h = refl
keep_others n (p ∷ ps) h = rw (==-ne p n (λ e. omega arith)) (ap (◌∷◌ p) (keep_others n ps h.1))

Sparse-last : (n : ℕ) (ps : List ℕ) → All (λ p. p < n) ps → Sparse (λ q. q == n) (ps ++ n ∷ [])
Sparse-last n [] h = tt
Sparse-last n (p ∷ []) h = ((λ e. ground arith), tt)
Sparse-last n (p ∷ q ∷ ps) h = ((λ e. ground arith), Sparse-last n (q ∷ ps) h.1)

-- A buffer that is handed back leaves the list as it was before the buffer was handed out.
pub return_the_buffer-last :
    (n m : ℕ) (ps : List ℕ)
    → All (λ p. p < n) ps
    → return_the_buffer n (record { single_buffer_list = ps ++ n ∷ []; next_pointer = m })
      ≡ record { single_buffer_list = ps; next_pointer = m }
unfolding return_the_buffer
return_the_buffer-last n m ps h =
    let e : remove (λ q. q == n) (ps ++ n ∷ []) ≡ ps =
      remove-keep (λ q. q == n) (ps ++ n ∷ []) (Sparse-last n ps h)
      ∙ (keep-append (λ q. not (q == n)) ps (n ∷ [])
          ∙ rw (==-self n) (append-nil (keep (λ q. not (q == n)) ps) ∙ keep_others n ps h)) in
    ap (λ l. record { single_buffer_list = l; next_pointer = m }) e
