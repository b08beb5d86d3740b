-- ===== src/Driver/Order.antt =====
-- The addresses of the responses that the driver of PicoDB/pico/pico_client.h holds.
use pico_db.Prelude.{
  ℕ, suc, ◌≤◌, ◌≡◌, refl, ap, ◌∙◌, ◌≢◌, true, not, List, [], ◌∷◌, ◌++◌, arith, ◌==◌, keep, ==-self,
  ==-ne,
}
use pico_db.Queue.Vector.{remove}
use pico_db.Queue.Vector.Remove.{Sparse, remove-keep}
use pico_db.Message.{Message}
use pico_db.Driver.{Driver, Response, queue_the_response}
use pico_db.Driver.Requests.{arrive, remove_response}

-- The addresses grow from the front of the queue to its back, from `lo` on and below `hi`.
abbrev pub Ordered : ℕ → List Response → ℕ → Type 0
Ordered lo [] hi = lo ≤ hi
Ordered lo (r ∷ q) hi = (lo ≤ r.0) × Ordered (suc r.0) q hi

-- The invariant of the response queue: no address is used twice.
abbrev pub IsOrdered : Driver → Type 0
IsOrdered d = Ordered 0 d.response_queue d.next_response

Ordered-le : (lo : ℕ) (q : List Response) (hi : ℕ) → Ordered lo q hi → lo ≤ hi
Ordered-le lo [] hi h = h
Ordered-le lo (r ∷ q) hi h = omega (arith, h.0, Ordered-le (suc r.0) q hi h.1)

Ordered-snoc :
    (lo : ℕ) (q : List Response) (hi : ℕ) (m : Message)
    → Ordered lo q hi
    → Ordered lo (q ++ (hi, m) ∷ []) (suc hi)
Ordered-snoc lo [] hi m h = (h, omega arith)
Ordered-snoc lo (r ∷ q) hi m h = (h.0, Ordered-snoc (suc r.0) q hi m h.1)

-- Queueing a response keeps the invariant.
pub queue_the_response-IsOrdered :
    (m : Message) (d : Driver) → IsOrdered d → IsOrdered (queue_the_response m d)
unfolding queue_the_response
queue_the_response-IsOrdered m d h = Ordered-snoc 0 d.response_queue d.next_response m h

pub arrive-IsOrdered : (ms : List Message) (d : Driver) → IsOrdered d → IsOrdered (arrive ms d)
unfolding arrive
arrive-IsOrdered [] d h = h
arrive-IsOrdered (m ∷ ms) d h =
    arrive-IsOrdered ms (queue_the_response m d) (queue_the_response-IsOrdered m d h)

below :
    (lo : ℕ) (q : List Response) (p hi : ℕ) (m : Message)
    → Ordered lo (q ++ (p, m) ∷ []) hi
    → lo ≤ p
below lo [] p hi m h = h.0
below lo (r ∷ q) p hi m h = omega (arith, h.0, below (suc r.0) q p hi m h.1)

keep_others :
    (lo : ℕ) (q : List Response) (p hi : ℕ) (m : Message)
    → Ordered lo (q ++ (p, m) ∷ []) hi
    → keep (λ r. not (r.0 == p)) (q ++ (p, m) ∷ []) ≡ q
keep_others lo [] p hi m h = rw (==-self p) refl
keep_others lo (r ∷ q) p hi m h =
    rw (==-ne r.0 p (λ e. omega (arith, below (suc r.0) q p hi m h.1)))
      (ap (◌∷◌ r) (keep_others (suc r.0) q p hi m h.1))

eq_clash : (a b : ℕ) → suc a ≤ b → (a == b) ≢ true
eq_clash a b h e = ground arith

Sparse-back :
    (lo : ℕ) (q : List Response) (p hi : ℕ) (m : Message)
    → Ordered lo (q ++ (p, m) ∷ []) hi
    → Sparse (λ r. r.0 == p) (q ++ (p, m) ∷ [])
Sparse-back lo [] p hi m h = tt
Sparse-back lo (r ∷ []) p hi m h =
    ((λ e. absurd (eq_clash r.0 p (below (suc r.0) [] p hi m h.1) e)), tt)
Sparse-back lo (r ∷ r' ∷ q) p hi m h = (
  (λ e. absurd (eq_clash r.0 p (below (suc r.0) (r' ∷ q) p hi m h.1) e)),
  Sparse-back (suc r.0) (r' ∷ q) p hi m h.1,
)

-- Removing the response at the back by its address leaves the others.
pub remove_response-back :
    (q : List Response) (p : ℕ) (m : Message) (d : Driver)
    → IsOrdered d
    → d.response_queue ≡ q ++ (p, m) ∷ []
    → remove_response (p, m) d ≡ record d { response_queue = q }
unfolding remove_response
remove_response-back q p m d h e =
    let o = rw e at h in
    ap (λ l. record d { response_queue = l })
      (ap (remove (λ r. r.0 == p)) e
        ∙ (remove-keep (λ r. r.0 == p) (q ++ (p, m) ∷ []) (Sparse-back 0 q p d.next_response m o)
            ∙ keep_others 0 q p d.next_response m o))
