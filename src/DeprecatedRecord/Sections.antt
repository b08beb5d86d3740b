-- ===== src/DeprecatedRecord/Sections.antt =====
-- PicoDB/pico/pico_record_deprecated.h: the sections of an array do not meet.
use mathlib.Core.Path.{subst}
use pico_db.Prelude.{
  ℕ, zero, suc, ◌+◌, ◌-◌, ◌≤◌, ◌≡◌, refl, List, [], ◌∷◌, ◌++◌, length, take, drop, arith, ap, ◌∙◌,
  take-append, take-append_le, length-append, length-take, length-drop, drop-nil,
}
use pico_db.DeprecatedRecord.{section_of, with_section}

take-take_le : (m c : ℕ) (xs : List ℕ) → m ≤ c → take m (take c xs) ≡ take m xs
take-take_le zero c xs h = refl
take-take_le (suc m) zero xs h = absurd (omega arith)
take-take_le (suc m) (suc c) [] h = refl
take-take_le (suc m) (suc c) (x ∷ xs) h =
    ap (λ (t : List ℕ). x ∷ t) (take-take_le m c xs (omega arith))

section_of-take :
    (b m c : ℕ) (xs : List ℕ) → b + m ≤ c → section_of b m (take c xs) ≡ section_of b m xs
section_of-take zero m c xs h = take-take_le m c xs (omega (arith, h))
section_of-take (suc b) m zero xs h = absurd (omega arith)
section_of-take (suc b) m (suc c) [] h = refl
section_of-take (suc b) m (suc c) (x ∷ xs) h = section_of-take b m c xs (omega arith)

section_of-append_le :
    (b m : ℕ) (xs ys : List ℕ) → b + m ≤ length xs → section_of b m (xs ++ ys) ≡ section_of b m xs
section_of-append_le zero m xs ys h = take-append_le m xs ys (omega (arith, h))
section_of-append_le (suc b) m [] ys h = absurd (omega (arith, h))
section_of-append_le (suc b) m (x ∷ xs) ys h = section_of-append_le b m xs ys (omega arith)

drop-append_add :
    (k : ℕ) (xs ys : List ℕ) (n : ℕ) → n ≡ length xs + k → drop n (xs ++ ys) ≡ drop k ys
drop-append_add k [] ys n e = let same : n ≡ k = omega (arith, e) in rw same refl
drop-append_add k (x ∷ xs) ys zero e = absurd (omega (arith, e))
drop-append_add k (x ∷ xs) ys (suc n) e = drop-append_add k xs ys n (omega (arith, e))

drop-drop : (a b n : ℕ) (xs : List ℕ) → n ≡ b + a → drop a (drop b xs) ≡ drop n xs
drop-drop a zero n xs e = let same : n ≡ a = omega (arith, e) in rw same refl
drop-drop a (suc b) zero xs e = absurd (omega (arith, e))
drop-drop a (suc b) (suc n) [] e = drop-nil a
drop-drop a (suc b) (suc n) (x ∷ xs) e = drop-drop a b n xs (omega (arith, e))

take-length : (n : ℕ) (xs ys : List ℕ) → length xs ≡ n → take n (xs ++ ys) ≡ xs
take-length n xs ys e = subst (λ k. take k (xs ++ ys) ≡ xs) e (take-append xs ys)

-- Whatever is put into a section keeps the length of the array,
pub length-with_section :
    (beg : ℕ) (part bytes : List ℕ)
    → beg + length part ≤ length bytes
    → length (with_section beg part bytes) ≡ length bytes
length-with_section beg part bytes h = omega (
  arith,
  h,
  length-append (take beg bytes) (part ++ drop (beg + length part) bytes),
  length-append part (drop (beg + length part) bytes),
  length-take beg bytes,
  length-drop (beg + length part) bytes,
)

-- is read back,
pub section_of-with_section :
    (beg size : ℕ) (part bytes : List ℕ)
    → length part ≡ size
    → beg + size ≤ length bytes
    → section_of beg size (with_section beg part bytes) ≡ part
section_of-with_section beg size part bytes e h =
    ap (take size) (
      drop-append_add 0 (take beg bytes) (part ++ drop (beg + length part) bytes) beg
        (omega (arith, length-take beg bytes, h)))
    ∙ take-length size part (drop (beg + length part) bytes) e

-- and leaves the sections in front of it and behind it.
pub section_of-in_front :
    (beg size at count : ℕ) (part bytes : List ℕ)
    → length part ≡ size
    → beg + size ≤ length bytes
    → at + count ≤ beg
    → section_of at count (with_section beg part bytes) ≡ section_of at count bytes
section_of-in_front beg size at count part bytes e h l =
    section_of-append_le at count (take beg bytes) (part ++ drop (beg + length part) bytes)
      (omega (arith, length-take beg bytes, h, l))
    ∙ section_of-take at count beg bytes l

pub section_of-behind :
    (beg size at count : ℕ) (part bytes : List ℕ)
    → length part ≡ size
    → beg + size ≤ length bytes
    → beg + size ≤ at
    → section_of at count (with_section beg part bytes) ≡ section_of at count bytes
section_of-behind beg size at count part bytes e h l = ap (take count) (
    drop-append_add (at - beg) (take beg bytes) (part ++ drop (beg + length part) bytes) at
      (omega (arith, length-take beg bytes, h, l))
    ∙ drop-append_add (at - (beg + size)) part (drop (beg + length part) bytes) (at - beg)
        (omega (arith, e, h, l))
    ∙ drop-drop (at - (beg + size)) (beg + length part) at bytes (omega (arith, e, h, l)))
