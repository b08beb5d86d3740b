-- ===== src/OldRecord/Markers.antt =====
-- Keys, markers and bounds of PicoDB/pico/pico_record_old_version.h.
use pico_db.Prelude.{
  ℕ, zero, suc, ◌+◌, ◌-◌, ◌≤◌, ◌<◌, ◌≡◌, refl, ap, ◌∙◌, true, false, List, [], ◌∷◌, ◌++◌, some,
  returns, undefined, Text, NoNul, c_string, c_string-NoNul, codes, length, get_elem?, replicate,
  ltb, lt→ltb, drop, arith, length-drop, Bool-cases, ◌⊎◌, inl, inr, Option-cases, ==-self,
}
use pico_db.OldRecord.{
  OldRecord, IsSized, overwrite, zeros_from, set_array, set_key, set_value, set_data, set_key_value,
  elements_from, get_key_as_string, clear, starts_with, record_starts_with_begkey,
  record_starts_with_conkey, record_is_empty, replicate_the_first_record_key_to_other_records,
  add_key_marker_to_first_record,
}

zeros_from-zero : (a : List ℕ) → zeros_from 0 a ≡ replicate (length a) 0
zeros_from-zero [] = refl
zeros_from-zero (x ∷ a) = ap (◌∷◌ 0) (zeros_from-zero a)

zeros_from-overwrite :
    (t : Text) (a : List ℕ)
    → length t ≤ length a
    → zeros_from (length t) (overwrite t a) ≡ t ++ replicate (length a - length t) 0
zeros_from-overwrite [] a h = zeros_from-zero a ∙ ap (λ n. replicate n 0) (omega arith)
zeros_from-overwrite (c ∷ t) [] h = absurd (omega arith)
zeros_from-overwrite (c ∷ t) (x ∷ a) h =
    ap (◌∷◌ c) (zeros_from-overwrite t a (omega arith) ∙ ap (λ n. t ++ replicate n 0) (omega arith))

set_array_lem :
    (t : Text) (a : List ℕ)
    → length t < length a
    → set_array t a ≡ returns (t ++ replicate (length a - length t) 0)
unfolding set_array
set_array_lem t a h =
    rw (lt→ltb (length t) (length a) h, zeros_from-overwrite t a (omega arith)) refl

padded : (t : Text) (n : ℕ) → NoNul t → 0 < n → c_string (t ++ replicate n 0) ≡ some t
padded t zero h pos = absurd (omega arith)
padded t (suc n) h pos = c_string-NoNul t (replicate n 0) h

-- A key of less than 32 characters is stored with NULs behind it up to the end of its array, and is
-- what a C string at the array reads, if it holds no NUL.
pub set_key-get_key_as_string :
    (t : Text) (r : OldRecord)
    → IsSized r
    → length t < 32
    → NoNul t
    → (r' : OldRecord) × (set_key t r ≡ returns r')
      × (get_key_as_string r' ≡ t ++ replicate (32 - length t) 0)
      × (c_string (get_key_as_string r') ≡ some t)
unfolding set_key get_key_as_string
set_key-get_key_as_string t r s h no_nul =
    let size = s.key_size in
    let key : List ℕ = t ++ replicate (32 - length t) 0 in
    (
      record r { key = key },
      rw (set_array_lem t r.key (omega arith), size) refl,
      refl,
      padded t (32 - length t) no_nul (omega arith),
    )

get_elem?-lt : (a : List ℕ) (i x : ℕ) → get_elem? a i ≡ some x → i < length a
get_elem?-lt [] i x e = cc
get_elem?-lt (y ∷ a) zero x e = omega arith
get_elem?-lt (y ∷ a) (suc i) x e = omega (arith, get_elem?-lt a i x e)

length-overwrite : (t : Text) (a : List ℕ) → length (overwrite t a) ≡ length a
length-overwrite [] a = refl
length-overwrite (c ∷ t) [] = refl
length-overwrite (c ∷ t) (x ∷ a) = ap suc (length-overwrite t a)

elements_from-undefined :
    (i n : ℕ) (a : List ℕ) → i ≤ length a → length a < i + n → elements_from i n a ≡ undefined
unfolding elements_from
elements_from-undefined i zero a low high = absurd (omega arith)
elements_from-undefined i (suc n) a low high = elim (Option-cases (get_elem? a i)) [
  | inl e ↦ rw e refl
  | inr (x, e) ↦
      rw
        (e, elements_from-undefined (suc i) n a (omega (arith, get_elem?-lt a i x e)) (omega arith))
        refl
]

overwrite-starts_with :
    (t : Text) (a : List ℕ) → length t ≤ length a → starts_with t (overwrite t a) ≡ true
overwrite-starts_with [] a h = refl
overwrite-starts_with (c ∷ t) [] h = absurd (omega arith)
overwrite-starts_with (c ∷ t) (x ∷ a) h = rw (==-self c) (overwrite-starts_with t a (omega arith))

-- A first record that got its marker is known by it, and a record that got the key of the first one
-- is known as a continuation, and by nothing else; both keep the characters behind the marker.
pub replicate_the_first_record_key_to_other_records-marks :
    (first current : OldRecord)
    → IsSized first
    → let marked = add_key_marker_to_first_record first in
      let next = replicate_the_first_record_key_to_other_records marked current in
      (record_starts_with_begkey marked ≡ true)
      × (record_starts_with_conkey next ≡ true)
      × (record_starts_with_begkey next ≡ false)
      × (drop 6 next.key ≡ drop 6 marked.key)
      × (length next.key ≡ 32)
unfolding add_key_marker_to_first_record replicate_the_first_record_key_to_other_records
    record_starts_with_begkey record_starts_with_conkey
replicate_the_first_record_key_to_other_records-marks first current s = (
  overwrite-starts_with (codes "BEGKEY") first.key (omega (arith, s.key_size)),
  refl,
  refl,
  refl,
  omega (
    arith,
    length-drop 6 (overwrite (codes "BEGKEY") first.key),
    length-overwrite (codes "BEGKEY") first.key,
    s.key_size,
  ),
)

-- A record that was cleared counts as empty.
clear-record_is_empty : (r : OldRecord) → IsSized r → record_is_empty (clear r) ≡ true
unfolding clear record_is_empty
clear-record_is_empty r s = rw (zeros_from-zero r.key) (rw (s.key_size) refl)

elements_from-cases :
    (i n : ℕ) (a : List ℕ)
    → (elements_from i n a ≡ undefined) ⊎ ((b : List ℕ) × (elements_from i n a ≡ returns b))
unfolding elements_from
elements_from-cases i zero a = inr ([], refl)
elements_from-cases i (suc n) a = elim (Option-cases (get_elem? a i)) [
  | inl e ↦ inl (rw e refl)
  | inr (x, e) ↦ elim (elements_from-cases (suc i) n a) [
    | inl u ↦ inl (rw (e, u) refl)
    | inr (b, f) ↦ inr (x ∷ b, rw (e, f) refl)
  ]
]

set_data-undefined : (r : OldRecord) → length r.value ≡ 128 → set_data r ≡ undefined
unfolding set_data
set_data-undefined r size =
    let beyond = elements_from-undefined 32 128 r.value (omega arith) (omega arith) in
    elim (elements_from-cases 0 32 r.key) [ inl u ↦ rw u refl | inr (b, f) ↦ rw (f, beyond) refl ]

length-zeros_from : (i : ℕ) (a : List ℕ) → length (zeros_from i a) ≡ length a
length-zeros_from i [] = refl
length-zeros_from zero (x ∷ a) = ap suc (length-zeros_from zero a)
length-zeros_from (suc i) (x ∷ a) = ap suc (length-zeros_from i a)

set_array-cases :
    (t : Text) (a : List ℕ)
    → (set_array t a ≡ undefined)
      ⊎ ((b : List ℕ) × (set_array t a ≡ returns b) × (length b ≡ length a))
unfolding set_array
set_array-cases t a = elim (Bool-cases (ltb (length t) (length a))) [
  | inl e ↦ inr (
    zeros_from (length t) (overwrite t a),
    rw e refl,
    length-zeros_from (length t) (overwrite t a) ∙ length-overwrite t a,
  )
  | inr e ↦ inl (rw e refl)
]

-- `setData` reads the value at the indices of the data, and so beyond its array: setting a key and a
-- value, and with that the constructor that does so, is always undefined.
pub set_key_value-undefined :
    (key value : Text) (r : OldRecord) → IsSized r → set_key_value key value r ≡ undefined
unfolding set_key_value set_key set_value
set_key_value-undefined key value r s = elim (set_array-cases key r.key) [
  | inl u ↦ rw u refl
  | inr (b, e, size) ↦ elim (set_array-cases value r.value) [
    | inl u ↦ rw (e, u) refl
    | inr (c, f, size') ↦
        rw (e, f) (set_data-undefined (record r { key = b; value = c }) (size' ∙ s.value_size))
  ]
]
