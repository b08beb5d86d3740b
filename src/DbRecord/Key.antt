-- ===== src/DbRecord/Key.antt =====
-- PicoDB/pico/DBRecord.h: the key that is read from a record.
use pico_db.Prelude.{
  ℕ, zero, suc, ◌+◌, ◌≤◌, ◌<◌, ◌≡◌, refl, false, List, [], ◌∷◌, ◌++◌, returns, ◌>>=◌, Text,
  is_empty, length, take, drop, replicate, arith, if◌then◌else◌, NoNul, ap, ==-ne, ◌⊎◌, inl, inr,
  le→leb, take_all, some, length-replicate, take-append, length-append, length-drop,
}
use mathlib.Core.Path.{subst}
use pico_db.Record.{read_block}
use pico_db.DbRecord.{
  DbRecord, IsSized, get_key_as_string, set_the_key_in_data, padded, unpad_the_key, to_string,
}

pub length-padded : (n : ℕ) (key : Text) → length (padded n key) ≡ n
unfolding padded
length-padded zero key = refl
length-padded (suc n) [] = ap suc (length-padded n [])
length-padded (suc n) (c ∷ cs) = ground (arith, length-padded n cs, length-replicate {A = ℕ} n 0)

-- The length of the array stays.
pub set_the_key_in_data-IsSized :
    (key : Text) (r : DbRecord) → IsSized r → IsSized (set_the_key_in_data key r)
unfolding set_the_key_in_data
set_the_key_in_data-IsSized key r s = record {
  size_lem = omega (
    arith,
    length-append (padded 32 key) (drop 32 r.bytes),
    length-padded 32 key,
    length-drop 32 r.bytes,
    s.size_lem,
  );
}

read-padded :
    (key : Text) (rest : List ℕ) → read_block 32 (padded 32 key ++ rest) ≡ returns (padded 32 key)
read-padded key rest =
    let long : 32 ≤ length (padded 32 key ++ rest) =
      omega (arith, length-append (padded 32 key) rest, length-padded 32 key) in
    let front : take 32 (padded 32 key ++ rest) ≡ padded 32 key =
      subst (λ (n : ℕ). take n (padded 32 key ++ rest) ≡ padded 32 key) (length-padded 32 key)
        (take-append (padded 32 key) rest) in
    rw (le→leb 32 (length (padded 32 key ++ rest)) long, front) refl

pub filled-not_empty : (n : ℕ) (key : Text) → is_empty (padded (suc n) key) ≡ false
unfolding padded
filled-not_empty n [] = refl
filled-not_empty n (c ∷ cs) = ground arith

pub Text-cases : (t : Text) → (t ≡ []) ⊎ ((c : ℕ) × (cs : Text) × (t ≡ c ∷ cs))
Text-cases [] = inl refl
Text-cases (c ∷ cs) = inr (c, cs, refl)

-- The key that a record gives after a key was set: if none was read before, the thirty-two bytes that
-- the key was cut off or filled up to, and else still the text that was read before.
pub get_key-set_key :
    (key : Text) (r : DbRecord)
    → (get_key_as_string (set_the_key_in_data key r) >>= λ x. returns (x.0))
      ≡ returns (if is_empty r.key then padded 32 key else r.key)
unfolding get_key_as_string set_the_key_in_data
get_key-set_key key r = elim (Text-cases r.key) [
  | inl e ↦ rw (e, read-padded key (drop 32 r.bytes), filled-not_empty 31 key) refl
  | inr (c, cs, e) ↦ rw e refl
]

padded-nil : (m : ℕ) → padded m [] ≡ replicate m 0
unfolding padded
padded-nil zero = refl
padded-nil (suc m) = ap (λ (t : List ℕ). 0 ∷ t) (padded-nil m)

-- A short key is filled up with NULs,
pub padded-short :
    (n : ℕ) (key : Text) (m : ℕ)
    → NoNul key
    → n ≡ length key + m
    → padded n key ≡ key ++ replicate m 0
unfolding padded
padded-short n [] m h e = let same : n ≡ m = omega (arith, e) in rw same (padded-nil m)
padded-short zero (c ∷ cs) m h e = absurd (omega (arith, e))
padded-short (suc n) (c ∷ cs) m h e =
    rw (==-ne c 0 h.0) (ap (λ (t : List ℕ). c ∷ t) (padded-short n cs m h.1 (omega (arith, e))))

-- and of a long one the end is cut off.
pub padded-long : (n : ℕ) (key : Text) → NoNul key → n ≤ length key → padded n key ≡ take n key
unfolding padded
padded-long zero key h l = refl
padded-long (suc n) [] h l = absurd (omega arith)
padded-long (suc n) (c ∷ cs) h l =
    rw (==-ne c 0 h.0) (ap (λ (t : List ℕ). c ∷ t) (padded-long n cs h.1 (omega arith)))

-- The characters at the even places.
abbrev pub every_other : Text → Text
every_other [] = []
every_other (c ∷ []) = c ∷ []
every_other (c ∷ _ ∷ cs) = c ∷ every_other cs

pub unpad_the_key-every_other :
    (key : Text) (rest : List ℕ)
    → NoNul key
    → unpad_the_key (key ++ (0 ∷ (0 ∷ rest))) ≡ returns (every_other key)
unfolding unpad_the_key
unpad_the_key-every_other [] rest h = refl
unpad_the_key-every_other (c ∷ []) rest h = ground (arith, h.0)
unpad_the_key-every_other (c ∷ d ∷ cs) rest h =
    ground (arith, h.0, unpad_the_key-every_other cs rest h.1.1)

pub not_empty : (t : Text) → 0 < length t → is_empty t ≡ false
not_empty [] h = absurd (omega arith)
not_empty (c ∷ cs) h = refl

pub to_string-sized :
    (r : DbRecord)
    → IsSized r
    → to_string r ≡ returns (r.bytes, record r { data_copy = some r.bytes })
unfolding to_string
to_string-sized r s =
    rw
      (
        le→leb 81 (length r.bytes) (omega (arith, s.size_lem)),
        take_all 81 r.bytes (omega (arith, s.size_lem)),
        not_empty r.bytes (omega (arith, s.size_lem)),
      )
      refl
