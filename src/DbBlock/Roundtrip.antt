-- ===== src/DbBlock/Roundtrip.antt =====
-- What PicoDB/pico/pico_collection.h reads again of a record that it wrote.
use pico_db.Prelude.{
  ℕ, zero, suc, ◌+◌, ◌-◌, ◌≤◌, ◌<◌, ◌≡◌, refl, ap, sym, ◌∙◌, Bool, true, false, ◌&&◌, ◌||◌, List,
  [], ◌∷◌, none, some, returns, arith, length, get_elem?, replicate, leb, ltb, ◌==◌, ==-ne, lt→ltb,
  if◌then◌else◌,
}
use pico_db.Record.{defined}
use pico_db.DbBlock.{
  Layout, RecordInDatabase, save_loop, assigned, restore_loop, save_record, restore_record,
}

-- From the index `i` on, the bytes of the first list where the test holds, and of the second
-- elsewhere.
abbrev pub choose : (ℕ → Bool) → ℕ → List ℕ → List ℕ → List ℕ
choose p i [] ys = []
choose p i (x ∷ xs) [] = []
choose p i (x ∷ xs) (y ∷ ys) = (if p i then x else y) ∷ choose p (suc i) xs ys

pub length-choose :
    (p : ℕ → Bool) (i : ℕ) (xs ys : List ℕ)
    → length xs ≡ length ys
    → length (choose p i xs ys) ≡ length ys
length-choose p i [] [] h = refl
length-choose p i [] (y ∷ ys) h = h
length-choose p i (x ∷ xs) [] h = refl
length-choose p i (x ∷ xs) (y ∷ ys) h = omega (arith, length-choose p (suc i) xs ys (omega arith))

either_byte :
    (b c : Bool) (x y : ℕ) → (if b then x else (if c then x else y)) ≡ (if b || c then x else y)
either_byte true c x y = refl
either_byte false c x y = refl

choose-choose :
    (p q : ℕ → Bool) (i : ℕ) (xs ys : List ℕ)
    → choose p i xs (choose q i xs ys) ≡ choose (λ j. p j || q j) i xs ys
choose-choose p q i [] ys = refl
choose-choose p q i (x ∷ xs) [] = refl
choose-choose p q i (x ∷ xs) (y ∷ ys) =
    rw (either_byte (p i) (q i) x y)
      (ap (λ t. (if p i || q i then x else y) ∷ t) (choose-choose p q (suc i) xs ys))

choose-ext :
    (p q : ℕ → Bool) (i : ℕ) (xs ys : List ℕ)
    → ((j : ℕ) → p j ≡ q j)
    → choose p i xs ys ≡ choose q i xs ys
choose-ext p q i [] ys h = refl
choose-ext p q i (x ∷ xs) [] h = refl
choose-ext p q i (x ∷ xs) (y ∷ ys) h =
    rw (h i) (ap (λ t. (if q i then x else y) ∷ t) (choose-ext p q (suc i) xs ys h))

choose-none :
    (p : ℕ → Bool) (i : ℕ) (xs ys : List ℕ)
    → length xs ≡ length ys
    → ((j : ℕ) → i ≤ j → p j ≡ false)
    → choose p i xs ys ≡ ys
choose-none p i [] [] e h = refl
choose-none p i [] (y ∷ ys) e h = cc
choose-none p i (x ∷ xs) [] e h = cc
choose-none p i (x ∷ xs) (y ∷ ys) e h =
    rw (h i (omega arith))
      (ap (◌∷◌ y) (choose-none p (suc i) xs ys (omega arith) (λ j le. h j (omega arith))))

-- One assignment.
assigned-choose :
    (i k c : ℕ) (xs ys : List ℕ)
    → length xs ≡ length ys
    → get_elem? xs k ≡ some c
    → assigned k c ys ≡ choose (λ j. j == i + k) i xs ys
assigned-choose i k c [] ys e h = cc
assigned-choose i k c (x ∷ xs) [] e h = cc
assigned-choose i zero c (x ∷ xs) (y ∷ ys) e h =
    let same : x ≡ c = cc in
    rw (==-self_add i) (
      sym (
        cons_eq same (
          choose-none (λ j. j == i + 0) (suc i) xs ys (omega arith)
            (λ j le. ==-ne j (i + 0) (omega arith)))))
  where
    ==-self_add : (i : ℕ) → (i == i + 0) ≡ true
    ==-self_add i = ground arith

    cons_eq : {x c : ℕ} {xs ys : List ℕ} → x ≡ c → xs ≡ ys → x ∷ xs ≡ c ∷ ys
    cons_eq p q = cc
assigned-choose i (suc k) c (x ∷ xs) (y ∷ ys) e h = rw (==-ne i (i + suc k) (omega arith)) (
    ap (◌∷◌ y) (
      assigned-choose (suc i) k c xs ys (omega arith) h
      ∙ choose-ext (λ j. j == suc i + k) (λ j. j == i + suc k) (suc i) xs ys
          (λ j. ap (◌==◌ j) (omega arith))))

abbrev pub within : ℕ → ℕ → ℕ → Bool
within beg end j = leb beg j && ltb j end

-- The bytes of a section, for so many rounds from an index on.
abbrev pub section : ℕ → ℕ → List ℕ → List ℕ
section zero i xs = []
section (suc rounds) i xs = elim (get_elem? xs i) [
  | none ↦ []
  | some c ↦ c ∷ section rounds (suc i) xs
]

byte_at : (xs : List ℕ) (i : ℕ) → i < length xs → (c : ℕ) × (get_elem? xs i ≡ some c)
byte_at [] i h = absurd (omega arith)
byte_at (x ∷ xs) zero h = (x, refl)
byte_at (x ∷ xs) (suc i) h = byte_at xs i (omega arith)

save_loop-section :
    (rounds i : ℕ) (xs : List ℕ)
    → i + rounds ≤ length xs
    → save_loop rounds i xs ≡ returns (section rounds i xs)
unfolding save_loop
save_loop-section zero i xs h = refl
save_loop-section (suc rounds) i xs h =
    let (c, e) = byte_at xs i (omega arith) in
    rw (e, defined, section, save_loop-section rounds (suc i) xs (omega arith)) refl

length-assigned : (i c : ℕ) (xs : List ℕ) → length (assigned i c xs) ≡ length xs
length-assigned i c [] = refl
length-assigned zero c (x ∷ xs) = refl
length-assigned (suc i) c (x ∷ xs) = omega (arith, length-assigned i c xs)

one_more :
    (i rounds j : ℕ)
    → (within (suc i) (suc i + rounds) j || (j == 0 + i)) ≡ within i (i + suc rounds) j
one_more i rounds j = ground arith

restore_loop-section :
    (rounds i : ℕ) (xs ys : List ℕ)
    → length xs ≡ length ys
    → i + rounds ≤ length xs
    → restore_loop rounds i (section rounds i xs) ys
      ≡ returns (choose (within i (i + rounds)) 0 xs ys)
unfolding restore_loop
restore_loop-section zero i xs ys e h =
    ap returns (sym (choose-none (within i (i + 0)) 0 xs ys e (λ j le. ground arith)))
restore_loop-section (suc rounds) i xs ys e h =
    let (c, at) = byte_at xs i (omega arith) in
    let ys' = assigned i c ys in
    let inside : ltb i (length ys) ≡ true = lt→ltb i (length ys) (omega arith) in
    let rest =
      restore_loop-section rounds (suc i) xs ys' (e ∙ sym (length-assigned i c ys)) (omega arith) in
    let both : choose (within (suc i) (suc i + rounds)) 0 xs ys'
        ≡ choose (within i (i + suc rounds)) 0 xs ys =
      ap (choose (within (suc i) (suc i + rounds)) 0 xs) (assigned-choose 0 i c xs ys e at)
      ∙ choose-choose (within (suc i) (suc i + rounds)) (λ j. j == 0 + i) 0 xs ys
      ∙ choose-ext (λ j. within (suc i) (suc i + rounds) j || (j == 0 + i))
          (within i (i + suc rounds)) 0 xs ys (one_more i rounds) in
    rw (at, restore_loop, inside) (rest ∙ ap returns both)

-- The layout fits into the data, and both sides agree on where the type ends.
pub record IsLayout (l : Layout) : Type 0 where
  pub type_end : l.end_key_type_index ≡ l.max_key_type_size
  pub type_le : l.max_key_type_size ≤ 81
  pub type_beg_le : l.beg_key_type_index ≤ l.max_key_type_size
  pub key_le : l.end_of_key_index ≤ 81
  pub key_beg_le : l.beg_of_key_index ≤ l.end_of_key_index
  pub value_le : l.end_of_value_index ≤ 81
  pub value_beg_le : l.beg_of_value_index ≤ l.end_of_value_index

module _ (l : Layout) where
  -- The indexes that the file keeps.
  abbrev pub is_saved : ℕ → Bool
  is_saved j =
      within l.beg_of_value_index l.end_of_value_index j
      || (within l.beg_of_key_index l.end_of_key_index j
          || within l.beg_key_type_index l.end_key_type_index j)

  -- What comes back of the data of a record: NULs where nothing was saved.
  unfoldable pub kept : List ℕ → List ℕ
  kept bytes = choose is_saved 0 bytes (replicate 81 0)

  unfoldable pub block_of : List ℕ → RecordInDatabase
  block_of bytes = record {
    type_holder = section (l.max_key_type_size - l.beg_key_type_index) l.beg_key_type_index bytes;
    key_holder = section (l.end_of_key_index - l.beg_of_key_index) l.beg_of_key_index bytes;
    value_holder = section (l.end_of_value_index - l.beg_of_value_index) l.beg_of_value_index bytes;
  }

  pub length-kept : (bytes : List ℕ) → length bytes ≡ 81 → length (kept bytes) ≡ 81
  unfolding kept
  length-kept bytes h = length-choose is_saved 0 bytes (replicate 81 0) h

  module _ (fits : IsLayout l) (bytes : List ℕ) (sized : length bytes ≡ 81) where
    pub save_record-block_of : save_record l bytes ≡ returns (block_of bytes)
    unfolding save_record block_of
    save_record-block_of =
        rw
          (
            save_loop-section (l.max_key_type_size - l.beg_key_type_index) l.beg_key_type_index
                bytes (omega (arith, fits.type_le, fits.type_beg_le, sized)),
            save_loop-section (l.end_of_key_index - l.beg_of_key_index) l.beg_of_key_index bytes
                (omega (arith, fits.key_le, fits.key_beg_le, sized)),
            save_loop-section (l.end_of_value_index - l.beg_of_value_index) l.beg_of_value_index
                bytes (omega (arith, fits.value_le, fits.value_beg_le, sized)),
          )
          refl

    -- one section, by its two ends
    restored :
        (beg end : ℕ) (ys : List ℕ)
        → beg ≤ end
        → end ≤ 81
        → length ys ≡ 81
        → restore_loop (end - beg) beg (section (end - beg) beg bytes) ys
          ≡ returns (choose (within beg end) 0 bytes ys)
    restored beg end ys h le e =
        let whole : beg + (end - beg) ≡ end = omega arith in
        rw whole at
          (restore_loop-section (end - beg) beg bytes ys (sized ∙ sym e) (omega (arith, sized)))

    pub restore_record-kept :
        restore_record l (block_of bytes) (replicate 81 0) ≡ returns (kept bytes)
    unfolding restore_record block_of kept
    restore_record-kept =
        let type = within l.beg_key_type_index l.max_key_type_size in
        let key = within l.beg_of_key_index l.end_of_key_index in
        let value = within l.beg_of_value_index l.end_of_value_index in
        let typed = choose type 0 bytes (replicate 81 0) in
        let long : length typed ≡ 81 = length-choose type 0 bytes (replicate 81 0) sized in
        let keyed = choose key 0 bytes typed in
        let longer : length keyed ≡ 81 =
          length-choose key 0 bytes typed (sized ∙ sym long) ∙ long in
        rw
          (
            fits.type_end,
            restored l.beg_key_type_index l.max_key_type_size (replicate 81 0) fits.type_beg_le
                fits.type_le refl,
            restored l.beg_of_key_index l.end_of_key_index typed fits.key_beg_le fits.key_le long,
            restored l.beg_of_value_index l.end_of_value_index keyed fits.value_beg_le fits.value_le
                longer,
          )
          (ap returns (
            ap (choose value 0 bytes) (choose-choose key type 0 bytes (replicate 81 0))
            ∙ choose-choose value (λ j. key j || type j) 0 bytes (replicate 81 0)))
