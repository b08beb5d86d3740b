-- ===== src/Examples.antt =====
-- PicoDB/Examples.h: the examples that are pure or that list a directory.
use pico_db.Prelude.{
  ℕ, suc, ◌+◌, ◌≡◌, refl, Bool, List, [], ◌∷◌, ◌++◌, append_assoc, append-nil, Bool-cases, inl, inr,
  Text, codes, keep, length, arith, if◌then◌else◌, ap, ◌∙◌, sym,
}

-- AddressBook::findMatchingAddresses, from an address on, with the results so far
find_from : (Text → Bool) → List Text → List Text → List Text
find_from func [] results = results
find_from func (address ∷ rest) results =
    find_from func rest (if func address then results ++ (address ∷ []) else results)

unfoldable pub find_matching_addresses : (Text → Bool) → List Text → List Text
unfolding find_from
find_matching_addresses func addresses = find_from func addresses []

-- bag, whose `insert` keeps nothing
pub record Bag {ℓ} (A : Type ℓ) : Type ℓ where
  pub bag : List A

bag_insert {ℓ} : {A : Type ℓ} → A → Bag A → Bag A
bag_insert item b = b

bag_size {ℓ} : {A : Type ℓ} → Bag A → ℕ
bag_size b = length b.bag

-- triangleArea and multiplyObject, at a type with this product
triangle_area {ℓ} : {A : Type ℓ} → (A → A → A) → A → A → A
triangle_area times base height = times base height

multiply_object {ℓ κ} : {A : Type ℓ} {B : Type κ} → (A → A → B) → A → A → B
multiply_object times first second = times first second

-- What the status of an entry of a directory is, or the text of the exception.
pub data Status : Type 0 where
  is_directory is_regular_file is_other : Status
  throws_error : Text → Status

-- The counters are unsigned longs: a directory has less than 2^64 entries.
pub record Counts : Type 0 where
  pub file_count : ℕ
  pub dir_count : ℕ
  pub other_count : ℕ
  pub err_count : ℕ

-- One round of boostFileLSExample: the counters, and the line that is logged.
unfoldable pub list_entry : Text × Status → Counts → Counts × Text
list_entry (filename, is_directory) c =
    (record c { dir_count = c.dir_count + 1 }, filename ++ codes " [directory]\n")
list_entry (filename, is_regular_file) c =
    (record c { file_count = c.file_count + 1 }, filename ++ codes "\n")
list_entry (filename, is_other) c =
    (record c { other_count = c.other_count + 1 }, filename ++ codes " [other]\n")
list_entry (filename, throws_error what) c =
    (record c { err_count = c.err_count + 1 }, filename ++ (codes " " ++ what))

unfoldable pub list_directory : List (Text × Status) → Counts → Counts × List Text
unfolding list_entry
list_directory [] c = (c, [])
list_directory (entry ∷ rest) c =
    let (counted, line) = list_entry entry c in
    let (last, lines) = list_directory rest counted in (last, line ∷ lines)

-- What stands at the path of boostFileLSExample.
pub data Found : Type 0 where
  nothing : Found
  a_directory : List (Text × Status) → Found
  a_file : Found

-- boostFileLSExample: what is logged
boost_file_ls_example : (ℕ → Text) → Text → Found → List Text
unfolding list_directory
boost_file_ls_example to_text p nothing = (codes "\nNot found: " ++ p) ∷ []
boost_file_ls_example to_text p (a_directory entries) =
    let none_yet : Counts = record {
      file_count = 0;
      dir_count = 0;
      other_count = 0;
      err_count = 0;
    } in
    let (c, lines) = list_directory entries none_yet in
    (codes "\nIn directory: " ++ (p ++ codes "\n\n"))
    ∷ (lines
        ++ ((codes "\n"
              ++ (to_text c.file_count
                  ++ (codes " files\n"
                      ++ (to_text c.dir_count
                          ++ (codes " directories\n"
                              ++ (to_text c.other_count
                                  ++ (codes " others\n"
                                      ++ (to_text c.err_count ++ codes " errors\n"))))))))
            ∷ []))
boost_file_ls_example to_text p a_file = (codes "\nFound: " ++ (p ++ codes "\n")) ∷ []

-- The addresses that are found are the matching ones, in their order.
find_from-keep :
    (func : Text → Bool) (addresses results : List Text)
    → find_from func addresses results ≡ results ++ keep func addresses
unfolding find_from
find_from-keep func [] results = sym (append-nil results)
find_from-keep func (address ∷ rest) results = elim (Bool-cases (func address)) [
  | inl e ↦ rw e (
      find_from-keep func rest (results ++ (address ∷ []))
      ∙ append_assoc results (address ∷ []) (keep func rest))
  | inr e ↦ rw e (find_from-keep func rest results)
]

pub find_matching_addresses-keep :
    (func : Text → Bool) (addresses : List Text)
    → find_matching_addresses func addresses ≡ keep func addresses
unfolding find_matching_addresses
find_matching_addresses-keep func addresses = find_from-keep func addresses []

-- Every entry of a directory is counted once, and has one line.
pub list_directory-counts :
    (entries : List (Text × Status)) (c : Counts)
    → let (last, lines) = list_directory entries c in
      (last.file_count + last.dir_count + last.other_count + last.err_count
        ≡ c.file_count + c.dir_count + c.other_count + c.err_count + length entries)
      × (length lines ≡ length entries)
unfolding list_directory list_entry
list_directory-counts [] c = (omega arith, refl)
list_directory-counts ((filename, is_directory) ∷ rest) c =
    let (sum, lines) = list_directory-counts rest (record c { dir_count = c.dir_count + 1 }) in
    (omega (arith, sum), ap suc lines)
list_directory-counts ((filename, is_regular_file) ∷ rest) c =
    let (sum, lines) = list_directory-counts rest (record c { file_count = c.file_count + 1 }) in
    (omega (arith, sum), ap suc lines)
list_directory-counts ((filename, is_other) ∷ rest) c =
    let (sum, lines) = list_directory-counts rest (record c { other_count = c.other_count + 1 }) in
    (omega (arith, sum), ap suc lines)
list_directory-counts ((filename, throws_error what) ∷ rest) c =
    let (sum, lines) = list_directory-counts rest (record c { err_count = c.err_count + 1 }) in
    (omega (arith, sum), ap suc lines)
