-- ===== src/Files/Laws.antt =====
-- What the helpers on files in PicoDB/pico/pico_utils.h do.
use pico_db.Prelude.{
  ℕ, ◌≡◌, refl, ◌≢◌, Bool, true, false, List, [], some, returns, undefined, sym, ap, ◌∙◌,
  returns-injective, ◌⊎◌, inl, inr, Bool-cases, Text, text_eq_refl, ne→text_eq,
}
use pico_db.Files.{
  Files, path_of, written, opens, check_file_exist, open_file_if_it_doesnt_exist, deleted_mark,
  truncate_the_file,
}

pub written_self :
    (name : Text) (bytes : List ℕ) (fs : Files) → (written name bytes fs).contents name ≡ some bytes
written_self name bytes fs = rw (text_eq_refl name) refl

opens-written :
    (name : Text) (bytes : List ℕ) (fs : Files)
    → fs.may_read name ≡ true
    → opens name (written name bytes fs) ≡ true
opens-written name bytes fs r = rw (written_self name bytes fs, opens) r

pub written_other :
    (name other : Text) (bytes : List ℕ) (fs : Files)
    → other ≢ name
    → (written name bytes fs).contents other ≡ fs.contents other
written_other name other bytes fs h = rw (ne→text_eq other name h) refl

-- A file that was replaced by `bytes`, and no other.
pub record Replaced (name : Text) (bytes : List ℕ) (fs fs' : Files) : Type 0 where
  pub here : fs'.contents (path_of name) ≡ some bytes
  pub elsewhere : (other : Text) → other ≢ path_of name → fs'.contents other ≡ fs.contents other
  pub same_rights : (fs'.may_read ≡ fs.may_read) × (fs'.may_write ≡ fs.may_write)

written-Replaced :
    (name : Text) (bytes : List ℕ) (fs : Files)
    → Replaced name bytes fs (written (path_of name) bytes fs)
written-Replaced name bytes fs = record {
  here = written_self (path_of name) bytes fs;
  elsewhere = λ other. written_other (path_of name) other bytes fs;
  same_rights = (refl, refl);
}

pub truncate_the_file-writes :
    (name : Text) (fs : Files)
    → fs.may_write (path_of name) ≡ true
    → truncate_the_file name fs ≡ returns (written (path_of name) deleted_mark fs)
unfolding truncate_the_file
truncate_the_file-writes name fs w = rw w refl

-- `truncateTheFile` does not leave the file empty: it holds a notice of 24 characters and a NUL, and
-- is a file whether it was one or not; no other file changes. If the file cannot be written, the
-- effect is undefined.
pub truncate_the_file-Replaced :
    (name : Text) (fs : Files)
    → ((fs.may_write (path_of name) ≡ true)
        × ((fs' : Files) × (truncate_the_file name fs ≡ returns fs')
            × Replaced name deleted_mark fs fs'))
      ⊎ ((fs.may_write (path_of name) ≡ false) × (truncate_the_file name fs ≡ undefined))
unfolding truncate_the_file
truncate_the_file-Replaced name fs = elim (Bool-cases (fs.may_write (path_of name))) [
  | inl e ↦ inl (
    e,
    (
      written (path_of name) deleted_mark fs,
      truncate_the_file-writes name fs e,
      written-Replaced name deleted_mark fs,
    ),
  )
  | inr e ↦ inr (e, rw e refl)
]

-- After a call of `openFileIfItDoesntExist` that returns, a file that may be read exists; a second
-- call says so, and changes nothing more. The first call changes the files only when it says that
-- there was none, and then it has made an empty one.
pub open_file_if_it_doesnt_exist-twice :
    (name : Text) (fs fs' : Files) (found : Bool)
    → fs.may_read (path_of name) ≡ true
    → open_file_if_it_doesnt_exist name fs ≡ returns (found, fs')
    → (check_file_exist name fs ≡ found)
      × (open_file_if_it_doesnt_exist name fs' ≡ returns (true, fs'))
      × (((found ≡ true) × (fs' ≡ fs)) ⊎ ((found ≡ false) × Replaced name [] fs fs'))
unfolding open_file_if_it_doesnt_exist check_file_exist
open_file_if_it_doesnt_exist-twice name fs fs' found r h =
    elim (Bool-cases (opens (path_of name) fs)) [
      | inl e ↦
          let same : (found ≡ true) × (fs' ≡ fs) =
            results (returns-injective (rw (e, open_file_if_it_doesnt_exist) at h)) in
          (e ∙ sym same.0, rw same.1 (rw e refl), inl same)
      | inr e ↦ elim (Bool-cases (fs.may_write (path_of name))) [
        | inl w ↦
            let same : (found ≡ false) × (fs' ≡ written (path_of name) [] fs) =
              results (returns-injective (rw w at (rw (e, open_file_if_it_doesnt_exist) at h))) in
            (
              e ∙ sym same.0,
              rw same.1 (rw (opens-written (path_of name) [] fs r) refl),
              inr (same.0, rw same.1 (written-Replaced name [] fs)),
            )
        | inr w ↦ absurd (never (rw w at (rw (e, open_file_if_it_doesnt_exist) at h)))
      ]
    ]
  where
    results : {a b : Bool} {x y : Files} → ◌≡◌ {A = Bool × Files} (a, x) (b, y) → (b ≡ a) × (y ≡ x)
    results e = (sym (ap (λ p. p.0) e), sym (ap (λ p. p.1) e))

    never : {x : Bool × Files} → undefined ≡ returns x → ⊥
    never e = cc
