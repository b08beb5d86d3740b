-- ===== src/Logger/Lines.antt =====
-- What stands in the files that PicoDB/pico/logger.h writes.
use mathlib.Core.Path.{subst}
use pico_db.Prelude.{
  &&-true, ℕ, ◌≡◌, refl, ap, sym, ◌∙◌, ◌≢◌, Bool, true, false, ◌&&◌, List, [], ◌∷◌, ◌++◌, All,
  All-append, some, inl, inr, Option-cases, Bool-cases, Text, codes, text_eq, text_eq_refl,
  text_eq→≡, if◌then◌else◌, ◌==◌, ==-ne, arith, append_assoc, append-nil,
}
use pico_db.Files.{Files, c_str}
use pico_db.Files.Laws.{written_self, written_other}
use pico_db.Logger.{Logger, extended, log, log_line}

-- One call of `log`.
pub record Entry : Type 0 where
  pub by : Logger
  pub now : Text
  pub message : Text

-- Calls of `log` by any loggers, in the order in which they are done.
pub log_all : List Entry → Files → Files
unfolding log
log_all [] fs = fs
log_all (e ∷ es) fs = log_all es (log e.now e.message e.by fs)

-- the entries that go to a file
abbrev goes_to : Text → Entry → Bool
goes_to path e = e.by.good && text_eq e.by.path path

abbrev pub lines_to : Text → List Entry → List Text
lines_to path [] = []
lines_to path (e ∷ es) =
    let rest = lines_to path es in if goes_to path e then log_line e.now e.message ∷ rest else rest

-- each line behind a newline
abbrev unlines : List Text → Text
unlines [] = []
unlines (l ∷ ls) = b'\n' ∷ (l ++ unlines ls)

abbrev put_first : ℕ → List Text → List Text
put_first c [] = (c ∷ []) ∷ []
put_first c (t ∷ ts) = (c ∷ t) ∷ ts

-- The lines of a text.
pub split_lines : Text → List Text
split_lines [] = [] ∷ []
split_lines (c ∷ cs) =
    let rest = split_lines cs in if c == b'\n' then [] ∷ rest else put_first c rest

abbrev pub NoNewline : Text → Type 0
NoNewline = All (λ c. c ≢ b'\n')

extended-at :
    (path str old : Text) (fs : Files)
    → fs.contents path ≡ some old
    → (extended path str fs).contents path ≡ some (old ++ str)
extended-at path str old fs c = rw (c, extended) (written_self path (old ++ str) fs)

extended-other :
    (path str other : Text) (fs : Files)
    → other ≢ path
    → (extended path str fs).contents other ≡ fs.contents other
extended-other path str other fs h = elim (Option-cases (fs.contents path)) [
  | inl e ↦ rw (e, extended) refl
  | inr (bytes, e) ↦ rw (e, extended) (written_other path other (bytes ++ str) fs h)
]

log-goes :
    (path old : Text) (e : Entry) (fs : Files)
    → goes_to path e ≡ true
    → fs.contents path ≡ some old
    → (log e.now e.message e.by fs).contents path ≡ some (old ++ b'\n' ∷ log_line e.now e.message)
unfolding log
log-goes path old e fs g c =
    let (good, same) = &&-true e.by.good (text_eq e.by.path path) g in
    let str = b'\n' ∷ log_line e.now e.message in
    let here : e.by.path ≡ path = text_eq→≡ e.by.path path same in
    rw good (
      subst (λ p. (extended p str fs).contents path ≡ some (old ++ str)) (sym here)
        (extended-at path str old fs c))

log-stays :
    (path : Text) (e : Entry) (fs : Files)
    → goes_to path e ≡ false
    → (log e.now e.message e.by fs).contents path ≡ fs.contents path
unfolding log
log-stays path e fs g = elim (Bool-cases e.by.good) [
  | inr bad ↦ rw bad refl
  | inl good ↦ rw good (
      extended-other e.by.path (b'\n' ∷ log_line e.now e.message) path fs
        (λ same. no_self path (subst (λ p. text_eq p path ≡ false) (sym same) (rw good at g))))
]
  where
    no_self : (t : Text) → text_eq t t ≡ false → ⊥
    no_self t h = let yes_self = text_eq_refl t in cc

log_all-contents :
    (path old : Text) (es : List Entry) (fs : Files)
    → fs.contents path ≡ some old
    → (log_all es fs).contents path ≡ some (old ++ unlines (lines_to path es))
unfolding log_all
log_all-contents path old [] fs c = c ∙ ap some (sym (append-nil old))
log_all-contents path old (e ∷ es) fs c = elim (Bool-cases (goes_to path e)) [
  | inl g ↦ rw g (
      log_all-contents path (old ++ b'\n' ∷ log_line e.now e.message) es
        (log e.now e.message e.by fs) (log-goes path old e fs g c)
      ∙ ap some (append_assoc old (b'\n' ∷ log_line e.now e.message) (unlines (lines_to path es))))
  | inr g ↦
      rw g (log_all-contents path old es (log e.now e.message e.by fs) (log-stays path e fs g ∙ c))
]

split_lines-unlines :
    (ls : List Text) (old : Text)
    → NoNewline old
    → All NoNewline ls
    → split_lines (old ++ unlines ls) ≡ old ∷ ls
unfolding split_lines
split_lines-unlines [] [] h k = refl
split_lines-unlines (l ∷ ls) [] h k = ap (λ r. [] ∷ r) (split_lines-unlines ls l k.0 k.1)
split_lines-unlines ls (c ∷ cs) h k =
    rw (==-ne c b'\n' h.0) (rw (split_lines-unlines ls cs h.1 k) refl)

c_str-NoNewline : (t : Text) → NoNewline t → NoNewline (c_str t)
c_str-NoNewline [] h = tt
c_str-NoNewline (c ∷ t) h = elim (Bool-cases (c == 0)) [
  | inl e ↦ rw e tt
  | inr e ↦ rw e (h.0, c_str-NoNewline t h.1)
]

-- A call whose time and message fit on a line.
pub record IsPlain (e : Entry) : Type 0 where
  pub plain_time : NoNewline e.now
  pub plain_message : NoNewline e.message

log_line-NoNewline : (e : Entry) → IsPlain e → NoNewline (log_line e.now e.message)
log_line-NoNewline e p =
    All-append (λ c. c ≢ b'\n') (codes "Time : ") (e.now ++ (codes "  " ++ c_str e.message))
      (omega arith)
      (All-append (λ c. c ≢ b'\n') e.now (codes "  " ++ c_str e.message) p.plain_time
        (All-append (λ c. c ≢ b'\n') (codes "  ") (c_str e.message) (omega arith)
          (c_str-NoNewline e.message p.plain_message)))

lines_to-NoNewline :
    (path : Text) (es : List Entry) → All IsPlain es → All NoNewline (lines_to path es)
lines_to-NoNewline path [] h = tt
lines_to-NoNewline path (e ∷ es) h = elim (Bool-cases (goes_to path e)) [
  | inl g ↦ rw g (log_line-NoNewline e h.0, lines_to-NoNewline path es h.1)
  | inr g ↦ rw g (lines_to-NoNewline path es h.1)
]

-- Whatever calls of `log` are made, of however many loggers: the lines of a file are the one that it
-- held before, and then one line for each call of a logger that has this file open, in the order of
-- the calls, with the time and with the message up to its first NUL. The times and messages hold no
-- newline, and neither does what the file held before.
pub log_all-lines :
    (path old : Text) (es : List Entry) (fs : Files)
    → fs.contents path ≡ some old
    → NoNewline old
    → All IsPlain es
    → (text : Text) × ((log_all es fs).contents path ≡ some text)
      × (split_lines text ≡ old ∷ lines_to path es)
log_all-lines path old es fs c h p = (
  old ++ unlines (lines_to path es),
  log_all-contents path old es fs c,
  split_lines-unlines (lines_to path es) old h (lines_to-NoNewline path es p),
)
