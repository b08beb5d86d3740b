-- ===== src/Record/SizeInfo.antt =====
-- Which buffers `IsThisRecordASizeInfo` of PicoDB/pico/pico_record.h takes for a size message.
use pico_db.Prelude.{
  ℕ, ◌≡◌, refl, ap, Bool, true, false, ◌&&◌, ◌||◌, List, [], ◌∷◌, ◌++◌, arith, length, leb, ◌==◌,
  ◌↔◌, Bool-cases, inl, inr,
}
use pico_db.Utils.{hash, hashes}
use pico_db.Record.{is_size_info_bytes, three_hashes}

-- Four hashes with at least one byte behind them.
pub record HasMarker (bytes : List ℕ) : Type 0 where
  pub before : List ℕ
  pub next : ℕ
  pub after : List ℕ
  pub splits : bytes ≡ before ++ hashes ++ next ∷ after

extend : (x : ℕ) {xs : List ℕ} → HasMarker xs → HasMarker (x ∷ xs)
extend x m = record {
  before = x ∷ m.before;
  next = m.next;
  after = m.after;
  splits = ap (◌∷◌ x) m.splits;
}

marker_here :
    (x : ℕ) (xs : List ℕ)
    → ((x == hash) && (leb 4 (length xs) && three_hashes xs)) ≡ true
    → HasMarker (x ∷ xs)
marker_here x (a ∷ b ∷ c ∷ d ∷ rest) h = record {
  before = [];
  next = d;
  after = rest;
  splits = ground arith;
}
marker_here x [] h = ground arith
marker_here x (a ∷ []) h = ground arith
marker_here x (a ∷ b ∷ []) h = ground arith
marker_here x (a ∷ b ∷ c ∷ []) h = ground arith

sound : (bytes : List ℕ) → is_size_info_bytes bytes ≡ true → HasMarker bytes
unfolding is_size_info_bytes
sound [] h = cc
sound (x ∷ xs) h = elim (Bool-cases ((x == hash) && (leb 4 (length xs) && three_hashes xs))) [
  | inl here ↦ marker_here x xs here
  | inr miss ↦ extend x (sound xs (rw miss at h))
]

or-true : (b : Bool) → (b || true) ≡ true
or-true true = refl
or-true false = refl

marked :
    (before : List ℕ) (next : ℕ) (after : List ℕ)
    → is_size_info_bytes (before ++ hashes ++ next ∷ after) ≡ true
unfolding is_size_info_bytes
marked [] next after = ground arith
marked (x ∷ before) next after = rw (marked before next after) (or-true _)

-- A buffer passes for a size message exactly if somewhere in it four hashes stand in front of at
-- least one more byte.
pub is_size_info_iff : (bytes : List ℕ) → (is_size_info_bytes bytes ≡ true) ↔ HasMarker bytes
is_size_info_iff bytes = (sound bytes, λ m. rw m.splits (marked m.before m.next m.after))
