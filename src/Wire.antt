-- ===== src/Wire.antt =====
-- The ten bytes that PicoDB/pico/pico_session.h and PicoDB/pico/pico_client.h send in front of each
-- message, and what the other side reads out of them.
use pico_db.Prelude.{
  ℕ, zero, suc, ◌+◌, ◌-◌, ◌≤◌, ◌<◌, ◌≡◌, refl, ap, ◌∙◌, ◌≢◌, Bool, true, not, List, [], ◌∷◌, ◌++◌,
  Option, some, returns, Text, All, NoNul, c_string, c_string-NoNul, length, take, keep, ◌==◌,
  arith, le→leb, take-append_le, take-append_add, lengths, length-append, length-take, keep-append,
  append-nil, append_assoc, pos,
}
use Prim.Native.Nat.{◌^◌}
use native.Mathlib.Nat.{pow-le-pow_right}
use native.Mathlib.Decide.{dec_lt}
use pico_db.Utils.{hash, hashes, get_proper_message_about_size, get_proper_message_about_size_lem}
use pico_db.Utils.Cast.{
  LexicalCast, IsDigit, decimal_value, decimal_value-lt, keep-digits, digits-NoNul,
}
use pico_db.Record.{is_size_info_bytes}
use pico_db.Record.SizeInfo.{is_size_info_iff}
use pico_db.Socket.{buffer_of}

-- The loop that collects the characters other than '#', and `c_str()` of what it collected.
unfoldable pub size_digits : List ℕ → Option Text
size_digits bytes = c_string (keep (λ c. not (c == hash)) bytes ++ 0 ∷ [])

module _ (cast : LexicalCast) where
  -- What the header of a message of `n` bytes is, if the memory behind its text holds `behind`.
  abbrev pub frame_header : ℕ → List ℕ → List ℕ
  frame_header n behind = take 10 ((hashes ++ cast.to_text n) ++ 0 ∷ behind)

  -- Enough memory for ten bytes.
  abbrev pub IsReadable : ℕ → List ℕ → Type 0
  IsReadable n behind = 10 ≤ 5 + length (cast.to_text n) + length behind

  pub buffer_of-frame_header :
      (n : ℕ) (behind : List ℕ)
      → IsReadable n behind
      → buffer_of 10 (get_proper_message_about_size (cast.to_text n) []) behind
        ≡ returns (frame_header n behind)
  buffer_of-frame_header n behind h = rw (get_proper_message_about_size_lem (cast.to_text n)) (
      rw (
        le→leb 10 (length ((hashes ++ cast.to_text n) ++ 0 ∷ behind)) (
          omega (
            arith,
            length-append (hashes ++ cast.to_text n) (0 ∷ behind),
            length-append hashes (cast.to_text n),
          ))))

  pub length-frame_header :
      (n : ℕ) (behind : List ℕ) → IsReadable n behind → length (frame_header n behind) ≡ 10
  length-frame_header n behind h = simp lengths (omega arith)

  -- The bytes behind the digits of a header with at most six digits.
  padding : ℕ → List ℕ → List ℕ
  padding n behind = take (6 - length (cast.to_text n)) (0 ∷ behind)

  frame_header-padding :
      (n : ℕ) (behind : List ℕ)
      → length (cast.to_text n) ≤ 6
      → frame_header n behind ≡ (hashes ++ cast.to_text n) ++ padding n behind
  unfolding padding
  frame_header-padding n behind h =
      take-append_add (hashes ++ cast.to_text n) (0 ∷ behind) 10 (6 - length (cast.to_text n))
        (omega (arith, length-append hashes (cast.to_text n)))

  digits_ne_nil : (t : Text) → t ≢ [] → (c : ℕ) × (cs : Text) × (t ≡ c ∷ cs)
  digits_ne_nil [] h = absurd (h refl)
  digits_ne_nil (c ∷ cs) h = (c, cs, refl)

  -- Any header is taken for a size message.
  pub frame_header-size_info :
      (n : ℕ) (behind : List ℕ) → is_size_info_bytes (frame_header n behind) ≡ true
  frame_header-size_info n behind =
      let (c, cs, e) = digits_ne_nil (cast.to_text n) (cast.to_text_ne_nil n) in
      (is_size_info_iff (frame_header n behind)).1 (record {
        before = [];
        next = c;
        after = take 5 (cs ++ 0 ∷ behind);
        splits = ap (λ (t : Text). take 10 ((hashes ++ t) ++ 0 ∷ behind)) e;
      })

  c_string_padded :
      (t : Text) (k : ℕ) (behind : List ℕ)
      → NoNul t
      → c_string (t ++ keep (λ c. not (c == hash)) (take k (0 ∷ behind)) ++ 0 ∷ []) ≡ some t
  c_string_padded t zero behind h = rw (append-nil t) (c_string-NoNul t [] h)
  c_string_padded t (suc k) behind h =
      let rest : List ℕ = keep (λ c. not (c == hash)) (take k behind) in
      rw (append_assoc t (0 ∷ rest) (0 ∷ [])) (c_string-NoNul t (rest ++ 0 ∷ []) h)

  -- The header of a message of less than a million bytes is read back as its size, whatever stands
  -- in memory behind the header's text.
  pub size_digits-frame_header :
      (n : ℕ) (behind : List ℕ)
      → n < 1000000
      → size_digits (frame_header n behind) ≡ some (cast.to_text n)
  unfolding size_digits padding
  size_digits-frame_header n behind h =
      let t = cast.to_text n in
      let not_hash : ℕ → Bool = λ c. not (c == hash) in
      ap size_digits (frame_header-padding n behind (cast.to_text_length n 5 h))
      ∙ (ap (λ (l : List ℕ). c_string (l ++ 0 ∷ []))
            (keep-append not_hash (hashes ++ t) (padding n behind)
              ∙ ap (λ (l : List ℕ). l ++ keep not_hash (padding n behind))
                  (keep-digits t (cast.to_text_digits n)))
          ∙ c_string_padded t (6 - length t) behind (digits-NoNul t (cast.to_text_digits n)))

  take-digits : (k : ℕ) (t : Text) → All IsDigit t → All IsDigit (take k t)
  take-digits zero t h = tt
  take-digits (suc k) [] h = tt
  take-digits (suc k) (c ∷ t) h = (h.0, take-digits k t h.1)

  pow_of_le_6 : (k : ℕ) → k ≤ 6 → 10 ^ k ≤ 1000000
  pow_of_le_6 k h = pow-le-pow_right (omega arith) h

  more_than_six : (n : ℕ) → 1000000 ≤ n → 6 < length (cast.to_text n)
  more_than_six n h = elim (dec_lt 6 (length (cast.to_text n))) [
    | yes p ↦ p
    | no q ↦ absurd (
        omega (
          arith,
          decimal_value-lt (cast.to_text n) (cast.to_text_digits n),
          cast.to_text_value n,
          pow_of_le_6 (length (cast.to_text n)) (omega arith),
        ))
  ]

  take_6_ne_nil : (t : Text) → 6 < length t → take 6 t ≢ []
  take_6_ne_nil [] h e = absurd (omega arith)
  take_6_ne_nil (c ∷ t) h e = cc

  -- The header of a message of a million bytes or more is cut: the other side reads a size below a
  -- million out of it, and so expects less than the message.
  pub frame_header-truncated :
      (n : ℕ) (behind : List ℕ)
      → 1000000 ≤ n
      → (d : Text) × (m : ℕ) × (size_digits (frame_header n behind) ≡ some d)
        × (cast.to_long d ≡ some (pos m))
        × (m < 1000000)
  unfolding size_digits
  frame_header-truncated n behind h =
      let t = cast.to_text n in
      let d : Text = take 6 t in
      let long : 6 < length t = more_than_six n h in
      let digits : All IsDigit d = take-digits 6 t (cast.to_text_digits n) in
      let small : decimal_value d < 1000000 = omega (
        arith,
        decimal_value-lt d digits,
        pow_of_le_6 (length d) (omega (arith, length-take 6 t)),
      ) in
      (
        d,
        decimal_value d,
        ap (λ (l : List ℕ). c_string (keep (λ c. not (c == hash)) l ++ 0 ∷ []))
              (take-append_le 10 (hashes ++ t) (0 ∷ behind) (omega (arith, length-append hashes t)))
            ∙ (ap (λ (l : List ℕ). c_string (l ++ 0 ∷ [])) (keep-digits d digits)
                ∙ c_string-NoNul d [] (digits-NoNul d digits)),
        cast.to_long_digits d digits (take_6_ne_nil t long) (omega arith),
        small,
      )
