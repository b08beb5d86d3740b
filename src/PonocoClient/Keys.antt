-- ===== src/PonocoClient/Keys.antt =====
-- The keys that PicoDB/pico/PonocoClient.h inserts.
use pico_db.Prelude.{
  ℕ, ◌+◌, ◌≡◌, ◌≢◌, ap, sym, ◌∙◌, List, ◌++◌, length, take, take-append, length-append, arith,
}
use pico_db.Utils.Random.{random_string_after, length-random_string_after}
use pico_db.Utils.Cast.{decimal_value}
use pico_db.Message.{Libraries}
use pico_db.PonocoClient.{random_small_key, small_key0}

module _ (lib : Libraries) where
  length-random_small_key :
      (i : ℕ) (rands rands' : List ℕ)
      → length rands ≡ 10
      → length rands' ≡ 10
      → length (random_small_key lib i rands rands') ≡ length (lib.cast.to_text i) + 38
  unfolding random_small_key
  length-random_small_key i rands rands' h k =
      let a = random_string_after small_key0 rands in
      let b = random_string_after small_key0 rands' in
      omega (
        arith,
        length-append (lib.cast.to_text i) (a ++ b),
        length-append a b,
        length-random_string_after small_key0 rands,
        length-random_string_after small_key0 rands',
      )

  random_small_key-injective :
      (i j : ℕ) (a b c d : List ℕ)
      → length a ≡ 10
      → length b ≡ 10
      → length c ≡ 10
      → length d ≡ 10
      → random_small_key lib i a b ≡ random_small_key lib j c d
      → i ≡ j
  unfolding random_small_key
  random_small_key-injective i j a b c d ha hb hc hd e =
      let p = lib.cast.to_text i in
      let q = lib.cast.to_text j in
      let v = random_string_after small_key0 a ++ random_string_after small_key0 b in
      let w = random_string_after small_key0 c ++ random_string_after small_key0 d in
      let whole : p ++ v ≡ q ++ w = e in
      let same_length : length p ≡ length q = omega (
        arith,
        ap length e,
        length-random_small_key i a b ha hb,
        length-random_small_key j c d hc hd,
      ) in
      let same : p ≡ q =
        sym (take-append p v)
        ∙ ap (take (length p)) whole
        ∙ ap (λ n. take n (q ++ w)) same_length
        ∙ take-append q w in
      sym (lib.cast.to_text_value i) ∙ ap decimal_value same ∙ lib.cast.to_text_value j

  -- Two rounds of `insertOneBigRandomData` never insert the same key, whatever `rand()` gives in them.
  pub random_small_key-ne :
      (i j : ℕ) (a b c d : List ℕ)
      → length a ≡ 10
      → length b ≡ 10
      → length c ≡ 10
      → length d ≡ 10
      → i ≢ j
      → random_small_key lib i a b ≢ random_small_key lib j c d
  random_small_key-ne i j a b c d ha hb hc hd ne e =
      ne (random_small_key-injective i j a b c d ha hb hc hd e)
