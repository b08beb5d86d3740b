-- ===== src/Utils.antt =====
-- PicoDB/pico/pico_utils.h: the helpers on texts and numbers.
pub mod Cast
pub mod Decimal
pub mod Random
pub mod Clock
use pico_db.Prelude.{
  ℕ, zero, suc, List, [], ◌∷◌, ◌++◌, Text, codes, Option, none, some, ◌≡◌, refl, ap, ◌∙◌,
  append_assoc, append-nil, sym,
}

-- The text of PicoConfig::dataDir, which PicoDB/MutilThreadedServerClient.cpp sets, is an argument.
get_full_collection_name : Text → Text → Text
get_full_collection_name data_dir name = (data_dir ++ name) ++ codes ".dat"

abbrev pub hash : ℕ
hash = b'#'

-- `n` times `out.push_back(c)`
push_repeated : ℕ → ℕ → Text → Text
push_repeated zero c out = out
push_repeated (suc n) c out = push_repeated n c (out ++ c ∷ [])

-- `out.push_back(*ptr)` along the characters of a text
push_all : Text → Text → Text
push_all [] out = out
push_all (c ∷ cs) out = push_all cs (out ++ c ∷ [])

-- The second argument is the text that is extended in place.
pub get_proper_message_about_size : Text → Text → Text
unfolding push_repeated push_all
get_proper_message_about_size text out = push_all text (push_repeated 4 hash out)

push_all-append : (cs out : Text) → push_all cs out ≡ out ++ cs
unfolding push_all
push_all-append [] out = sym (append-nil out)
push_all-append (c ∷ cs) out = push_all-append cs (out ++ c ∷ []) ∙ append_assoc out (c ∷ []) cs

abbrev pub hashes : Text
hashes = hash ∷ hash ∷ hash ∷ hash ∷ []

-- The text about a size is four hashes and the digits, whatever the digits are.
pub get_proper_message_about_size_lem :
    (text : Text) → get_proper_message_about_size text [] ≡ hashes ++ text
unfolding get_proper_message_about_size
get_proper_message_about_size_lem text = push_all-append text hashes
