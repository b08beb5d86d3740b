-- ===== src/Driver/Trace.antt =====
-- What `print` of PicoDB/pico/pico_client.h logs about what it has sent.
use pico_db.Prelude.{ℕ, Bool, true, false, List, [], ◌∷◌, ◌++◌, Option, none, some, Text, codes}

abbrev error_lines : Option Text → List Text
error_lines none = []
error_lines (some message) =
    (codes " Client : a communication error happend... msg : " ++ message) ∷ []

-- print(error, t, data); the flag is `isTraceEnabled`.
print : (ℕ → Text) → Bool → Option Text → ℕ → Text → List Text
print to_text false error t chars = []
print to_text true error t chars =
    (codes " Client Sent :  " ++ to_text t ++ codes " bytes to Server ") ∷ error_lines error
    ++ (codes "Client : data sent to server is " ++ chars ++ codes "")
      ∷ codes "-------------------------"
      ∷ []
