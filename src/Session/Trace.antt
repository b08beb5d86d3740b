-- ===== src/Session/Trace.antt =====
-- What PicoDB/pico/pico_session.h logs about what it has read.
use pico_db.Prelude.{ℕ, Bool, true, false, List, [], ◌∷◌, ◌++◌, Option, none, some, Text, codes}
use pico_db.Queue.Vector.{print_all}
use pico_db.Session.{Session}

abbrev error_lines : Option Text → List Text
error_lines none = []
error_lines (some message) = (codes " error msg : " ++ message ++ codes "") ∷ []

-- print(error, t, data); the flag is `isTraceEnabled`.
print : (ℕ → Text) → Bool → Option Text → ℕ → Text → List Text
print to_text false error t chars = []
print to_text true error t chars =
    error_lines error
    ++ (codes "Session received "
        ++ to_text t
        ++ codes " bytes read from Client  data read from client is "
        ++ chars)
      ∷ []

-- printHistoryOfMessages()
print_history_of_messages : Session → List Text
print_history_of_messages s =
    codes " Session These are all the messages that session read from client"
    ∷ print_all (λ t. t) s.list_of_all_messages
