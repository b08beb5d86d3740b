-- ===== src/Tests/Servers.antt =====
-- The server of PicoDB/pico, and whole conversations with it, on small inputs.
use pico_db.Prelude.{◌≡◌, ◌≢◌, refl, [], ◌∷◌, ◌++◌, true, false, aborts, returns, codes, arith, inl}
use pico_db.Record.{new_record, is_size_info_bytes}
use pico_db.Utils.Decimal.{read-not_digits}
use pico_db.Wire.{size_digits}
use pico_db.Session.Failure.{IsBadHeader}
use pico_db.Server.{Accepted, init_client_handler, run_server}
use pico_db.Server.Clients.{run_server-first, run_server-bad_header}
use pico_db.Session.HangUp.{IsHangUp}
use pico_db.Program.{World, main}
use pico_db.Program.Departure.{main-hang_up}
use pico_db.Driver.{new_driver}
use pico_db.Prelude.{◌⊎◌, none, undefined, true, false, aborts}
use pico_db.Server.Departure.{leaving, run_server-hang_up}
use pico_db.Socket.{Arrival}
use pico_db.Driver.{Driver, new_driver}
use pico_db.Driver.Conversation.{Leg, Converse, start-Converse}
use pico_db.Tests.Sample.{sample_lib, sample_text}
use pico_db.Tests.Network.{all_at_once, tidy, travel, smooth, one_exchange, served}

abbrev one_leg : Leg
one_leg = record { text = sample_text; travel = travel }

abbrev busy_driver : Driver
busy_driver = record new_driver {
  buffer_queue = new_record sample_text ∷ new_record sample_text ∷ [];
}

start-Converse_example :
    Converse sample_lib true (one_leg ∷ one_leg ∷ []) (smooth, (smooth, tt)) [] busy_driver
unfolding new_driver
start-Converse_example =
    start-Converse sample_lib true (one_leg ∷ one_leg ∷ []) [] busy_driver (smooth, (smooth, tt))
      refl refl tt

abbrev failed : Accepted
failed = record { ec = true; incoming = []; arounds = []; arrivals = [] }

abbrev client : Accepted
client = record {
  ec = false;
  incoming = codes "####xyzxyz";
  arounds = tidy ∷ [];
  arrivals = all_at_once ∷ [];
}

run_server-first_example :
    (run_server sample_lib ((failed ∷ []) ++ client ∷ client ∷ [])
      ≡ init_client_handler sample_lib client)
    × (init_client_handler sample_lib client ≢ returns tt)
run_server-first_example =
    run_server-first sample_lib (failed ∷ []) (client ∷ []) client (refl, tt) refl

xyz-IsBadHeader : IsBadHeader sample_lib (codes "####xyzxyz")
unfolding is_size_info_bytes size_digits
xyz-IsBadHeader = record {
  ten = refl;
  size_info = refl;
  digits = codes "xyzxyz";
  has_digits = refl;
  bad = inl (read-not_digits (codes "xyzxyz") refl);
}

run_server-bad_header_example : run_server sample_lib (client ∷ client ∷ []) ≡ aborts
run_server-bad_header_example =
    run_server-bad_header sample_lib (codes "####xyzxyz") [] tidy [] all_at_once [] (client ∷ [])
      xyz-IsBadHeader (omega arith)

-- nothing comes in, and the memory holds the letters
abbrev end_of_file : Arrival
end_of_file = record { count = 0; fresh = codes "abcdefghij" }

end_of_file-IsHangUp : IsHangUp sample_lib end_of_file
unfolding is_size_info_bytes
end_of_file-IsHangUp = record { ten = refl; not_size = refl; not_json = refl }

run_server-hang_up_example :
    run_server sample_lib (
      (failed ∷ [])
      ++ leaving sample_lib (one_exchange ∷ one_exchange ∷ []) tidy end_of_file ∷ client ∷ [])
    ≡ aborts
run_server-hang_up_example =
    run_server-hang_up sample_lib (failed ∷ []) (client ∷ []) (one_exchange ∷ one_exchange ∷ [])
      tidy end_of_file (refl, tt) (served, (served, tt)) end_of_file-IsHangUp

abbrev left_world : World
left_world = record {
  mylogger_ptr = none;
  files = record { contents = λ n. none; may_read = λ n. true; may_write = λ n. true };
  accepted =
      (failed ∷ [])
      ++ leaving sample_lib (one_exchange ∷ one_exchange ∷ []) tidy end_of_file ∷ client ∷ [];
  resolved = none;
  ec = false;
  arounds = [];
  arrivals = [];
  asks = [];
  shared = new_driver;
}

main-hang_up_example :
    (main sample_lib left_world ≡ aborts) ⊎ (main sample_lib left_world ≡ undefined)
main-hang_up_example =
    main-hang_up sample_lib left_world (failed ∷ []) (client ∷ [])
      (one_exchange ∷ one_exchange ∷ []) tidy end_of_file refl (refl, tt) (served, (served, tt))
      end_of_file-IsHangUp
