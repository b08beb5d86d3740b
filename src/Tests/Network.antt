-- ===== src/Tests/Network.antt =====
-- A request for the models of PicoDB/pico, and a network and a memory that are kind to it.
use pico_db.Prelude.{
  false, refl, ap, sym, ◌∙◌, [], ◌∷◌, ◌++◌, none, NoNul, codes, arith, c_string-NoNul,
}
use pico_db.Record.{is_size_info_bytes}
use pico_db.Message.Constructors.{parse_message}
use pico_db.Utils.Cast.{digits-NoNul}
use pico_db.Utils.Decimal.{decimal}
use pico_db.Socket.{Arrival, Surroundings}
use pico_db.Session.Write.{IsOrderly}
use pico_db.Session.Echo.{Exchange, IsServed}
use pico_db.Session.Receive.{IsReceivable}
use pico_db.Driver.Send.{IsTerminated}
use pico_db.Driver.Trip.{Travel, IsSmooth}
use pico_db.Tests.Sample.{
  sample_lib, sample_request, sample-ReadsBack, sample_request_text, sample_text, without_nul-NoNul,
}
use pico_db.Message.Fields.{parse-new_message}

abbrev pub all_at_once : Arrival
all_at_once = record { count = 1000; fresh = 9 ∷ [] }

abbrev pub tidy : Surroundings
tidy = record {
  behind_record = 0 ∷ [];
  behind_header = 1 ∷ 2 ∷ 3 ∷ 4 ∷ 5 ∷ 6 ∷ [];
  behind_data = [];
  stale = λ t. t ++ 0 ∷ [];
  header_fails = false;
  data_fails = false;
}

unfoldable pub receivable : IsReceivable sample_lib sample_text
unfolding is_size_info_bytes
receivable = record {
  is_not_empty = λ e. cc;
  short = omega arith;
  not_size = refl;
  message = record sample_request { message_size = none };
  parses =
      ap (parse_message sample_lib) (sym sample_request_text)
      ∙ parse-new_message sample_lib (codes "17") (codes "k") (codes "v") (codes "insert")
          (codes "d") (codes "u") (codes "c") sample-ReadsBack;
}

pub orderly : IsOrderly sample_lib tidy 22
orderly = record {
  tail = [];
  terminated = refl;
  readable = omega arith;
  header_written = refl;
  data_written = refl;
  intact =
      c_string-NoNul (decimal.to_text 22) []
        (digits-NoNul (decimal.to_text 22) (decimal.to_text_digits 22));
}

pub terminated : IsTerminated sample_lib tidy 22
terminated = record {
  tail = [];
  terminated = refl;
  readable = omega arith;
  header_written = refl;
  data_written = refl;
}

pub sample_NoNul : NoNul sample_text
sample_NoNul = without_nul-NoNul sample_text refl

abbrev pub one_exchange : Exchange
one_exchange = record {
  text = sample_text;
  behind = tidy.behind_header;
  header_read = all_at_once;
  text_read = all_at_once;
  around = tidy;
}

pub served : IsServed sample_lib one_exchange
served = record {
  receivable = receivable;
  no_nul = sample_NoNul;
  long = omega arith;
  readable = omega arith;
  whole_header = omega arith;
  whole_text = omega arith;
  orderly = orderly;
}

abbrev pub travel : Travel
travel = record {
  around = tidy;
  header_read = all_at_once;
  text_read = all_at_once;
  server_around = tidy;
  reply_header_read = all_at_once;
  reply_text_read = all_at_once;
}

pub smooth : IsSmooth sample_lib travel sample_text
smooth = record {
  served = served;
  terminated = terminated;
  whole_header = omega arith;
  whole_text = omega arith;
}
