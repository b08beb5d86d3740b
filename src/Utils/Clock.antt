-- ===== src/Utils/Clock.antt =====
-- `getTimeNowAsString` of PicoDB/pico/pico_utils.h. The time of day comes from Boost: its parts are
-- the argument, and what Boost promises of them is a hypothesis.
use pico_db.Prelude.{
  ℕ, ◌+◌, ◌-◌, ◌*◌, ◌≤◌, ◌<◌, ◌≡◌, ◌++◌, Text, codes, length, length-replicate, replicate, arith,
  length-append, lengths, refl, zero, suc, All, ◌∙◌,
}
use pico_db.Utils.Cast.{LexicalCast, IsDigit, decimal_value}

-- boost::posix_time::time_duration, by the accessors that the code calls
pub record TimeOfDay : Type 0 where
  pub hours : ℕ
  pub minutes : ℕ
  pub seconds : ℕ
  pub total_milliseconds : ℕ

-- What Boost documents of a time within a day.
pub record IsTimeOfDay (td : TimeOfDay) : Type 0 where
  pub hours_lt : td.hours < 24
  pub minutes_lt : td.minutes < 60
  pub seconds_lt : td.seconds < 60
  pub total_ge : (td.hours * 3600 + td.minutes * 60 + td.seconds) * 1000 ≤ td.total_milliseconds
  pub total_lt :
      td.total_milliseconds < (td.hours * 3600 + td.minutes * 60 + td.seconds) * 1000 + 1000

-- `td.total_milliseconds() - ((hours * 3600 + minutes * 60 + seconds) * 1000)`
pub milliseconds : TimeOfDay → ℕ
milliseconds td = td.total_milliseconds - (td.hours * 3600 + td.minutes * 60 + td.seconds) * 1000

abbrev join : Text → Text → Text → Text → Text
join h m s ms = h ++ codes ":" ++ m ++ codes ":" ++ s ++ codes "." ++ ms

length-join :
    (h m s ms : Text) → length (join h m s ms) ≡ length h + length m + length s + length ms + 3
length-join h m s ms = simp lengths (omega arith)

zeros-digits : (k : ℕ) (t : Text) → All IsDigit t → All IsDigit (replicate k b'0' ++ t)
zeros-digits zero t h = h
zeros-digits (suc k) t h = (omega arith, zeros-digits k t h)

zeros-value : (k : ℕ) (t : Text) → decimal_value (replicate k b'0' ++ t) ≡ decimal_value t
zeros-value zero t = refl
zeros-value (suc k) t = zeros-value k t

-- A number in decimal, on a given width.
pub record IsField (width n : ℕ) (t : Text) : Type 0 where
  pub wide : length t ≡ width
  pub digits : All IsDigit t
  pub value : decimal_value t ≡ n

-- A text that shows a time of day.
pub record Shows (td : TimeOfDay) (shown : Text) : Type 0 where
  pub h : Text
  pub m : Text
  pub s : Text
  pub ms : Text
  pub left : ℕ
  pub text : shown ≡ h ++ codes ":" ++ m ++ codes ":" ++ s ++ codes "." ++ ms
  pub hours_shown : IsField 2 td.hours h
  pub minutes_shown : IsField 2 td.minutes m
  pub seconds_shown : IsField 2 td.seconds s
  pub left_shown : IsField 3 left ms
  pub total : td.total_milliseconds ≡ (td.hours * 3600 + td.minutes * 60 + td.seconds) * 1000 + left
  pub fits : length shown ≡ 12

module _ (cast : LexicalCast) where
  -- sprintf's %0<width>ld
  padded : ℕ → ℕ → Text
  padded width n = replicate (width - length (cast.to_text n)) b'0' ++ cast.to_text n

  pub get_time_now_as_string : TimeOfDay → Text
  get_time_now_as_string td =
      join (padded 2 td.hours) (padded 2 td.minutes) (padded 2 td.seconds)
        (padded 3 (milliseconds td))

  length-padded : (width n : ℕ) → length (cast.to_text n) ≤ width → length (padded width n) ≡ width
  unfolding padded
  length-padded width n h = omega (
    arith,
    length-append (replicate (width - length (cast.to_text n)) b'0') (cast.to_text n),
    length-replicate {A = ℕ} (width - length (cast.to_text n)) b'0',
  )

  two_digits : (n : ℕ) → n < 100 → length (padded 2 n) ≡ 2
  two_digits n h = length-padded 2 n (cast.to_text_length n 1 h)

  three_digits : (n : ℕ) → n < 1000 → length (padded 3 n) ≡ 3
  three_digits n h = length-padded 3 n (cast.to_text_length n 2 h)

  padded-digits : (width n : ℕ) → All IsDigit (padded width n)
  unfolding padded
  padded-digits width n =
      zeros-digits (width - length (cast.to_text n)) (cast.to_text n) (cast.to_text_digits n)

  padded-value : (width n : ℕ) → decimal_value (padded width n) ≡ n
  unfolding padded
  padded-value width n =
      zeros-value (width - length (cast.to_text n)) (cast.to_text n) ∙ cast.to_text_value n

  padded-IsField :
      (width n : ℕ) → length (padded width n) ≡ width → IsField width n (padded width n)
  padded-IsField width n h = record {
    wide = h;
    digits = padded-digits width n;
    value = padded-value width n;
  }

  -- A time of day is written as `hh:mm:ss.SSS`: two digits that stand for the hours, a colon, two
  -- that stand for the minutes, a colon, two that stand for the seconds, a dot, and three that stand
  -- for what is left of the total of milliseconds beyond the whole seconds. These twelve characters
  -- fit the buffer of 40 that the code gives `sprintf`.
  pub get_time_now_as_string-Shows :
      (td : TimeOfDay) → IsTimeOfDay td → Shows td (get_time_now_as_string td)
  unfolding get_time_now_as_string milliseconds
  get_time_now_as_string-Shows td t =
      let hours = padded-IsField 2 td.hours (two_digits td.hours (omega (arith, t.hours_lt))) in
      let minutes =
        padded-IsField 2 td.minutes (two_digits td.minutes (omega (arith, t.minutes_lt))) in
      let seconds =
        padded-IsField 2 td.seconds (two_digits td.seconds (omega (arith, t.seconds_lt))) in
      let rest =
        padded-IsField 3 (milliseconds td)
          (three_digits (milliseconds td) (omega (arith, t.total_lt))) in
      record {
        h = padded 2 td.hours;
        m = padded 2 td.minutes;
        s = padded 2 td.seconds;
        ms = padded 3 (milliseconds td);
        left = milliseconds td;
        text = refl;
        hours_shown = hours;
        minutes_shown = minutes;
        seconds_shown = seconds;
        left_shown = rest;
        total = omega (arith, t.total_ge);
        fits =
            length-join (padded 2 td.hours) (padded 2 td.minutes) (padded 2 td.seconds)
              (padded 3 (milliseconds td))
            ∙ omega (arith, hours.wide, minutes.wide, seconds.wide, rest.wide);
      }
