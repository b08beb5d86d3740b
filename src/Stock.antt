-- ===== src/Stock.antt =====
-- PicoDB/stock.h, and the packages of PicoDB/MutilThreadedServerClient.cpp that print the value of a
-- financial instrument.
use pico_db.Prelude.{
  ◌≡◌, refl, Bool, true, false, ◌++◌, Option, none, Outcome, returns, undefined, ◌>>=◌, Text, codes,
  if◌then◌else◌,
}
use pico_db.Record.{defined}
use pico_db.Currency.{Currency, Doubles, default_currency, get_value, cal_price}

-- What is called of floating-point numbers beyond that.
pub record Floats (doubles : Doubles) : Type 0 where
  pub one_less : doubles.Double → doubles.Double
  pub to_text : doubles.Double → Text

abbrev special_line : Text
special_line = codes "this is the special algo for calculating the value of stock : "

abbrev plain_line : Text
plain_line = codes "this is the value of financial instrument "

module _ (doubles : Doubles) (floats : Floats doubles) where
  open doubles use {Double, mul}
  open floats use {one_less, to_text}

  -- Stock<double>; no constructor sets `todayValue`.
  pub record Stock : Type 0 where
    pub today_value : Option Double
    pub sotck_risk : Double
    pub market_risk : Double

  -- Stock(sRisk, mRisk)
  pub new_stock : Double → Double → Stock
  new_stock s_risk m_risk = record { today_value = none; sotck_risk = s_risk; market_risk = m_risk }

  stock_value : Stock → Outcome Double
  stock_value s = defined s.today_value

  -- `todayValue * sotckRisk * (1-marketRisk)`
  stock_price : Stock → Outcome Double
  stock_price s = do
    today ← defined s.today_value
    returns (mul (mul today s.sotck_risk) (one_less s.market_risk))

  -- An instrument that a package is made for.
  pub data Instrument : Type 0 where
    currency : Currency → Instrument
    stock : Stock → Instrument

  -- isComplicated<finType>::getTypeComplication()
  get_type_complication : Instrument → Bool
  get_type_complication (currency c) = false
  get_type_complication (stock s) = true

  price_of : Instrument → Outcome Double
  unfolding stock_price
  price_of (currency c) = returns (cal_price doubles c)
  price_of (stock s) = stock_price s

  value_of : Instrument → Outcome Double
  unfolding stock_value
  value_of (currency c) = returns (get_value doubles c)
  value_of (stock s) = stock_value s

  -- printValue, with what it prints
  pub print_value : Instrument → Outcome Text
  unfolding get_type_complication price_of value_of
  print_value f =
      let special =
        price_of f >>= λ price. returns (special_line ++ (to_text price ++ codes "\n")) in
      let plain = value_of f >>= λ value. returns (plain_line ++ (to_text value ++ codes "\n")) in
      if get_type_complication f then special else plain

  -- templateSpecializationAndTraitsExample()
  pub template_specialization_and_traits_example : Double → Double → Outcome Text
  unfolding print_value new_stock
  template_specialization_and_traits_example one two = do
    first ← print_value (currency (record default_currency { price = codes "123123" }))
    second ← print_value (stock (new_stock one two))
    returns (first ++ second)

  -- The value of a stock is never set, so printing one that was made by its constructor is undefined.
  print_value-new_stock : (s m : Double) → print_value (stock (new_stock s m)) ≡ undefined
  unfolding print_value new_stock
  print_value-new_stock s m = refl
