-- ===== src/Currency.antt =====
-- PicoDB/currency.h: a currency of the examples, its comparisons, its hash code and its texts.
pub mod Order
pub mod Containers
use Prim.Native.Nat.{bit_xor}
use pico_db.Prelude.{
  ℕ, ◌*◌, ◌%◌, ◌≡◌, refl, ap, Bool, true, false, ◌&&◌, ◌++◌, Option, none, some, Text, codes,
  text_eq, text_eq→≡, ltb,
}
use pico_db.Message.{size_t_mod}

pub record Currency : Type 0 where
  pub name : Text
  pub price : Text
  pub symbol : Text
  pub ts : Text
  pub type : Text
  pub utctime : Text
  pub volume : Text

-- Currency()
abbrev pub default_currency : Currency
default_currency = record {
  name = codes "defaultName";
  price = codes "defaultPrice";
  symbol = codes "defaultSymbol";
  ts = codes "defaultTS";
  type = codes "defaultType";
  utctime = codes "defaultUTCtime";
  volume = codes "defaultVolume";
}

-- operator=, and the constructors that copy and move
assign_currency : Currency → Currency → Currency
assign_currency self other = record self {
  name = other.name;
  price = other.price;
  symbol = other.symbol;
  ts = other.ts;
  type = other.type;
  utctime = other.utctime;
  volume = other.volume;
}

set_name : Text → Currency → Currency
set_name n self = record self { name = n }

set_price : Text → Currency → Currency
set_price pr self = record self { price = pr }

set_volume : Text → Currency → Currency
set_volume str self = record self { volume = str }

-- operator==
unfoldable pub currency_eq : Currency → Currency → Bool
currency_eq self other =
    text_eq self.name other.name
    && (text_eq self.price other.price
        && (text_eq self.symbol other.symbol
            && (text_eq self.ts other.ts
                && (text_eq self.type other.type
                    && (text_eq self.utctime other.utctime && text_eq self.volume other.volume)))))

-- toString(), and operator()
currency_to_string : Currency → Text
currency_to_string c =
    codes "name : "
    ++ c.name
    ++ codes " price  "
    ++ c.price
    ++ codes " symbol "
    ++ c.symbol
    ++ codes " ts "
    ++ c.ts
    ++ codes " type "
    ++ c.type
    ++ codes " utctime "
    ++ c.utctime
    ++ codes "  volume  "
    ++ c.volume

-- toJson()
currency_to_json : Currency → Text
currency_to_json c =
    codes "{ \"name\" : \""
    ++ c.name
    ++ codes "\",  \"price\":  \""
    ++ c.price
    ++ codes "\", \"symbol\": \""
    ++ c.symbol
    ++ codes "\", \"ts\": "
    ++ c.ts
    ++ codes "\", type\":\""
    ++ c.type
    ++ codes "\" , \"utctime\": \""
    ++ c.utctime
    ++ codes "\",  \"volume\":  \""
    ++ c.volume
    ++ codes "\"}"

-- operator<<
currency_to_stream : Text → Currency → Text
currency_to_stream os c =
    os
    ++ codes "----------------------------------\n"
    ++ codes " name : "
    ++ c.name
    ++ codes "\n"
    ++ codes " price : "
    ++ c.price
    ++ codes "\n"
    ++ codes " symbol : "
    ++ c.symbol
    ++ codes "\n"
    ++ codes " ts : "
    ++ c.ts
    ++ codes "\n"
    ++ codes " type : "
    ++ c.type
    ++ codes "\n"
    ++ codes " utctime : "
    ++ c.utctime
    ++ codes "\n"
    ++ codes " volume : "
    ++ c.volume
    ++ codes "\n"
    ++ codes "----------------------------------"
    ++ codes "\n"

-- What is called of numbers of type `double`; `none` is bad_lexical_cast.
pub record Doubles : Type 1 where
  pub Double : Type 0
  pub nought : Double
  pub mul : Double → Double → Double
  pub to_double : Text → Option Double

module _ (doubles : Doubles) where
  open doubles use {Double, nought, mul, to_double}

  or_nought : Option Double → Double
  or_nought none = nought
  or_nought (some d) = d

  pub get_value : Currency → Double
  unfolding or_nought
  get_value c = or_nought (to_double c.price)

  -- both prices are set to 0 when one of them is not a number
  both_or_noughts : Option Double → Option Double → Double
  both_or_noughts (some p) (some q) = mul p q
  both_or_noughts (some p) none = mul nought nought
  both_or_noughts none q = mul nought nought

  -- operator*
  price_product : Currency → Currency → Double
  unfolding both_or_noughts
  price_product self other = both_or_noughts (to_double other.price) (to_double self.price)

  pub cal_price : Currency → Double
  cal_price c = nought

module _ (hash_of : Text → ℕ) where
  -- operator<
  pub less : Currency → Currency → Bool
  less self other = ltb (hash_of self.name) (hash_of other.name)

  -- `h1 ^ (h2 << 1) ^ h3 ^ h4 ^ h5 ^ h6` on 64-bit words
  pub currency_hash_code : Currency → ℕ
  currency_hash_code c =
      let h1 = hash_of c.name in
      let h2 = hash_of c.price in
      let h3 = hash_of c.ts in
      let h4 = hash_of c.volume in
      let h5 = hash_of c.type in
      let h6 = hash_of c.symbol in
      bit_xor (bit_xor (bit_xor (bit_xor (bit_xor h1 (h2 * 2 % size_t_mod)) h3) h4) h5) h6
