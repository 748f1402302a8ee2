-- ===== src/Orders.antt =====
-- internal/broker/broker.go, order_workflow.go and trading.go: orders, and the checks that every
-- provider runs on one before a live request.
pub mod Valid
pub mod Session
pub mod Trading
mod Examples
use traio.Prelude.{
  ℕ, String, Bool, true, false, not, ◌&&◌, ◌||◌, Option, none, List, [], ◌∷◌, Result, ok, err,
  ◌>>=◌, ◌>>◌, guard, ltb, str_eq, is_empty, any, if◌then◌else◌,
}
use traio.Prelude.Int.{ℤ, pos, negsuc, pos_part, neg_part}
use traio.Text.{Text, text_eq}
use traio.Text.Trim.{trim_space}
use traio.Activity.Types.{eq_ℤ}

-- float64: a finite value is a number of units of 2^-1074. The program compares values only, and
-- the two zeros compare equal, so they are one value.
pub data Float64 : Type 0 where
  nan : Float64
  pos_inf : Float64
  neg_inf : Float64
  fin : ℤ → Float64

-- `==`: a NaN is not equal to itself.
abbrev pub float_eq : Float64 → Float64 → Bool
float_eq (fin a) (fin b) = eq_ℤ a b
float_eq pos_inf pos_inf = true
float_eq neg_inf neg_inf = true
float_eq _ _ = false

-- `value > 0`
abbrev pub is_positive : Float64 → Bool
is_positive (fin a) = ltb 0 (pos_part a)
is_positive pos_inf = true
is_positive _ = false

-- `math.IsNaN(value) || math.IsInf(value, 0) || value < 0`
abbrev pub is_bad_amount : Float64 → Bool
is_bad_amount (fin a) = ltb 0 (neg_part a)
is_bad_amount _ = true

pub record OrderRequest : Type 0 where
  pub account_id : Text
  pub symbol : Text
  pub instrument_id : Text
  pub asset_class : String
  pub side : String
  pub position_effect : String
  pub order_type : String
  pub quantity : Float64
  pub notional : Float64
  pub limit_price : Float64
  pub stop_price : Float64
  pub trail_price : Float64
  pub trail_percent : Float64
  pub time_in_force : Text
  pub extended_hours : Bool
  pub client_order_id : Text
  pub currency : String

pub record Instrument : Type 0 where
  pub con_id : ℤ
  pub symbol : Text
  pub name : String
  pub sec_type : String
  pub exchange : String
  pub currency : String

pub record OrderConfirmation : Type 0 where
  pub reply_id : String
  pub messages : List String
  pub message_ids : List String

pub record Order : Type 0 where
  pub id : String
  pub client_order_id : String
  pub account_id : String
  pub symbol : String
  pub instrument_id : String
  pub asset_class : String
  pub side : String
  pub order_type : String
  pub quantity : Float64
  pub filled_quantity : Float64
  pub limit_price : Float64
  pub stop_price : Float64
  pub average_fill_price : Float64
  pub time_in_force : String
  pub status : String
  pub submitted_at : String
  pub updated_at : String
  pub raw_status : String
  pub currency : String
  pub confirmation : Option OrderConfirmation

-- `Order{}`
abbrev pub no_order : Order
no_order = record {
  id = "";
  client_order_id = "";
  account_id = "";
  symbol = "";
  instrument_id = "";
  asset_class = "";
  side = "";
  order_type = "";
  quantity = fin (pos 0);
  filled_quantity = fin (pos 0);
  limit_price = fin (pos 0);
  stop_price = fin (pos 0);
  average_fill_price = fin (pos 0);
  time_in_force = "";
  status = "";
  submitted_at = "";
  updated_at = "";
  raw_status = "";
  currency = "";
  confirmation = none;
}

pub record OrderError : Type 0 where
  pub code : String
  pub message : String

-- The values that the first loop looks at.
abbrev pub amounts : OrderRequest → List Float64
amounts r =
    r.quantity ∷ r.notional ∷ r.limit_price ∷ r.stop_price ∷ r.trail_price ∷ r.trail_percent ∷ []

abbrev pub is_blank : Text → Bool
is_blank s = is_empty (trim_space s)

abbrev pub eq_bool : Bool → Bool → Bool
eq_bool true b = b
eq_bool false b = not b

-- The `switch r.OrderType`.
pub check_prices : OrderRequest → Result String (Unit {0})
check_prices r =
    if str_eq r.order_type "market"
    then ok tt
    else if str_eq r.order_type "limit"
    then guard (is_positive r.limit_price) "limit_price is required"
    else if str_eq r.order_type "stop"
    then guard (is_positive r.stop_price) "stop_price is required"
    else if str_eq r.order_type "stop_limit"
    then guard (is_positive r.stop_price && is_positive r.limit_price)
        "stop_price and limit_price are required"
    else if str_eq r.order_type "trailing_stop"
    then guard (not (eq_bool (is_positive r.trail_price) (is_positive r.trail_percent)))
        "exactly one trailing value is required"
    else err "unsupported order_type"

pub validate_order : OrderRequest → Result String (Unit {0})
unfolding check_prices
validate_order r =
    guard (not (any is_bad_amount (amounts r)))
      "order quantities and prices must be finite, non-negative numbers"
    >> guard (not (is_blank r.account_id)) "account_id is required"
    >> guard (not (is_blank r.symbol && is_blank r.instrument_id))
        "symbol or instrument_id is required"
    >> guard (str_eq r.side "buy" || str_eq r.side "sell") "side must be buy or sell"
    >> guard (not (eq_bool (is_positive r.quantity) (is_positive r.notional)))
        "exactly one of quantity or notional is required"
    >> check_prices r
    >> guard (not (is_blank r.time_in_force)) "time_in_force is required"
