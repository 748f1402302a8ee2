-- ===== src/Activity/Examples.antt =====
-- Decimals and reconciliations at concrete inputs.
use traio.Prelude.{All, ◌≡◌, ◌↔◌, refl, [], ◌∷◌, none, some, ok}
use traio.Prelude.Int.{pos}
use traio.Text.{Text, codes}
use traio.Text.Trim.{trim_space}
use traio.Rat.{Rat, SameValue, add_rat, sub_rat, mul_rat}
use traio.Activity.Decimal.{canonical_decimal, zero_text}
use traio.Activity.Decimal.Value.{set_string}
use traio.Activity.Decimal.Exact.{KeepsValue, canonical_decimal_value}
use traio.Activity.Decimal.Numbers.{canonical_decimal_unique}
use traio.Activity.Decimal.Arith.{rational, add, sub, mul}
use traio.Activity.Decimal.Sound.{
  IsExactResult, add-IsExactResult, sub-IsExactResult, mul-IsExactResult,
}
use traio.Activity.Decimal.Zero.{sub-zero}
use traio.Activity.Types.{Leg, Activity, Balance, Difference, effective, booked}
use traio.Activity.Validation.{validate}
use traio.Activity.Validation.Cash.{cash_effects}
use traio.Activity.Validation.Laws.{IsLeg, validate-legs}
use traio.Activity.Reconcile.{reconcile}
use traio.Activity.Reconcile.Laws.{IsReport, reconcile-IsReport}

reads_padded : canonical_decimal (codes " 007.50") ≡ ok (codes "7.5")
unfolding canonical_decimal
reads_padded = refl

reads_signed : canonical_decimal (codes "+7.5000") ≡ ok (codes "7.5")
unfolding canonical_decimal
reads_signed = refl

canonical_decimal_value_example :
    KeepsValue (set_string (trim_space (codes " 007.50"))) (set_string (codes "7.5"))
canonical_decimal_value_example = canonical_decimal_value (codes " 007.50") reads_padded

canonical_decimal_unique_example :
    (codes "7.5" ≡ codes "7.5")
    ↔ KeepsValue
        (set_string (trim_space (codes " 007.50")))
        (set_string (trim_space (codes "+7.5000")))
canonical_decimal_unique_example =
    canonical_decimal_unique (codes " 007.50") (codes "+7.5000") reads_padded reads_signed

adds : add (codes " 0012.50") (codes "-2.5") ≡ ok (codes "10")
unfolding add
adds = refl

subtracts : sub (codes "1.20") (codes "1.2") ≡ ok zero_text
unfolding sub
subtracts = refl

multiplies : mul (codes "1.25") (codes "-.4") ≡ ok (codes "-0.5")
unfolding mul
multiplies = refl

add-IsExactResult_example : IsExactResult add_rat (codes " 0012.50") (codes "-2.5") (codes "10")
add-IsExactResult_example = add-IsExactResult (codes " 0012.50") (codes "-2.5") adds

mul-IsExactResult_example : IsExactResult mul_rat (codes "1.25") (codes "-.4") (codes "-0.5")
mul-IsExactResult_example = mul-IsExactResult (codes "1.25") (codes "-.4") multiplies

sub-IsExactResult_example : IsExactResult sub_rat (codes "1.20") (codes "1.2") zero_text
sub-IsExactResult_example = sub-IsExactResult (codes "1.20") (codes "1.2") subtracts

abbrev six_fifths : Rat
six_fifths = record { plus = 12; minus = 0; den = 10 }

reads_left : rational (codes "1.20") ≡ ok six_fifths
unfolding rational
reads_left = refl

reads_right : rational (codes "1.2") ≡ ok six_fifths
unfolding rational
reads_right = refl

sub-zero_example : (zero_text ≡ zero_text) ↔ SameValue six_fifths six_fifths
sub-zero_example = sub-zero (codes "1.20") (codes "1.2") reads_left reads_right subtracts

abbrev dividend_leg : Leg
dividend_leg = record {
  instrument_id = pos 0;
  symbol = [];
  asset_type = "";
  external_instrument_id = "";
  kind = "cash";
  component = "dividend";
  currency = codes "USD";
  quantity_delta = [];
  cash_delta = codes "12.40";
  effective_date = codes "2024-05-01";
  settlement_date = [];
}

abbrev dividend : Activity
dividend = record {
  id = "a-1";
  account_id = pos 3;
  provider = "IBKR";
  provider_account_id = "U1";
  activity_type = "dividend";
  subtype = "";
  status = effective;
  booking_status = booked;
  description = "";
  trade_date = codes "2024-05-01";
  settlement_date = [];
  occurred_at = [];
  source_timezone = "";
  time_precision = "date";
  revision = pos 1;
  legs = dividend_leg ∷ [];
  fill = none;
  sources = [];
  links = [];
  cash_effects_by_currency = [];
  warnings = [];
  cost_adjustments = [];
}

abbrev dollars : Text → Balance
dollars v = record { kind = "cash"; currency = codes "USD"; instrument_id = pos 0; value = v }

abbrev balanced : Difference
balanced = record {
  balance = dollars (codes "112.4");
  expected = codes "112.4";
  actual = codes "112.4";
  difference = zero_text;
  status = "passed";
}

reconciles :
    reconcile (some (dollars (codes "100.00"))) (dollars (codes "112.4")) (dividend ∷ [])
    ≡ ok balanced
unfolding reconcile
reconciles = refl

reconcile-IsReport_example :
    IsReport (dollars (codes "100.00")) (dollars (codes "112.4")) (dividend ∷ []) balanced
reconcile-IsReport_example =
    reconcile-IsReport (dollars (codes "100.00")) (dollars (codes "112.4")) (dividend ∷ [])
      reconciles

abbrev unpolished : Activity
unpolished = record dividend { legs = record dividend_leg { cash_delta = codes " 12.40" } ∷ [] }

abbrev polished : Activity
polished = record dividend {
  legs = record dividend_leg { cash_delta = codes "12.4" } ∷ [];
  cash_effects_by_currency = (codes "USD", codes "12.4") ∷ [];
}

validates : validate unpolished ≡ (polished, none)
unfolding validate
validates = refl

validate-legs_example :
    All IsLeg polished.legs × (cash_effects polished.legs ≡ ok polished.cash_effects_by_currency)
validate-legs_example = validate-legs unpolished validates
