-- ===== src/Activity/Validation.antt =====
-- internal/activity/validation.go: `Validate` and the checks that it is made of. `Validate` rewrites
-- its argument in place and keeps, on an error, what it has rewritten so far; a check is therefore a
-- function from the value to the value left and the error, if there was one.
pub mod Cash
pub mod Laws
use traio.Prelude.{
  ℕ, String, ◌==◌, Bool, true, false, not, ◌&&◌, ◌||◌, List, [], ◌∷◌, Option, none, some, Result,
  ok, err, is_empty, length, all, leb, str_eq, if◌then◌else◌,
}
use traio.Prelude.Int.{pos}
use traio.Text.{Text, text_eq}
use traio.Text.Trim.{trim_space}
use traio.Date.{Civil, parse_date, format_date}
use traio.Date.Timestamp.{is_rfc3339_nano}
use traio.Activity.Decimal.{canonical_decimal}
use traio.Activity.Types.{
  eq_ℤ, effective, voided, needs_review, unsupported, booked, provisional, Leg, Fill,
  CostAdjustment, Activity,
}
use traio.Activity.Validation.Cash.{valid_currency, cash_effects}

-- The value as it is left, and the error.
abbrev pub Checked : Type 0 → Type 0
Checked A = A × Option String

-- The next statement, unless an error was returned.
abbrev pub then_check : {A : Type 0} → Checked A → (A → Checked A) → Checked A
then_check (a, none) f = f a
then_check (a, some e) f = (a, some e)

-- `if test { return error }`
abbrev pub fail_if : {A : Type 0} → Bool → String → A → Checked A
fail_if test e a = (a, if test then some e else none)

abbrev date_error : String
date_error = "invalid activity date"

unfoldable pub validate_parsed : Text → Option Civil → Option String
unfolding format_date
validate_parsed s none = some date_error
validate_parsed s (some d) = if text_eq (format_date d) s then none else some date_error

unfoldable pub validate_date : Text → Option String
unfolding validate_parsed parse_date
validate_date s = if is_empty s then none else validate_parsed s (parse_date s)

abbrev pub check_date : {A : Type 0} → Text → A → Checked A
check_date s a = (a, validate_date s)

-- `switch a.Status`
unfoldable pub valid_status : String → Bool
valid_status s =
    str_eq s effective || str_eq s voided || str_eq s needs_review || str_eq s unsupported

unfoldable pub valid_precision : String → Bool
valid_precision s =
    str_eq s "date"
    || str_eq s "second"
    || str_eq s "millisecond"
    || str_eq s "nanosecond"
    || str_eq s "unknown"

-- The fields of the activity itself, down to the default of `TimePrecision`.
unfoldable pub check_header : Activity → Checked Activity
unfolding valid_status valid_precision validate_date is_rfc3339_nano
check_header a =
    then_check
      (fail_if (str_eq a.activity_type "" || str_eq a.provider_account_id "")
        "activity type and provider account are required" a)
      λ a. then_check (fail_if (not (valid_status a.status)) "invalid activity status" a) λ a.
        then_check
          (fail_if
            (not (str_eq a.booking_status booked) && not (str_eq a.booking_status provisional))
            "invalid booking status" a)
          λ a. then_check (check_date a.trade_date a) λ a.
            then_check (check_date a.settlement_date a) λ a.
              then_check
                (fail_if (not (is_empty a.occurred_at) && not (is_rfc3339_nano a.occurred_at))
                  "occurred_at requires explicit timezone" a)
                λ a.
                  let b = record a {
                    time_precision =
                        if str_eq a.time_precision "" then "date" else a.time_precision;
                  } in
                  then_check
                    (fail_if (not (valid_precision b.time_precision)) "invalid time precision" b)
                    λ a.
                      fail_if
                        (str_eq a.status effective
                          && is_empty a.legs
                          && is_empty a.cost_adjustments)
                        "effective activity needs an explicit effect" a

-- `n, e := CanonicalDecimal(x); if e != nil { return e }; x = n`
unfoldable pub canonicalize : Text → Checked Text
unfolding canonical_decimal
canonicalize s = elim (canonical_decimal s) [ ok n ↦ (n, none) | err e ↦ (s, some e) ]

-- `if *p != "" { ... }`
unfoldable pub canonicalize_optional : Text → Checked Text
unfolding canonicalize
canonicalize_optional s = if is_empty s then (s, none) else canonicalize s

unfoldable pub check_cash_leg : Leg → Checked Leg
unfolding canonicalize valid_currency
check_cash_leg l =
    then_check
      (fail_if
        (not (valid_currency l.currency)
          || is_empty l.cash_delta
          || not (is_empty l.quantity_delta))
        "invalid cash leg" l)
      λ l. let (n, e) = canonicalize l.cash_delta in (record l { cash_delta = n }, e)

unfoldable pub check_position_leg : Leg → Checked Leg
unfolding canonicalize trim_space
check_position_leg l =
    then_check
      (fail_if
        (eq_ℤ l.instrument_id (pos 0)
            && str_eq l.external_instrument_id ""
            && is_empty (trim_space l.symbol)
          || is_empty l.quantity_delta
          || not (is_empty l.cash_delta))
        "invalid position leg" l)
      λ l. let (n, e) = canonicalize l.quantity_delta in (record l { quantity_delta = n }, e)

-- `switch l.Kind`
unfoldable pub check_leg_kind : Leg → Checked Leg
unfolding check_cash_leg check_position_leg
check_leg_kind l =
    if str_eq l.kind "cash"
    then check_cash_leg l
    else if str_eq l.kind "position"
    then check_position_leg l
    else (l, some "invalid leg kind")

unfoldable pub check_leg : Leg → Checked Leg
unfolding check_leg_kind validate_date
check_leg l =
    then_check (check_date l.effective_date l)
      λ l. then_check (check_date l.settlement_date l) λ l. check_leg_kind l

-- A loop over the elements of a slice in place: it ends at the first error.
unfoldable pub check_each : {A : Type 0} → (A → Checked A) → List A → Checked (List A)
check_each f [] = ([], none)
check_each f (x ∷ xs) =
    let (y, e) = f x in
    let (ys, d) = check_each f xs in elim e [ none ↦ (y ∷ ys, d) | some m ↦ (y ∷ xs, some m) ]

unfoldable pub check_fill : Fill → Checked Fill
unfolding canonicalize_optional
check_fill f =
    then_check (let (n, e) = canonicalize_optional f.quantity in (record f { quantity = n }, e))
      λ f.
        then_check (let (n, e) = canonicalize_optional f.price in (record f { price = n }, e)) λ f.
          then_check
            (let (n, e) = canonicalize_optional f.multiplier in (record f { multiplier = n }, e))
            λ f.
              then_check
                (let (n, e) = canonicalize_optional f.reported_net_cash in
                  (record f { reported_net_cash = n }, e))
                λ f.
                  let (n, e) = canonicalize_optional f.reported_realized_pnl in
                  (record f { reported_realized_pnl = n }, e)

unfoldable pub check_optional_fill : Option Fill → Checked (Option Fill)
unfolding check_fill
check_optional_fill none = (none, none)
check_optional_fill (some f) = let (g, e) = check_fill f in (some g, e)

unfoldable pub check_cost_adjustment : CostAdjustment → Checked CostAdjustment
unfolding canonicalize_optional valid_currency
check_cost_adjustment c =
    then_check
      (fail_if (eq_ℤ c.instrument_id (pos 0) && str_eq c.external_instrument_id "")
        "cost adjustment needs instrument" c)
      λ c.
        then_check
          (fail_if
            (not (valid_currency c.currency)
              || str_eq c.evidence ""
              || str_eq c.allocation_method "")
            "cost adjustment needs currency and evidence" c)
          λ c.
            then_check
              (fail_if (is_empty c.basis_delta && is_empty c.basis_before && is_empty c.basis_after)
                "cost adjustment has no values" c)
              λ c.
                then_check
                  (let (n, e) = canonicalize_optional c.basis_delta in
                    (record c { basis_delta = n }, e))
                  λ c.
                    then_check
                      (let (n, e) = canonicalize_optional c.basis_before in
                        (record c { basis_before = n }, e))
                      λ c.
                        let (n, e) = canonicalize_optional c.basis_after in
                        (record c { basis_after = n }, e)

unfoldable pub set_effects : Activity → Checked Activity
unfolding cash_effects
set_effects a = elim (cash_effects a.legs) [
  | ok effects ↦ (record a { cash_effects_by_currency = effects }, none)
  | err e ↦ (a, some e)
]

-- `Validate`, for a pointer that is not nil.
unfoldable pub validate : Activity → Checked Activity
unfolding check_header check_each check_leg check_optional_fill check_cost_adjustment set_effects
validate a = then_check (check_header a) λ a.
    then_check (let (ls, e) = check_each check_leg a.legs in (record a { legs = ls }, e)) λ a.
      then_check (let (f, e) = check_optional_fill a.fill in (record a { fill = f }, e)) λ a.
        then_check
          (let (cs, e) = check_each check_cost_adjustment a.cost_adjustments in
            (record a { cost_adjustments = cs }, e))
          λ a. set_effects a
