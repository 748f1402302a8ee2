-- ===== src/History/Normalize/Prepare.antt =====
-- A raw record made an activity: the first part of normalizeHistoryRecord of
-- internal/store/activity_records.go. `resolve` is resolveInstrumentTx, which finds or adds the
-- instrument of a leg; `lower` is strings.ToLower and `equal_fold` strings.EqualFold.
use traio.Prelude.{
  ℕ, zero, suc, String, Bool, not, ◌&&◌, ◌||◌, List, [], ◌∷◌, ◌++◌, Option, none, some, Result, ok,
  err, ◌>>=◌, str_eq, is_empty, filter, if◌then◌else◌,
}
use traio.Prelude.Int.{ℤ, pos, ltb_ℤ}
use traio.Text.{Text}
use traio.Activity.Types.{Activity, Leg, CostAdjustment, needs_review, booked, provisional, eq_ℤ}
use traio.Activity.Validation.{validate, validate_date}
use traio.History.Normalize.Records.{
  RawRecord, NormalizeError, source_not_supported, provider_mismatch, instrument_failed,
  quarantine_invalid,
}

abbrev expected_provider : String → Option String
expected_provider source =
    if str_eq source "gateway" || str_eq source "flex" || str_eq source "xml"
    then some "IBKR"
    else if str_eq source "schwab"
    then some "SCHWAB"
    else if str_eq source "alpaca"
    then some "ALPACA"
    else none

abbrev checked_provider :
    (String → String → Bool) → String → Option String → Result NormalizeError String
checked_provider equal_fold reported none = err source_not_supported
checked_provider equal_fold reported (some expected) =
    if not (str_eq reported "") && not (equal_fold reported expected)
    then err provider_mismatch
    else ok expected

-- `historyRecordProvider`
unfoldable pub history_record_provider :
    (String → String) → (String → String → Bool) → RawRecord → Result NormalizeError String
history_record_provider lower equal_fold r =
    checked_provider equal_fold r.activity.provider (expected_provider (lower r.source))

abbrev in_review : String → Activity → Activity
in_review warning a = record a { status = needs_review; warnings = a.warnings ++ warning ∷ [] }

abbrev put_leg : Option ℤ → Leg → List Leg → ℕ → Result NormalizeError (List Leg × ℕ)
put_leg found l rest missing =
    if not (str_eq l.kind "position")
    then ok (l ∷ rest, missing)
    else if is_empty l.symbol
    then ok (l ∷ rest, suc missing)
    else elim found [
      | none ↦ err instrument_failed
      | some i ↦ ok (record l { instrument_id = i } ∷ rest, missing)
    ]

-- The legs with their instruments, and whether a position has no symbol.
unfoldable pub resolve_legs : (Leg → Option ℤ) → List Leg → Result NormalizeError (List Leg × ℕ)
resolve_legs resolve [] = ok ([], 0)
resolve_legs resolve (l ∷ ls) = do
  (rest, missing) ← resolve_legs resolve ls
  put_leg (resolve l) l rest missing

-- A warning for each of these legs.
abbrev warned : ℕ → Activity → Activity
warned zero a = a
warned (suc n) a = warned n (in_review "instrument_identity_unresolved" a)

-- A position without an instrument stays out of the activity.
abbrev is_resolved : Leg → Bool
is_resolved l = not (str_eq l.kind "position") || ltb_ℤ (pos 0) l.instrument_id

-- The instrument of the first position with the same external id.
abbrev cost_instrument : List Leg → CostAdjustment → CostAdjustment
cost_instrument [] c = c
cost_instrument (l ∷ ls) c =
    if str_eq l.kind "position" && str_eq l.external_instrument_id c.external_instrument_id
    then record c { instrument_id = l.instrument_id }
    else cost_instrument ls c

-- The costs with their instruments; `none` where one has none.
unfoldable pub resolve_costs : List Leg → List CostAdjustment → Option (List CostAdjustment)
resolve_costs ls [] = some []
resolve_costs ls (c ∷ cs) =
    let d = cost_instrument ls c in
    if eq_ℤ d.instrument_id (pos 0)
    then none
    else elim (resolve_costs ls cs) [ none ↦ none | some ds ↦ some (d ∷ ds) ]

abbrev with_costs : Activity → Option (List CostAdjustment) → Activity
with_costs a none = record (in_review "cost_instrument_unresolved" a) { cost_adjustments = [] }
with_costs a (some cs) = record a { cost_adjustments = cs }

abbrev kept_date : Text → Text
kept_date d = elim (validate_date d) [ none ↦ d | some e ↦ [] ]

-- What is left of an activity that is not valid.
unfoldable pub quarantined : Activity → Activity
unfolding validate_date
quarantined a = record (in_review "record_validation_failed" a) {
  legs = [];
  cash_effects_by_currency = [];
  fill = none;
  cost_adjustments = [];
  activity_type = if str_eq a.activity_type "" then "unknown" else a.activity_type;
  booking_status =
      if str_eq a.booking_status booked || str_eq a.booking_status provisional
      then a.booking_status
      else provisional;
  trade_date = kept_date a.trade_date;
  settlement_date = kept_date a.settlement_date;
  occurred_at = [];
  time_precision = "unknown";
}

abbrev validated : (Activity × Option String) → Result NormalizeError Activity
validated (a, none) = ok a
validated (a, some e) = err quarantine_invalid

-- The quarantine works on what the first validation left.
abbrev validated_or_quarantined : (Activity × Option String) → Result NormalizeError Activity
validated_or_quarantined (a, none) = ok a
validated_or_quarantined (a, some e) = validated (validate (quarantined a))

unfoldable pub prepare :
    (String → String)
    → (String → String → Bool)
    → (String → Leg → Option ℤ)
    → ℤ
    → RawRecord
    → Result NormalizeError Activity
unfolding history_record_provider resolve_legs resolve_costs validate quarantined
prepare lower equal_fold resolve account r = do
  provider ← history_record_provider lower equal_fold r
  (legs, missing) ← resolve_legs (resolve provider) r.activity.legs
  let a = warned missing (record r.activity {
    account_id = account;
    provider = provider;
    provider_account_id = r.provider_account_id;
    legs = filter is_resolved legs;
  })
  validated_or_quarantined (validate (with_costs a (resolve_costs a.legs a.cost_adjustments)))
