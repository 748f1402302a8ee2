-- ===== src/History/Normalize/Examples.antt =====
-- A report of a broker that gives a trade's later text, and the same record met again.
use traio.Prelude.{
  ◌≡◌, refl, String, [], ◌∷◌, ◌++◌, none, some, Result, ok, err, str_eq, map, filter,
}
use traio.Prelude.Int.{pos}
use traio.Text.{codes}
use traio.Activity.Types.{Activity, effective, booked}
use traio.History.Normalize.Records.{RawRecord, Revision, Ledger, NormalizeError}
use traio.History.Normalize.{normalize_history_record}
use traio.History.Normalize.Lookups.{Codes}
use traio.History.Normalize.Writes.{Task}
use traio.History.Normalize.Laws.{normalize_again}
use traio.History.Normalize.Laws.Appends.{Appends, normalize-Appends}

abbrev outside : Codes
outside = record {
  lower = λ s. s;
  equal_fold = λ s t. str_eq s t;
  json = λ a. codes a.description;
  fingerprint = λ a. codes a.activity_type ++ a.trade_date;
  parse_time = λ t. none;
  resolve = λ provider l. some (pos 3);
}

abbrev dividend : String → Activity
dividend description = record {
  id = "";
  account_id = pos 7;
  provider = "IBKR";
  provider_account_id = "U1";
  activity_type = "dividend";
  subtype = "";
  status = effective;
  booking_status = booked;
  description = description;
  trade_date = codes "2024-03-04";
  settlement_date = [];
  occurred_at = [];
  source_timezone = "";
  time_precision = "date";
  revision = pos 1;
  legs =
      record {
        instrument_id = pos 0;
        symbol = [];
        asset_type = "";
        external_instrument_id = "";
        kind = "cash";
        component = "dividend";
        currency = codes "USD";
        quantity_delta = [];
        cash_delta = codes "12.5";
        effective_date = codes "2024-03-04";
        settlement_date = [];
      }
      ∷ [];
  fill = none;
  sources = [];
  links = [];
  cash_effects_by_currency = [];
  warnings = [];
  cost_adjustments = [];
}

abbrev report : RawRecord
report = record {
  source = "flex";
  namespace = "ibkr";
  key = "D1";
  record_type = "cash";
  provider_account_id = "U1";
  source_updated_at = codes "2024-03-05";
  activity = dividend "final";
  identities = [];
}

-- The gateway told of the same dividend before.
abbrev ledger : Ledger
ledger = record {
  activities = record { id = "act"; account = pos 7; current_revision = 1 } ∷ [];
  revisions =
      record {
        id = "rev";
        activity_id = "act";
        revision_no = 1;
        payload = dividend "first";
        source_priority = 10;
        source_updated_at = codes "2024-03-04";
        rule_version = "ibkr-activity-v2";
      }
      ∷ [];
  identities =
      record {
        account = pos 7;
        identity = record { namespace = "ibkr"; kind = "cash"; external_id = "D1" };
        activity_id = "act";
      }
      ∷ [];
  sources = record { revision_id = "rev"; raw_record_id = "raw0"; role = "principal" } ∷ [];
  links = [];
  raws = record { id = "raw1"; source = "flex"; normalize_status = "pending" } ∷ [];
  observations = record { raw_record_id = "raw1"; job_id = "job"; outcome = "" } ∷ [];
  issues = [];
}

abbrev task : Task
task = record {
  job = "job";
  raw = "raw1";
  account = pos 7;
  new_activity = "act2";
  new_revision = "rev2";
  received = report;
}

abbrev left_of : Result NormalizeError (String × Ledger) → Ledger
left_of (ok (outcome, l)) = l
left_of (err reason) = ledger

abbrev after : Ledger
after = left_of (normalize_history_record outside task ledger)

revised_once : normalize_history_record outside task ledger ≡ ok ("updated", after)
unfolding normalize_history_record filter
revised_once = refl

two_versions : map (λ (v : Revision). v.revision_no) after.revisions ≡ 2 ∷ 1 ∷ []
unfolding normalize_history_record filter
two_versions = refl

normalize_again_example : normalize_history_record outside task after ≡ ok ("updated", after)
normalize_again_example = normalize_again outside task ledger after "updated" revised_once

normalize-Appends_example : Appends outside task ledger after
normalize-Appends_example = normalize-Appends outside task ledger after "updated" revised_once
