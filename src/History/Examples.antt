-- ===== src/History/Examples.antt =====
-- Runs of the job table and of the scheduler at concrete inputs.
use mathlib.Core.List.{Memᴰ}
use traio.Prelude.{
  ℕ, ◌≤◌, ◌≡◌, ◌↔◌, ◌&&◌, ◌||◌, refl, String, true, false, List, [], ◌∷◌, ok, err, arith, str_eq,
  any, All, none,
}
use traio.Text.{Text, codes}
use traio.Activity.Types.{eq_ℤ, effective, booked, Leg, Activity, Balance, Difference}
use traio.History.Balances.{
  StoredSnapshot, worse, templates, preconditions_complete, reconcile_account,
}
use traio.History.Balances.Evidence.{IsComplete}
use traio.History.Balances.Laws.{opened, AddsUp, passed-AddsUp, unproved-incomplete}
use traio.History.Worker.{
  ReportRange, coverage_row, verified_report_coverage, has_account, is_positive_id,
  affected_account_ids, failure, finish_failure,
}
use traio.History.Worker.Laws.{HasUniqueIds, affected-accounts}
use traio.History.Worker.Proven.{IsProven, coverage-IsProven}
use traio.History.Worker.Failure.{IsFailed, finish_failure-IsFailed}
use traio.Prelude.Int.{pos}
use traio.Activity.Types.{ReconciliationSnapshot}
use traio.Date.{parse_day, format_day}
use traio.History.Requests.{
  BrokerConnection, is_provider, preferred_source, RequestDates, normalize_request_dates,
}
use traio.History.Requests.Laws.{IsChoice, IsDated, preferred_source-IsChoice, normalize-IsDated}
use traio.History.Jobs.{
  Clock, now_key, succeeded, Job, HistoryCounts, lease_lost, leased, new_job, rows_affected,
  holds_lease, claim, renew, check_lease, finish, create,
}
use traio.History.Jobs.Exclusive.{IsExclusive}
use traio.History.Jobs.Ready.{Claims, claim-Claims}
use traio.History.Jobs.Reach.{
  System, Step, tick, claimed, created, Reach, here, next, Reach-IsExclusive, empty-IsExclusive,
}
use traio.History.Jobs.Fencing.{fenced}
use traio.History.Schedule.{Interval, HistoryCoverage, days_cover, day_windows}
use traio.History.Schedule.Cover.{Covers, days_cover_iff}
use traio.History.Schedule.Windows.{Tiles, day_windows-Tiles}

abbrev morning : Clock
morning = record { seconds = 1000; nanos = 5 }

-- After the first lease has run out.
abbrev later : Clock
later = record { seconds = 1200; nanos = 0 }

abbrev fresh_job : Job String
fresh_job = new_job morning "job" (pos 7) "flex" "request"

abbrev first_lease : Job String
first_lease = leased "worker 1" morning fresh_job

abbrev second_lease : Job String
second_lease = leased "worker 2" later first_lease

abbrev at_start : System String
at_start = record { clock = morning; table = [] }

abbrev with_job : System String
with_job = record { clock = morning; table = fresh_job ∷ [] }

abbrev leased_once : System String
leased_once = record { clock = morning; table = first_lease ∷ [] }

abbrev run_out : System String
run_out = record { clock = later; table = first_lease ∷ [] }

abbrev leased_twice : System String
leased_twice = record { clock = later; table = second_lease ∷ [] }

job_created : Step str_eq at_start with_job
unfolding create
job_created = created "job" (pos 7) "flex" "request" tt refl refl

claims_once : claim "worker 1" morning with_job.table ≡ ok (first_lease, leased_once.table)
unfolding claim
claims_once = refl

claims_again : claim "worker 2" later run_out.table ≡ ok (second_lease, leased_twice.table)
unfolding claim
claims_again = refl

until_run_out : Reach str_eq at_start run_out
until_run_out =
    next (next (next here job_created) (claimed "worker 1" first_lease refl claims_once))
      (tick (omega arith) refl)

Reach-IsExclusive_example : IsExclusive (now_key later) leased_twice.table
Reach-IsExclusive_example =
    Reach-IsExclusive {R = String} str_eq {s = at_start} {t = leased_twice}
      (next until_run_out (claimed "worker 2" second_lease refl claims_again))
      (empty-IsExclusive (now_key morning))

claim-Claims_example : Claims "worker 2" later run_out.table (claim "worker 2" later run_out.table)
claim-Claims_example = claim-Claims {R = String} "worker 2" later run_out.table

abbrev no_counts : HistoryCounts
no_counts = record {
  records = 0;
  added = 0;
  updated = 0;
  duplicates = 0;
  unsupported = 0;
  conflicts = 0;
}

only_row : IsExclusive (now_key later) run_out.table
only_row = Reach-IsExclusive str_eq until_run_out (empty-IsExclusive (now_key morning))

fenced_example :
    (renew later first_lease leased_twice.table ≡ err lease_lost)
    × (check_lease later first_lease leased_twice.table ≡ err lease_lost)
    × (finish later first_lease succeeded no_counts "" leased_twice.table ≡ err lease_lost)
fenced_example =
    fenced {R = String} str_eq "worker 2" run_out leased_twice leased_twice second_lease first_lease
      {now = now_key later} succeeded no_counts "" only_row claims_again refl (omega arith) here
      refl

-- Two overlapping intervals, the later one first.
abbrev two_intervals : List Interval
two_intervals = record { start = 15; finish = 30 } ∷ record { start = 8; finish = 20 } ∷ []

days_cover_iff_example :
    (days_cover two_intervals 10 25 ≡ true) ↔ ((d : ℕ) → 10 ≤ d → d ≤ 25 → Covers two_intervals d)
days_cover_iff_example = days_cover_iff two_intervals 10 25 (omega arith) (omega arith)

day_windows-Tiles_example : Tiles 100 900 (day_windows 100 900)
day_windows-Tiles_example = day_windows-Tiles 100 900

-- A cash account: a deposit of 12.40 between two snapshots.
abbrev dollars : Text → Balance
dollars v = record { kind = "cash"; currency = codes "USD"; instrument_id = pos 0; value = v }

abbrev deposit_leg : Leg
deposit_leg = record {
  instrument_id = pos 0;
  symbol = [];
  asset_type = "";
  external_instrument_id = "";
  kind = "cash";
  component = "deposit";
  currency = codes "USD";
  quantity_delta = [];
  cash_delta = codes "12.40";
  effective_date = codes "2024-05-01";
  settlement_date = [];
}

abbrev deposit : Activity
deposit = record {
  id = "a-1";
  account_id = pos 3;
  provider = "IBKR";
  provider_account_id = "U1";
  activity_type = "deposit";
  subtype = "";
  status = effective;
  booking_status = booked;
  description = "";
  trade_date = codes "2024-05-01";
  settlement_date = [];
  occurred_at = [];
  source_timezone = "";
  time_precision = "date";
  revision = pos 1;
  legs = deposit_leg ∷ [];
  fill = none;
  sources = [];
  links = [];
  cash_effects_by_currency = [];
  warnings = [];
  cost_adjustments = [];
}

abbrev snapshot : String → Text → String → StoredSnapshot
snapshot id v completeness = record {
  id = id;
  date = codes "2024-04-30";
  basis = "trade_date";
  completeness = completeness;
  balances = dollars v ∷ [];
}

abbrev before : StoredSnapshot
before = snapshot "s-1" (codes "100") "complete"

abbrev after : StoredSnapshot
after = snapshot "s-2" (codes "112.4") "complete"

abbrev doubtful : StoredSnapshot
doubtful = snapshot "s-3" (codes "90") "partial"

account_passes : reconcile_account before after (deposit ∷ []) true true ≡ ok ("passed", [])
unfolding reconcile_account worse
account_passes = refl

passed-AddsUp_example :
    IsComplete before after (deposit ∷ []) true true
    × All
        (λ t. AddsUp (opened before t) (opened after t) (deposit ∷ []))
        (templates before after (deposit ∷ []))
passed-AddsUp_example = passed-AddsUp before after (deposit ∷ []) true true account_passes

account_doubtful :
    reconcile_account before doubtful (deposit ∷ []) true true ≡ ok ("incomplete", [])
unfolding reconcile_account worse
account_doubtful = refl

evidence_partial : preconditions_complete before doubtful (deposit ∷ []) true true ≡ false
unfolding preconditions_complete
evidence_partial = refl

unproved-incomplete_example :
    ◌≡◌ {A = String × List Difference} ("incomplete", []) ("incomplete", [])
unproved-incomplete_example =
    unproved-incomplete before doubtful (deposit ∷ []) true true evidence_partial account_doubtful

lease_counts : rows_affected (holds_lease morning first_lease) leased_once.table ≡ 1
unfolding rows_affected holds_lease
lease_counts = refl

lease_holds : holds_lease morning first_lease first_lease ≡ true
unfolding holds_lease
lease_holds = refl

finish_failure-IsFailed_example :
    IsFailed morning first_lease "history_sync_failed"
      (finish_failure morning first_lease (failure "history_sync_failed") leased_once.table)
      first_lease
finish_failure-IsFailed_example =
    finish_failure-IsFailed {R = String} morning first_lease first_lease "history_sync_failed"
      leased_once.table lease_counts (Memᴰ.head refl) lease_holds

abbrev full_report : ReportRange
full_report = record {
  provider_account_id = "U1";
  from = codes "2024-01-01";
  to = codes "2024-06-30";
  sections = "Trades" ∷ "CashTransactions" ∷ "Transfers" ∷ "CorporateActions" ∷ [];
}

abbrev proof_row : HistoryCoverage
proof_row = coverage_row (pos 3) "flex" "activities" full_report "complete"

has_proof_row :
    Memᴰ proof_row
      (verified_report_coverage (("U1", pos 3) ∷ []) ("U1" ∷ []) "flex" (full_report ∷ []))
unfolding verified_report_coverage
has_proof_row = Memᴰ.tail (Memᴰ.tail (Memᴰ.tail (Memᴰ.tail (Memᴰ.head refl))))

coverage-IsProven_example : IsProven (("U1", pos 3) ∷ []) ("U1" ∷ []) (full_report ∷ []) proof_row
coverage-IsProven_example =
    coverage-IsProven (("U1", pos 3) ∷ []) ("U1" ∷ []) "flex" (full_report ∷ []) proof_row
      has_proof_row refl refl

affected-accounts_example :
    HasUniqueIds (affected_account_ids (pos 3 ∷ pos 0 ∷ pos 3 ∷ []) (proof_row ∷ []))
    × (has_account (pos 3) (affected_account_ids (pos 3 ∷ pos 0 ∷ pos 3 ∷ []) (proof_row ∷ [])) ≡ (
        is_positive_id (pos 3)
        && (has_account (pos 3) (pos 3 ∷ pos 0 ∷ pos 3 ∷ [])
            || any (λ (c : HistoryCoverage). eq_ℤ c.account_id (pos 3)) (proof_row ∷ []))))
affected-accounts_example = affected-accounts (pos 3 ∷ pos 0 ∷ pos 3 ∷ []) (proof_row ∷ []) (pos 3)

abbrev flex_connection : BrokerConnection
flex_connection = record {
  provider_code = codes "ibkr";
  enabled = true;
  config = ("flex_activity_query_id", codes "77") ∷ [];
  secrets = ("flex_token", codes "t") ∷ [];
}

is_ibkr : is_provider flex_connection "IBKR" ≡ true
is_ibkr = refl

preferred_source-IsChoice_example :
    IsChoice flex_connection (preferred_source flex_connection (codes "2020-01-01") 739677)
preferred_source-IsChoice_example =
    preferred_source-IsChoice flex_connection (codes "2020-01-01") 739677 refl is_ibkr

abbrev undated : RequestDates
undated = record { source = "flex"; from = []; to = [] }

abbrev last_week : RequestDates
last_week = record { source = "flex"; from = codes "2024-02-23"; to = codes "2024-03-01" }

gets_dates : normalize_request_dates 739677 undated ≡ ok last_week
unfolding normalize_request_dates format_day parse_day
gets_dates = refl

normalize-IsDated_example : IsDated 739677 last_week
normalize-IsDated_example = normalize-IsDated 739677 undated last_week gets_dates

abbrev provider_account : String
provider_account = "U1"

abbrev source_ref : String
source_ref = "r"

abbrev trade_date : String
trade_date = "trade_date"

abbrev complete : String
complete = "complete"

abbrev reported : Text → String → ReconciliationSnapshot
reported v basis = record {
  provider_account_id = "U1";
  as_of_date = codes "2024-03-01";
  basis = basis;
  source_ref = "r";
  completeness = "complete";
  balances =
      record {
        balance = dollars v;
        external_instrument_id = "";
        symbol = "";
        asset_type = "";
        reported_cost = [];
      }
      ∷ [];
}
