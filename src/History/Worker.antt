-- ===== src/History/Worker.antt =====
-- internal/history/worker.go: what a worker does with a report's coverage, a job's result and a
-- failure. The provider's report reader is not modelled: its answer is a list of ranges.
pub mod Laws
pub mod Proven
pub mod Failure
use traio.Prelude.{
  ℕ, String, Bool, true, false, not, ◌&&◌, ◌||◌, List, [], ◌∷◌, ◌++◌, Option, none, some, Result,
  ok, err, ltb, leb, str_eq, is_empty, any, all, map, if◌then◌else◌,
}
use traio.Prelude.Int.{ℤ, pos, pos_part}
use traio.Text.{Text}
use traio.Activity.Types.{eq_ℤ, ReconciliationSnapshot}
use traio.History.Jobs.{
  Clock, Status, retry_wait, failed, needs_action, HistoryCounts, Job, JobError, finish,
}
use traio.History.Schedule.{HistoryCoverage}

-- ibkr.ActivityReportRange, as `ActivityReportCoverage` answers it.
pub record ReportRange : Type 0 where
  pub provider_account_id : String
  pub from : Text
  pub to : Text
  pub sections : List String

abbrev pub required_sections : List String
required_sections = "Trades" ∷ "CashTransactions" ∷ "Transfers" ∷ "CorporateActions" ∷ []

-- The map `sectionTypes`.
unfoldable pub section_type : String → Option String
section_type s =
    if str_eq s "Trades"
    then some "trade"
    else if str_eq s "CashTransactions"
    then some "cash"
    else if str_eq s "Transfers"
    then some "transfer"
    else if str_eq s "CorporateActions"
    then some "corporate_action"
    else none

abbrev pub coverage_row : ℤ → String → String → ReportRange → String → HistoryCoverage
coverage_row account source data_type r status = record {
  id = "";
  account_id = account;
  source = source;
  data_type = data_type;
  scope_key = "account";
  from = r.from;
  to = r.to;
  fetch_status = status;
  normalize_status = "";
  reconcile_status = "";
  last_checked_at = [];
}

unfoldable pub section_row : ℤ → String → ReportRange → Option String → List HistoryCoverage
section_row account source r none = []
section_row account source r (some t) = coverage_row account source t r "complete" ∷ []

unfoldable pub section_rows : ℤ → String → ReportRange → List String → List HistoryCoverage
unfolding section_row section_type
section_rows account source r [] = []
section_rows account source r (s ∷ ss) =
    section_row account source r (section_type s) ++ section_rows account source r ss

abbrev pub has_section : List String → String → Bool
has_section ss s = any (λ t. str_eq t s) ss

abbrev pub is_complete_report : ReportRange → Bool
is_complete_report r = all (has_section r.sections) required_sections

-- The rows of one report.
unfoldable pub report_rows : ℤ → String → ReportRange → List HistoryCoverage
unfolding section_rows
report_rows account source r =
    section_rows account source r r.sections
    ++ (coverage_row account source "activities" r
          (if is_complete_report r then "complete" else "observed")
        ∷ [])

-- `accountIDs[id]`, 0 where there is none.
unfoldable pub account_id_of : String → List (String × ℤ) → ℤ
account_id_of k [] = pos 0
account_id_of k ((j, a) ∷ m) = if str_eq j k then a else account_id_of k m

-- `verifiedReportCoverage`, with the accounts by provider id and the ids that are allowed.
unfoldable pub verified_report_coverage :
    List (String × ℤ) → List String → String → List ReportRange → List HistoryCoverage
unfolding report_rows account_id_of
verified_report_coverage accounts allowed source [] = []
verified_report_coverage accounts allowed source (r ∷ rs) =
    (if not (has_section allowed r.provider_account_id) || is_empty r.from || is_empty r.to
      then []
      else report_rows (account_id_of r.provider_account_id accounts) source r)
    ++ verified_report_coverage accounts allowed source rs

unfoldable pub filter_snapshots :
    List String → List ReconciliationSnapshot → List ReconciliationSnapshot
filter_snapshots allowed [] = []
filter_snapshots allowed (s ∷ ss) =
    let rest = filter_snapshots allowed ss in
    if has_section allowed s.provider_account_id then s ∷ rest else rest

abbrev pub has_account : ℤ → List ℤ → Bool
has_account x ids = any (λ i. eq_ℤ i x) ids

abbrev pub is_positive_id : ℤ → Bool
is_positive_id x = ltb 0 (pos_part x)

-- `if accountID > 0 && !seen[accountID] { ... }`: the ids seen are those of the result.
unfoldable pub add_account : ℤ → List ℤ → List ℤ
add_account x result =
    if is_positive_id x && not (has_account x result) then result ++ (x ∷ []) else result

unfoldable pub add_accounts : List ℤ → List ℤ → List ℤ
unfolding add_account
add_accounts [] result = result
add_accounts (x ∷ xs) result = add_accounts xs (add_account x result)

unfoldable pub affected_account_ids : List ℤ → List HistoryCoverage → List ℤ
unfolding add_accounts
affected_account_ids requested coverage =
    add_accounts (map (λ (c : HistoryCoverage). c.account_id) coverage) (add_accounts requested [])

-- `statuses[id]`, "" where there is none.
unfoldable pub status_of : ℤ → List (ℤ × String) → String
status_of x [] = ""
status_of x ((i, s) ∷ m) = if eq_ℤ i x then s else status_of x m

abbrev pub or_unknown : String → String
or_unknown s = if str_eq s "" then "unknown" else s

abbrev observed_row : String → Text → Text → (ℤ × String) → HistoryCoverage
observed_row source from to (account, status) = record {
  id = "";
  account_id = account;
  source = source;
  data_type = if str_eq source "gateway" then "trade" else "activities";
  scope_key = "account";
  from = from;
  to = to;
  fetch_status = "observed";
  normalize_status = "";
  reconcile_status = status;
  last_checked_at = [];
}

-- `applyReconciliationStatus`: the job's source and dates, its coverage, the accounts' statuses.
unfoldable pub apply_reconciliation_status :
    String → Text → Text → List (ℤ × String) → List HistoryCoverage → List HistoryCoverage
unfolding status_of
apply_reconciliation_status source from to statuses [] = map (observed_row source from to) statuses
apply_reconciliation_status source from to statuses (c ∷ cs) =
    map
      (λ (d : HistoryCoverage). record d {
        reconcile_status = or_unknown (status_of d.account_id statuses);
      })
      (c ∷ cs)

-- Why a job failed: the context was cancelled, the lease was lost, or an error with its stable code.
pub data Cause : Type 0 where
  canceled : Cause
  lost : Cause
  failure : String → Cause

abbrev pub action_codes : List String
action_codes =
    "source_not_configured" ∷ "source_authentication_required" ∷ "history_not_supported"
    ∷ "history_account_not_found" ∷ "history_account_not_connected" ∷ "import_invalid"
    ∷ "import_expired" ∷ []

abbrev pub needs_user : String → Bool
needs_user code = any (λ c. str_eq code c) action_codes

unfoldable pub failure_status : ℕ → String → Status
failure_status attempt code =
    if needs_user code then needs_action else if leb 5 attempt then failed else retry_wait

-- `finishFailure`; the table is left as it is where the lease was lost meanwhile.
unfoldable pub finish_failure : {R : Type 0} → Clock → Job R → Cause → List (Job R) → List (Job R)
unfolding failure_status finish
finish_failure c job canceled table = table
finish_failure c job lost table = table
finish_failure c job (failure code) table =
    elim (finish c job (failure_status job.attempt code) job.counts code table) [
      | ok t ↦ t
      | err e ↦ table
    ]
