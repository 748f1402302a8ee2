-- ===== src/History/Balances.antt =====
-- internal/store/activity_reconciliation.go: the check of a job's accounts. A stored snapshot's map of
-- balances is the list of its entries, one for each key. Go visits the keys in no fixed order; here
-- they are visited in the order in which they are found.
pub mod Evidence
pub mod Laws
use traio.Prelude.{
  ℕ, ◌-◌, String, Bool, true, false, not, ◌&&◌, ◌||◌, List, [], ◌∷◌, ◌++◌, Option, none, some,
  Result, ok, err, ◌>>=◌, ltb, str_eq, is_empty, if◌then◌else◌,
}
use traio.Prelude.Int.{ℤ, pos}
use traio.Text.{Text, text_eq, text_lt}
use traio.Date.{parse_day}
use traio.Activity.Decimal.{zero_text}
use traio.Activity.Types.{eq_ℤ, effective, voided, booked, Leg, Activity, Balance, Difference}
use traio.Activity.Reconcile.{counts, reconcile}
use traio.History.Schedule.{Interval, HistoryCoverage, sort_intervals, cover_loop, interval_of}

pub record StoredSnapshot : Type 0 where
  pub id : String
  pub date : Text
  pub basis : String
  pub completeness : String
  pub balances : List Balance

-- Whether `balanceKey` gives one text for both. The kinds are "cash" and "position".
unfoldable pub same_key : Balance → Balance → Bool
same_key a b =
    if str_eq a.kind "position"
    then str_eq b.kind "position" && eq_ℤ a.instrument_id b.instrument_id
    else str_eq a.kind b.kind && text_eq a.currency b.currency

unfoldable pub find_balance : Balance → List Balance → Option Balance
unfolding same_key
find_balance k [] = none
find_balance k (b ∷ bs) = if same_key b k then some b else find_balance k bs

unfoldable pub put_balance : Balance → List Balance → List Balance
unfolding same_key
put_balance b [] = b ∷ []
put_balance b (c ∷ cs) = if same_key c b then b ∷ cs else c ∷ put_balance b cs

unfoldable pub put_balances : List Balance → List Balance → List Balance
unfolding put_balance
put_balances [] ts = ts
put_balances (b ∷ bs) ts = put_balances bs (put_balance b ts)

-- The `switch` on a leg's kind.
unfoldable pub leg_balance : Leg → Option Balance
leg_balance l =
    if str_eq l.kind "cash"
    then some
        (record { kind = "cash"; currency = l.currency; instrument_id = pos 0; value = zero_text })
    else if str_eq l.kind "position"
    then some (record {
      kind = "position";
      currency = [];
      instrument_id = l.instrument_id;
      value = zero_text;
    })
    else none

-- `if _, ok := templates[key]; !ok { templates[key] = balance }`
unfoldable pub add_template : Option Balance → List Balance → List Balance
unfolding same_key
add_template none ts = ts
add_template (some b) [] = b ∷ []
add_template (some b) (t ∷ ts) = if same_key t b then t ∷ ts else t ∷ add_template (some b) ts

unfoldable pub leg_templates : List Leg → List Balance → List Balance
unfolding leg_balance add_template
leg_templates [] ts = ts
leg_templates (l ∷ ls) ts = leg_templates ls (add_template (leg_balance l) ts)

unfoldable pub activity_templates : List Activity → List Balance → List Balance
unfolding leg_templates
activity_templates [] ts = ts
activity_templates (a ∷ as') ts = activity_templates as' (leg_templates a.legs ts)

-- The maps `keys` and `templates`.
unfoldable pub templates : StoredSnapshot → StoredSnapshot → List Activity → List Balance
unfolding put_balances activity_templates
templates opening closing activities =
    activity_templates activities (put_balances closing.balances (put_balances opening.balances []))

unfoldable pub is_ledger_complete : List Activity → Bool
is_ledger_complete [] = true
is_ledger_complete (a ∷ as') =
    if not (str_eq a.status voided)
      && (not (str_eq a.status effective) || not (str_eq a.booking_status booked))
    then false
    else is_ledger_complete as'

unfoldable pub preconditions_complete :
    StoredSnapshot → StoredSnapshot → List Activity → Bool → Bool → Bool
unfolding is_ledger_complete
preconditions_complete opening closing activities covered records_complete =
    str_eq opening.completeness "complete"
    && str_eq closing.completeness "complete"
    && str_eq opening.basis closing.basis
    && covered
    && records_complete
    && is_ledger_complete activities

unfoldable pub rank : String → ℕ
rank s =
    if str_eq s "unknown"
    then 1
    else if str_eq s "incomplete"
    then 2
    else if str_eq s "mismatch"
    then 3
    else 0

-- `reconciliationWorse`
unfoldable pub worse : String → String → String
unfolding rank
worse current candidate = if ltb (rank current) (rank candidate) then candidate else current

abbrev pub zero_balance : Balance → Balance
zero_balance t = record t { value = zero_text }

abbrev pub or_zero_balance : Balance → Option Balance → Balance
or_zero_balance t none = zero_balance t
or_zero_balance t (some b) = b

-- The opening balance that is passed on: none where it is unknown.
abbrev pub opening_balance : Bool → Balance → Option Balance → Option Balance
opening_balance complete t (some b) = some b
opening_balance complete t none = if complete then some (zero_balance t) else none

-- The status after a key, and the issue that is saved for it.
unfoldable pub judge : Bool → String → Difference → String × List Difference
judge complete status d =
    if str_eq d.status "mismatch" && complete
    then ("mismatch", d ∷ [])
    else if complete
    then (worse status d.status, [])
    else (status, [])

unfoldable pub check_found :
    Bool
    → Option Balance
    → Option Balance
    → Balance
    → List Activity
    → String
    → Result String (String × List Difference)
unfolding reconcile judge
check_found complete opened closed t activities status =
    if not complete && is_none closed
    then ok (status, [])
    else reconcile (opening_balance complete t opened) (or_zero_balance t closed) activities
      >>= λ d. ok (judge complete status d)
  where
    is_none : Option Balance → Bool
    is_none none = true
    is_none (some b) = false

-- The body of the loop over the keys.
unfoldable pub check_key :
    Bool
    → StoredSnapshot
    → StoredSnapshot
    → List Activity
    → String
    → Balance
    → Result String (String × List Difference)
unfolding check_found find_balance
check_key complete opening closing activities status t =
    check_found complete (find_balance t opening.balances) (find_balance t closing.balances) t
      activities status

unfoldable pub check_keys :
    Bool
    → StoredSnapshot
    → StoredSnapshot
    → List Activity
    → String
    → List Balance
    → Result String (String × List Difference)
unfolding check_key
check_keys complete opening closing activities status [] = ok (status, [])
check_keys complete opening closing activities status (t ∷ ts) = do
  (now, found) ← check_key complete opening closing activities status t
  (last, others) ← check_keys complete opening closing activities now ts
  ok (last, found ++ others)

-- An account of `ReconcileHistoryJob` that has both snapshots: its status and the issues saved.
unfoldable pub reconcile_account :
    StoredSnapshot
    → StoredSnapshot
    → List Activity
    → Bool
    → Bool
    → Result String (String × List Difference)
unfolding preconditions_complete check_keys templates
reconcile_account opening closing activities covered records_complete =
    let complete = preconditions_complete opening closing activities covered records_complete in
    check_keys complete opening closing activities (if complete then "passed" else "incomplete")
      (templates opening closing activities)

-- The rows that count as proof of `reconciliationCoverageComplete`: of the table, and of the job.
abbrev is_stored_proof : ℤ → HistoryCoverage → Bool
is_stored_proof account c =
    eq_ℤ c.account_id account
    && str_eq c.data_type "activities"
    && str_eq c.scope_key "account"
    && str_eq c.fetch_status "complete"
    && str_eq c.normalize_status "complete"

abbrev is_job_proof : ℤ → HistoryCoverage → Bool
is_job_proof account c =
    eq_ℤ c.account_id account
    && str_eq c.data_type "activities"
    && str_eq c.scope_key "account"
    && str_eq c.fetch_status "complete"

unfoldable pub proof_intervals : (HistoryCoverage → Bool) → List HistoryCoverage → List Interval
unfolding interval_of parse_day
proof_intervals is_proof [] = []
proof_intervals is_proof (c ∷ cs) =
    (if is_proof c then interval_of (parse_day c.from) (parse_day c.to) else [])
    ++ proof_intervals is_proof cs

unfoldable pub wanted_cover : List Interval → Option ℕ → Option ℕ → Bool
unfolding sort_intervals cover_loop
wanted_cover intervals (some a) (some b) = cover_loop a b (a - 1) (sort_intervals intervals)
wanted_cover intervals _ _ = false

unfoldable pub reconciliation_coverage_complete :
    List HistoryCoverage → List HistoryCoverage → ℤ → Text → Text → Bool
unfolding proof_intervals wanted_cover parse_day
reconciliation_coverage_complete rows job_coverage account from to =
    if is_empty from || is_empty to || text_lt to from
    then false
    else wanted_cover
        (proof_intervals (is_stored_proof account) rows
          ++ proof_intervals (is_job_proof account) job_coverage)
        (parse_day from) (parse_day to)
