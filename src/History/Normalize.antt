-- ===== src/History/Normalize.antt =====
-- The normalization of a job's raw records into activities: normalizeHistoryRecord and
-- NormalizeHistoryJob of internal/store/activity_records.go. A record is one transaction on the tables.
-- The tables that copy an activity's legs, fill and costs, the order's row, the accounts'
-- generations and the performance marks are left out.
pub mod Records
pub mod Decide
pub mod Lookups
pub mod Writes
pub mod Prepare
pub mod Laws
mod Examples
use traio.Prelude.{
  ◌+◌, String, not, ◌||◌, List, [], ◌∷◌, Option, none, some, Result, ok, err, ◌>>=◌, str_eq,
  if◌then◌else◌,
}
use traio.Prelude.Int.{pos}
use traio.Text.{codes}
use traio.Activity.Types.{Activity, needs_review, unsupported}
use traio.History.Jobs.{HistoryCounts, Clock, Job, JobError, check_lease}
use traio.History.Normalize.Records.{
  Revision, RawRow, Observation, Ledger, NormalizeError, no_rows, lease_lost,
}
use traio.History.Normalize.Decide.{decide}
use traio.History.Normalize.Prepare.{prepare}
use traio.History.Normalize.Lookups.{
  Codes, find_raw, find_observation, match_identities, identities_of, current_of, old_of,
  circumstances, is_ambiguous, reviewed,
}
use traio.History.Normalize.Writes.{set_outcome, Task, book, revise}

module _ (codes : Codes) where
  abbrev pub numbered : Revision → Activity → Activity
  numbered old a = record a { id = old.activity_id; revision = pos (old.revision_no + 1) }

  unfoldable pub place : Task → Activity → Option Revision → Ledger → String × Ledger
  unfolding book revise decide circumstances is_ambiguous
  place t a none l =
      book t
        (reviewed (is_ambiguous codes t.account t.received a l)
          (record a { id = t.new_activity; revision = pos 1 }))
        l
  place t a (some old) l =
      let c = circumstances codes t.raw t.received (numbered old a) old l in
      revise t old c.rule_upgrade (decide old t.received c) (numbered old a) l

  -- A record that is pending.
  unfoldable pub normalize_pending : Task → Ledger → Result NormalizeError (String × Ledger)
  unfolding prepare match_identities current_of place
  normalize_pending t l = do
    a ← prepare codes.lower codes.equal_fold codes.resolve t.account t.received
    id ← match_identities t.account l.identities (identities_of t.received) none
    old ← old_of id l
    ok (place t a old l)

  -- A record that another job has normalized.
  abbrev pub outcome_of_status : String → String
  outcome_of_status status =
      if str_eq status needs_review || str_eq status unsupported then status else "duplicate"

  unfoldable pub normalize_observed :
      Task → RawRow → Observation → Ledger → Result NormalizeError (String × Ledger)
  unfolding normalize_pending set_outcome
  normalize_observed t raw o l =
      if not (str_eq o.outcome "")
      then ok (o.outcome, l)
      else if not (str_eq raw.normalize_status "pending")
      then ok (
        outcome_of_status raw.normalize_status,
        record l {
          observations =
              set_outcome (outcome_of_status raw.normalize_status) t.raw t.job l.observations;
        },
      )
      else normalize_pending t l

  abbrev pub found {ℓ} : {A : Type ℓ} → Option A → Result NormalizeError A
  found none = err no_rows
  found (some a) = ok a

  -- `normalizeHistoryRecord`, once the lease has been checked.
  unfoldable pub normalize_history_record : Task → Ledger → Result NormalizeError (String × Ledger)
  unfolding find_raw find_observation normalize_observed
  normalize_history_record t l = do
    raw ← found (find_raw t.raw l.raws)
    o ← found (find_observation t.raw t.job l.observations)
    normalize_observed t raw o l

  abbrev count_outcome : String → HistoryCounts → HistoryCounts
  count_outcome outcome n =
      if str_eq outcome "added"
      then record n { added = n.added + 1 }
      else if str_eq outcome "updated"
      then record n { updated = n.updated + 1 }
      else if str_eq outcome "duplicate"
      then record n { duplicates = n.duplicates + 1 }
      else if str_eq outcome "unsupported"
      then record n { unsupported = n.unsupported + 1 }
      else if str_eq outcome "needs_review"
      then record n { conflicts = n.conflicts + 1 }
      else n

  -- The loop of `NormalizeHistoryJob`: it stops at the first error, and keeps what was done before.
  unfoldable pub normalize_all :
      List Task → HistoryCounts → Ledger → (HistoryCounts × Option NormalizeError) × Ledger
  unfolding normalize_history_record
  normalize_all [] n l = ((n, none), l)
  normalize_all (t ∷ ts) n l = elim (normalize_history_record t l) [
    | err reason ↦ ((record n { records = n.records + 1 }, some reason), l)
    | ok (outcome, l') ↦
        normalize_all ts (count_outcome outcome (record n { records = n.records + 1 })) l'
  ]

abbrev under_lease :
    {R : Type 0} → Result JobError (List (Job R)) → Result NormalizeError (List (Job R))
under_lease (ok table) = ok table
under_lease (err reason) = err lease_lost

-- `normalizeHistoryRecord`: the lease is checked first, in the same transaction.
unfoldable pub normalize_leased :
    {R : Type 0}
    → Codes
    → Clock
    → Job R
    → Task
    → List (Job R)
    → Ledger
    → Result NormalizeError (String × (List (Job R) × Ledger))
unfolding check_lease normalize_history_record
normalize_leased codes c handle t table l = do
  table' ← under_lease (check_lease c handle table)
  (outcome, l') ← normalize_history_record codes t l
  ok (outcome, (table', l'))
