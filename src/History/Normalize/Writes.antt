-- ===== src/History/Normalize/Writes.antt =====
-- What normalizing a record writes: a new activity, or a new version or corroboration of a known one,
-- with the identities, issues and outcome, of internal/store/activity_records.go. The new ids are
-- arguments.
use traio.Prelude.{
  ℕ, ◌+◌, String, Bool, true, false, ◌&&◌, ◌||◌, List, [], ◌∷◌, none, some, str_eq, any,
  if◌then◌else◌,
}
use traio.Prelude.Int.{ℤ}
use traio.Activity.Types.{Activity, needs_review, unsupported}
use traio.History.Normalize.Records.{
  Identity, RawRecord, ActivityRow, Revision, IdentityRow, SourceRow, RawRow, Observation, IssueRow,
  Ledger,
}
use traio.History.Normalize.Decide.{rule_version, priority_of_source, Decision, result_of}
use traio.History.Normalize.Lookups.{is_observation, find_identity, identities_of}

unfoldable pub set_outcome : String → String → String → List Observation → List Observation
set_outcome outcome raw job [] = []
set_outcome outcome raw job (o ∷ os) =
    (if is_observation raw job o then record o { outcome = outcome } else o)
    ∷ set_outcome outcome raw job os

unfoldable pub set_raw_status : String → String → List RawRow → List RawRow
set_raw_status status i [] = []
set_raw_status status i (r ∷ rs) =
    (if str_eq r.id i then record r { normalize_status = status } else r)
    ∷ set_raw_status status i rs

-- `INSERT INTO activity_sources ... ON CONFLICT(revision_id, raw_record_id) DO NOTHING`
unfoldable pub put_source : SourceRow → List SourceRow → List SourceRow
put_source s sources =
    if any (λ x. str_eq x.revision_id s.revision_id && str_eq x.raw_record_id s.raw_record_id)
      sources
    then sources
    else s ∷ sources

-- The old version's sources corroborate the new one.
unfoldable pub copy_sources : String → String → List SourceRow → List SourceRow → List SourceRow
unfolding put_source
copy_sources new old [] all = all
copy_sources new old (s ∷ ss) all = copy_sources new old ss (
    if str_eq s.revision_id old
    then put_source (record s { revision_id = new; role = "corroboration" }) all
    else all)

unfoldable pub put_identity : IdentityRow → List IdentityRow → List IdentityRow
unfolding find_identity
put_identity x rows = elim (find_identity x.account x.identity rows) [
  | some i ↦ rows
  | none ↦ x ∷ rows
]

unfoldable pub put_identities : ℤ → String → List Identity → List IdentityRow → List IdentityRow
unfolding put_identity
put_identities account i [] rows = rows
put_identities account i (k ∷ ks) rows = put_identities account i ks (
    if str_eq k.external_id ""
    then rows
    else put_identity (record { account = account; identity = k; activity_id = i }) rows)

unfoldable pub set_current : String → ℕ → List ActivityRow → List ActivityRow
set_current i n [] = []
set_current i n (a ∷ rows) =
    (if str_eq a.id i then record a { current_revision = n } else a) ∷ set_current i n rows

-- The open issues of a record that a newer parser settles.
unfoldable pub supersede : String → List IssueRow → List IssueRow
supersede raw [] = []
supersede raw (x ∷ xs) =
    (if str_eq x.raw_record_id raw && str_eq x.status "open"
      then record x { status = "resolved"; resolution = "superseded_by_ibkr-activity-v2" }
      else x)
    ∷ supersede raw xs

abbrev issue_row : ℤ → String → String → String → IssueRow
issue_row account i raw kind = record {
  account = account;
  activity_id = i;
  raw_record_id = raw;
  issue_type = kind;
  status = "open";
  resolution = "";
}

abbrev with_issue : Bool → IssueRow → List IssueRow → List IssueRow
with_issue b x xs = if b then x ∷ xs else xs

abbrev is_reviewed : Activity → Bool
is_reviewed a = str_eq a.status unsupported || str_eq a.status needs_review

-- What one transaction works on.
pub record Task : Type 0 where
  pub job : String
  pub raw : String
  pub account : ℤ
  pub new_activity : String
  pub new_revision : String
  pub received : RawRecord

abbrev pub revision_of : Task → Activity → ℕ → Revision
revision_of t a n = record {
  id = t.new_revision;
  activity_id = a.id;
  revision_no = n;
  payload = record a { sources = [] };
  source_priority = priority_of_source t.received.source;
  source_updated_at = t.received.source_updated_at;
  rule_version = rule_version;
}

abbrev pub principal : Task → SourceRow
principal t = record { revision_id = t.new_revision; raw_record_id = t.raw; role = "principal" }

-- The last writes: the identities, the issues, the record's status and the outcome.
unfoldable pub settle : Task → Bool → Bool → Decision → Activity → Ledger → String × Ledger
unfolding put_identities supersede set_raw_status set_outcome result_of
settle t is_known rule_upgrade d a l =
    let (outcome, status) = result_of is_known d rule_upgrade a.status in
    let issues = if rule_upgrade && d.replace then supersede t.raw l.issues else l.issues in
    let conflicts =
      with_issue d.unordered_conflict (issue_row t.account a.id t.raw "source_revision_conflict")
        issues in
    (
      outcome,
      record l {
        identities = put_identities t.account a.id (identities_of t.received) l.identities;
        issues =
            with_issue (d.replace && is_reviewed a) (issue_row t.account a.id t.raw a.status)
              conflicts;
        raws = set_raw_status status t.raw l.raws;
        observations = set_outcome outcome t.raw t.job l.observations;
      },
    )

abbrev pub booked_anew : Decision
booked_anew = record { replace = true; unordered_conflict = false }

unfoldable pub book : Task → Activity → Ledger → String × Ledger
unfolding settle
book t a l = settle t false false booked_anew a (record l {
  activities = record { id = a.id; account = t.account; current_revision = 1 } ∷ l.activities;
  revisions = revision_of t a 1 ∷ l.revisions;
  sources = principal t ∷ l.sources;
})

unfoldable pub revise : Task → Revision → Bool → Decision → Activity → Ledger → String × Ledger
unfolding settle copy_sources set_current put_source
revise t old rule_upgrade d a l = settle t true rule_upgrade d a (
    if d.replace
    then record l {
      activities = set_current a.id (old.revision_no + 1) l.activities;
      revisions = revision_of t a (old.revision_no + 1) ∷ l.revisions;
      sources = copy_sources t.new_revision old.id l.sources (principal t ∷ l.sources);
    }
    else record l {
      sources =
          put_source
            (record { revision_id = old.id; raw_record_id = t.raw; role = "corroboration" })
            l.sources;
    })
