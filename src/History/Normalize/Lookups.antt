-- ===== src/History/Normalize/Lookups.antt =====
-- What normalizing a record reads of the tables: the activity that its identities name, whether that
-- activity may be replaced, and whether the record is a possible duplicate, of internal/store/
-- activity_records.go. `Codes` holds what is outside: the codes of texts and times, and the instrument
-- of a leg.
use traio.Prelude.{
  ℕ, String, Bool, true, false, not, ◌&&◌, ◌||◌, ◌==◌, List, [], ◌∷◌, ◌++◌, Option, none, some,
  Result, ok, err, ◌>>=◌, ltb, str_eq, is_empty, any, if◌then◌else◌,
}
use traio.Prelude.Int.{ℤ}
use traio.Text.{Text, text_eq, codes}
use traio.Activity.Types.{Activity, Leg, effective, needs_review, eq_ℤ}
use traio.Auth.Stamp.{Instant}
use traio.History.Normalize.Records.{
  Identity, RawRecord, ActivityRow, Revision, IdentityRow, SourceRow, RawRow, Observation, LinkRow,
  Ledger, NormalizeError, no_rows, identity_conflict,
}
use traio.History.Normalize.Decide.{
  accepted_priority, rule_version, has_prefix, priority_of_source, newer_by, Circumstances,
  transfer_cost_only_enrichment, is_changed,
}

pub record Codes : Type 0 where
  pub lower : String → String
  pub equal_fold : String → String → Bool
  pub json : Activity → Text
  pub fingerprint : Activity → Text
  pub parse_time : Text → Option Instant
  pub resolve : String → Leg → Option ℤ

unfoldable pub find_raw : String → List RawRow → Option RawRow
find_raw i [] = none
find_raw i (r ∷ rs) = if str_eq r.id i then some r else find_raw i rs

abbrev pub is_observation : String → String → Observation → Bool
is_observation raw job o = str_eq o.raw_record_id raw && str_eq o.job_id job

unfoldable pub find_observation : String → String → List Observation → Option Observation
find_observation raw job [] = none
find_observation raw job (o ∷ os) =
    if is_observation raw job o then some o else find_observation raw job os

-- `UPDATE broker_raw_observations SET outcome=? WHERE raw_record_id=? AND job_id=?`
abbrev same_identity : Identity → Identity → Bool
same_identity a b =
    str_eq a.namespace b.namespace && str_eq a.kind b.kind && str_eq a.external_id b.external_id

unfoldable pub find_identity : ℤ → Identity → List IdentityRow → Option String
find_identity account key [] = none
find_identity account key (x ∷ xs) =
    if eq_ℤ x.account account && same_identity x.identity key
    then some x.activity_id
    else find_identity account key xs

-- The activity that the record's identities name; two names are an error.
unfoldable pub match_identity :
    Option String → Option String → Result NormalizeError (Option String)
match_identity id none = ok id
match_identity none (some found) = ok (some found)
match_identity (some i) (some found) =
    if str_eq i found then ok (some found) else err identity_conflict

unfoldable pub match_identities :
    ℤ → List IdentityRow → List Identity → Option String → Result NormalizeError (Option String)
unfolding find_identity match_identity
match_identities account rows [] id = ok id
match_identities account rows (k ∷ ks) id =
    match_identity id (if str_eq k.external_id "" then none else find_identity account k rows)
    >>= λ id'. match_identities account rows ks id'

abbrev pub identities_of : RawRecord → List Identity
identities_of r =
    record { namespace = r.namespace; kind = r.record_type; external_id = r.key } ∷ r.identities

unfoldable pub find_activity : String → List ActivityRow → Option ActivityRow
find_activity i [] = none
find_activity i (a ∷ rows) = if str_eq a.id i then some a else find_activity i rows

unfoldable pub find_revision : String → ℕ → List Revision → Option Revision
find_revision i n [] = none
find_revision i n (v ∷ vs) =
    if str_eq v.activity_id i && v.revision_no == n then some v else find_revision i n vs

-- The current revision of an activity.
unfoldable pub current_of : String → Ledger → Option Revision
unfolding find_activity find_revision
current_of i l = elim (find_activity i l.activities) [
  | none ↦ none
  | some a ↦ find_revision i a.current_revision l.revisions
]

-- The old version, where the identities name an activity; its revision must be there.
abbrev pub old_of : Option String → Ledger → Result NormalizeError (Option Revision)
old_of none l = ok none
old_of (some i) l = elim (current_of i l) [ none ↦ err no_rows | some v ↦ ok (some v) ]

abbrev is_principal_of : String → String → SourceRow → Bool
is_principal_of revision raw s =
    str_eq s.revision_id revision && str_eq s.raw_record_id raw && str_eq s.role "principal"

-- A newer parser meets the record that the current version was derived from.
unfoldable pub is_rule_upgrade : String → Revision → List SourceRow → Bool
is_rule_upgrade raw old sources =
    not (str_eq old.rule_version rule_version)
    && ltb old.source_priority accepted_priority
    && any (is_principal_of old.id raw) sources

unfoldable pub is_manual_duplicate : String → List LinkRow → Bool
is_manual_duplicate i links =
    any (λ x. str_eq x.from_activity_id i && str_eq x.relation_type "duplicate_of") links

unfoldable pub circumstances :
    Codes → String → RawRecord → Activity → Revision → Ledger → Circumstances
unfolding is_rule_upgrade is_manual_duplicate priority_of_source is_changed
    transfer_cost_only_enrichment
circumstances codes raw r a old l = record {
  priority = priority_of_source r.source;
  is_newer =
      newer_by (codes.parse_time r.source_updated_at) (codes.parse_time old.source_updated_at);
  changed = is_changed codes.json old.payload a;
  only_adds_costs = transfer_cost_only_enrichment codes.json old.payload a;
  manual_duplicate = is_manual_duplicate old.activity_id l.links;
  rule_upgrade = is_rule_upgrade raw old l.sources;
}

-- Another activity of the account that looks the same.
abbrev looks_like : Codes → ℤ → Activity → Ledger → ActivityRow → Bool
looks_like codes account a l x = eq_ℤ x.account account && elim (current_of x.id l) [
  | none ↦ false
  | some v ↦
      str_eq v.payload.activity_type a.activity_type
      && has_prefix (v.payload.trade_date ++ b'|' ∷ v.payload.occurred_at) a.trade_date
      && text_eq (codes.fingerprint v.payload) (codes.fingerprint a)
]

abbrev family : String → String
family source = if str_eq source "xml" then "flex" else source

abbrev raw_family : String → List RawRow → Option String
raw_family i rows = elim (find_raw i rows) [ none ↦ none | some r ↦ some (family r.source) ]

abbrev has_other_source : String → String → Ledger → Bool
has_other_source source i l =
    any
      (λ s.
        str_eq s.role "principal"
        && any (λ v. str_eq v.id s.revision_id && str_eq v.activity_id i) l.revisions
        && elim (raw_family s.raw_record_id l.raws) [
          | none ↦ false
          | some f ↦ not (str_eq f (family source))
        ])
      l.sources

abbrev has_comparable : List Identity → String → Ledger → Bool
has_comparable keys i l =
    any
      (λ k.
        any
          (λ x.
            str_eq x.activity_id i
            && str_eq x.identity.namespace k.namespace
            && str_eq x.identity.kind k.kind)
          l.identities)
      keys

-- A new booking that may be another source's view of an activity goes to review.
unfoldable pub is_ambiguous : Codes → ℤ → RawRecord → Activity → Ledger → Bool
unfolding current_of find_raw
is_ambiguous codes account r a l =
    str_eq a.status effective
    && any (looks_like codes account a l) l.activities
    && (is_empty r.identities
        || any
            (λ x.
              looks_like codes account a l x
              && has_other_source r.source x.id l
              && not (has_comparable r.identities x.id l))
            l.activities)

abbrev pub reviewed : Bool → Activity → Activity
reviewed true a = record a {
  status = needs_review;
  warnings = a.warnings ++ "ambiguous_duplicate" ∷ [];
}
reviewed false a = a
