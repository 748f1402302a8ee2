-- ===== src/History/Normalize/Decide.antt =====
-- Whether a record replaces the current revision of its activity: the middle of normalizeHistoryRecord
-- of internal/store/activity_records.go, and transferCostOnlyEnrichment of activity_transfer_cost.go.
-- `json` is historyJSON of an activity, and `parse_time` is time.Parse of RFC 3339.
use traio.Prelude.{
  ℕ, String, Bool, true, false, not, ◌&&◌, ◌||◌, ◌==◌, [], ◌∷◌, Option, some, ltb, leb, str_eq,
  is_empty, all, filter, if◌then◌else◌,
}
use traio.Text.{Text, text_eq, codes}
use traio.Activity.Types.{Activity, CostAdjustment, effective, needs_review, unsupported}
use traio.Auth.Stamp.{Instant, is_after}
use traio.History.Normalize.Records.{RawRecord, Revision}

abbrev pub accepted_priority : ℕ
accepted_priority = 100

abbrev pub rule_version : String
rule_version = "ibkr-activity-v2"

abbrev pub has_prefix : Text → Text → Bool
has_prefix s [] = true
has_prefix [] (y ∷ ys) = false
has_prefix (x ∷ s) (y ∷ ys) = x == y && has_prefix s ys

abbrev has_part : Text → Text → Bool
has_part part [] = is_empty part
has_part part (c ∷ s) = has_prefix (c ∷ s) part || has_part part s

unfoldable pub priority_of_source : String → ℕ
priority_of_source source =
    if str_eq source "flex" || str_eq source "xml" || has_part (codes "flex") (codes source)
    then 30
    else 10

unfoldable pub is_reported_cost : CostAdjustment → Bool
is_reported_cost c =
    str_eq c.allocation_method "reported_transfer_lots"
    && not (is_empty c.basis_delta)
    && not (str_eq c.evidence "")

abbrev pub newer_by : Option Instant → Option Instant → Bool
newer_by (some next) (some prev) = is_after next prev
newer_by next prev = false

-- What the decision finds out beyond the two activities.
pub record Circumstances : Type 0 where
  pub priority : ℕ
  pub is_newer : Bool
  pub changed : Bool
  pub only_adds_costs : Bool
  pub manual_duplicate : Bool
  pub rule_upgrade : Bool

pub record Decision : Type 0 where
  pub replace : Bool
  pub unordered_conflict : Bool

module _ (json : Activity → Text) where
  -- `transferCostOnlyEnrichment`
  unfoldable pub transfer_cost_only_enrichment : Activity → Activity → Bool
  unfolding is_reported_cost
  transfer_cost_only_enrichment old next =
      if not (str_eq old.activity_type "security_transfer")
        || not (str_eq old.status effective)
        || not (is_empty old.cost_adjustments)
        || is_empty next.cost_adjustments
      then false
      else if not (all is_reported_cost next.cost_adjustments)
      then false
      else text_eq
          (json (record old {
            warnings = filter (λ w. not (str_eq w "transferred_cost_basis_unknown")) old.warnings;
          }))
          (json
            (record next { revision = old.revision; sources = old.sources; cost_adjustments = [] }))

  -- The activity under the old revision's number and sources has another text.
  unfoldable pub is_changed : Activity → Activity → Bool
  is_changed old a =
      not (text_eq (json (record a { revision = old.revision; sources = old.sources })) (json old))

-- Two versions whose order is unknown.
unfoldable pub is_unordered : Revision → RawRecord → Circumstances → Bool
is_unordered old r c =
    (c.priority == old.source_priority && not c.is_newer
      || old.source_priority == accepted_priority && leb 30 c.priority)
    && c.changed
    && (is_empty old.source_updated_at
        || is_empty r.source_updated_at
        || text_eq old.source_updated_at r.source_updated_at
        || old.source_priority == accepted_priority && c.is_newer)

abbrev pub by_priority : Revision → RawRecord → Circumstances → Decision
by_priority old r c = record {
  replace = ltb old.source_priority c.priority || c.priority == old.source_priority && c.is_newer;
  unordered_conflict = is_unordered old r c;
}

abbrev pub by_costs : Revision → Circumstances → Decision → Decision
by_costs old c d =
    if not (old.source_priority == accepted_priority)
      && leb old.source_priority c.priority
      && c.only_adds_costs
    then record { replace = true; unordered_conflict = false }
    else d

abbrev by_review : Circumstances → Decision → Decision
by_review c d =
    if c.manual_duplicate
    then record { replace = false; unordered_conflict = false }
    else if c.rule_upgrade
    then record { replace = true; unordered_conflict = false }
    else d

-- A version that says the same replaces nothing.
unfoldable pub decide : Revision → RawRecord → Circumstances → Decision
unfolding is_unordered
decide old r c =
    let d = by_review c (by_costs old c (by_priority old r c)) in
    record d { replace = d.replace && c.changed }

-- The answer for the record, and the record's status.
unfoldable pub result_of : Bool → Decision → Bool → String → String × String
result_of is_known d rule_upgrade status =
    let reviewed = str_eq status unsupported || str_eq status needs_review in
    if d.replace && reviewed
    then (status, status)
    else if d.unordered_conflict
    then (needs_review, needs_review)
    else if rule_upgrade && not d.replace && reviewed
    then (status, status)
    else (if not d.replace then "duplicate" else if is_known then "updated" else "added", "done")
