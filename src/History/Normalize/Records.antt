-- ===== src/History/Normalize/Records.antt =====
-- The raw records of internal/activity/types.go, and the rows of the tables that normalizing one reads
-- and writes (internal/store/activity_records.go).
use traio.Prelude.{ℕ, String, List}
use traio.Prelude.Int.{ℤ}
use traio.Text.{Text}
use traio.Activity.Types.{Activity}

pub record Identity : Type 0 where
  pub namespace : String
  pub kind : String
  pub external_id : String

-- Without the payload, which is only kept.
pub record RawRecord : Type 0 where
  pub source : String
  pub namespace : String
  pub key : String
  pub record_type : String
  pub provider_account_id : String
  pub source_updated_at : Text
  pub activity : Activity
  pub identities : List Identity

-- `account_activities`
pub record ActivityRow : Type 0 where
  pub id : String
  pub account : ℤ
  pub current_revision : ℕ

-- `activity_revisions`
pub record Revision : Type 0 where
  pub id : String
  pub activity_id : String
  pub revision_no : ℕ
  pub payload : Activity
  pub source_priority : ℕ
  pub source_updated_at : Text
  pub rule_version : String

-- `broker_activity_identities`
pub record IdentityRow : Type 0 where
  pub account : ℤ
  pub identity : Identity
  pub activity_id : String

-- `activity_sources`
pub record SourceRow : Type 0 where
  pub revision_id : String
  pub raw_record_id : String
  pub role : String

-- `broker_raw_records`
pub record RawRow : Type 0 where
  pub id : String
  pub source : String
  pub normalize_status : String

-- `broker_raw_observations`
pub record Observation : Type 0 where
  pub raw_record_id : String
  pub job_id : String
  pub outcome : String

-- `activity_links`
pub record LinkRow : Type 0 where
  pub from_activity_id : String
  pub relation_type : String

-- `activity_reconciliation_issues`
pub record IssueRow : Type 0 where
  pub account : ℤ
  pub activity_id : String
  pub raw_record_id : String
  pub issue_type : String
  pub status : String
  pub resolution : String

-- The tables, the newest row first.
pub record Ledger : Type 0 where
  pub activities : List ActivityRow
  pub revisions : List Revision
  pub identities : List IdentityRow
  pub sources : List SourceRow
  pub links : List LinkRow
  pub raws : List RawRow
  pub observations : List Observation
  pub issues : List IssueRow

pub data NormalizeError : Type 0 where
  lease_lost no_rows source_not_supported provider_mismatch identity_conflict : NormalizeError
  instrument_failed quarantine_invalid : NormalizeError
