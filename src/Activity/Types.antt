-- ===== src/Activity/Types.antt =====
-- internal/activity/types.go and snapshots.go: the ledger's records. Texts that the program reads
-- character by character (decimals, dates, currencies) are `Text`, the others native strings. A nil
-- slice and an empty one are both `[]`; a nil pointer is `none`. int64 ids are integers.
use traio.Prelude.{String, Option, List, Bool, ◌==◌, ◌&&◌}
use traio.Prelude.Int.{ℤ, pos_part, neg_part}
use traio.Text.{Text}

abbrev pub eq_ℤ : ℤ → ℤ → Bool
eq_ℤ a b = pos_part a == pos_part b && neg_part a == neg_part b

-- The statuses and booking statuses.
abbrev pub effective : String
effective = "effective"

abbrev pub voided : String
voided = "voided"

abbrev pub needs_review : String
needs_review = "needs_review"

abbrev pub unsupported : String
unsupported = "unsupported"

abbrev pub booked : String
booked = "booked"

abbrev pub provisional : String
provisional = "provisional"

pub record Leg : Type 0 where
  pub instrument_id : ℤ
  pub symbol : Text
  pub asset_type : String
  pub external_instrument_id : String
  pub kind : String
  pub component : String
  pub currency : Text
  pub quantity_delta : Text
  pub cash_delta : Text
  pub effective_date : Text
  pub settlement_date : Text

pub record Fill : Type 0 where
  pub execution_id : String
  pub order_id : String
  pub side : String
  pub open_close : String
  pub quantity : Text
  pub price : Text
  pub price_currency : String
  pub multiplier : Text
  pub exchange : String
  pub reported_net_cash : Text
  pub reported_realized_pnl : Text

pub record Source : Type 0 where
  pub raw_record_id : String
  pub source : String
  pub namespace : String
  pub key : String
  pub role : String
  pub match_method : String

pub record Link : Type 0 where
  pub from_activity_id : String
  pub to_activity_id : String
  pub relation_type : String
  pub status : String

pub record CostAdjustment : Type 0 where
  pub instrument_id : ℤ
  pub external_instrument_id : String
  pub currency : Text
  pub basis_delta : Text
  pub basis_before : Text
  pub basis_after : Text
  pub allocation_method : String
  pub evidence : String

pub record Activity : Type 0 where
  pub id : String
  pub account_id : ℤ
  pub provider : String
  pub provider_account_id : String
  pub activity_type : String
  pub subtype : String
  pub status : String
  pub booking_status : String
  pub description : String
  pub trade_date : Text
  pub settlement_date : Text
  pub occurred_at : Text
  pub source_timezone : String
  pub time_precision : String
  pub revision : ℤ
  pub legs : List Leg
  pub fill : Option Fill
  pub sources : List Source
  pub links : List Link
  pub cash_effects_by_currency : List (Text × Text)
  pub warnings : List String
  pub cost_adjustments : List CostAdjustment

pub record Balance : Type 0 where
  pub kind : String
  pub currency : Text
  pub instrument_id : ℤ
  pub value : Text

pub record Difference : Type 0 where
  pub balance : Balance
  pub expected : Text
  pub actual : Text
  pub difference : Text
  pub status : String

pub record ReconciliationBalance : Type 0 where
  pub balance : Balance
  pub external_instrument_id : String
  pub symbol : String
  pub asset_type : String
  pub reported_cost : Text

pub record ReconciliationSnapshot : Type 0 where
  pub provider_account_id : String
  pub as_of_date : Text
  pub basis : String
  pub source_ref : String
  pub completeness : String
  pub balances : List ReconciliationBalance
