-- ===== src/History/Snapshots.antt =====
-- `validateReconciliationSnapshot` of internal/store/activity_reconciliation.go: what a reported
-- snapshot of an account has to be before it is stored.
pub mod Laws
use traio.Prelude.{
  ℕ, String, Bool, true, false, not, ◌&&◌, ◌||◌, List, [], ◌∷◌, Option, none, some, Result, ok, err,
  ◌>>=◌, ◌>>◌, guard, any, str_eq, is_empty, if◌then◌else◌,
}
use traio.Prelude.Int.{pos}
use traio.Text.{Text, text_eq}
use traio.Activity.Decimal.{canonical_decimal}
use traio.Activity.Types.{eq_ℤ, Balance, ReconciliationBalance, ReconciliationSnapshot}
use traio.Activity.Validation.Cash.{valid_currency}
use traio.History.Requests.{is_date}

-- The keys "cash|..." and "position|...".
pub data BalanceKey : Type 0 where
  cash_key : Text → BalanceKey
  position_key : String → BalanceKey

abbrev pub eq_key : BalanceKey → BalanceKey → Bool
eq_key (cash_key a) (cash_key b) = text_eq a b
eq_key (position_key a) (position_key b) = str_eq a b
eq_key _ _ = false

abbrev pub invalid_balance : String
invalid_balance = "invalid_reconciliation_balance"

-- `CanonicalDecimal`, with the error of this function.
unfoldable pub canonical_or : Text → Result String Text
canonical_or s = elim (canonical_decimal s) [ ok t ↦ ok t | err e ↦ err invalid_balance ]

unfoldable pub canonical_cost : Text → Result String Text
unfolding canonical_or
canonical_cost s = if is_empty s then ok s else canonical_or s

abbrev pub is_cash_balance : ReconciliationBalance → Bool
is_cash_balance b =
    valid_currency b.balance.currency
    && eq_ℤ b.balance.instrument_id (pos 0)
    && str_eq b.external_instrument_id ""

abbrev pub is_position_balance : ReconciliationBalance → Bool
is_position_balance b =
    eq_ℤ b.balance.instrument_id (pos 0)
    && not (str_eq b.external_instrument_id "")
    && not (str_eq b.symbol "")
    && not (str_eq b.asset_type "")
    && (is_empty b.balance.currency || valid_currency b.balance.currency)

-- The `switch` on the kind, which gives the key.
unfoldable pub key_of : ReconciliationBalance → Result String BalanceKey
key_of b =
    if str_eq b.balance.kind "cash"
    then guard (is_cash_balance b) invalid_balance >> ok (cash_key b.balance.currency)
    else if str_eq b.balance.kind "position"
    then guard (is_position_balance b) invalid_balance >> ok (position_key b.external_instrument_id)
    else err invalid_balance

abbrev pub has_key : BalanceKey → List BalanceKey → Bool
has_key k seen = any (λ j. eq_key j k) seen

abbrev pub with_value : ReconciliationBalance → Text → Text → ReconciliationBalance
with_value b value cost = record b {
  balance = record b.balance { value = value };
  reported_cost = cost;
}

-- One balance, canonical, and its key.
unfoldable pub check_balance :
    ReconciliationBalance → Result String (ReconciliationBalance × BalanceKey)
unfolding canonical_or canonical_cost key_of
check_balance b = do
  value ← canonical_or b.balance.value
  cost ← canonical_cost b.reported_cost
  key ← key_of (with_value b value cost)
  ok (with_value b value cost, key)

-- The loop over the balances, with the keys seen.
unfoldable pub check_balances :
    List BalanceKey → List ReconciliationBalance → Result String (List ReconciliationBalance)
unfolding check_balance
check_balances seen [] = ok []
check_balances seen (b ∷ bs) = do
  checked ← check_balance b
  guard (not (has_key checked.1 seen)) "duplicate_reconciliation_balance"
  rest ← check_balances (checked.1 ∷ seen) bs
  ok (checked.0 ∷ rest)

abbrev pub with_basis : ReconciliationSnapshot → ReconciliationSnapshot
with_basis s = record s { basis = if str_eq s.basis "" then "trade_date" else s.basis }

unfoldable pub validate_reconciliation_snapshot :
    ReconciliationSnapshot → Result String ReconciliationSnapshot
unfolding check_balances
validate_reconciliation_snapshot s = do
  guard (not (str_eq s.provider_account_id "" || is_empty s.as_of_date || str_eq s.source_ref ""))
      "invalid_reconciliation_snapshot"
  guard (is_date s.as_of_date) "invalid_history_date"
  guard (str_eq (with_basis s).basis "trade_date" || str_eq (with_basis s).basis "settled")
      "invalid_reconciliation_basis"
  guard (str_eq s.completeness "complete" || str_eq s.completeness "partial")
      "invalid_reconciliation_completeness"
  balances ← check_balances [] s.balances
  ok (record (with_basis s) { balances = balances })
