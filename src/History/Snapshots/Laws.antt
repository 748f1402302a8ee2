-- ===== src/History/Snapshots/Laws.antt =====
-- What a snapshot that was accepted is like.
use traio.Prelude.{◌≡◌, ◌≢◌, true, false, List, [], ◌∷◌, ok, ◌⊎◌, is_empty, All}
use traio.Prelude.Int.{pos}
use traio.Text.{Text}
use traio.Activity.Validation.Cash.{valid_currency}
use traio.Activity.Decimal.{canonical_decimal}
use traio.Activity.Types.{eq_ℤ, ReconciliationBalance}
use traio.History.Snapshots.{BalanceKey, cash_key, position_key, key_of, has_key}

-- The cost that is reported is canonical, where there is one.
abbrev pub HasCost : ReconciliationBalance → Type 0
HasCost b =
    (is_empty b.reported_cost ≡ true) ⊎ (canonical_decimal b.reported_cost ≡ ok b.reported_cost)

-- Balances with canonical values and costs and with keys that differ from each other and from those seen.
abbrev AreKeyed : List BalanceKey → List ReconciliationBalance → Type 0
AreKeyed seen [] = Unit
AreKeyed seen (b ∷ bs) =
    (canonical_decimal b.balance.value ≡ ok b.balance.value)
    × HasCost b
    × ((k : BalanceKey) × (key_of b ≡ ok k) × (has_key k seen ≡ false) × AreKeyed (k ∷ seen) bs)

-- A balance of one of the two kinds, in its form.
pub record IsCash (b : ReconciliationBalance) : Type 0 where
  pub kind : b.balance.kind ≡ "cash"
  pub currency : valid_currency b.balance.currency ≡ true
  pub no_instrument : eq_ℤ b.balance.instrument_id (pos 0) ≡ true
  pub no_external : b.external_instrument_id ≡ ""

pub record IsPosition (b : ReconciliationBalance) : Type 0 where
  pub kind : b.balance.kind ≡ "position"
  pub no_instrument : eq_ℤ b.balance.instrument_id (pos 0) ≡ true
  pub external : b.external_instrument_id ≢ ""
  pub symbol : b.symbol ≢ ""
  pub asset_type : b.asset_type ≢ ""
  pub currency : (is_empty b.balance.currency ≡ true) ⊎ (valid_currency b.balance.currency ≡ true)

-- Two balances of one thing: of the cash in a currency, or of a position in an instrument.
abbrev pub AreSame : ReconciliationBalance → ReconciliationBalance → Type 0
AreSame b c =
    ((b.balance.kind ≡ "cash")
      × (c.balance.kind ≡ "cash")
      × (b.balance.currency ≡ c.balance.currency))
    ⊎ ((b.balance.kind ≡ "position")
        × (c.balance.kind ≡ "position")
        × (b.external_instrument_id ≡ c.external_instrument_id))

-- Each balance is canonical and in the form of its kind, and no later one is of the same thing.
abbrev pub AreStored : List ReconciliationBalance → Type 0
AreStored [] = Unit
AreStored (b ∷ bs) =
    (canonical_decimal b.balance.value ≡ ok b.balance.value)
    × HasCost b
    × (IsCash b ⊎ IsPosition b)
    × All (λ c. AreSame b c → ⊥) bs
    × AreStored bs

-- What the key of a balance says of it.
abbrev Keyed : ReconciliationBalance → BalanceKey → Type 0
Keyed b k =
    (IsCash b × (k ≡ cash_key b.balance.currency))
    ⊎ (IsPosition b × (k ≡ position_key b.external_instrument_id))
