-- ===== src/Activity.antt =====
-- internal/activity: the provider-neutral ledger of account history.
pub mod Decimal
pub mod Types
pub mod Validation
pub mod Reconcile
mod Examples
