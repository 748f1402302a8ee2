-- ===== src/History/Balances/Evidence.antt =====
-- The evidence that the check of an account asks for, in ReconcileHistoryJob of
-- internal/store/activity_reconciliation.go.
use traio.Prelude.{
  ◌≡◌, Bool, true, List, [], ◌∷◌, arith, str_eq, eq_iff, Bool-cases, ◌⊎◌, inl, inr, All,
}
use traio.Activity.Types.{Activity}
use traio.History.Balances.{StoredSnapshot, is_ledger_complete, preconditions_complete}

-- What the code asks of the evidence.
pub record IsComplete (opening closing : StoredSnapshot) (acts : List Activity)
    (covered records_complete : Bool) : Type 0 where
  pub opening_complete : opening.completeness ≡ "complete"
  pub closing_complete : closing.completeness ≡ "complete"
  pub one_basis : opening.basis ≡ closing.basis
  pub days_covered : covered ≡ true
  pub records_settled : records_complete ≡ true
  pub ledger_settled :
      All
        (λ (a : Activity).
          (a.status ≡ "voided") ⊎ ((a.status ≡ "effective") × (a.booking_status ≡ "booked")))
        acts

is_ledger_complete_settled :
    (acts : List Activity)
    → is_ledger_complete acts ≡ true
    → All
        (λ (a : Activity).
          (a.status ≡ "voided") ⊎ ((a.status ≡ "effective") × (a.booking_status ≡ "booked")))
        acts
unfolding is_ledger_complete
is_ledger_complete_settled [] h = tt
is_ledger_complete_settled (a ∷ acts) h = elim (Bool-cases (str_eq a.status "voided")) [
  | inl e ↦
      (inl ((eq_iff a.status "voided").0 e), is_ledger_complete_settled acts (ground (arith, h, e)))
  | inr e ↦ (
    inr (
      (eq_iff a.status "effective").0 (ground (arith, h, e)),
      (eq_iff a.booking_status "booked").0 (ground (arith, h, e)),
    ),
    is_ledger_complete_settled acts (ground (arith, h, e)),
  )
]

pub preconditions_complete-IsComplete :
    (opening closing : StoredSnapshot) (acts : List Activity) (covered records_complete : Bool)
    → preconditions_complete opening closing acts covered records_complete ≡ true
    → IsComplete opening closing acts covered records_complete
unfolding preconditions_complete
preconditions_complete-IsComplete opening closing acts covered records_complete h = record {
  opening_complete = (eq_iff opening.completeness "complete").0 (ground (arith, h));
  closing_complete = (eq_iff closing.completeness "complete").0 (ground (arith, h));
  one_basis = (eq_iff opening.basis closing.basis).0 (ground (arith, h));
  days_covered = ground (arith, h);
  records_settled = ground (arith, h);
  ledger_settled = is_ledger_complete_settled acts (ground (arith, h));
}
