-- ===== src/History/Balances/Laws.antt =====
-- What it takes for an account's check to pass.
use traio.Prelude.{
  ℕ, ◌≡◌, refl, sym, ◌∙◌, ap, ◌<◌, String, Bool, true, false, List, [], ◌∷◌, Option, none, some, ok,
  >>=-eq-ok, ok-eq, arith, ltb, str_eq, eq_iff, Bool-cases, inl, inr, All,
}
use traio.Rat.{Rat, SameValue}
use traio.Activity.Types.{Activity, Balance, Difference}
use traio.Activity.Decimal.{zero_text}
use traio.Text.{text_eq, text_eq_iff}
use traio.Activity.Decimal.Arith.{rational}
use traio.Activity.Decimal.Total.{total}
use traio.Activity.Reconcile.{reconcile, is_incomplete}
use traio.Activity.Reconcile.Laws.{amounts, IsReport, reconcile-IsReport}
use traio.History.Balances.Evidence.{IsComplete, preconditions_complete-IsComplete}
use traio.History.Balances.{
  StoredSnapshot, find_balance, templates, preconditions_complete, worse, rank, or_zero_balance,
  opening_balance, is_ledger_complete, judge, check_found, check_key, check_keys, reconcile_account,
}

-- The opening and the closing balance of a key; one that a snapshot does not list is 0.
abbrev pub opened : StoredSnapshot → Balance → Balance
opened opening t = or_zero_balance t (find_balance t opening.balances)

-- The closing balance of a key is its opening balance and the amounts of the activities between.
pub record AddsUp (opening closing : Balance) (acts : List Activity) : Type 0 where
  pub start : Rat
  pub start_read : rational opening.value ≡ ok start
  pub finish : Rat
  pub finish_read : rational closing.value ≡ ok finish
  pub sum : Rat
  pub sum_total : total start (amounts closing acts) ≡ ok sum
  pub agrees : SameValue finish sum

worse_passed :
    (a b : String)
    → worse a b ≡ "passed"
    → (a ≡ "passed") × (str_eq b "incomplete" ≡ false) × (str_eq b "mismatch" ≡ false)
unfolding worse rank
worse_passed a b h = elim (Bool-cases (ltb (rank a) (rank b))) [
  | inl e ↦ let f : b ≡ "passed" = rw e at h in absurd (no_rank (rank a) (rw f at e))
  | inr e ↦
      let f : a ≡ "passed" = rw e at h in
      (f, high_rank a b "incomplete" f e (omega arith), high_rank a b "mismatch" f e (omega arith))
]
  where
    no_rank : (n : ℕ) → ltb n 0 ≡ true → ⊥
    no_rank n e = ground (arith, e)

    high_rank :
        (a b c : String)
        → a ≡ "passed"
        → ltb (rank a) (rank b) ≡ false
        → 0 < rank c
        → str_eq b c ≡ false
    high_rank a b c f e l = elim (Bool-cases (str_eq b c)) [
      | inl g ↦ let k : b ≡ c = (eq_iff b c).0 g in absurd (ground (arith, rw (f, k) at e, l))
      | inr g ↦ g
    ]

judge_passed :
    (status : String) (d : Difference)
    → (judge true status d).0 ≡ "passed"
    → (status ≡ "passed")
      × (str_eq d.status "incomplete" ≡ false)
      × (str_eq d.status "mismatch" ≡ false)
unfolding judge
judge_passed status d h = elim (Bool-cases (str_eq d.status "mismatch")) [
  | inl e ↦ absurd (differ (rw e at h))
  | inr e ↦ worse_passed status d.status (rw e at h)
]
  where
    differ : ◌≡◌ {A = String} "mismatch" "passed" → ⊥
    differ k = cc

report-AddsUp :
    (opening closing : Balance) (acts : List Activity) (d : Difference)
    → IsReport opening closing acts d
    → is_incomplete acts ≡ false
    → str_eq d.status "mismatch" ≡ false
    → AddsUp opening closing acts
report-AddsUp opening closing acts d r i n = elim (Bool-cases (text_eq d.difference zero_text)) [
  | inl e ↦ record {
    start = r.start;
    start_read = r.start_read;
    finish = r.finish;
    finish_read = r.finish_read;
    sum = r.sum;
    sum_total = r.sum_total;
    agrees = r.agrees.0 ((text_eq_iff d.difference zero_text).0 e);
  }
  | inr e ↦
      let k : d.status ≡ "mismatch" = r.mismatch i (λ v.
        clash (text_eq d.difference zero_text)
          ((text_eq_iff d.difference zero_text).1 (r.agrees.1 v)) e) in
      absurd (clash (str_eq d.status "mismatch") ((eq_iff d.status "mismatch").1 k) n)
]
  where
    clash : (b : Bool) → b ≡ true → b ≡ false → ⊥
    clash b h k = cc

opening_known :
    (t : Balance) (o : Option Balance) → opening_balance true t o ≡ some (or_zero_balance t o)
opening_known t none = refl
opening_known t (some b) = refl

key_passes :
    (opening closing : StoredSnapshot) (acts : List Activity) (status : String) (t : Balance)
    {last : String} {issues : List Difference}
    → is_incomplete acts ≡ false
    → check_key true opening closing acts status t ≡ ok (last, issues)
    → last ≡ "passed"
    → (status ≡ "passed") × AddsUp (opened opening t) (opened closing t) acts
unfolding check_key check_found
key_passes opening closing acts status t i h p =
    let (d, e, f) =
      >>=-eq-ok
        (reconcile (opening_balance true t (find_balance t opening.balances)) (opened closing t)
          acts)
        (λ d. ok (judge true status d)) h in
    let (a, _, n) = judge_passed status d ((λ i. (ok-eq f i).0) ∙ p) in
    (
      a,
      report-AddsUp (opened opening t) (opened closing t) acts d
          (reconcile-IsReport (opened opening t) (opened closing t) acts
            (rw (opening_known t (find_balance t opening.balances)) at e))
          i n,
    )

keys_pass :
    (opening closing : StoredSnapshot) (acts : List Activity) (status : String) (ts : List Balance)
    {last : String} {issues : List Difference}
    → is_incomplete acts ≡ false
    → check_keys true opening closing acts status ts ≡ ok (last, issues)
    → last ≡ "passed"
    → (status ≡ "passed") × All (λ t. AddsUp (opened opening t) (opened closing t) acts) ts
unfolding check_keys
keys_pass opening closing acts status [] i h p =
    (ap (λ (v : String × List Difference). v.0) (ok-eq h) ∙ p, tt)
keys_pass opening closing acts status (t ∷ ts) i h p =
    let (one, e, f) = >>=-eq-ok (check_key true opening closing acts status t) _ h in
    let (more, g, k) = >>=-eq-ok (check_keys true opening closing acts one.0 ts) _ f in
    let (a, b) =
      keys_pass opening closing acts one.0 ts i g
        (ap (λ (v : String × List Difference). v.0) (ok-eq k) ∙ p) in
    let (c, d) = key_passes opening closing acts status t i e a in (c, (d, b))

ledger_complete :
    (acts : List Activity) → is_ledger_complete acts ≡ true → is_incomplete acts ≡ false
unfolding is_ledger_complete is_incomplete
ledger_complete [] h = refl
ledger_complete (a ∷ as') h = ground (arith, ledger_complete as', h)

precondition_ledger :
    (opening closing : StoredSnapshot) (acts : List Activity) (covered records_complete : Bool)
    → preconditions_complete opening closing acts covered records_complete ≡ true
    → is_ledger_complete acts ≡ true
unfolding preconditions_complete
precondition_ledger opening closing acts covered records_complete h = ground (arith, h)

judge_kept : (status : String) (d : Difference) → judge false status d ≡ (status, [])
unfolding judge
judge_kept status d = ground arith

key_kept :
    (opening closing : StoredSnapshot) (acts : List Activity) (status : String) (t : Balance)
    {v : String × List Difference}
    → check_key false opening closing acts status t ≡ ok v
    → v ≡ (status, [])
unfolding check_key check_found
key_kept opening closing acts status t h = found (find_balance t closing.balances) h
  where
    found :
        (c : Option Balance) {v : String × List Difference}
        → check_found false (find_balance t opening.balances) c t acts status ≡ ok v
        → v ≡ (status, [])
    found none h = sym (ok-eq h)
    found (some c) h =
        let (d, e, f) =
          >>=-eq-ok (reconcile (opening_balance false t (find_balance t opening.balances)) c acts)
            (λ d. ok (judge false status d)) h in
        sym (ok-eq f) ∙ judge_kept status d

keys_kept :
    (opening closing : StoredSnapshot) (acts : List Activity) (status : String) (ts : List Balance)
    {v : String × List Difference}
    → check_keys false opening closing acts status ts ≡ ok v
    → v ≡ (status, [])
unfolding check_keys
keys_kept opening closing acts status [] h = sym (ok-eq h)
keys_kept opening closing acts status (t ∷ ts) h =
    let (one, e, f) = >>=-eq-ok (check_key false opening closing acts status t) _ h in
    let (more, g, k) = >>=-eq-ok (check_keys false opening closing acts one.0 ts) _ f in
    let a = key_kept opening closing acts status t e in
    let b = keys_kept opening closing acts one.0 ts g in sym (ok-eq k) ∙ rw (b, a) refl

-- On incomplete evidence the check of an account that ends without an error leaves it incomplete,
-- and reports no issue: neither a pass nor a mismatch is claimed.
pub unproved-incomplete :
    (opening closing : StoredSnapshot) (acts : List Activity) (covered records_complete : Bool)
    {v : String × List Difference}
    → preconditions_complete opening closing acts covered records_complete ≡ false
    → reconcile_account opening closing acts covered records_complete ≡ ok v
    → v ≡ ("incomplete", [])
unfolding reconcile_account
unproved-incomplete opening closing acts covered records_complete e h =
    keys_kept opening closing acts "incomplete" (templates opening closing acts) (rw e at h)

-- An account passes only if the evidence is complete (both snapshots complete and on one basis, the
-- days between them covered, the records of the job settled, and each activity voided, or effective and
-- booked) and, for every cash or
-- position balance that the check visits, the closing balance is exactly the opening
-- one and the booked amounts between, a balance that a snapshot does not list being 0.
pub passed-AddsUp :
    (opening closing : StoredSnapshot) (acts : List Activity) (covered records_complete : Bool)
    {issues : List Difference}
    → reconcile_account opening closing acts covered records_complete ≡ ok ("passed", issues)
    → IsComplete opening closing acts covered records_complete
      × All
          (λ t. AddsUp (opened opening t) (opened closing t) acts)
          (templates opening closing acts)
unfolding reconcile_account
passed-AddsUp opening closing acts covered records_complete h =
    elim (Bool-cases (preconditions_complete opening closing acts covered records_complete)) [
      | inl e ↦ (
        preconditions_complete-IsComplete opening closing acts covered records_complete e,
        (keys_pass opening closing acts "passed" (templates opening closing acts)
            (ledger_complete acts
              (precondition_ledger opening closing acts covered records_complete e))
            (rw e at h) refl).1,
      )
      | inr e ↦ absurd (
          differ (
            ap (λ (v : String × List Difference). v.0)
              (unproved-incomplete opening closing acts covered records_complete e h)))
    ]
  where
    differ : ◌≡◌ {A = String} "passed" "incomplete" → ⊥
    differ k = cc
