-- ===== src/History/Normalize/Laws.antt =====
-- A record normalized once has its answer for good.
pub mod Appends
use traio.Prelude.{
  ℕ, suc, ◌+◌, ◌≡◌, ◌⊎◌, refl, sym, ap, ◌∙◌, String, Bool, true, false, not, ◌&&◌, ◌||◌, List, [],
  ◌∷◌, Option, none, some, Result, ok, err, ◌>>=◌, >>=-eq-ok, ok-eq, some-eq, str_eq, eq_iff,
  if◌then◌else◌, arith, Bool-cases, Option-cases, inl, inr,
}
use traio.Prelude.Int.{ℤ, pos}
use traio.Activity.Types.{Activity, needs_review, unsupported}
use mathlib.Core.Path.{subst}
use traio.History.Normalize.Prepare.{prepare}
use traio.History.Normalize.Records.{RawRow, Observation, Revision, Ledger, NormalizeError}
use traio.History.Normalize.Decide.{Decision, decide, result_of}
use traio.History.Normalize.{
  place, normalize_pending, normalize_observed, normalize_history_record, outcome_of_status, found,
  numbered,
}
use traio.History.Normalize.Lookups.{
  Codes, find_raw, find_observation, old_of, circumstances, reviewed, is_ambiguous, identities_of,
  match_identities,
}
use traio.History.Normalize.Writes.{
  Task, set_outcome, set_raw_status, settle, book, revise, booked_anew, revision_of, principal,
}

find_observation-set_outcome :
    (outcome raw job : String) (os : List Observation) {o : Observation}
    → find_observation raw job os ≡ some o
    → find_observation raw job (set_outcome outcome raw job os)
      ≡ some (record o { outcome = outcome })
unfolding find_observation set_outcome
find_observation-set_outcome outcome raw job [] h = cc
find_observation-set_outcome outcome raw job (x ∷ os) {o} h =
    elim (Bool-cases (str_eq x.raw_record_id raw && str_eq x.job_id job)) [
      | inl e ↦
          let s : x ≡ o = some-eq (rw e at h) in
          rw (e, e) (ap (λ (y : Observation). some (record y { outcome = outcome })) s)
      | inr e ↦ rw (e, e) (find_observation-set_outcome outcome raw job os (rw e at h))
    ]

find_raw-set_raw_status :
    (status i : String) (rs : List RawRow) {r : RawRow}
    → find_raw i rs ≡ some r
    → (r' : RawRow) × (find_raw i (set_raw_status status i rs) ≡ some r')
unfolding find_raw set_raw_status
find_raw-set_raw_status status i [] h = cc
find_raw-set_raw_status status i (x ∷ rs) h = elim (Bool-cases (str_eq x.id i)) [
  | inl e ↦ rw (e, e) (record x { normalize_status = status }, refl)
  | inr e ↦ rw (e, e) (find_raw-set_raw_status status i rs (rw e at h))
]

and_right : (a : Bool) {b : Bool} → (a && b) ≡ true → b ≡ true
and_right true h = h
and_right false h = cc

if-nonempty :
    (b : Bool) (x y : String × String)
    → (b ≡ true → str_eq x.0 "" ≡ false)
    → str_eq y.0 "" ≡ false
    → str_eq (if b then x else y).0 "" ≡ false
if-nonempty true x y h k = h refl
if-nonempty false x y h k = k

if_text-nonempty :
    (b : Bool) (x y : String)
    → str_eq x "" ≡ false
    → str_eq y "" ≡ false
    → str_eq (if b then x else y) "" ≡ false
if_text-nonempty true x y h k = h
if_text-nonempty false x y h k = k

reviewed-nonempty :
    (status : String)
    → (str_eq status unsupported || str_eq status needs_review) ≡ true
    → str_eq status "" ≡ false
reviewed-nonempty status h = elim (Bool-cases (str_eq status unsupported)) [
  | inl e ↦ let s : status ≡ unsupported = (eq_iff status unsupported).0 e in rw s refl
  | inr e ↦ let s : status ≡ needs_review = (eq_iff status needs_review).0 (rw e at h) in rw s refl
]

result-nonempty :
    (is_known : Bool) (d : Decision) (rule_upgrade : Bool) (status : String)
    → str_eq (result_of is_known d rule_upgrade status).0 "" ≡ false
unfolding result_of
result-nonempty is_known d rule_upgrade status =
    let reviewed = str_eq status unsupported || str_eq status needs_review in
    if-nonempty (d.replace && reviewed) _ _ (λ e. reviewed-nonempty status (and_right d.replace e))
      (if-nonempty d.unordered_conflict _ _ (λ e. refl)
        (if-nonempty (rule_upgrade && not d.replace && reviewed) _ _
          (λ e. reviewed-nonempty status (and_right (rule_upgrade && not d.replace) e))
          (if_text-nonempty (not d.replace) _ _ refl (if_text-nonempty is_known _ _ refl refl))))

-- What the last writes leave of a record's own rows.
record IsSettled (t : Task) (l : Ledger) (outcome : String) (l' : Ledger) : Type 0 where
  nonempty : str_eq outcome "" ≡ false
  observed : l'.observations ≡ set_outcome outcome t.raw t.job l.observations
  raw :
      (r : RawRow)
      → find_raw t.raw l.raws ≡ some r
      → (r' : RawRow) × (find_raw t.raw l'.raws ≡ some r')

-- The last writes, on tables whose own rows of the record are as before.
settle-IsSettled :
    (t : Task) (is_known rule_upgrade : Bool) (d : Decision) (a : Activity) (l m : Ledger)
    → m.observations ≡ l.observations
    → m.raws ≡ l.raws
    → let (outcome, l') = settle t is_known rule_upgrade d a m in IsSettled t l outcome l'
unfolding settle
settle-IsSettled t is_known rule_upgrade d a l m o w = record {
  nonempty = result-nonempty is_known d rule_upgrade a.status;
  observed = ap (set_outcome (result_of is_known d rule_upgrade a.status).0 t.raw t.job) o;
  raw = λ r h.
      find_raw-set_raw_status (result_of is_known d rule_upgrade a.status).1 t.raw m.raws
        (ap (find_raw t.raw) w ∙ h);
}

revise-IsSettled :
    (t : Task) (old : Revision) (rule_upgrade : Bool) (d : Decision) (a : Activity) (l : Ledger)
    → let (outcome, l') = revise t old rule_upgrade d a l in IsSettled t l outcome l'
unfolding revise
revise-IsSettled t old rule_upgrade d a l =
    settle-IsSettled t true rule_upgrade d a l _
      (elim (Bool-cases d.replace) [ inl e ↦ rw e refl | inr e ↦ rw e refl ])
      (elim (Bool-cases d.replace) [ inl e ↦ rw e refl | inr e ↦ rw e refl ])

book-IsSettled :
    (t : Task) (a : Activity) (l : Ledger)
    → let (outcome, l') = book t a l in IsSettled t l outcome l'
unfolding book
book-IsSettled t a l =
    settle-IsSettled t false false booked_anew a l
      (record l {
        activities = record { id = a.id; account = t.account; current_revision = 1 } ∷ l.activities;
        revisions = revision_of t a 1 ∷ l.revisions;
        sources = principal t ∷ l.sources;
      })
      refl refl

place-IsSettled :
    (codes : Codes) (t : Task) (a : Activity) (old : Option Revision) (l : Ledger)
    → let (outcome, l') = place codes t a old l in IsSettled t l outcome l'
unfolding place book revise
place-IsSettled codes t a none l =
    book-IsSettled t
      (reviewed (is_ambiguous codes t.account t.received a l)
        (record a { id = t.new_activity; revision = pos 1 }))
      l
place-IsSettled codes t a (some old) l = revise-IsSettled t old _ _ (numbered codes old a) l

pending-IsSettled :
    (codes : Codes) (t : Task) (l : Ledger) (outcome : String) (l' : Ledger)
    → normalize_pending codes t l ≡ ok (outcome, l')
    → IsSettled t l outcome l'
unfolding normalize_pending
pending-IsSettled codes t l outcome l' h =
    let (a, e1, h1) =
      >>=-eq-ok (prepare codes.lower codes.equal_fold codes.resolve t.account t.received) _ h in
    let (i, e2, h2) =
      >>=-eq-ok (match_identities t.account l.identities (identities_of t.received) none) _ h1 in
    let (old, e3, h3) = >>=-eq-ok (old_of i l) _ h2 in
    subst (λ (x : String × Ledger). IsSettled t l x.0 x.1) (ok-eq h3)
      (place-IsSettled codes t a old l)

module _ (codes : Codes) (t : Task) where
  found-eq {ℓ} : {A : Type ℓ} (x : Option A) {a : A} → found codes x ≡ ok a → x ≡ some a
  found-eq none h = cc
  found-eq (some b) h = cc

  status-nonempty : (status : String) → str_eq (outcome_of_status codes status) "" ≡ false
  status-nonempty status = elim (Bool-cases (str_eq status needs_review)) [
    | inl e ↦ let s : status ≡ needs_review = (eq_iff status needs_review).0 e in rw s refl
    | inr e ↦ elim (Bool-cases (str_eq status unsupported)) [
      | inl k ↦ let s : status ≡ unsupported = (eq_iff status unsupported).0 k in rw s refl
      | inr k ↦ rw (e, k) refl
    ]
  ]

  settled_again :
      (raw : RawRow) (o : Observation) (l l' : Ledger) (outcome : String)
      → find_raw t.raw l.raws ≡ some raw
      → find_observation t.raw t.job l.observations ≡ some o
      → IsSettled t l outcome l'
      → normalize_history_record codes t l' ≡ ok (outcome, l')
  unfolding normalize_history_record normalize_observed
  settled_again raw o l l' outcome r v s =
      let (raw', r') = s.raw raw r in
      let v' : find_observation t.raw t.job l'.observations
          ≡ some (record o { outcome = outcome }) =
        ap (find_observation t.raw t.job) s.observed
        ∙ find_observation-set_outcome outcome t.raw t.job l.observations v in
      rw (normalize_history_record, r', v', normalize_observed, s.nonempty) refl

  observed_again :
      (raw : RawRow) (o : Observation) (l l' : Ledger) (outcome : String)
      → find_raw t.raw l.raws ≡ some raw
      → find_observation t.raw t.job l.observations ≡ some o
      → normalize_observed codes t raw o l ≡ ok (outcome, l')
      → normalize_history_record codes t l' ≡ ok (outcome, l')
  unfolding normalize_history_record normalize_observed
  observed_again raw o l l' outcome r v h = elim (Bool-cases (str_eq o.outcome "")) [
    | inr e ↦
        subst (λ (x : String × Ledger). normalize_history_record codes t x.1 ≡ ok x)
          (ok-eq (rw (normalize_observed, e) at h))
          (rw (normalize_history_record, r, v, normalize_observed, e) refl)
    | inl e ↦ elim (Bool-cases (str_eq raw.normalize_status "pending")) [
      | inl k ↦
          settled_again raw o l l' outcome r v
            (pending-IsSettled codes t l outcome l' (rw (normalize_observed, e, k) at h))
      | inr k ↦
          let out = outcome_of_status codes raw.normalize_status in
          let l1 : Ledger = record l {
            observations = set_outcome out t.raw t.job l.observations;
          } in
          subst (λ (x : String × Ledger). normalize_history_record codes t x.1 ≡ ok x)
            (ok-eq (rw (normalize_observed, e, k) at h))
            (settled_again raw o l l1 out r v (record {
              nonempty = status-nonempty raw.normalize_status;
              observed = refl;
              raw = λ x y. (x, y);
            }))
    ]
  ]

  -- A record that has been normalized for a job, with success, is settled for this job: normalizing it
  -- again answers the same outcome, and leaves all the tables as they are.
  pub normalize_again :
      (l l' : Ledger) (outcome : String)
      → normalize_history_record codes t l ≡ ok (outcome, l')
      → normalize_history_record codes t l' ≡ ok (outcome, l')
  unfolding normalize_history_record normalize_observed
  normalize_again l l' outcome h =
      let (raw, e1, h1) = >>=-eq-ok (found codes (find_raw t.raw l.raws)) _ h in
      let (o, e2, h2) =
        >>=-eq-ok (found codes (find_observation t.raw t.job l.observations)) _ h1 in
      let r = found-eq (find_raw t.raw l.raws) e1 in
      let v = found-eq (find_observation t.raw t.job l.observations) e2 in
      observed_again raw o l l' outcome r v h2
