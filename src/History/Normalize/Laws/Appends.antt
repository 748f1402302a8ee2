-- ===== src/History/Normalize/Laws/Appends.antt =====
-- The versions of an activity: what normalizing a record adds to them.
use mathlib.Core.Path.{subst}
use traio.Prelude.{
  ◌+◌, ◌≤◌, ◌<◌, ◌≡◌, ◌⊎◌, refl, String, Bool, true, false, ◌&&◌, ◌∷◌, Option, none, some, ok,
  >>=-eq-ok, ok-eq, str_eq, ltb, leb, ltb→lt, arith, Bool-cases, Option-cases, inl, inr,
}
use traio.Prelude.Int.{pos}
use traio.Activity.Types.{Activity}
use traio.History.Normalize.Prepare.{prepare}
use traio.History.Normalize.Records.{RawRecord, RawRow, Observation, Revision, Ledger}
use traio.History.Normalize.Decide.{
  Circumstances, Decision, decide, by_costs, by_priority, is_changed, priority_of_source,
}
use traio.History.Normalize.{
  place, normalize_pending, normalize_observed, normalize_history_record, found, numbered,
}
use traio.History.Normalize.Lookups.{
  Codes, find_raw, find_observation, old_of, circumstances, reviewed, is_ambiguous,
  is_manual_duplicate, is_rule_upgrade, current_of, match_identities, identities_of,
}
use traio.History.Normalize.Writes.{Task, settle, book, revise, revision_of}

-- Why a version may be replaced: a newer parser on its own record, a better source, a later text of
-- the same source, or costs that were missing.
abbrev pub HasReason : Revision → Circumstances → Type 0
HasReason old c =
    (c.rule_upgrade ≡ true)
    ⊎ ((old.source_priority < c.priority)
        ⊎ (((old.source_priority ≡ c.priority) × (c.is_newer ≡ true))
            ⊎ ((old.source_priority ≤ c.priority) × (c.only_adds_costs ≡ true))))

-- The decision without a review.
weigh :
    (old : Revision) (r : RawRecord) (c : Circumstances)
    → c.priority ≤ 30
    → ((by_costs old c (by_priority old r c)).replace && c.changed) ≡ true
    → (old.source_priority < 100)
      × ((old.source_priority < c.priority)
          ⊎ (((old.source_priority ≡ c.priority) × (c.is_newer ≡ true))
              ⊎ ((old.source_priority ≤ c.priority) × (c.only_adds_costs ≡ true))))
weigh old r c p h = elim (Bool-cases (ltb old.source_priority c.priority)) [
  | inl e ↦ let lt = ltb→lt old.source_priority c.priority e in (omega arith, inl lt)
  | inr e ↦ elim (Bool-cases (leb old.source_priority c.priority)) [
    | inr k ↦ absurd (ground (arith, h, e, k))
    | inl k ↦ elim (Bool-cases c.only_adds_costs) [
      | inl o ↦ (ground (arith, k), inr (inr (ground (arith, k), o)))
      | inr o ↦ elim (Bool-cases c.is_newer) [
        | inl n ↦ (ground (arith, k, e), inr (inl (ground (arith, k, e), n)))
        | inr n ↦ absurd (ground (arith, h, e, k, o, n))
      ]
    ]
  ]
]

decide_lem :
    (old : Revision) (r : RawRecord) (c : Circumstances)
    → c.priority ≤ 30
    → (c.rule_upgrade ≡ true → old.source_priority < 100)
    → (decide old r c).replace ≡ true
    → (c.manual_duplicate ≡ false)
      × (c.changed ≡ true)
      × (old.source_priority < 100)
      × HasReason old c
unfolding decide
decide_lem old r c p u h = elim (Bool-cases c.manual_duplicate) [
  | inl m ↦ absurd (cc (rw (decide, m) at h))
  | inr m ↦ elim (Bool-cases c.changed) [
    | inr k ↦ absurd (ground (arith, rw (decide, m) at h))
    | inl k ↦ elim (Bool-cases c.rule_upgrade) [
      | inl g ↦ (m, k, u g, inl g)
      | inr g ↦ let (l, why) = weigh old r c p (rw (decide, m, g) at h) in (m, k, l, inr why)
    ]
  ]
]

priority-le : (source : String) → priority_of_source source ≤ 30
unfolding priority_of_source
priority-le source = ground arith

rule_upgrade-lt :
    (raw : String) (old : Revision) (l : Ledger)
    → is_rule_upgrade raw old l.sources ≡ true
    → old.source_priority < 100
unfolding is_rule_upgrade
rule_upgrade-lt raw old l h = ground arith

module _ (codes : Codes) (t : Task) where
  -- A new activity, for a record that no activity is known by.
  pub record IsBooked (l l' : Ledger) : Type 0 where
    pub activity : Activity
    pub unknown : match_identities t.account l.identities (identities_of t.received) none ≡ ok none
    pub named : activity.id ≡ t.new_activity
    pub added : l'.revisions ≡ revision_of t activity 1 ∷ l.revisions

  -- A further version of the activity that the record is known by.
  pub record IsRevised (l l' : Ledger) : Type 0 where
    pub activity : Activity
    pub id : String
    pub old : Revision
    pub known :
        match_identities t.account l.identities (identities_of t.received) none ≡ ok (some id)
    pub current : current_of id l ≡ some old
    pub named : activity.id ≡ old.activity_id
    pub added : l'.revisions ≡ revision_of t activity (old.revision_no + 1) ∷ l.revisions
    pub not_resolved : is_manual_duplicate old.activity_id l.links ≡ false
    pub not_accepted : old.source_priority < 100
    pub changed : is_changed codes.json old.payload activity ≡ true
    pub reason : HasReason old (circumstances codes t.raw t.received activity old l)

  abbrev pub Appends : Ledger → Ledger → Type 0
  Appends l l' = (l'.revisions ≡ l.revisions) ⊎ (IsBooked l l' ⊎ IsRevised l l')

  revised :
      (old : Revision) (u : Bool) (d : Decision) (a : Activity) (l : Ledger)
      → ((revise t old u d a l).1.revisions ≡ l.revisions)
        ⊎ ((d.replace ≡ true)
            × ((revise t old u d a l).1.revisions
                ≡ revision_of t a (old.revision_no + 1) ∷ l.revisions))
  unfolding revise settle
  revised old u d a l = elim (Bool-cases d.replace) [
    | inl e ↦ inr (e, rw (revise, settle, e) refl)
    | inr e ↦ inl (rw (revise, settle, e) refl)
  ]

  booked_id :
      (b : Bool) (a : Activity)
      → (reviewed b (record a { id = t.new_activity; revision = pos 1 })).id ≡ t.new_activity
  booked_id true a = refl
  booked_id false a = refl

  placed_known :
      (a : Activity) (i : String) (old : Revision) (l : Ledger)
      → match_identities t.account l.identities (identities_of t.received) none ≡ ok (some i)
      → current_of i l ≡ some old
      → Appends l (place codes t a (some old) l).1
  unfolding place circumstances
  placed_known a i old l m e =
      let a' = numbered codes old a in
      let c = circumstances codes t.raw t.received a' old l in
      let d = decide old t.received c in
      elim (revised old c.rule_upgrade d a' l) [
        | inl k ↦ inl k
        | inr (r, k) ↦
            let (manual, changed, low, why) =
              decide_lem old t.received c (priority-le t.received.source)
                (rule_upgrade-lt t.raw old l) r in
            inr (
              inr (record {
                activity = a';
                id = i;
                old = old;
                known = m;
                current = e;
                named = refl;
                added = k;
                not_resolved = manual;
                not_accepted = low;
                changed = changed;
                reason = why;
              }))
      ]

  placed :
      (a : Activity) (i : Option String) (old : Option Revision) (l : Ledger)
      → match_identities t.account l.identities (identities_of t.received) none ≡ ok i
      → old_of i l ≡ ok old
      → Appends l (place codes t a old l).1
  unfolding place book circumstances settle
  placed a none none l m o = inr (
      inl (record {
        activity =
            reviewed (is_ambiguous codes t.account t.received a l)
              (record a { id = t.new_activity; revision = pos 1 });
        unknown = m;
        named = booked_id (is_ambiguous codes t.account t.received a l) a;
        added = refl;
      }))
  placed a none (some old) l m o = cc
  placed a (some i) old l m o = elim (Option-cases (current_of i l)) [
    | inl e ↦ absurd (cc (rw (old_of, e) at o))
    | inr (v, e) ↦
        let s : some v ≡ old = ok-eq (rw (old_of, e) at o) in rw (← s) (placed_known a i v l m e)
  ]

  pending-Appends :
      (l l' : Ledger) (outcome : String)
      → normalize_pending codes t l ≡ ok (outcome, l')
      → Appends l l'
  unfolding normalize_pending
  pending-Appends l l' outcome h =
      let (a, e1, h1) =
        >>=-eq-ok (prepare codes.lower codes.equal_fold codes.resolve t.account t.received) _ h in
      let (i, e2, h2) =
        >>=-eq-ok (match_identities t.account l.identities (identities_of t.received) none) _ h1 in
      let (old, e3, h3) = >>=-eq-ok (old_of i l) _ h2 in
      subst (λ (x : String × Ledger). Appends l x.1) (ok-eq h3) (placed a i old l e2 e3)

  observed-Appends :
      (raw : RawRow) (o : Observation) (l l' : Ledger) (outcome : String)
      → normalize_observed codes t raw o l ≡ ok (outcome, l')
      → Appends l l'
  unfolding normalize_observed
  observed-Appends raw o l l' outcome h = elim (Bool-cases (str_eq o.outcome "")) [
    | inr e ↦
        subst (λ (x : String × Ledger). Appends l x.1) (ok-eq (rw (normalize_observed, e) at h))
          (inl refl)
    | inl e ↦ elim (Bool-cases (str_eq raw.normalize_status "pending")) [
      | inl k ↦ pending-Appends l l' outcome (rw (normalize_observed, e, k) at h)
      | inr k ↦
          subst (λ (x : String × Ledger). Appends l x.1)
            (ok-eq (rw (normalize_observed, e, k) at h)) (inl refl)
    ]
  ]

  -- Normalizing a record, with success, leaves every version of every activity as it is and adds one at
  -- most: the first version of a new activity, where no activity is known by the record's identities;
  -- or the version after the current one of the one activity that is known by them. The second only if
  -- that activity was not resolved as a duplicate by hand, its current version was not accepted by
  -- hand, the new one says something else, and there is a reason: a newer parser on the same record,
  -- a source of higher priority, a later text of the same priority, or costs that were missing.
  pub normalize-Appends :
      (l l' : Ledger) (outcome : String)
      → normalize_history_record codes t l ≡ ok (outcome, l')
      → Appends l l'
  unfolding normalize_history_record
  normalize-Appends l l' outcome h =
      let (raw, e1, h1) = >>=-eq-ok (found codes (find_raw t.raw l.raws)) _ h in
      let (o, e2, h2) =
        >>=-eq-ok (found codes (find_observation t.raw t.job l.observations)) _ h1 in
      observed-Appends raw o l l' outcome h2
