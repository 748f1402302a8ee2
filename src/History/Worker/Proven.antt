-- ===== src/History/Worker/Proven.antt =====
-- Which coverage counts as complete.
use mathlib.Core.List.{Memᴰ}
use traio.Prelude.{
  ◌≡◌, refl, String, Bool, true, false, not, ◌||◌, List, [], ◌∷◌, ◌++◌, Option, none, some, arith,
  str_eq, eq_iff, if◌then◌else◌, Bool-cases, ◌⊎◌, inl, inr, is_empty, some-eq,
}
use traio.Prelude.Int.{ℤ}
use traio.History.Schedule.{HistoryCoverage}
use traio.History.Worker.{
  ReportRange, is_complete_report, section_rows, section_row, section_type, report_rows,
  verified_report_coverage, account_id_of, has_section, coverage_row,
}

-- A report with all four sections.
pub record IsWhole (r : ReportRange) : Type 0 where
  pub trades : Memᴰ "Trades" r.sections
  pub cash : Memᴰ "CashTransactions" r.sections
  pub transfers : Memᴰ "Transfers" r.sections
  pub corporate_actions : Memᴰ "CorporateActions" r.sections

-- The report that a row of complete activities comes from.
pub record IsProven (accounts : List (String × ℤ)) (allowed : List String)
    (reports : List ReportRange) (c : HistoryCoverage) : Type 0 where
  pub report : ReportRange
  pub member : Memᴰ report reports
  pub asked : Memᴰ report.provider_account_id allowed
  pub same_account : c.account_id ≡ account_id_of report.provider_account_id accounts
  pub same_from : c.from ≡ report.from
  pub same_to : c.to ≡ report.to
  pub starts : is_empty report.from ≡ false
  pub ends : is_empty report.to ≡ false
  pub sections : IsWhole report

has_section-mem : (ss : List String) (s : String) → has_section ss s ≡ true → Memᴰ s ss
has_section-mem [] s h = cc
has_section-mem (t ∷ ss) s h = elim (Bool-cases (str_eq t s)) [
  | inl e ↦ Memᴰ.head (ground (arith, e, eq_iff t s))
  | inr e ↦ Memᴰ.tail (has_section-mem ss s (rw e at h))
]

complete-IsWhole : (r : ReportRange) → is_complete_report r ≡ true → IsWhole r
complete-IsWhole r h = record {
  trades = has_section-mem r.sections "Trades" (ground (arith, h));
  cash = has_section-mem r.sections "CashTransactions" (ground (arith, h));
  transfers = has_section-mem r.sections "Transfers" (ground (arith, h));
  corporate_actions = has_section-mem r.sections "CorporateActions" (ground (arith, h));
}

mem-append : {A : Type 0} {x : A} (xs ys : List A) → Memᴰ x (xs ++ ys) → Memᴰ x xs ⊎ Memᴰ x ys
mem-append [] ys m = inr m
mem-append (z ∷ xs) ys (Memᴰ.head p) = inl (Memᴰ.head p)
mem-append (z ∷ xs) ys (Memᴰ.tail m) = elim (mem-append xs ys m) [
  | inl l ↦ inl (Memᴰ.tail l)
  | inr r ↦ inr r
]

not_activities :
    (t u : String) → some u ≡ some t → str_eq u "activities" ≡ false → str_eq t "activities" ≡ false
not_activities t u e h = rw (← some-eq e) h

section_type-other :
    (s : String) {t : String} → section_type s ≡ some t → str_eq t "activities" ≡ false
unfolding section_type
section_type-other s {t} h = elim (Bool-cases (str_eq s "Trades")) [
  | inl e ↦ not_activities t "trade" (rw e at h) refl
  | inr e ↦ elim (Bool-cases (str_eq s "CashTransactions")) [
    | inl f ↦ not_activities t "cash" (rw (e, f) at h) refl
    | inr f ↦ elim (Bool-cases (str_eq s "Transfers")) [
      | inl g ↦ not_activities t "transfer" (rw (e, f, g) at h) refl
      | inr g ↦ elim (Bool-cases (str_eq s "CorporateActions")) [
        | inl k ↦ not_activities t "corporate_action" (rw (e, f, g, k) at h) refl
        | inr k ↦ cc (rw (e, f, g, k) at h)
      ]
    ]
  ]
]

section_row-other :
    (account : ℤ) (source : String) (r : ReportRange) (s : String) (o : Option String)
    {c : HistoryCoverage}
    → section_type s ≡ o
    → Memᴰ c (section_row account source r o)
    → str_eq c.data_type "activities" ≡ false
unfolding section_row
section_row-other account source r s none e m = elim m [ ]
section_row-other account source r s (some t) e (Memᴰ.head p) = rw p (section_type-other s e)
section_row-other account source r s (some t) e (Memᴰ.tail m) = elim m [ ]

section_rows-other :
    (account : ℤ) (source : String) (r : ReportRange) (ss : List String) {c : HistoryCoverage}
    → Memᴰ c (section_rows account source r ss)
    → str_eq c.data_type "activities" ≡ false
unfolding section_rows
section_rows-other account source r [] m = elim m [ ]
section_rows-other account source r (s ∷ ss) m =
    elim (mem-append (section_row account source r (section_type s))
      (section_rows account source r ss) m) [
        | inl l ↦ section_row-other account source r s (section_type s) refl l
        | inr k ↦ section_rows-other account source r ss k
      ]

-- The row of a report that says that its activities are complete.
pub record IsOfReport (account : ℤ) (r : ReportRange) (c : HistoryCoverage) : Type 0 where
  pub same_account : c.account_id ≡ account
  pub same_from : c.from ≡ r.from
  pub same_to : c.to ≡ r.to
  pub sections : is_complete_report r ≡ true

report_rows-IsOfReport :
    (account : ℤ) (source : String) (r : ReportRange) {c : HistoryCoverage}
    → Memᴰ c (report_rows account source r)
    → str_eq c.data_type "activities" ≡ true
    → str_eq c.fetch_status "complete" ≡ true
    → IsOfReport account r c
unfolding report_rows
report_rows-IsOfReport account source r {c} m a f =
    elim (mem-append (section_rows account source r r.sections)
      (coverage_row account source "activities" r (status_word (is_complete_report r)) ∷ []) m) [
        | inl l ↦ absurd (
            clash (str_eq c.data_type "activities") a
              (section_rows-other account source r r.sections l))
        | inr k ↦ last k
      ]
  where
    status_word : Bool → String
    status_word b = if b then "complete" else "observed"

    clash : (b : Bool) → b ≡ true → b ≡ false → ⊥
    clash b h k = cc

    complete_word : (b : Bool) → str_eq (status_word b) "complete" ≡ true → b ≡ true
    complete_word true h = refl
    complete_word false h = cc

    last :
        Memᴰ c
          (coverage_row account source "activities" r (status_word (is_complete_report r)) ∷ [])
        → IsOfReport account r c
    last (Memᴰ.head p) = record {
      same_account = λ i. (p i).account_id;
      same_from = λ i. (p i).from;
      same_to = λ i. (p i).to;
      sections = complete_word (is_complete_report r) (rw p at f);
    }
    last (Memᴰ.tail k) = elim k [ ]

module _ (accounts : List (String × ℤ)) (allowed : List String) where
  later-IsProven :
      (r : ReportRange) (rs : List ReportRange) (c : HistoryCoverage)
      → IsProven accounts allowed rs c
      → IsProven accounts allowed (r ∷ rs) c
  later-IsProven r rs c h = record {
    report = h.report;
    member = Memᴰ.tail h.member;
    asked = h.asked;
    same_account = h.same_account;
    same_from = h.same_from;
    same_to = h.same_to;
    starts = h.starts;
    ends = h.ends;
    sections = h.sections;
  }

  -- The test that leaves a report out.
  abbrev is_skipped : ReportRange → Bool
  is_skipped r = not (has_section allowed r.provider_account_id) || is_empty r.from || is_empty r.to

  kept-IsProven :
      (source : String) (r : ReportRange) (rs : List ReportRange) (c : HistoryCoverage)
      → is_skipped r ≡ false
      → Memᴰ c (report_rows (account_id_of r.provider_account_id accounts) source r)
      → str_eq c.data_type "activities" ≡ true
      → str_eq c.fetch_status "complete" ≡ true
      → IsProven accounts allowed (r ∷ rs) c
  kept-IsProven source r rs c n m a f =
      let h =
        report_rows-IsOfReport (account_id_of r.provider_account_id accounts) source r m a f in
      record {
        report = r;
        member = Memᴰ.head refl;
        asked = has_section-mem allowed r.provider_account_id (ground (arith, n));
        same_account = h.same_account;
        same_from = h.same_from;
        same_to = h.same_to;
        starts = ground (arith, n);
        ends = ground (arith, n);
        sections = complete-IsWhole r h.sections;
      }

  -- A coverage row that says that the activities of some days of an account are completely fetched
  -- comes from a report of just these days and this account, which is one that was asked for; the
  -- report's days are both given, and it has all four sections: trades, cash transactions, transfers
  -- and corporate actions.
  pub coverage-IsProven :
      (source : String) (reports : List ReportRange) (c : HistoryCoverage)
      → Memᴰ c (verified_report_coverage accounts allowed source reports)
      → str_eq c.data_type "activities" ≡ true
      → str_eq c.fetch_status "complete" ≡ true
      → IsProven accounts allowed reports c
  unfolding verified_report_coverage
  coverage-IsProven source [] c m a f = elim m [ ]
  coverage-IsProven source (r ∷ rs) c m a f =
      elim (mem-append _ (verified_report_coverage accounts allowed source rs) m) [
        | inl l ↦ elim (Bool-cases (is_skipped r)) [
          | inl e ↦ elim (rw e at l) [ ]
          | inr e ↦ kept-IsProven source r rs c e (rw e at l) a f
        ]
        | inr k ↦ later-IsProven r rs c (coverage-IsProven source rs c k a f)
      ]
