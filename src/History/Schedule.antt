-- ===== src/History/Schedule.antt =====
-- internal/history/scheduler.go: the windows that an audit of old history asks for, whether stored
-- coverage is complete, and when a source is due. Dates are day numbers once they are parsed.
pub mod Cover
pub mod Windows
use traio.Prelude.{
  ℕ, zero, suc, ◌+◌, ◌-◌, ◌*◌, min, String, Bool, true, false, not, ◌&&◌, ◌||◌, ◌==◌, List, [], ◌∷◌,
  ◌++◌, Option, none, some, ltb, leb, str_eq, map, is_empty, if◌then◌else◌,
}
use traio.Prelude.Int.{ℤ}
use traio.Text.{Text}
use traio.Date.{parse_day, format_day}
use traio.Activity.Types.{eq_ℤ}

pub record Interval : Type 0 where
  pub start : ℕ
  pub finish : ℕ

-- `sort.Slice` by the start; equal starts stay in order here.
unfoldable pub insert_interval : Interval → List Interval → List Interval
insert_interval i [] = i ∷ []
insert_interval i (j ∷ js) = if leb i.start j.start then i ∷ j ∷ js else j ∷ insert_interval i js

unfoldable pub sort_intervals : List Interval → List Interval
unfolding insert_interval
sort_intervals [] = []
sort_intervals (i ∷ is) = insert_interval i (sort_intervals is)

-- The loop over the sorted intervals.
unfoldable pub cover_loop : ℕ → ℕ → ℕ → List Interval → Bool
cover_loop want_start want_end covered_until [] = false
cover_loop want_start want_end covered_until (i ∷ is) =
    let until = if ltb covered_until i.finish then i.finish else covered_until in
    let skipped = cover_loop want_start want_end covered_until is in
    let extended = cover_loop want_start want_end until is in
    if ltb i.finish want_start || ltb want_end i.start
    then skipped
    else if ltb (covered_until + 1) i.start
    then false
    else if leb want_end until
    then true
    else extended

-- `intervalsCover`, for dates that were parsed.
unfoldable pub days_cover : List Interval → ℕ → ℕ → Bool
unfolding cover_loop sort_intervals
days_cover intervals want_start want_end =
    if ltb want_end want_start
    then false
    else cover_loop want_start want_end (want_start - 1) (sort_intervals intervals)

unfoldable pub parsed_cover : List Interval → Option ℕ → Option ℕ → Bool
unfolding days_cover
parsed_cover intervals (some a) (some b) = days_cover intervals a b
parsed_cover intervals _ _ = false

unfoldable pub intervals_cover : List Interval → Text → Text → Bool
unfolding parsed_cover parse_day
intervals_cover intervals from to = parsed_cover intervals (parse_day from) (parse_day to)

-- store.HistoryCoverage
pub record HistoryCoverage : Type 0 where
  pub id : String
  pub account_id : ℤ
  pub source : String
  pub data_type : String
  pub scope_key : String
  pub from : Text
  pub to : Text
  pub fetch_status : String
  pub normalize_status : String
  pub reconcile_status : String
  pub last_checked_at : Text

unfoldable pub is_complete_proof : ℤ → HistoryCoverage → Bool
is_complete_proof account c =
    eq_ℤ c.account_id account
    && str_eq c.source "flex"
    && str_eq c.data_type "activities"
    && str_eq c.fetch_status "complete"
    && str_eq c.scope_key "account"

-- A proof's interval, if its dates are dates in order.
unfoldable pub interval_of : Option ℕ → Option ℕ → List Interval
interval_of (some a) (some b) = if ltb b a then [] else record { start = a; finish = b } ∷ []
interval_of _ _ = []

unfoldable pub account_intervals : ℤ → List HistoryCoverage → List Interval
unfolding is_complete_proof interval_of parse_day
account_intervals account [] = []
account_intervals account (c ∷ cs) =
    (if is_complete_proof account c then interval_of (parse_day c.from) (parse_day c.to) else [])
    ++ account_intervals account cs

unfoldable pub all_covered : List ℤ → Text → Text → List HistoryCoverage → Bool
unfolding account_intervals intervals_cover
all_covered [] from to coverage = true
all_covered (a ∷ as') from to coverage =
    intervals_cover (account_intervals a coverage) from to && all_covered as' from to coverage

unfoldable pub completely_covered : List ℤ → Text → Text → List HistoryCoverage → Bool
unfolding all_covered
completely_covered accounts from to coverage =
    all_covered accounts from to coverage && not (is_empty accounts)

-- The loop of `historyWindows`; a fuel of one for each day is enough.
unfoldable pub windows_from : ℕ → ℕ → ℕ → List Interval
windows_from zero start end = []
windows_from (suc fuel) start end =
    let window_end = min (start + 364) end in
    let rest = windows_from fuel (window_end + 1) end in
    if ltb end start then [] else record { start = start; finish = window_end } ∷ rest

unfoldable pub day_windows : ℕ → ℕ → List Interval
unfolding windows_from
day_windows start end = windows_from (suc end - start) start end

unfoldable pub parsed_windows : Option ℕ → Option ℕ → List Interval
unfolding day_windows
parsed_windows (some a) (some b) = day_windows a b
parsed_windows _ _ = []

unfoldable pub history_windows : Text → Text → List (Text × Text)
unfolding parsed_windows parse_day format_day
history_windows from to =
    map (λ i. (format_day i.start, format_day i.finish))
      (parsed_windows (parse_day from) (parse_day to))

-- `due`: the times of the last runs by key, with the instant in nanoseconds; a key is a source and a
-- connection. A zero time counts as no run.
abbrev pub RunKey : Type 0
RunKey = String × ℤ

abbrev pub same_key : RunKey → RunKey → Bool
same_key (s, c) (t, d) = str_eq s t && eq_ℤ c d

unfoldable pub last_run : RunKey → List (RunKey × ℕ) → Option ℕ
last_run k [] = none
last_run k ((j, t) ∷ runs) = if same_key j k then some t else last_run k runs

unfoldable pub set_run : RunKey → ℕ → List (RunKey × ℕ) → List (RunKey × ℕ)
set_run k t [] = (k, t) ∷ []
set_run k t ((j, u) ∷ runs) = if same_key j k then (j, t) ∷ runs else (j, u) ∷ set_run k t runs

-- `!last.IsZero() && now.Sub(last) < cadence`
unfoldable pub is_recent : Option ℕ → ℕ → ℕ → Bool
is_recent none cadence now = false
is_recent (some last) cadence now = ltb now (last + cadence)

unfoldable pub due : RunKey → ℕ → ℕ → List (RunKey × ℕ) → Bool × List (RunKey × ℕ)
unfolding last_run set_run is_recent
due k cadence now runs =
    if is_recent (last_run k runs) cadence now then (false, runs) else (true, set_run k now runs)
