-- ===== src/Date.antt =====
-- Calendar dates, as the program uses the package time: `time.Parse` and `Format` of the layouts
-- 2006-01-02 and 20060102, and whole days as numbers. Day 366 is 1 January of the year 0, so that a
-- year back from any parsed date is a number too.
pub mod Timestamp
use traio.Prelude.{
  ℕ, zero, suc, ◌+◌, ◌-◌, ◌*◌, ◌/◌, ◌%◌, Bool, true, false, ◌&&◌, ◌||◌, not, List, [], ◌∷◌, ◌++◌,
  Option, none, some, refl, ◌≡◌, ltb, leb, ◌==◌, all, if◌then◌else◌,
}
use traio.Text.{Text, is_digit, codes}

pub record Civil : Type 0 where
  pub year : ℕ
  pub month : ℕ
  pub day : ℕ

abbrev pub digit : ℕ → ℕ
digit c = c - b'0'

unfoldable pub is_leap : ℕ → Bool
is_leap y = y % 4 == 0 && (not (y % 100 == 0) || y % 400 == 0)

unfoldable pub days_in : ℕ → ℕ → ℕ
unfolding is_leap
days_in y m =
    if m == 2
    then (if is_leap y then 29 else 28)
    else if m == 4 || m == 6 || m == 9 || m == 11
    then 30
    else 31

unfoldable pub check_civil : Civil → Option Civil
unfolding days_in
check_civil d =
    if leb 1 d.month && leb d.month 12 && leb 1 d.day && leb d.day (days_in d.year d.month)
    then some d
    else none

abbrev two_digits : ℕ → ℕ → ℕ
two_digits a b = digit a * 10 + digit b

unfoldable pub civil_of_digits : Text → Option Civil
unfolding check_civil
civil_of_digits (a ∷ b ∷ c ∷ d ∷ e ∷ f ∷ g ∷ h ∷ []) =
    if all is_digit (a ∷ b ∷ c ∷ d ∷ e ∷ f ∷ g ∷ h ∷ [])
    then check_civil (record {
      year = two_digits a b * 100 + two_digits c d;
      month = two_digits e f;
      day = two_digits g h;
    })
    else none
civil_of_digits _ = none

-- `time.Parse("2006-01-02", s)`
unfoldable pub parse_date : Text → Option Civil
unfolding civil_of_digits
parse_date (a ∷ b ∷ c ∷ d ∷ x ∷ e ∷ f ∷ y ∷ g ∷ h ∷ []) =
    if x == b'-' && y == b'-' then civil_of_digits (a ∷ b ∷ c ∷ d ∷ e ∷ f ∷ g ∷ h ∷ []) else none
parse_date _ = none

abbrev two_codes : ℕ → Text → Text
two_codes n rest = (n / 10 % 10 + b'0') ∷ (n % 10 + b'0') ∷ rest

-- `Format("2006-01-02")`, for years of at most four digits
unfoldable pub format_date : Civil → Text
format_date d =
    two_codes (d.year / 100)
      (two_codes d.year (b'-' ∷ two_codes d.month (b'-' ∷ two_codes d.day [])))

-- Days before the year, counted from the year -1.
unfoldable pub days_before_year : ℕ → ℕ
days_before_year y = 366 + 365 * y + (y + 3) / 4 - (y + 99) / 100 + (y + 399) / 400

abbrev days_before_month : ℕ → ℕ → ℕ
days_before_month y zero = 0
days_before_month y (suc m) = days_before_month y m + (if m == 0 then 0 else days_in y m)

unfoldable pub day_number : Civil → ℕ
unfolding days_before_year days_in
day_number d = days_before_year d.year + days_before_month d.year d.month + (d.day - 1)

-- The day number of a text that is a date.
unfoldable pub parse_day : Text → Option ℕ
unfolding parse_date day_number
parse_day s = elim (parse_date s) [ none ↦ none | some d ↦ some (day_number d) ]

-- The month and day at an offset into a year; m is the month tried, k the months left.
civil_in_year : ℕ → ℕ → ℕ → ℕ → Civil
unfolding days_in
civil_in_year y zero m n = record { year = y; month = m; day = n + 1 }
civil_in_year y (suc k) m n =
    let later = civil_in_year y k (m + 1) (n - days_in y m) in
    if ltb n (days_in y m) then record { year = y; month = m; day = n + 1 } else later

year_of_day : ℕ → ℕ
unfolding days_before_year
year_of_day n =
    let y = (n - 366) * 400 / 146097 in
    if ltb n (days_before_year y)
    then y - 1
    else if leb (days_before_year (y + 1)) n
    then y + 1
    else y

unfoldable pub civil_of_day : ℕ → Civil
unfolding civil_in_year year_of_day
civil_of_day n = let y = year_of_day n in civil_in_year y 11 1 (n - days_before_year y)

unfoldable pub format_day : ℕ → Text
unfolding civil_of_day format_date
format_day n = format_date (civil_of_day n)

leap_day : parse_day (codes "2024-02-29") ≡ some 739676
unfolding parse_day
leap_day = refl

no_leap_day : parse_day (codes "2023-02-29") ≡ none
unfolding parse_day
no_leap_day = refl

back_and_forth : format_day 739677 ≡ codes "2024-03-01"
unfolding format_day
back_and_forth = refl
