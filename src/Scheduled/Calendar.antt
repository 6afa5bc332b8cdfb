-- ===== src/Scheduled/Calendar.antt =====
-- src/bindings/scheduled.ts, the helpers on dates. `new Date(year, month - 1, day)` is the Gregorian calendar,
-- from the year 100 on, since lower years stand for others there.
use lopata.Common.{
  ℕ, zero, suc, ◌+◌, ◌*◌, ◌-◌, ◌/◌, ◌%◌, min, Bool, not, ◌&&◌, ◌||◌, Option, none, some, leb, ltb,
  ◌==◌, if◌then◌else◌,
}

-- The local time that a `Date` shows.
pub record Date : Type 0 where
  pub full_year : ℕ
  pub month : ℕ
  pub date : ℕ
  pub day : ℕ
  pub hours : ℕ
  pub minutes : ℕ

abbrev pub is_leap : ℕ → Bool
is_leap year = ((year % 4) == 0) && (not ((year % 100) == 0) || ((year % 400) == 0))

-- Months are numbered from 1.
unfoldable pub last_day_of_month : (year month : ℕ) → ℕ
last_day_of_month year month =
    if month == 2
    then (if is_leap year then 29 else 28)
    else if (month == 4) || ((month == 6) || ((month == 9) || (month == 11)))
    then 30
    else 31

-- The days of the year before a month.
unfoldable pub days_before_month : (year month : ℕ) → ℕ
unfolding last_day_of_month
days_before_month year zero = 0
days_before_month year (suc zero) = 0
days_before_month year (suc (suc month)) =
    days_before_month year (suc month) + last_day_of_month year (suc month)

-- The days before a year, counted so that a number that 7 divides is a Sunday.
unfoldable pub days_before_year : ℕ → ℕ
days_before_year year = 365 * (year - 1) + (year - 1) / 4 - (year - 1) / 100 + (year - 1) / 400

-- Sunday is 0.
unfoldable pub day_of_week_for : (year month day : ℕ) → ℕ
unfolding days_before_year days_before_month
day_of_week_for year month day = (days_before_year year + days_before_month year month + day) % 7

unfoldable pub nearest_weekday : (year month day : ℕ) → ℕ
unfolding day_of_week_for last_day_of_month
nearest_weekday year month day =
    let last_day = last_day_of_month year month in
    let day' = min day last_day in
    let dow = day_of_week_for year month day' in
    if leb 1 dow && leb dow 5
    then day'
    else if dow == 6
    then (if ltb 1 day' then day' - 1 else day' + 2)
    else if ltb day' last_day
    then day' + 1
    else day' - 2

module _ (year month weekday : ℕ) where
  -- The loop of nthWeekdayOfMonth with `left` days to go, from the day d on.
  unfoldable pub nth_from : (n count d left : ℕ) → Option ℕ
  unfolding day_of_week_for
  nth_from n count d zero = none
  nth_from n count d (suc left) =
      let found = day_of_week_for year month d == weekday in
      let later = nth_from n (if found then suc count else count) (suc d) left in
      if found && (suc count == n) then some d else later

  unfoldable pub nth_weekday_of_month : ℕ → Option ℕ
  unfolding nth_from last_day_of_month
  nth_weekday_of_month n = nth_from n 0 1 (last_day_of_month year month)

  -- The loop of lastWeekdayOfMonth, from the day d down; 0 where the loop ends.
  unfoldable pub last_from : (last_day d : ℕ) → ℕ
  unfolding day_of_week_for
  last_from last_day zero = last_day
  last_from last_day (suc d) =
      let earlier = last_from last_day d in
      if day_of_week_for year month (suc d) == weekday then suc d else earlier

  unfoldable pub last_weekday_of_month : ℕ
  unfolding last_from last_day_of_month
  last_weekday_of_month = last_from (last_day_of_month year month) (last_day_of_month year month)
