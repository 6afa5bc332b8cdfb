-- ===== src/Scheduled/Tests.antt =====
-- Expressions, dates and ticks, and the theorems about src/bindings/scheduled.ts at these inputs.
use lopata.Common.{ℕ, ◌≡◌, ◌↔◌, refl, some, List, [], ◌∷◌, arith, Pairs, codes, throw, ok}
use mathlib.Core.List.{Memᴰ}
use lopata.Scheduled.Calendar.{
  Date, last_day_of_month, day_of_week_for, days_before_year, days_before_month, nearest_weekday,
  nth_weekday_of_month, last_weekday_of_month,
}
use lopata.Scheduled.Weekdays.{IsLast, last_weekday_of_month-IsLast}
use lopata.Scheduled.Occurrences.{IsNth, nth_weekday_of_month_iff}
use lopata.Scheduled.Nearest.{IsNearest, nearest_weekday-IsNearest}
use lopata.Scheduled.Tokens.{lookup, parse_int, resolve_token}
use lopata.Scheduled.Fields.{
  every, parts, among, never_ends, values, values_from, nth_part, last_part, special_part,
  step_part, range_part, parse_part, parse_parts, parse_field,
}
use lopata.Scheduled.Steps.{Collects, values-Collects}
use lopata.Scheduled.Crons.{
  ParsedCron, split_spaces, parse_fields, parse_cron, matches, field_matches, cron_matches_date,
}
use lopata.Scheduled.Timer.{Tick, last_fired, fire, tick, run}
use lopata.Scheduled.Once.{Apart, run-Apart, tick_fires}

abbrev every_quarter : ParsedCron
every_quarter = record {
  expression = codes "*/15 * * * MON-FRI";
  minute = parts (among (0 ∷ 15 ∷ 30 ∷ 45 ∷ []) ∷ []);
  hour = every;
  day_of_month = every;
  month = every;
  day_of_week = parts (among (1 ∷ 2 ∷ 3 ∷ 4 ∷ 5 ∷ []) ∷ []);
}

parse_run : parse_cron (codes " */15 * * * MON-FRI") ≡ ok every_quarter
unfolding parse_cron lookup parse_fields split_spaces parse_field parse_parts parse_part
    special_part nth_part last_part step_part range_part values values_from resolve_token parse_int
parse_run = refl

-- A step of 0.
endless_run : parse_cron (codes "*/0 * * * *") ≡ throw never_ends
unfolding parse_cron lookup parse_fields split_spaces parse_field parse_parts parse_part
    special_part nth_part last_part step_part range_part values values_from resolve_token parse_int
endless_run = refl

-- 2026-02-28 is a Saturday.
saturday_run : day_of_week_for 2026 2 28 ≡ 6
unfolding day_of_week_for days_before_year days_before_month last_day_of_month
saturday_run = refl

abbrev monday : Date
monday = record { full_year = 2026; month = 1; date = 2; day = 1; hours = 9; minutes = 15 }

abbrev tick_at : ℕ → Tick
tick_at time = record { time = time; date = monday }

abbrev ticks : List (Tick × List ParsedCron)
ticks =
    (tick_at 900000, every_quarter ∷ []) ∷ (tick_at 915000, every_quarter ∷ every_quarter ∷ []) ∷ []

fired_once : run ticks [] ≡ (every_quarter.expression, 15) ∷ []
unfolding run tick fire last_fired cron_matches_date field_matches matches
fired_once = refl

run-Apart_example : Pairs Apart (run ticks [])
run-Apart_example = run-Apart ticks ((omega arith, tt), (tt, tt))

tick_fires_example :
    Memᴰ (every_quarter.expression, 15) (tick (tick_at 900000) (every_quarter ∷ []) []).1
unfolding cron_matches_date field_matches matches last_fired
tick_fires_example =
    tick_fires (tick_at 900000) (every_quarter ∷ []) [] every_quarter (Memᴰ.head refl) refl refl

last_weekday_of_month-IsLast_example : IsLast 2026 2 5 (last_weekday_of_month 2026 2 5)
last_weekday_of_month-IsLast_example = last_weekday_of_month-IsLast 2026 2 5 (omega arith)

nth_weekday_of_month_iff_example : (nth_weekday_of_month 2026 2 2 3 ≡ some 17) ↔ IsNth 2026 2 2 3 17
nth_weekday_of_month_iff_example = nth_weekday_of_month_iff 2026 2 2 3 (omega arith) 17

nearest_weekday-IsNearest_example : IsNearest 2026 2 28 (nearest_weekday 2026 2 28)
unfolding last_day_of_month
nearest_weekday-IsNearest_example = nearest_weekday-IsNearest 2026 2 28 (omega arith) (omega arith)

values-Collects_example :
    (vs : List ℕ) × (values (some 10) (some 30) 7 ≡ ok vs) × Collects 7 10 30 vs
values-Collects_example = values-Collects 10 30 7 (omega arith)
