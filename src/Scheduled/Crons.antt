-- ===== src/Scheduled/Crons.antt =====
-- src/bindings/scheduled.ts, the matchers, parseCron and cronMatchesDate.
use lopata.Common.{
  ℕ, ◌+◌, ◌-◌, Bool, true, false, ◌&&◌, Option, none, some, List, [], ◌∷◌, ◌==◌, if◌then◌else◌, any,
  Text, codes, is_space, trim, Result, throw, ok, ◌>>=◌,
}
use lopata.Scheduled.Calendar.{
  Date, last_day_of_month, day_of_week_for, nearest_weekday, nth_weekday_of_month,
  last_weekday_of_month,
}
use lopata.Scheduled.Tokens.{to_lower, day_names, month_names, lookup}
use lopata.Scheduled.Fields.{
  minute, hour, day_of_month, month, day_of_week, Matcher, last_weekday, last_day, nearest_to, nth,
  last_of, among, exactly, CronField, every, parts, CronError, not_five_fields, parse_field,
}

abbrev pub is_value : Option ℕ → ℕ → Bool
is_value none value = false
is_value (some n) value = n == value

abbrev pub weekday_or_none : Option ℕ → ℕ
weekday_or_none none = 7
weekday_or_none (some n) = n

-- A weekday that is NaN is no day of the week, as 7 is none.
unfoldable pub matches : Matcher → ℕ → Date → Bool
unfolding last_day_of_month day_of_week_for nearest_weekday nth_weekday_of_month
    last_weekday_of_month
matches last_weekday value d =
    let last = last_day_of_month d.full_year (d.month + 1) in
    let dow = day_of_week_for d.full_year (d.month + 1) last in
    d.date == (if dow == 0 then last - 2 else if dow == 6 then last - 1 else last)
matches last_day value d = d.date == last_day_of_month d.full_year (d.month + 1)
matches (nearest_to target) value d = d.date == nearest_weekday d.full_year (d.month + 1) target
matches (nth weekday n) value d =
    is_value (nth_weekday_of_month d.full_year (d.month + 1) (weekday_or_none weekday) n) d.date
matches (last_of weekday) value d =
    last_weekday_of_month d.full_year (d.month + 1) (weekday_or_none weekday) == d.date
matches (among vs) value d = any (λ v. v == value) vs
matches (exactly v) value d = is_value v value

unfoldable pub field_matches : CronField → ℕ → Date → Bool
unfolding matches
field_matches every value d = true
field_matches (parts ms) value d = any (λ m. matches m value d) ms

pub record ParsedCron : Type 0 where
  pub expression : Text
  pub minute : CronField
  pub hour : CronField
  pub day_of_month : CronField
  pub month : CronField
  pub day_of_week : CronField

abbrev pub special_crons : List (Text × Text)
special_crons =
    (codes "@daily", codes "0 0 * * *")
    ∷ (codes "@midnight", codes "0 0 * * *")
    ∷ (codes "@hourly", codes "0 * * * *")
    ∷ (codes "@weekly", codes "0 0 * * 0")
    ∷ (codes "@monthly", codes "0 0 1 * *")
    ∷ (codes "@yearly", codes "0 0 1 1 *")
    ∷ (codes "@annually", codes "0 0 1 1 *")
    ∷ []

-- `split(/\s+/)`, word by word; white space in front gives an empty word.
unfoldable pub split_spaces : Text → List Text
split_spaces [] = [] ∷ []
split_spaces (c ∷ []) = if is_space c then [] ∷ [] ∷ [] else (c ∷ []) ∷ []
split_spaces (c ∷ d ∷ s) = elim (split_spaces (d ∷ s)) [
  | [] ↦ []
  | w ∷ ws ↦ if is_space c then (if is_space d then w ∷ ws else [] ∷ w ∷ ws) else (c ∷ w) ∷ ws
]

-- The fields of a trimmed expression.
unfoldable pub parse_fields : Text → Text → Result CronError ParsedCron
unfolding split_spaces parse_field
parse_fields expression trimmed = elim (split_spaces trimmed) [
  | a ∷ b ∷ c ∷ d ∷ e ∷ [] ↦ parse_field a 0 59 minute [] >>= λ minutes.
      parse_field b 0 23 hour [] >>= λ hours. parse_field c 1 31 day_of_month [] >>= λ dates.
      parse_field d 1 12 month month_names >>= λ months.
      parse_field e 0 6 day_of_week day_names >>= λ days. ok (record {
        expression = expression;
        minute = minutes;
        hour = hours;
        day_of_month = dates;
        month = months;
        day_of_week = days;
      })
  | _ ↦ throw not_five_fields
]

-- The expression that a special name stands for is not a special name itself.
unfoldable pub parse_cron : Text → Result CronError ParsedCron
unfolding parse_fields lookup
parse_cron expression =
    let trimmed = trim expression in
    elim (lookup (to_lower trimmed) special_crons) [
      | some special ↦ parse_fields trimmed special
      | none ↦ parse_fields trimmed trimmed
    ]

unfoldable pub cron_matches_date : ParsedCron → Date → Bool
unfolding field_matches
cron_matches_date cron d =
    field_matches cron.minute d.minutes d
    && (field_matches cron.hour d.hours d
        && (field_matches cron.day_of_month d.date d
            && (field_matches cron.month (d.month + 1) d
                && field_matches cron.day_of_week d.day d)))
