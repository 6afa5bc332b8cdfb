-- ===== src/Scheduled/Fields.antt =====
-- src/bindings/scheduled.ts, parseField. A matcher is data and not a closure.
use lopata.Common.{
  ℕ, zero, suc, ◌+◌, not, ◌&&◌, Option, none, some, List, [], ◌∷◌, leb, if◌then◌else◌, Text, codes,
  text_eq, split_on, Result, throw, ok, ◌>>=◌,
}
use lopata.Scheduled.Tokens.{
  to_upper, is_digit, is_alnum, some_of, Names, resolve_token, cut, two_tokens, before_last,
  number_of,
}

pub data FieldType : Type 0 where
  minute hour day_of_month month day_of_week : FieldType

pub data Matcher : Type 0 where
  last_weekday last_day : Matcher
  nearest_to : (target_day : ℕ) → Matcher
  nth : (weekday : Option ℕ) (n : ℕ) → Matcher
  last_of : (weekday : Option ℕ) → Matcher
  among : List ℕ → Matcher
  exactly : Option ℕ → Matcher

-- A field is `*`, or has a matcher for each of its parts.
pub data CronField : Type 0 where
  every : CronField
  parts : List Matcher → CronField

pub data CronError : Type 0 where
  not_five_fields : CronError
  -- The loop that collects the values does not end.
  never_ends : CronError

-- The loop `for (let i = start; i <= end; i += step)`, on fuel.
unfoldable pub values_from : (fuel i last step : ℕ) → Option (List ℕ)
values_from zero i last step = none
values_from (suc fuel) i last step =
    let later = values_from fuel (i + step) last step in
    if leb i last then elim later [ none ↦ none | some vs ↦ some (i ∷ vs) ] else some []

-- A loop from or to NaN has no rounds.
unfoldable pub values : (start last : Option ℕ) (step : ℕ) → Result CronError (List ℕ)
unfolding values_from
values (some i) (some last) step = elim (values_from (last + 2) i last step) [
  | none ↦ throw never_ends
  | some vs ↦ ok vs
]
values _ _ step = ok []

-- `2#3`
unfoldable pub nth_part : Names → Text → Option Matcher
unfolding resolve_token
nth_part names part = elim (cut 35 part) [
  | none ↦ none
  | some (token, n) ↦
      if some_of is_alnum token && some_of is_digit n
      then some (nth (resolve_token token names) (number_of n))
      else none
]

-- `5L` or `FRIL`
unfoldable pub last_part : Names → Text → Option Matcher
unfolding resolve_token
last_part names part = elim (before_last 76 part) [
  | none ↦ none
  | some token ↦ if some_of is_alnum token then some (last_of (resolve_token token names)) else none
]

-- The parts that only one kind of field knows, in the order in which the code tries them.
unfoldable pub special_part : FieldType → Names → Text → Option Matcher
unfolding nth_part last_part
special_part day_of_month names part =
    if text_eq (to_upper part) (codes "LW")
    then some last_weekday
    else if text_eq (to_upper part) (codes "L")
    then some last_day
    else elim (before_last 87 part) [
      | none ↦ none
      | some digits ↦ if some_of is_digit digits then some (nearest_to (number_of digits)) else none
    ]
special_part day_of_week names part = elim (nth_part names part) [
  | some m ↦ some m
  | none ↦ last_part names part
]
special_part _ names part = none

-- `*/2` or `1-5/2`.
unfoldable pub step_part : ℕ → ℕ → Names → Text → Option (Result CronError Matcher)
unfolding resolve_token values
step_part low high names part = elim (cut 47 part) [
  | none ↦ none
  | some (whole, digits) ↦
      if not (some_of is_digit digits)
      then none
      else if text_eq whole (codes "*")
      then some (values (some low) (some high) (number_of digits) >>= λ vs. ok (among vs))
      else elim (two_tokens whole) [
        | none ↦ none
        | some (start, last) ↦ some (
            values (resolve_token start names) (resolve_token last names) (number_of digits)
            >>= λ vs. ok (among vs))
      ]
]

-- `1-5`
unfoldable pub range_part : Names → Text → Option (Result CronError Matcher)
unfolding resolve_token values
range_part names part = elim (two_tokens part) [
  | none ↦ none
  | some (start, last) ↦
      some (values (resolve_token start names) (resolve_token last names) 1 >>= λ vs. ok (among vs))
]

unfoldable pub parse_part : ℕ → ℕ → FieldType → Names → Text → Result CronError Matcher
unfolding special_part step_part range_part resolve_token
parse_part low high type names part = elim (special_part type names part) [
  | some m ↦ ok m
  | none ↦ elim (step_part low high names part) [
    | some r ↦ r
    | none ↦ elim (range_part names part) [
      | some r ↦ r
      | none ↦ ok (exactly (resolve_token part names))
    ]
  ]
]

unfoldable pub parse_parts : ℕ → ℕ → FieldType → Names → List Text → Result CronError (List Matcher)
unfolding parse_part
parse_parts low high type names [] = ok []
parse_parts low high type names (part ∷ ps) = parse_part low high type names part >>= λ m.
    parse_parts low high type names ps >>= λ ms. ok (m ∷ ms)

unfoldable pub parse_field : Text → ℕ → ℕ → FieldType → Names → Result CronError CronField
unfolding parse_parts
parse_field field low high type names =
    if text_eq field (codes "*")
    then ok every
    else parse_parts low high type names (split_on 44 field) >>= λ ms. ok (parts ms)
