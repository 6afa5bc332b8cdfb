-- ===== src/Scheduled/Tokens.antt =====
-- src/bindings/scheduled.ts, tokens: resolveToken with its names, and the regular expressions. Case is that of ASCII
-- letters.
use lopata.Common.{
  ℕ, zero, suc, ◌+◌, ◌*◌, ◌-◌, Bool, true, not, ◌&&◌, ◌||◌, Option, none, some, List, [], ◌∷◌, map,
  leb, ◌==◌, if◌then◌else◌, is_nil, Text, codes, text_eq, index_of, take, drop, drop_last,
  ends_with,
}

abbrev pub to_upper : Text → Text
to_upper s = map (λ c. if leb 97 c && leb c 122 then c - 32 else c) s

abbrev pub to_lower : Text → Text
to_lower s = map (λ c. if leb 65 c && leb c 90 then c + 32 else c) s

abbrev pub is_digit : ℕ → Bool
is_digit c = leb 48 c && leb c 57

abbrev pub is_alnum : ℕ → Bool
is_alnum c = is_digit c || ((leb 65 c && leb c 90) || (leb 97 c && leb c 122))

abbrev pub all_of : (ℕ → Bool) → Text → Bool
all_of p [] = true
all_of p (c ∷ s) = p c && all_of p s

-- One or more characters of a class, as in a regular expression.
abbrev pub some_of : (ℕ → Bool) → Text → Bool
some_of p s = not (is_nil s) && all_of p s

abbrev pub digits_from : ℕ → Text → ℕ
digits_from n [] = n
digits_from n (c ∷ s) = if is_digit c then digits_from (10 * n + (c - 48)) s else n

abbrev pub unsigned : Text → Option ℕ
unsigned [] = none
unsigned (c ∷ s) = if is_digit c then some (digits_from (c - 48) s) else none

-- `parseInt(s, 10)` of a text without white space; `none` is NaN or a negative number, which match no
-- value.
unfoldable pub parse_int : Text → Option ℕ
parse_int [] = none
parse_int (c ∷ s) =
    if c == 43
    then unsigned s
    else if c == 45
    then elim (unsigned s) [ none ↦ none | some zero ↦ some zero | some (suc n) ↦ none ]
    else unsigned (c ∷ s)

abbrev pub Names : Type 0
Names = List (Text × ℕ)

abbrev pub day_names : Names
day_names =
    (codes "SUN", 0)
    ∷ (codes "MON", 1)
    ∷ (codes "TUE", 2)
    ∷ (codes "WED", 3)
    ∷ (codes "THU", 4)
    ∷ (codes "FRI", 5)
    ∷ (codes "SAT", 6)
    ∷ []

abbrev pub month_names : Names
month_names =
    (codes "JAN", 1)
    ∷ (codes "FEB", 2)
    ∷ (codes "MAR", 3)
    ∷ (codes "APR", 4)
    ∷ (codes "MAY", 5)
    ∷ (codes "JUN", 6)
    ∷ (codes "JUL", 7)
    ∷ (codes "AUG", 8)
    ∷ (codes "SEP", 9)
    ∷ (codes "OCT", 10)
    ∷ (codes "NOV", 11)
    ∷ (codes "DEC", 12)
    ∷ []

unfoldable pub lookup : {A : Type 0} → Text → List (Text × A) → Option A
lookup name [] = none
lookup name ((n, a) ∷ names) = if text_eq n name then some a else lookup name names

unfoldable pub resolve_token : Text → Names → Option ℕ
unfolding lookup parse_int
resolve_token token names = elim (lookup (to_upper token) names) [
  | some n ↦ some n
  | none ↦ parse_int token
]

-- The text before and after the first occurrence of a character.
abbrev pub cut : ℕ → Text → Option (Text × Text)
cut c s = elim (index_of s c) [ none ↦ none | some i ↦ some (take i s, drop (suc i) s) ]

abbrev pub two_tokens : Text → Option (Text × Text)
two_tokens s = elim (cut 45 s) [
  | none ↦ none
  | some p ↦ if some_of is_alnum p.0 && some_of is_alnum p.1 then some p else none
]

-- The last character, in either case, and the text before it.
abbrev pub before_last : (upper : ℕ) → Text → Option Text
before_last upper s = if ends_with (to_upper s) (upper ∷ []) then some (drop_last 1 s) else none

abbrev pub number_of : Text → ℕ
number_of s = digits_from 0 s
