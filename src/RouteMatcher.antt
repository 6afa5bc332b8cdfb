-- ===== src/RouteMatcher.antt =====
-- src/route-matcher.ts, the pattern functions: paths of Cloudflare route patterns, host patterns,
-- and the number of path segments. The dispatcher built on them is the child `Dispatcher`.
pub mod Patterns
pub mod Paths
mod Tests
pub mod Dispatcher
use lopata.Common.{
  ℕ, ◌-◌, ◌≡◌, Bool, true, false, ◌&&◌, ◌||◌, Option, none, some, List, [], ◌∷◌, ◌++◌, ltb,
  if◌then◌else◌, length, take, drop, any, keep, not, Text, codes, text_eq, starts_with, ends_with,
  includes, index_of, drop_last, split_on,
}

-- An entry of `routes` in the configuration: a string, or an object with a pattern and the flag
-- `custom_domain`.
pub data Route : Type 0 where
  plain : Text → Route
  zoned : Text → Bool → Route

abbrev pub raw_pattern : Route → Text
raw_pattern (plain p) = p
raw_pattern (zoned p custom_domain) = p

strip_protocol : Text → Text
strip_protocol pattern =
    if starts_with pattern (codes "http://")
    then drop 7 pattern
    else if starts_with pattern (codes "https://")
    then drop 8 pattern
    else pattern

-- Cuts at the first occurrence of a code unit, if there is one.
cut_at : ℕ → Text → Text
cut_at c path = elim (index_of path c) [ none ↦ path | some i ↦ take i path ]

after_domain : Text → Text
after_domain pattern =
    if starts_with pattern (codes "/")
    then pattern
    else elim (index_of pattern b'/') [ none ↦ codes "/*" | some i ↦ drop i pattern ]

pub extract_path_pattern : Route → Text
unfolding strip_protocol after_domain cut_at
extract_path_pattern route =
    cut_at b'#' (cut_at b'?' (after_domain (strip_protocol (raw_pattern route))))

pub match_route : Text → Text → Bool
match_route pathname pattern =
    if text_eq pattern (codes "/*") || text_eq pattern (codes "*")
    then true
    else if ends_with pattern (codes "/*")
    then starts_with pathname (drop_last 2 pattern ++ codes "/")
    else if ends_with pattern (codes "*")
    then starts_with pathname (drop_last 1 pattern)
    else text_eq pathname pattern

abbrev first_or_empty : List Text → Text
first_or_empty [] = []
first_or_empty (p ∷ ps) = p

pub extract_hostname : Text → Text
extract_hostname host_header = first_or_empty (split_on b':' host_header)

pub match_host : Text → Text → Bool
match_host hostname pattern =
    if text_eq pattern hostname
    then true
    else if starts_with pattern (codes "*.")
    then ends_with hostname (drop 1 pattern) && ltb (length (drop 1 pattern)) (length hostname)
    else false

pub has_wildcard_host : Option (List Text) → Bool
has_wildcard_host none = false
has_wildcard_host (some patterns) = any (λ p. includes p b'*') patterns

-- `pattern.replace(/\/?\*$/, '')`
strip_star : Text → Text
strip_star pattern =
    if ends_with pattern (codes "/*")
    then drop_last 2 pattern
    else if ends_with pattern (codes "*")
    then drop_last 1 pattern
    else pattern

pub segment_count : Text → ℕ
unfolding strip_star
segment_count pattern =
    let clean = strip_star pattern in
    if text_eq clean [] || text_eq clean (codes "/")
    then 0
    else length (keep (λ part. not (text_eq part [])) (split_on b'/' clean))
