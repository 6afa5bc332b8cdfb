-- ===== src/RouteMatcher/Paths.antt =====
-- The path that `extractPathPattern` takes out of a route pattern.
use lopata.Common.{
  ℕ, suc, ◌≡◌, refl, ◌≢◌, inl, inr, none, some, [], ◌∷◌, arith, Bool-cases, Option-cases, take,
  drop, All, All-take, zero, Text, codes, starts_with, starts_with_iff, index_of,
}
use lopata.RouteMatcher.{
  Route, extract_path_pattern, strip_protocol, cut_at, after_domain, raw_pattern,
}

abbrev Free : ℕ → Text → Type 0
Free c = All (λ x. x ≢ c)

index_of-Free : (s : Text) (c : ℕ) → index_of s c ≡ none → Free c s
index_of-Free [] c h = tt
index_of-Free (a ∷ s) c h = ground (arith, index_of-Free s c)

index_of-take : (s : Text) (c i : ℕ) → index_of s c ≡ some i → Free c (take i s)
index_of-take [] c i h = cc
index_of-take (a ∷ s) c zero h = tt
index_of-take (a ∷ s) c (suc i) h = ground (arith, index_of-take s c i)

cut_at_self-Free : (c : ℕ) (s : Text) → Free c (cut_at c s)
unfolding cut_at
cut_at_self-Free c s = elim (Option-cases (index_of s c)) [
  | inl e ↦ rw (e, cut_at) (index_of-Free s c e)
  | inr (i, e) ↦ rw (e, cut_at) (index_of-take s c i e)
]

cut_at-Free : (c d : ℕ) (s : Text) → Free d s → Free d (cut_at c s)
unfolding cut_at
cut_at-Free c d s h = elim (Option-cases (index_of s c)) [
  | inl e ↦ rw (e, cut_at) h
  | inr (i, e) ↦ rw (e, cut_at) (All-take (λ x. x ≢ d) i s h)
]

-- The text begins with a slash.
abbrev pub IsRooted : Text → Type 0
IsRooted s = (rest : Text) × (s ≡ b'/' ∷ rest)

index_of-drop : (s : Text) (c i : ℕ) → index_of s c ≡ some i → (rest : Text) × (drop i s ≡ c ∷ rest)
index_of-drop [] c i h = cc
index_of-drop (a ∷ s) c zero h = (s, ground arith)
index_of-drop (a ∷ s) c (suc i) h = index_of-drop s c i (ground arith)

after_domain-IsRooted : (s : Text) → IsRooted (after_domain s)
unfolding after_domain
after_domain-IsRooted s = elim (Bool-cases (starts_with s (codes "/"))) [
  | inl e ↦ rw e ((starts_with_iff s (codes "/")).0 e)
  | inr e ↦ elim (Option-cases (index_of s b'/')) [
    | inl f ↦ rw (e, f) (codes "*", refl)
    | inr (i, f) ↦ rw (e, f) (index_of-drop s b'/' i f)
  ]
]

cut_at-IsRooted : (c : ℕ) (s : Text) → c ≢ b'/' → IsRooted s → IsRooted (cut_at c s)
unfolding cut_at
cut_at-IsRooted c s ne (rest, e) = elim (Option-cases (index_of rest c)) [
  | inl f ↦ (rest, ground arith)
  | inr (i, f) ↦ (take i rest, ground arith)
]

-- Whatever the route pattern, the extracted path begins with a slash and holds no `?` and no `#`.
extract_path_pattern-IsRooted :
    (route : Route)
    → IsRooted (extract_path_pattern route)
      × All (λ c. c ≢ b'?') (extract_path_pattern route)
      × All (λ c. c ≢ b'#') (extract_path_pattern route)
unfolding extract_path_pattern
extract_path_pattern-IsRooted route =
    let path = after_domain (strip_protocol (raw_pattern route)) in
    (
      cut_at-IsRooted b'#' (cut_at b'?' path) (omega arith) (
          cut_at-IsRooted b'?' path (omega arith)
            (after_domain-IsRooted (strip_protocol (raw_pattern route)))),
      cut_at-Free b'#' b'?' (cut_at b'?' path) (cut_at_self-Free b'?' path),
      cut_at_self-Free b'#' (cut_at b'?' path),
    )
