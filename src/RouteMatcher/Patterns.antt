-- ===== src/RouteMatcher/Patterns.antt =====
-- What the pattern functions of route-matcher.ts accept, stated without their string operations.
use lopata.Common.{
  ℕ, ◌<◌, ◌≡◌, refl, sym, ap, ◌∙◌, ◌↔◌, inl, inr, Bool, true, ◌&&◌, ◌||◌, [], ◌∷◌, ◌++◌,
  append_assoc, arith, Bool-cases, or_iff, and_iff, ltb, length, length-append, drop, Text, codes,
  text_eq, text_eq_iff, text_eq_refl, starts_with, starts_with_iff, starts_with-append, ends_with,
  ends_with_iff, ends_with-append, drop_last, drop_last-append, if◌then◌else◌,
}
use lopata.RouteMatcher.{match_route, match_host}

-- A path fits a pattern: the pattern is the universal one, or a prefix followed by a star, or the
-- path itself.
pub data Matches (path pattern : Text) : Type 0 where
  everything : pattern ≡ codes "/*" → Matches path pattern
  under :
      (prefix rest : Text)
      → pattern ≡ prefix ++ codes "*"
      → path ≡ prefix ++ rest
      → Matches path pattern
  exactly : path ≡ pattern → Matches path pattern

slash_star_split : (p : Text) → p ++ codes "/*" ≡ (p ++ codes "/") ++ codes "*"
slash_star_split p = sym (append_assoc p (codes "/") (codes "*"))

ends_with-slash_star : (s : Text) → ends_with s (codes "/*") ≡ true → ends_with s (codes "*") ≡ true
ends_with-slash_star s h =
    let (p, e) = (ends_with_iff s (codes "/*")).0 h in
    rw (e, slash_star_split p) (ends_with-append (p ++ codes "/") (codes "*"))

drop_last-slash_star :
    (s : Text) → ends_with s (codes "/*") ≡ true → drop_last 2 s ++ codes "/" ≡ drop_last 1 s
drop_last-slash_star s h =
    let (p, e) = (ends_with_iff s (codes "/*")).0 h in
    rw e (
      ap (λ q. q ++ codes "/") (drop_last-append p (codes "/*"))
      ∙ sym (ap (drop_last 1) (slash_star_split p) ∙ drop_last-append (p ++ codes "/") (codes "*")))

-- The two wildcard branches of `matchRoute` are one.
match_route_star :
    (path pattern : Text)
    → match_route path pattern ≡ (
        if text_eq pattern (codes "/*") || text_eq pattern (codes "*")
        then true
        else if ends_with pattern (codes "*")
        then starts_with path (drop_last 1 pattern)
        else text_eq path pattern)
unfolding match_route
match_route_star path pattern = elim (Bool-cases (ends_with pattern (codes "/*"))) [
  | inl e ↦ rw (e, ends_with-slash_star pattern e, ← drop_last-slash_star pattern e) (ground arith)
  | inr e ↦ rw e (ground arith)
]

abbrev universal : Text → Bool
universal pattern = text_eq pattern (codes "/*") || text_eq pattern (codes "*")

universal_sound : (path pattern : Text) → universal pattern ≡ true → Matches path pattern
universal_sound path pattern h =
    elim ((or_iff (text_eq pattern (codes "/*")) (text_eq pattern (codes "*"))).0 h) [
      | inl e ↦ everything ((text_eq_iff pattern (codes "/*")).0 e)
      | inr e ↦ under [] path ((text_eq_iff pattern (codes "*")).0 e) refl
    ]

star_sound :
    (path pattern : Text)
    → ends_with pattern (codes "*") ≡ true
    → starts_with path (drop_last 1 pattern) ≡ true
    → Matches path pattern
star_sound path pattern h k =
    let (p, e) = (ends_with_iff pattern (codes "*")).0 h in
    let cut : drop_last 1 pattern ≡ p = ap (drop_last 1) e ∙ drop_last-append p (codes "*") in
    let (r, f) = (starts_with_iff path p).0 (rw cut at k) in under p r e f

match_route_sound : (path pattern : Text) → match_route path pattern ≡ true → Matches path pattern
match_route_sound path pattern h = elim (Bool-cases (universal pattern)) [
  | inl u ↦ universal_sound path pattern u
  | inr u ↦ elim (Bool-cases (ends_with pattern (codes "*"))) [
    | inl e ↦ star_sound path pattern e (rw (match_route_star, u, e) at h)
    | inr e ↦ exactly ((text_eq_iff path pattern).0 (rw (match_route_star, u, e) at h))
  ]
]

star_complete : (prefix rest : Text) → match_route (prefix ++ rest) (prefix ++ codes "*") ≡ true
star_complete prefix rest =
    rw
      (
        match_route_star,
        ends_with-append prefix (codes "*"),
        drop_last-append prefix (codes "*"),
        starts_with-append prefix rest,
      )
      (ground arith)

match_route_self : (pattern : Text) → match_route pattern pattern ≡ true
match_route_self pattern = elim (Bool-cases (ends_with pattern (codes "*"))) [
  | inl e ↦
      let (p, f) = (ends_with_iff pattern (codes "*")).0 e in rw f (star_complete p (codes "*"))
  | inr e ↦ rw (match_route_star, e, text_eq_refl pattern) (ground arith)
]

match_route_complete :
    (path pattern : Text) → Matches path pattern → match_route path pattern ≡ true
unfolding match_route
match_route_complete path pattern (everything e) = rw e refl
match_route_complete path pattern (under p r e f) = rw (e, f) (star_complete p r)
match_route_complete path pattern (exactly e) = rw e (match_route_self pattern)

-- `matchRoute` accepts exactly the universal pattern, the paths that extend the prefix before a
-- trailing star, and the path that equals the pattern; that a pattern ends in `/*` makes no
-- difference beyond its prefix.
pub match_route_iff :
    (path pattern : Text) → (match_route path pattern ≡ true) ↔ Matches path pattern
match_route_iff path pattern = (match_route_sound path pattern, match_route_complete path pattern)

-- A host pattern holds of itself, and, if it is a star before a suffix with a dot, of every
-- hostname that puts something before that suffix.
pub data MatchesHost (host pattern : Text) : Type 0 where
  same_host : pattern ≡ host → MatchesHost host pattern
  subdomain :
      (c : ℕ) (sub domain : Text)
      → pattern ≡ codes "*." ++ domain
      → host ≡ (c ∷ sub) ++ (codes "." ++ domain)
      → MatchesHost host pattern

longer_split : (p t : Text) → length t < length (p ++ t) → (c : ℕ) × (q : Text) × (p ≡ c ∷ q)
longer_split [] t h = absurd (omega arith)
longer_split (c ∷ q) t h = (c, q, refl)

subdomain_sound :
    (host domain : Text)
    → ends_with host (codes "." ++ domain) ≡ true
    → ltb (length (codes "." ++ domain)) (length host) ≡ true
    → MatchesHost host (codes "*." ++ domain)
subdomain_sound host domain ends longer =
    let (p, k) = (ends_with_iff host (codes "." ++ domain)).0 ends in
    let same = ap length k in
    let (c, q, e) = longer_split p (codes "." ++ domain) (ground arith) in
    subdomain c q domain refl (k ∙ ap (λ l. l ++ (codes "." ++ domain)) e)

match_host_sound : (host pattern : Text) → match_host host pattern ≡ true → MatchesHost host pattern
unfolding match_host
match_host_sound host pattern h = elim (Bool-cases (text_eq pattern host)) [
  | inl e ↦ same_host ((text_eq_iff pattern host).0 e)
  | inr e ↦ elim (Bool-cases (starts_with pattern (codes "*."))) [
    | inr f ↦ absurd (ground arith)
    | inl f ↦
        let (domain, g) = (starts_with_iff pattern (codes "*.")).0 f in
        let both : (ends_with host (drop 1 pattern) && ltb (length (drop 1 pattern)) (length host))
            ≡ true =
          ground arith in
        let parts = (and_iff _ _).0 (rw g at both) in
        rw g (subdomain_sound host domain parts.0 parts.1)
  ]
]

match_host_complete :
    (host pattern : Text) → MatchesHost host pattern → match_host host pattern ≡ true
unfolding match_host
match_host_complete host pattern (same_host e) = rw (e, text_eq_refl host)
match_host_complete host pattern (subdomain c sub domain e f) =
    rw (e, f, ends_with-append (c ∷ sub) (codes "." ++ domain))
      (ground (arith, length-append sub (codes "." ++ domain)))

-- `matchHost` accepts exactly the pattern itself and, for a pattern that is a star before a
-- suffix with a dot, the hostnames that put at least one character before that suffix.
match_host_iff : (host pattern : Text) → (match_host host pattern ≡ true) ↔ MatchesHost host pattern
match_host_iff host pattern = (match_host_sound host pattern, match_host_complete host pattern)
