-- ===== src/RouteMatcher/Dispatcher/Resolution.antt =====
-- What `resolve` returns: the manager of the most specific entry that matches, or the fallback.
use mathlib.Core.List.{Memᴰ}
use lopata.Common.{
  ℕ, ◌≡◌, refl, sym, subst, ◌⊎◌, inl, inr, true, false, Option, List, [], ◌∷◌, Bool-cases, All,
  All-map, All-at, All-intro, Text,
}
use lopata.RouteMatcher.Dispatcher.{
  RouteEntry, RouteDispatcher, entry_matches, first_match, sort_entries, ensure_sorted, resolve,
  new,
}
use lopata.RouteMatcher.Dispatcher.Order.{
  AsSpecific, AsSpecific-of_Before, Before-refl, Sorted, sort_entries-Sorted, All-sort_entries,
  All-of-sort_entries,
}
use lopata.RouteMatcher.Dispatcher.History.{Op, run}
use lopata.RouteMatcher.Dispatcher.Invariant.{Inv, run-Inv}

module _ (pathname : Text) (hostname : Option Text) where
  -- `m` is the manager of a listed entry that matches, as specific as every other match.
  pub record Chosen (es : List RouteEntry) (m : ℕ) : Type 0 where
    pub entry : RouteEntry
    pub listed : Memᴰ entry es
    pub matches : entry_matches pathname hostname entry ≡ true
    pub manager : entry.manager ≡ m
    pub foremost : All (λ f. entry_matches pathname hostname f ≡ true → AsSpecific entry f) es

  abbrev pub Unmatched : List RouteEntry → Type 0
  Unmatched = All (λ f. entry_matches pathname hostname f ≡ false)

  Chosen-cons :
      {es : List RouteEntry} {m : ℕ} (f : RouteEntry)
      → entry_matches pathname hostname f ≡ false
      → Chosen es m
      → Chosen (f ∷ es) m
  Chosen-cons f missed c = record {
    entry = c.entry;
    listed = Memᴰ.tail c.listed;
    matches = c.matches;
    manager = c.manager;
    foremost = (λ hit. cc, c.foremost);
  }

  -- The result `m` of a search through `es` that falls back to `fallback`.
  abbrev pub Outcome : List RouteEntry → ℕ → ℕ → Type 0
  Outcome es fallback m = Chosen es m ⊎ (Unmatched es × (m ≡ fallback))

  Outcome-cons :
      {es : List RouteEntry} {fallback m : ℕ} (f : RouteEntry)
      → entry_matches pathname hostname f ≡ false
      → Outcome es fallback m
      → Outcome (f ∷ es) fallback m
  Outcome-cons f missed (inl c) = inl (Chosen-cons f missed c)
  Outcome-cons f missed (inr (none_hit, same)) = inr ((missed, none_hit), same)

  first_match_lem :
      (fallback : ℕ) (es : List RouteEntry)
      → Sorted es
      → Outcome es fallback (first_match pathname hostname fallback es)
  unfolding first_match
  first_match_lem fallback [] h = inr (tt, refl)
  first_match_lem fallback (e ∷ es) (first, h) =
      elim (Bool-cases (entry_matches pathname hostname e)) [
        | inl hit ↦ inl (record {
          entry = e;
          listed = Memᴰ.head refl;
          matches = hit;
          manager = rw hit;
          foremost = (
            λ _. AsSpecific-of_Before e e (Before-refl e),
            All-map (λ f b _. AsSpecific-of_Before e f b) es first,
          );
        })
        | inr miss ↦
            let same : first_match pathname hostname fallback (e ∷ es)
                ≡ first_match pathname hostname fallback es =
              rw miss in
            subst (Outcome (e ∷ es) fallback) (sym same)
              (Outcome-cons e miss (first_match_lem fallback es h))
      ]

  -- Sorting changes neither which entry is chosen nor whether one matches.
  Chosen-of-sort_entries : {m : ℕ} (es : List RouteEntry) → Chosen (sort_entries es) m → Chosen es m
  Chosen-of-sort_entries es c = record {
    entry = c.entry;
    listed =
        All-at (λ f. Memᴰ f es) c.listed
          (All-sort_entries (λ f. Memᴰ f es) es (All-intro _ es (λ f m. m)));
    matches = c.matches;
    manager = c.manager;
    foremost = All-of-sort_entries _ es c.foremost;
  }

  Outcome-of-sort_entries :
      {fallback m : ℕ} (es : List RouteEntry)
      → Outcome (sort_entries es) fallback m
      → Outcome es fallback m
  Outcome-of-sort_entries es (inl c) = inl (Chosen-of-sort_entries es c)
  Outcome-of-sort_entries es (inr (none_hit, same)) = inr (All-of-sort_entries _ es none_hit, same)

  resolve_lem :
      (d : RouteDispatcher) → Inv d → Outcome d.routes d.fallback (resolve pathname hostname d).1
  unfolding resolve
  resolve_lem d v = elim (Bool-cases d.sorted) [
    | inl flag ↦
        rw (flag, resolve, ensure_sorted) (first_match_lem d.fallback d.routes (v.truthful flag))
    | inr flag ↦
        rw (flag, resolve, ensure_sorted)
          (Outcome-of-sort_entries d.routes
            (first_match_lem d.fallback (sort_entries d.routes) (sort_entries-Sorted d.routes)))
  ]

-- After any history of operations, `resolve` returns the manager of a registered entry whose
-- host condition and path pattern match and that is at least as specific as every other entry
-- that matches (no star, then more segments, then a star behind a slash, then exact hosts, then
-- the longer pattern), or, where no entry matches, the fallback.
pub resolve-Chosen :
    (pathname : Text) (hostname : Option Text) (fallback : ℕ) (ops : List Op)
    → let d = run (new fallback) ops in
      Outcome pathname hostname d.routes d.fallback (resolve pathname hostname d).1
resolve-Chosen pathname hostname fallback ops =
    resolve_lem pathname hostname (run (new fallback) ops) (run-Inv fallback ops)
