-- ===== src/RouteMatcher/Dispatcher/Tests.antt =====
-- A dispatcher with a main worker and two auxiliary ones, and the theorems at it.
use lopata.Common.{◌≡◌, ◌≢◌, refl, none, some, List, [], ◌∷◌, All, codes}
use lopata.RouteMatcher.{
  Route, plain, extract_path_pattern, match_route, segment_count, has_wildcard_host,
}
use lopata.RouteMatcher.Dispatcher.{
  new, without_worker, add_routes, add_route, compare_entries, entry_matches, resolve,
}
use lopata.RouteMatcher.Dispatcher.History.{Op, adds, adds_host, run}
use lopata.RouteMatcher.Dispatcher.Invariant.{Inv, run-Inv}
use lopata.RouteMatcher.Dispatcher.Resolution.{Outcome, resolve-Chosen}
use lopata.RouteMatcher.Dispatcher.Ownership.{Owned, add_routes_replaces}

abbrev api : List Route
api = plain (codes "example.com/*") ∷ plain (codes "example.com/api/*") ∷ []

abbrev history : List Op
history =
    adds (some api) 1 (codes "a") none
    ∷ adds_host 2 (codes "b") (codes "*.localhost" ∷ [])
    ∷ adds (some (plain (codes "/api/*") ∷ plain (codes "/api/v1") ∷ [])) 3 (codes "c") none
    ∷ []

resolve_runs :
    ((resolve (codes "/api/v1") none (run (new 0) history)).1 ≡ 3)
    × ((resolve (codes "/api/v2") none (run (new 0) history)).1 ≡ 1)
    × ((resolve (codes "/x") (some (codes "q.localhost")) (run (new 0) history)).1 ≡ 1)
    × ((resolve (codes "/x") none (new 0)).1 ≡ 0)
unfolding run resolve add_route compare_entries entry_matches extract_path_pattern match_route
    segment_count has_wildcard_host
resolve_runs = (refl, refl, refl, refl)

run-Inv_example : Inv (run (new 0) history)
run-Inv_example = run-Inv 0 history

resolve-Chosen_example :
    Outcome
      (codes "/api/v1")
      none
      (run (new 0) history).routes
      (run (new 0) history).fallback
      (resolve (codes "/api/v1") none (run (new 0) history)).1
resolve-Chosen_example = resolve-Chosen (codes "/api/v1") none 0 history

add_routes_replaces_example :
    let d' = add_routes (some api) 4 (codes "a") none (run (new 0) history) in
    (without_worker (codes "a") d'.routes ≡ without_worker (codes "a") (run (new 0) history).routes)
    × (some api ≢ none → All (Owned (codes "a") 4) d'.routes)
    × (some api ≡ none → d' ≡ run (new 0) history)
add_routes_replaces_example =
    add_routes_replaces (some api) 4 (codes "a") none (run (new 0) history)
