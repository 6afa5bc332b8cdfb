-- ===== src/RouteMatcher/Dispatcher/Ownership.antt =====
-- Registering or removing a worker leaves the entries of the others alone.
use lopata.Common.{
  ℕ, ◌≡◌, ◌≢◌, refl, ◌∙◌, Bool, false, not, Option, none, some, List, [], ◌∷◌, ◌++◌, arith, All,
  All-append, keep, Text, text_eq, text_eq_iff, text_eq_refl,
}
use lopata.RouteMatcher.{Route}
use lopata.RouteMatcher.Dispatcher.{
  RouteEntry, RouteDispatcher, without_worker, entry_of, add_route, add_all, clear_worker,
  add_routes,
}

-- The entry belongs to the worker and leads to the manager.
abbrev pub Owned : Text → ℕ → RouteEntry → Type 0
Owned name manager r = r.worker_name ≡ name → r.manager ≡ manager

keep_idempotent : (p : RouteEntry → Bool) (es : List RouteEntry) → keep p (keep p es) ≡ keep p es
keep_idempotent p [] = refl
keep_idempotent p (e ∷ es) = ground (arith, keep_idempotent p es)

keep-append-drop :
    (p : RouteEntry → Bool) (es : List RouteEntry) (e : RouteEntry)
    → p e ≡ false
    → keep p (es ++ (e ∷ [])) ≡ keep p es
keep-append-drop p [] e h = rw h
keep-append-drop p (f ∷ fs) e h = ground (arith, keep-append-drop p fs e h)

module _ (manager : ℕ) (name : Text) (hosts : Option (List Text)) where
  others-add_route :
      (d : RouteDispatcher) (route : Route)
      → without_worker name (add_route manager name hosts d route).routes
        ≡ without_worker name d.routes
  unfolding add_route without_worker
  others-add_route d route = ground (
    arith,
    keep-append-drop (λ r. not (text_eq r.worker_name name)) d.routes
        (entry_of route manager name hosts),
    text_eq_refl name,
  )

  others-add_all :
      (d : RouteDispatcher) (routes : List Route)
      → without_worker name (add_all manager name hosts d routes).routes
        ≡ without_worker name d.routes
  unfolding add_all
  others-add_all d [] = refl
  others-add_all d (route ∷ routes) =
      others-add_all (add_route manager name hosts d route) routes ∙ others-add_route d route

  Owned-add_route :
      (d : RouteDispatcher) (route : Route)
      → All (Owned name manager) d.routes
      → All (Owned name manager) (add_route manager name hosts d route).routes
  unfolding add_route
  Owned-add_route d route h =
      ground
        (arith, All-append (Owned name manager) d.routes (entry_of route manager name hosts ∷ []) h)

  Owned-add_all :
      (d : RouteDispatcher) (routes : List Route)
      → All (Owned name manager) d.routes
      → All (Owned name manager) (add_all manager name hosts d routes).routes
  unfolding add_all
  Owned-add_all d [] h = h
  Owned-add_all d (route ∷ routes) h =
      Owned-add_all (add_route manager name hosts d route) routes (Owned-add_route d route h)

others-clear_worker :
    (name : Text) (d : RouteDispatcher)
    → without_worker name (clear_worker name d).routes ≡ without_worker name d.routes
unfolding clear_worker without_worker
others-clear_worker name d = keep_idempotent (λ r. not (text_eq r.worker_name name)) d.routes

without_worker-Owned :
    (name : Text) (manager : ℕ) (es : List RouteEntry)
    → All (Owned name manager) (without_worker name es)
unfolding without_worker
without_worker-Owned name manager [] = tt
without_worker-Owned name manager (e ∷ es) =
    ground (arith, without_worker-Owned name manager es, text_eq_iff e.worker_name name)

-- Registering a worker again with a list of routes leaves the entries of all other workers as they
-- were, in their order, and leaves the worker no entry that leads to an earlier manager; registering
-- it with a configuration that has no routes leaves the dispatcher as it was, so that the entries of
-- the worker that lead to earlier managers stay.
pub add_routes_replaces :
    (config : Option (List Route)) (manager : ℕ) (name : Text) (hosts : Option (List Text))
    (d : RouteDispatcher)
    → let d' = add_routes config manager name hosts d in
      (without_worker name d'.routes ≡ without_worker name d.routes)
      × (config ≢ none → All (Owned name manager) d'.routes)
      × (config ≡ none → d' ≡ d)
unfolding add_routes
add_routes_replaces none manager name hosts d = (refl, λ h. absurd (h refl), λ h. refl)
add_routes_replaces (some routes) manager name hosts d = (
  others-add_all manager name hosts (clear_worker name d) routes ∙ others-clear_worker name d,
  λ h.
      Owned-add_all manager name hosts (clear_worker name d) routes
        (without_worker-Owned name manager d.routes),
  λ h. absurd (ground arith),
)
