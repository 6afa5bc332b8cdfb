-- ===== src/RouteMatcher/Dispatcher/History.antt =====
-- Sequences of calls on a dispatcher.
use lopata.Common.{ℕ, Option, List, [], ◌∷◌, Text}
use lopata.RouteMatcher.{Route}
use lopata.RouteMatcher.Dispatcher.{
  RouteDispatcher, add_routes, add_host_worker, remove_worker_routes, resolve,
  get_registered_routes,
}

-- What can be done to a dispatcher.
pub data Op : Type 0 where
  adds : Option (List Route) → ℕ → Text → Option (List Text) → Op
  adds_host : ℕ → Text → List Text → Op
  removes : Text → Op
  resolves : Text → Option Text → Op
  lists : Op

unfoldable pub step : RouteDispatcher → Op → RouteDispatcher
unfolding add_routes add_host_worker remove_worker_routes resolve get_registered_routes
step d (adds routes manager name hosts) = add_routes routes manager name hosts d
step d (adds_host manager name hosts) = add_host_worker manager name hosts d
step d (removes name) = remove_worker_routes name d
step d (resolves pathname hostname) = (resolve pathname hostname d).0
step d lists = (get_registered_routes d).0

unfoldable pub run : RouteDispatcher → List Op → RouteDispatcher
unfolding step
run d [] = d
run d (op ∷ ops) = run (step d op) ops
