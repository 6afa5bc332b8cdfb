-- ===== src/RouteMatcher/Dispatcher.antt =====
-- src/route-matcher.ts, the class `RouteDispatcher`. A manager is known by its identity, a number:
-- the class only stores, returns and compares it. Warnings on the console are left out.
pub mod Order
pub mod History
pub mod Invariant
pub mod Resolution
pub mod Ownership
mod Tests
use lopata.Common.{
  is_nil, ℕ, suc, ◌-◌, ◌≡◌, Bool, true, false, ◌&&◌, ◌||◌, not, Option, none, some, List, [], ◌∷◌,
  ◌++◌, Ordering, compare, ltb, if◌then◌else◌, length, any, keep, find, Text, codes, text_eq,
  ends_with, includes, trim, map,
}
use lopata.RouteMatcher.{
  Route, plain, zoned, raw_pattern, extract_path_pattern, match_route, match_host,
  has_wildcard_host, segment_count,
}

pub record RouteEntry : Type 0 where
  pub pattern : Text
  pub worker_name : Text
  pub manager : ℕ
  pub host_patterns : Option (List Text)
  pub wildcard_host : Bool

pub record RouteDispatcher : Type 0 where
  pub routes : List RouteEntry
  pub sorted : Bool
  pub fallback : ℕ

abbrev pub new : ℕ → RouteDispatcher
new fallback = record { routes = []; sorted = true; fallback = fallback }

-- The filter that drops the entries of a worker.
pub without_worker : Text → List RouteEntry → List RouteEntry
without_worker name = keep (λ r. not (text_eq r.worker_name name))

abbrev unscoped : Option (List Text) → Bool
unscoped none = true
unscoped (some hosts) = false

is_custom_domain : Route → Bool
is_custom_domain (plain p) = false
is_custom_domain (zoned p custom_domain) = custom_domain

pub entry_of : Route → ℕ → Text → Option (List Text) → RouteEntry
entry_of route manager name hosts = record {
  pattern = extract_path_pattern route;
  worker_name = name;
  manager = manager;
  host_patterns = hosts;
  wildcard_host = has_wildcard_host hosts;
}

-- The search for an entry with the same pattern, neither bound to hosts.
pub is_taken : Text → Option (List Text) → List RouteEntry → Bool
is_taken pattern hosts =
    any (λ r. text_eq r.pattern pattern && (unscoped r.host_patterns && unscoped hosts))

push : RouteEntry → RouteDispatcher → RouteDispatcher
push e d = record d { routes = d.routes ++ (e ∷ []); sorted = false }

-- One round of the loop of `addRoutes`.
add_route : ℕ → Text → Option (List Text) → RouteDispatcher → Route → RouteDispatcher
unfolding is_custom_domain entry_of is_taken push
add_route manager name hosts d route =
    if is_custom_domain route
    then d
    else if text_eq (raw_pattern route) [] || text_eq (trim (raw_pattern route)) []
    then d
    else if is_taken (extract_path_pattern route) hosts d.routes
    then d
    else push (entry_of route manager name hosts) d

add_all : ℕ → Text → Option (List Text) → RouteDispatcher → List Route → RouteDispatcher
add_all manager name hosts d [] = d
add_all manager name hosts d (route ∷ routes) =
    add_all manager name hosts (add_route manager name hosts d route) routes

-- Drops the worker's old entries; an emptied list counts as sorted.
clear_worker : Text → RouteDispatcher → RouteDispatcher
unfolding without_worker
clear_worker name d =
    let left = without_worker name d.routes in
    record d {
      routes = left;
      sorted = if not (is_nil d.routes) && is_nil left then true else d.sorted;
    }

-- `config.routes` is the first argument, `none` where the configuration has none.
pub add_routes :
    Option (List Route) → ℕ → Text → Option (List Text) → RouteDispatcher → RouteDispatcher
unfolding add_all clear_worker
add_routes none manager name hosts d = d
add_routes (some routes) manager name hosts d =
    add_all manager name hosts (clear_worker name d) routes

pub add_host_worker : ℕ → Text → List Text → RouteDispatcher → RouteDispatcher
unfolding push without_worker
add_host_worker manager name hosts d =
    push
      (record {
        pattern = codes "/*";
        worker_name = name;
        manager = manager;
        host_patterns = some hosts;
        wildcard_host = has_wildcard_host (some hosts);
      })
      (record d { routes = without_worker name d.routes })

pub remove_worker_routes : Text → RouteDispatcher → RouteDispatcher
unfolding without_worker
remove_worker_routes name d = record d { routes = without_worker name d.routes }

-- What the comparison function reads of an entry.
pub record Key : Type 0 where
  pub wild : Bool
  pub segments : ℕ
  pub slash_star : Bool
  pub wild_host : Bool
  pub size : ℕ

pub key : RouteEntry → Key
key r = record {
  wild = includes r.pattern b'*';
  segments = segment_count r.pattern;
  slash_star = ends_with r.pattern (codes "/*");
  wild_host = r.wildcard_host;
  size = length r.pattern;
}

abbrev differs : Bool → Bool → Bool
differs a b = if a then not b else b

-- The sign of the comparison function's result: `lt` negative, `eq` zero, `gt` positive.
pub compare_keys : Key → Key → Ordering
compare_keys a b =
    if differs a.wild b.wild
    then (if a.wild then Ordering.gt else Ordering.lt)
    else elim (compare b.segments a.segments) [
      | Ordering.lt ↦ Ordering.lt
      | Ordering.gt ↦ Ordering.gt
      | Ordering.eq ↦
          if differs a.slash_star b.slash_star
          then (if a.slash_star then Ordering.lt else Ordering.gt)
          else if differs a.wild_host b.wild_host
          then (if a.wild_host then Ordering.gt else Ordering.lt)
          else compare b.size a.size
    ]

pub compare_entries : RouteEntry → RouteEntry → Ordering
unfolding compare_keys key
compare_entries a b = compare_keys (key a) (key b)

-- `Array.prototype.sort` is stable, and on a consistent comparison its result is the stable
-- insertion sort's.
pub insert_entry : RouteEntry → List RouteEntry → List RouteEntry
insert_entry e [] = e ∷ []
insert_entry e (f ∷ fs) =
    let later = insert_entry e fs in
    elim (compare_entries e f) [ Ordering.gt ↦ f ∷ later | _ ↦ e ∷ f ∷ fs ]

pub sort_entries : List RouteEntry → List RouteEntry
unfolding insert_entry
sort_entries [] = []
sort_entries (e ∷ es) = insert_entry e (sort_entries es)

pub ensure_sorted : RouteDispatcher → RouteDispatcher
unfolding sort_entries
ensure_sorted d = if d.sorted then d else record d { routes = sort_entries d.routes; sorted = true }

-- The host condition of an entry: none, or some pattern matches the known hostname.
pub host_ok : Option (List Text) → Option Text → Bool
host_ok none hostname = true
host_ok (some hosts) none = false
host_ok (some hosts) (some hostname) = any (λ hp. match_host hostname hp) hosts

pub entry_matches : Text → Option Text → RouteEntry → Bool
unfolding host_ok
entry_matches pathname hostname e =
    host_ok e.host_patterns hostname && match_route pathname e.pattern

-- The loop of `resolve`.
first_match : Text → Option Text → ℕ → List RouteEntry → ℕ
first_match pathname hostname fallback [] = fallback
first_match pathname hostname fallback (e ∷ es) =
    if entry_matches pathname hostname e
    then e.manager
    else first_match pathname hostname fallback es

-- Sorting is kept in the dispatcher that comes back.
pub resolve : Text → Option Text → RouteDispatcher → RouteDispatcher × ℕ
unfolding first_match ensure_sorted
resolve pathname hostname d =
    let d' = ensure_sorted d in (d', first_match pathname hostname d'.fallback d'.routes)

pub is_fallback : ℕ → RouteDispatcher → Bool
is_fallback manager d = elim (compare manager d.fallback) [ Ordering.eq ↦ true | _ ↦ false ]

pub has_routes : RouteDispatcher → Bool
has_routes d = not (is_nil d.routes)

pub get_registered_routes :
    RouteDispatcher → RouteDispatcher × List (Text × Text × Option (List Text))
unfolding ensure_sorted
get_registered_routes d =
    let d' = ensure_sorted d in
    (d', map (λ r. (r.pattern, r.worker_name, r.host_patterns)) d'.routes)
