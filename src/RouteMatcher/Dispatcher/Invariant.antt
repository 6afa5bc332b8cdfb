-- ===== src/RouteMatcher/Dispatcher/Invariant.antt =====
-- Every operation of the dispatcher keeps its invariant: the flag `sorted` tells the truth, and no
-- path is registered twice without a host.
use lopata.Common.{
  is_nil, ℕ, ◌≡◌, sym, ◌≢◌, inl, inr, Bool, true, false, not, Option, none, some, List, [], ◌∷◌,
  ◌++◌, arith, Ordering, Bool-cases, All, All-keep, All-append, All-intro, keep, Text, text_eq,
  text_eq_iff,
}
use lopata.RouteMatcher.{Route, extract_path_pattern}
use lopata.RouteMatcher.Dispatcher.{
  RouteEntry, RouteDispatcher, new, without_worker, entry_of, is_taken, push, add_route, add_all,
  clear_worker, add_routes, add_host_worker, remove_worker_routes, compare_entries, insert_entry,
  sort_entries, ensure_sorted, resolve, get_registered_routes,
}
use lopata.RouteMatcher.Dispatcher.History.{
  Op, adds, adds_host, removes, resolves, lists, step, run,
}
use lopata.RouteMatcher.Dispatcher.Order.{
  Before, Sorted, All-insert_entry, All-sort_entries, sort_entries-Sorted,
}

-- The two entries are not both without a host and of the same pattern.
abbrev pub Apart : RouteEntry → RouteEntry → Type 0
Apart e f = e.host_patterns ≡ none → f.host_patterns ≡ none → e.pattern ≢ f.pattern

abbrev pub AllApart : List RouteEntry → Type 0
AllApart [] = Unit
AllApart (e ∷ es) = All (Apart e) es × AllApart es

pub record Inv (d : RouteDispatcher) : Type 0 where
  pub truthful : d.sorted ≡ true → Sorted d.routes
  pub apart : AllApart d.routes

Apart-symm : (e f : RouteEntry) → Apart e f → Apart f e
Apart-symm e f h p q r = h q p (sym r)

keep-Sorted : (p : RouteEntry → Bool) (es : List RouteEntry) → Sorted es → Sorted (keep p es)
keep-Sorted p [] h = tt
keep-Sorted p (e ∷ es) (first, h) =
    ground (arith, keep-Sorted p es h, All-keep (Before e) p es first)

keep-AllApart : (p : RouteEntry → Bool) (es : List RouteEntry) → AllApart es → AllApart (keep p es)
keep-AllApart p [] h = tt
keep-AllApart p (e ∷ es) (first, h) = elim (Bool-cases (p e)) [
  | inl yes_e ↦ rw yes_e (All-keep (Apart e) p es first, keep-AllApart p es h)
  | inr no_e ↦ rw no_e (keep-AllApart p es h)
]

append-AllApart :
    (es : List RouteEntry) (e : RouteEntry)
    → All (λ f. Apart f e) es
    → AllApart es
    → AllApart (es ++ (e ∷ []))
append-AllApart [] e k h = (tt, tt)
append-AllApart (f ∷ fs) e (k, ks) (first, h) =
    (All-append (Apart f) fs (e ∷ []) first (k, tt), append-AllApart fs e ks h)

insert_entry-AllApart :
    (e : RouteEntry) (es : List RouteEntry)
    → All (Apart e) es
    → AllApart es
    → AllApart (insert_entry e es)
unfolding insert_entry
insert_entry-AllApart e [] k h = (tt, tt)
insert_entry-AllApart e (f ∷ fs) (k, ks) (first, h) =
    elim (compare_entries e f)
      as (λ o. AllApart (elim o [ Ordering.gt ↦ f ∷ insert_entry e fs | _ ↦ e ∷ f ∷ fs ])) [
        | Ordering.gt ↦ (
          All-insert_entry (Apart f) e fs (Apart-symm e f k) first,
          insert_entry-AllApart e fs ks h,
        )
        | _ ↦ ((k, ks), (first, h))
      ]

sort_entries-AllApart : (es : List RouteEntry) → AllApart es → AllApart (sort_entries es)
unfolding sort_entries
sort_entries-AllApart [] h = tt
sort_entries-AllApart (e ∷ es) (first, h) =
    insert_entry-AllApart e (sort_entries es) (All-sort_entries (Apart e) es first)
      (sort_entries-AllApart es h)

is_taken-Apart :
    (route : Route) (manager : ℕ) (name : Text) (hosts : Option (List Text)) (es : List RouteEntry)
    → is_taken (extract_path_pattern route) hosts es ≡ false
    → All (λ f. Apart f (entry_of route manager name hosts)) es
unfolding is_taken entry_of
is_taken-Apart route manager name hosts [] h = tt
is_taken-Apart route manager name hosts (f ∷ fs) h = (
  λ p q r. ground (arith, text_eq_iff f.pattern (extract_path_pattern route)),
  is_taken-Apart route manager name hosts fs (ground arith),
)

add_route-Inv :
    (manager : ℕ) (name : Text) (hosts : Option (List Text)) (d : RouteDispatcher) (route : Route)
    → Inv d
    → Inv (add_route manager name hosts d route)
unfolding add_route push
add_route-Inv manager name hosts d route v = ground (
  arith,
  is_taken-Apart route manager name hosts d.routes,
  append-AllApart d.routes (entry_of route manager name hosts),
)

add_all-Inv :
    (manager : ℕ) (name : Text) (hosts : Option (List Text)) (d : RouteDispatcher)
    (routes : List Route)
    → Inv d
    → Inv (add_all manager name hosts d routes)
unfolding add_all
add_all-Inv manager name hosts d [] v = v
add_all-Inv manager name hosts d (route ∷ routes) v =
    add_all-Inv manager name hosts (add_route manager name hosts d route) routes
      (add_route-Inv manager name hosts d route v)

is_nil-Sorted : (es : List RouteEntry) → is_nil es ≡ true → Sorted es
is_nil-Sorted [] h = tt
is_nil-Sorted (e ∷ es) h = cc

clear_worker-Inv : (name : Text) (d : RouteDispatcher) → Inv d → Inv (clear_worker name d)
unfolding clear_worker
clear_worker-Inv name d v = record {
  truthful = λ h. elim (Bool-cases (is_nil (without_worker name d.routes))) [
    | inl empty ↦ is_nil-Sorted (without_worker name d.routes) empty
    | inr left ↦
        keep-Sorted (λ r. not (text_eq r.worker_name name)) d.routes (v.truthful (ground arith))
  ];
  apart = keep-AllApart (λ r. not (text_eq r.worker_name name)) d.routes v.apart;
}

pub add_routes-Inv :
    (routes : Option (List Route)) (manager : ℕ) (name : Text) (hosts : Option (List Text))
    (d : RouteDispatcher)
    → Inv d
    → Inv (add_routes routes manager name hosts d)
unfolding add_routes
add_routes-Inv none manager name hosts d v = v
add_routes-Inv (some routes) manager name hosts d v =
    add_all-Inv manager name hosts (clear_worker name d) routes (clear_worker-Inv name d v)

pub add_host_worker-Inv :
    (manager : ℕ) (name : Text) (hosts : List Text) (d : RouteDispatcher)
    → Inv d
    → Inv (add_host_worker manager name hosts d)
unfolding add_host_worker
add_host_worker-Inv manager name hosts d v = record {
  truthful = λ h. cc;
  apart =
      append-AllApart (without_worker name d.routes) _
        (All-intro _ (without_worker name d.routes) (λ f m p q r. cc))
        (keep-AllApart (λ r. not (text_eq r.worker_name name)) d.routes v.apart);
}

pub remove_worker_routes-Inv :
    (name : Text) (d : RouteDispatcher) → Inv d → Inv (remove_worker_routes name d)
unfolding remove_worker_routes
remove_worker_routes-Inv name d v = record {
  truthful = λ h. keep-Sorted (λ r. not (text_eq r.worker_name name)) d.routes (v.truthful h);
  apart = keep-AllApart (λ r. not (text_eq r.worker_name name)) d.routes v.apart;
}

pub ensure_sorted-Inv : (d : RouteDispatcher) → Inv d → Inv (ensure_sorted d)
unfolding ensure_sorted
ensure_sorted-Inv d v =
    ground (arith, sort_entries-Sorted d.routes, sort_entries-AllApart d.routes v.apart)

step-Inv : (d : RouteDispatcher) (op : Op) → Inv d → Inv (step d op)
unfolding step resolve get_registered_routes
step-Inv d (adds routes manager name hosts) v = add_routes-Inv routes manager name hosts d v
step-Inv d (adds_host manager name hosts) v = add_host_worker-Inv manager name hosts d v
step-Inv d (removes name) v = remove_worker_routes-Inv name d v
step-Inv d (resolves pathname hostname) v = ensure_sorted-Inv d v
step-Inv d lists v = ensure_sorted-Inv d v

run_from-Inv : (d : RouteDispatcher) (ops : List Op) → Inv d → Inv (run d ops)
unfolding run
run_from-Inv d [] v = v
run_from-Inv d (op ∷ ops) v = run_from-Inv (step d op) ops (step-Inv d op v)

new-Inv : (fallback : ℕ) → Inv (new fallback)
new-Inv fallback = record { truthful = λ h. tt; apart = tt }

-- After any history of registrations, removals, lookups and listings on a new dispatcher, the
-- flag `sorted` is set only where the entries are in order, and no two entries that apply to
-- every host have the same path pattern.
pub run-Inv : (fallback : ℕ) (ops : List Op) → Inv (run (new fallback) ops)
run-Inv fallback ops = run_from-Inv (new fallback) ops (new-Inv fallback)
