-- ===== src/RouteMatcher/Dispatcher/Order.antt =====
-- The comparison function of `ensureSorted` is a total preorder, and sorting by it sorts.
use lopata.Common.{
  ◌⊎◌, ◌≤◌, ◌<◌, true, false, length, ends_with, includes, codes, ◌≡◌, ◌≢◌, List, [], ◌∷◌, Ordering,
  arith, All, All-map,
}
use lopata.RouteMatcher.{segment_count}
use lopata.RouteMatcher.Dispatcher.{
  RouteEntry, Key, key, compare_keys, compare_entries, insert_entry, sort_entries,
}

-- `a` may stand before `b`.
abbrev pub Before : RouteEntry → RouteEntry → Type 0
Before a b = compare_entries a b ≢ Ordering.gt

compare_keys_total : (a b : Key) → compare_keys a b ≡ Ordering.gt → compare_keys b a ≢ Ordering.gt
unfolding compare_keys
compare_keys_total a b h = ground arith

compare_keys_trans :
    (a b c : Key)
    → compare_keys a b ≢ Ordering.gt
    → compare_keys b c ≢ Ordering.gt
    → compare_keys a c ≢ Ordering.gt
unfolding compare_keys
compare_keys_trans a b c h k = ground arith

pub Before-trans : (a b c : RouteEntry) → Before a b → Before b c → Before a c
unfolding compare_entries
Before-trans a b c h k = compare_keys_trans (key a) (key b) (key c) h k

Before-of_gt : (a b : RouteEntry) → compare_entries a b ≡ Ordering.gt → Before b a
unfolding compare_entries
Before-of_gt a b h = compare_keys_total (key a) (key b) h

-- Every entry stands before all that follow it.
abbrev pub Sorted : List RouteEntry → Type 0
Sorted [] = Unit
Sorted (e ∷ es) = All (Before e) es × Sorted es

module _ (P : RouteEntry → Type 0) where
  pub All-insert_entry :
      (e : RouteEntry) (es : List RouteEntry) → P e → All P es → All P (insert_entry e es)
  unfolding insert_entry
  All-insert_entry e [] p h = (p, tt)
  All-insert_entry e (f ∷ fs) p (q, h) = ground (arith, All-insert_entry e fs p h)

  pub All-sort_entries : (es : List RouteEntry) → All P es → All P (sort_entries es)
  unfolding sort_entries
  All-sort_entries [] h = tt
  All-sort_entries (e ∷ es) (p, h) = All-insert_entry e (sort_entries es) p (All-sort_entries es h)

  All-of-insert_entry :
      (e : RouteEntry) (es : List RouteEntry) → All P (insert_entry e es) → P e × All P es
  unfolding insert_entry
  All-of-insert_entry e [] h = h
  All-of-insert_entry e (f ∷ fs) h = ground (arith, All-of-insert_entry e fs)

  pub All-of-sort_entries : (es : List RouteEntry) → All P (sort_entries es) → All P es
  unfolding sort_entries
  All-of-sort_entries [] h = tt
  All-of-sort_entries (e ∷ es) h =
      let (p, k) = All-of-insert_entry e (sort_entries es) h in (p, All-of-sort_entries es k)

insert_entry-Sorted :
    (e : RouteEntry) (es : List RouteEntry) → Sorted es → Sorted (insert_entry e es)
unfolding insert_entry
insert_entry-Sorted e [] h = (tt, tt)
insert_entry-Sorted e (f ∷ fs) (first, h) = ground (
  arith,
  insert_entry-Sorted e fs h,
  Before-of_gt e f,
  λ (b : Before f e). All-insert_entry (Before f) e fs b first,
  λ (b : Before e f).
      All-map {P = Before f} {Q = Before e} (λ g k. Before-trans e f g b k) fs first,
)

pub sort_entries-Sorted : (es : List RouteEntry) → Sorted (sort_entries es)
unfolding sort_entries
sort_entries-Sorted [] = tt
sort_entries-Sorted (e ∷ es) = insert_entry-Sorted e (sort_entries es) (sort_entries-Sorted es)

compare_keys_refl : (a : Key) → compare_keys a a ≢ Ordering.gt
unfolding compare_keys
compare_keys_refl a = ground arith

pub Before-refl : (a : RouteEntry) → Before a a
unfolding compare_entries
Before-refl a = compare_keys_refl (key a)

-- More specific, or as specific: a pattern without a star before one with a star; then the one with
-- more segments; then a star behind a slash before a bare star; then exact hosts before
-- wildcard hosts; then the longer pattern.
abbrev pub AsSpecific : RouteEntry → RouteEntry → Type 0
AsSpecific a b =
    let hosts : Type 0 =
      ((a.wildcard_host ≡ false) × (b.wildcard_host ≡ true))
      ⊎ ((a.wildcard_host ≡ b.wildcard_host) × (length b.pattern ≤ length a.pattern)) in
    let slashes : Type 0 =
      ((ends_with a.pattern (codes "/*") ≡ true) × (ends_with b.pattern (codes "/*") ≡ false))
      ⊎ ((ends_with a.pattern (codes "/*") ≡ ends_with b.pattern (codes "/*")) × hosts) in
    let segments : Type 0 =
      (segment_count b.pattern < segment_count a.pattern)
      ⊎ ((segment_count a.pattern ≡ segment_count b.pattern) × slashes) in
    ((includes a.pattern b'*' ≡ false) × (includes b.pattern b'*' ≡ true))
    ⊎ ((includes a.pattern b'*' ≡ includes b.pattern b'*') × segments)

pub AsSpecific-of_Before : (a b : RouteEntry) → Before a b → AsSpecific a b
unfolding compare_entries compare_keys key
AsSpecific-of_Before a b h = ground arith
