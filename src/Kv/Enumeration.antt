-- ===== src/Kv/Enumeration.antt =====
-- Listing to the end names every key once, in order.
use lopata.Common.{
  drop-drop, ℕ, zero, suc, ◌+◌, ◌-◌, ◌≤◌, ◌≡◌, refl, ◌∙◌, sym, ap, subst, Bool, false, not, ◌&&◌,
  Option, some, List, [], ◌∷◌, ◌++◌, map, if◌then◌else◌, arith, leb, keep, take, drop, length,
  length-drop, All, All-map, All-keep, Pairs, Text, text_eq, Bool-cases, inl, inr, and_iff,
  keep-Pairs, All-keep_test,
}
use lopata.Kv.Keys.{Bytes}
use lopata.Kv.{Row, Table, Namespace}
use lopata.Kv.Entries.{Distinct}
use lopata.Kv.Listing.{
  is_past, delete_expired, insert_key, order_keys, in_range, is_after, query, last_key,
}
use lopata.Kv.Sorting.{keep-order_keys, All-order_keys}
use lopata.Kv.Ranges.{Plain, is_listed, in_range-starts}
use lopata.Kv.Cursors.{
  Before, Named, order_keys-Before, cursor_at, keep-is_after, last_key-take, keep_cong,
}
use lopata.Kv.Pages.{list_all, list_all-page, at_most, prepend, Readable}

keep-keep :
    (p q : Row → Bool) (rows : List Row) → keep q (keep p rows) ≡ keep (λ r. p r && q r) rows
keep-keep p q [] = refl
keep-keep p q (r ∷ rows) = ground (arith, keep-keep p q rows)

keep-twice : (p : Row → Bool) (rows : List Row) → keep p (keep p rows) ≡ keep p rows
keep-twice p rows = keep-keep p p rows ∙ keep_cong (λ r. p r && p r) p rows (λ r. ground arith)

and_assoc : (a b c : Bool) → (a && (b && c)) ≡ ((a && b) && c)
and_assoc a b c = ground arith

map-take-drop :
    (m : ℕ) (rows : List Row)
    → map (λ r. r.key) (take m rows) ++ map (λ r. r.key) (drop m rows) ≡ map (λ r. r.key) rows
map-take-drop zero rows = refl
map-take-drop (suc m) [] = refl
map-take-drop (suc m) (r ∷ rows) = ap (λ l. r.key ∷ l) (map-take-drop m rows)

All-drop {κ} : (P : Row → Type κ) (m : ℕ) (rows : List Row) → All P rows → All P (drop m rows)
All-drop P zero rows h = h
All-drop P (suc m) [] h = tt
All-drop P (suc m) (r ∷ rows) (p, h) = All-drop P m rows h

length-insert_key : (r : Row) (rows : List Row) → length (insert_key r rows) ≡ suc (length rows)
unfolding insert_key
length-insert_key r [] = refl
length-insert_key r (x ∷ rows) = ground (arith, length-insert_key r rows)

length-order_keys : (rows : List Row) → length (order_keys rows) ≡ length rows
unfolding order_keys
length-order_keys [] = refl
length-order_keys (r ∷ rows) =
    omega (arith, length-insert_key r (order_keys rows), length-order_keys rows)

length-keep : (p : Row → Bool) (rows : List Row) → length (keep p rows) ≤ length rows
length-keep p [] = omega arith
length-keep p (r ∷ rows) = ground (arith, length-keep p rows)

module _ {J : Type 0} (parse : Text → Option J) (stringify : J → Text) (decode : Bytes → Text)
    (kv : Namespace) (now : ℕ) (prefix : Text) (limit : ℕ) (db : Table) where
  -- The table once the expired rows are gone, and the rows that the first query selects.
  live : Table
  live = delete_expired kv.namespace now db

  abbrev in_query : Row → Bool
  in_query r = text_eq r.namespace kv.namespace && in_range prefix r

  ordered : List Row
  unfolding live
  ordered = order_keys (keep in_query live)

  query-ordered :
      (cursor : Bytes) (n : ℕ)
      → query kv.namespace prefix cursor n live ≡ take n (keep (is_after cursor) ordered)
  unfolding query ordered
  query-ordered cursor n = ap (take n) (
      ap order_keys (
        keep_cong
          (λ r. text_eq r.namespace kv.namespace && (in_range prefix r && is_after cursor r))
          (λ r. in_query r && is_after cursor r) live
          (λ r.
            and_assoc (text_eq r.namespace kv.namespace) (in_range prefix r) (is_after cursor r))
        ∙ sym (keep-keep in_query (is_after cursor) live))
      ∙ sym (keep-order_keys (is_after cursor) (keep in_query live)))

  ordered-All {κ} : (P : Row → Type κ) → All P db → All P ordered
  unfolding ordered live
  ordered-All P h =
      All-order_keys P (keep in_query live)
        (All-keep P in_query live (All-keep P (λ r. not (is_past kv.namespace now r)) db h))

  ordered-Before : Pairs Distinct db → Pairs Before ordered
  unfolding ordered live
  ordered-Before d =
      order_keys-Before kv.namespace (keep in_query live)
        (All-map (λ r h. ((and_iff (text_eq r.namespace kv.namespace) (in_range prefix r)).0 h).0)
          (keep in_query live) (All-keep_test in_query live))
        (keep-Pairs Distinct in_query live
          (keep-Pairs Distinct (λ r. not (is_past kv.namespace now r)) db d))

  live_again : delete_expired kv.namespace now live ≡ live
  unfolding live
  live_again = keep-twice (λ r. not (is_past kv.namespace now r)) db

  abbrev m : ℕ
  m = at_most parse stringify decode kv now prefix limit

  cursor-next :
      (k : ℕ)
      → 1 ≤ limit
      → leb (length (drop k ordered)) m ≡ false
      → (last_key (take m (drop k ordered)) ≡ cursor_at (k + m) ordered) × (k + m ≤ length ordered)
  cursor-next k some_limit more =
      let longer : m + k ≤ length ordered = ground (arith, length-drop k ordered) in
      let one : m ≡ suc (m - 1) = omega (arith, some_limit) in
      let at : suc (k + (m - 1)) ≡ k + suc (m - 1) = omega arith in
      (
        rw one (
            last_key-take (m - 1) k ordered (omega (arith, longer, some_limit))
            ∙ ap (λ n. cursor_at n ordered) at),
        omega (arith, longer),
      )

  page-from :
      (fuel k : ℕ) (table : Table)
      → delete_expired kv.namespace now table ≡ live
      → Pairs Before ordered
      → All Named ordered
      → All (Readable parse stringify decode kv now prefix limit) ordered
      → k ≤ length ordered
      → list_all parse stringify decode kv now prefix limit (suc fuel) (cursor_at k ordered) table
        ≡ (if leb (length (drop k ordered)) m
            then some (map (λ r. r.key) (drop k ordered))
            else prepend (map (λ r. r.key) (take m (drop k ordered))) (
                list_all parse stringify decode kv now prefix limit fuel
                  (last_key (take m (drop k ordered)))
                  live))
  page-from fuel k table swept before named readable inside =
      subst
        (λ t.
          list_all parse stringify decode kv now prefix limit (suc fuel) (cursor_at k ordered) table
          ≡ (if leb (length (drop k ordered)) m
              then some (map (λ r. r.key) (drop k ordered))
              else prepend (map (λ r. r.key) (take m (drop k ordered))) (
                  list_all parse stringify decode kv now prefix limit fuel
                    (last_key (take m (drop k ordered))) t)))
        swept
        (list_all-page parse stringify decode kv now prefix limit fuel (cursor_at k ordered) table
          (drop k ordered)
          (rw swept (
            query-ordered (cursor_at k ordered) (m + 1)
            ∙ ap (take (m + 1)) (keep-is_after k ordered before named inside)))
          (All-drop (Readable parse stringify decode kv now prefix limit) k ordered readable))

  swept_live : delete_expired kv.namespace now db ≡ live
  unfolding live
  swept_live = refl

  -- From the cursor after k rows, enough pages list the rows after them.
  walk :
      (fuel k : ℕ) (table : Table)
      → delete_expired kv.namespace now table ≡ live
      → 1 ≤ limit
      → Pairs Before ordered
      → All Named ordered
      → All (Readable parse stringify decode kv now prefix limit) ordered
      → k ≤ length ordered
      → length ordered ≤ k + fuel
      → list_all parse stringify decode kv now prefix limit (suc fuel) (cursor_at k ordered) table
        ≡ some (map (λ r. r.key) (drop k ordered))
  walk zero k table swept some_limit before named readable inside enough =
      elim (Bool-cases (leb (length (drop k ordered)) m)) [
        | inl last ↦ page-from zero k table swept before named readable inside ∙ rw last refl
        | inr more ↦ absurd (ground (arith, length-drop k ordered))
      ]
  walk (suc fuel) k table swept some_limit before named readable inside enough =
      elim (Bool-cases (leb (length (drop k ordered)) m)) [
        | inl last ↦ page-from (suc fuel) k table swept before named readable inside ∙ rw last refl
        | inr more ↦
            let (cursor, within) = cursor-next k some_limit more in
            let rest =
              walk fuel (k + m) live live_again some_limit before named readable within
                (omega (arith, enough, some_limit)) in
            page-from (suc fuel) k table swept before named readable inside
            ∙ rw (more, cursor, rest)
                (ap some (
                  ap (λ l. map (λ r. r.key) (take m (drop k ordered)) ++ map (λ r. r.key) l)
                    (sym (drop-drop k m ordered))
                  ∙ map-take-drop m (drop k ordered)))
      ]

  ordered-length : length ordered ≤ length db
  unfolding ordered live
  ordered-length =
      let a = length-order_keys (keep in_query live) in
      let b = length-keep in_query live in
      let c = length-keep (λ r. not (is_past kv.namespace now r)) db in omega (arith, a, b, c)

  ordered-listed : Plain prefix → ordered ≡ order_keys (keep (is_listed kv.namespace now prefix) db)
  unfolding ordered live
  ordered-listed plain = ap order_keys (
      keep-keep (λ r. not (is_past kv.namespace now r)) in_query db
      ∙ keep_cong (λ r. not (is_past kv.namespace now r) && in_query r)
          (is_listed kv.namespace now prefix) db
          (λ r.
            ap (λ b. not (is_past kv.namespace now r) && (text_eq r.namespace kv.namespace && b))
              (in_range-starts prefix r plain)))

  -- In a table whose rows have different keys, none of them empty, and metadata that are JSON, a client
  -- that lists with a limit of at least 1, each page from the cursor of the page before, until a
  -- page is complete, is done after at most one page more than there are rows, and has got the keys of
  -- the rows of the namespace that have not expired and start with the prefix, each row once and
  -- in the order of the keys; the prefix is empty or ends in an ASCII character below DEL.
  pub list_all-enumerates :
      (fuel : ℕ)
      → length db ≤ fuel
      → 1 ≤ limit
      → Plain prefix
      → Pairs Distinct db
      → All Named db
      → All (Readable parse stringify decode kv now prefix limit) db
      → list_all parse stringify decode kv now prefix limit (suc fuel) [] db
        ≡ some (map (λ r. r.key) (order_keys (keep (is_listed kv.namespace now prefix) db)))
  list_all-enumerates fuel enough some_limit plain distinct named readable =
      let all =
        walk fuel 0 db swept_live some_limit (ordered-Before distinct) (ordered-All Named named)
          (ordered-All (Readable parse stringify decode kv now prefix limit) readable) (omega arith)
          (omega (arith, ordered-length, enough)) in
      all ∙ ap (λ rows. some (map (λ r. r.key) rows)) (ordered-listed plain)
