-- ===== src/Kv/Pages.antt =====
-- Listing page by page.
use lopata.Common.{
  take-long, take-take, ℕ, zero, suc, ◌+◌, min, ◌≡◌, refl, ◌∙◌, ap, true, false, Option, none, some,
  List, [], ◌∷◌, ◌++◌, map, if◌then◌else◌, arith, leb, take, length, length-take, All, All-take,
  Text, Bool-cases, inl, inr, throw, ok,
}
use lopata.Kv.Keys.{Bytes}
use lopata.Kv.{Row, Table, Namespace, decode_metadata}
use lopata.Kv.Listing.{ListOptions, ListKey, delete_expired, query, last_key, list_keys, list}

abbrev pub prepend : List Bytes → Option (List Bytes) → Option (List Bytes)
prepend names none = none
prepend names (some rest) = some (names ++ rest)

take_all :
    (m : ℕ) (rows : List Row)
    → leb (length rows) m ≡ true
    → (take m (take (m + 1) rows) ≡ rows) × (leb (length (take (m + 1) rows)) m ≡ true)
take_all m rows h = (
  take-take m (m + 1) rows (omega arith) ∙ take-long m rows (ground arith),
  ground (arith, length-take (m + 1) rows),
)

take_part :
    (m : ℕ) (rows : List Row)
    → leb (length rows) m ≡ false
    → (take m (take (m + 1) rows) ≡ take m rows) × (leb (length (take (m + 1) rows)) m ≡ false)
take_part m rows h =
    (take-take m (m + 1) rows (omega arith), ground (arith, length-take (m + 1) rows))

module _ {J : Type 0} (parse : Text → Option J) (stringify : J → Text) (decode : Bytes → Text)
    (kv : Namespace) (now : ℕ) (prefix : Text) (limit : ℕ) where
  abbrev page_options : Bytes → ListOptions
  page_options cursor = record { prefix = some prefix; limit = some limit; cursor = some cursor }

  -- A client that lists until a page is complete, each page from the cursor of the one before.
  unfoldable pub list_all : (fuel : ℕ) → Bytes → Table → Option (List Bytes)
  unfolding list
  list_all zero cursor db = none
  list_all (suc fuel) cursor db =
      let (listed, db') = list parse stringify decode kv now (page_options cursor) db in
      elim listed [
        | throw error ↦ none
        | ok result ↦
            let rest = list_all fuel result.cursor db' in
            let names = map (λ k. k.name) result.keys in
            if result.list_complete then some names else prepend names rest
      ]

  -- A row whose metadata are JSON.
  abbrev pub Readable : Row → Type 0
  Readable r = (m : Option J) × (decode_metadata parse stringify decode r.metadata ≡ ok m)

  list_keys-names :
      (rs : List Row)
      → All Readable rs
      → (ks : List (ListKey J)) × (list_keys parse stringify decode rs ≡ ok ks)
        × (map (λ k. k.name) ks ≡ map (λ r. r.key) rs)
  unfolding list_keys
  list_keys-names [] h = ([], refl, refl)
  list_keys-names (r ∷ rs) ((m, e), h) =
      let (ks, f, g) = list_keys-names rs h in
      (
        record { name = r.key; expiration = r.expiration; metadata = m } ∷ ks,
        rw (e, f) refl,
        rw g refl,
      )

  abbrev pub at_most : ℕ
  at_most = min limit 1000

  -- One page in terms of the rows that it starts from.
  pub list_all-page :
      (fuel : ℕ) (cursor : Bytes) (db : Table) (rows : List Row)
      → query kv.namespace prefix cursor (at_most + 1) (delete_expired kv.namespace now db)
        ≡ take (at_most + 1) rows
      → All Readable rows
      → list_all (suc fuel) cursor db ≡ (
          if leb (length rows) at_most
          then some (map (λ r. r.key) rows)
          else prepend
              (map (λ r. r.key) (take at_most rows))
              (list_all fuel (last_key (take at_most rows)) (delete_expired kv.namespace now db)))
  unfolding list_all list
  list_all-page fuel cursor db rows q readable = elim (Bool-cases (leb (length rows) at_most)) [
    | inl small ↦
        let (ks, e, names) = list_keys-names rows readable in
        let (full, long) = take_all at_most rows small in
        rw (list_all, list, q, full, long, small, e) (ap some names)
    | inr big ↦
        let (ks, e, names) =
          list_keys-names (take at_most rows) (All-take Readable at_most rows readable) in
        let (full, long) = take_part at_most rows big in
        rw (list_all, list, q, full, long, big, e, names) refl
  ]
