-- ===== src/Kv/Listing.antt =====
-- src/bindings/kv.ts, list: the sweep of expired rows, the range query and the cursor.
use lopata.Common.{
  ℕ, ◌+◌, ◌%◌, min, Bool, true, not, ◌&&◌, Option, List, [], ◌∷◌, ◌++◌, leb, if◌then◌else◌, or_else,
  length, take, keep, drop_last, Text, text_eq, Result, ok, ◌>>=◌,
}
use lopata.Kv.Keys.{Bytes, utf8, before}
use lopata.Kv.{Row, Table, Namespace, Error, is_before, decode_metadata}

pub record ListOptions : Type 0 where
  pub prefix : Option Text
  pub limit : Option ℕ
  pub cursor : Option Bytes

pub record ListKey (J : Type 0) : Type 0 where
  pub name : Bytes
  pub expiration : Option ℕ
  pub metadata : Option J

pub record ListResult (J : Type 0) : Type 0 where
  pub keys : List (ListKey J)
  pub list_complete : Bool
  pub cursor : Bytes

-- `expiration IS NOT NULL AND expiration < ?`
abbrev pub is_past : Text → ℕ → Row → Bool
is_past ns now r = text_eq r.namespace ns && is_before r.expiration now

abbrev pub delete_expired : Text → ℕ → Table → Table
delete_expired ns now db = keep (λ r. not (is_past ns now r)) db

abbrev pub last_code : Text → ℕ
last_code [] = 0
last_code (c ∷ []) = c
last_code (c ∷ d ∷ s) = last_code (d ∷ s)

-- The prefix with its last code unit one higher; a code unit has 16 bits.
abbrev pub prefix_end : Text → Text
prefix_end [] = []
prefix_end (c ∷ s) = drop_last 1 (c ∷ s) ++ ((last_code (c ∷ s) + 1) % 65536 ∷ [])

-- `ORDER BY key`
unfoldable pub insert_key : Row → List Row → List Row
unfolding before
insert_key r [] = r ∷ []
insert_key r (x ∷ xs) =
    let later = insert_key r xs in if before x.key r.key then x ∷ later else r ∷ x ∷ xs

unfoldable pub order_keys : List Row → List Row
unfolding insert_key
order_keys [] = []
order_keys (r ∷ rs) = insert_key r (order_keys rs)

-- `key >= prefix AND key < prefixEnd`, where there is a prefix, and `key > cursor`, where there is a cursor.
abbrev pub in_range : Text → Row → Bool
in_range [] r = true
in_range (c ∷ s) r = not (before r.key (utf8 (c ∷ s))) && before r.key (utf8 (prefix_end (c ∷ s)))

abbrev pub is_after : Bytes → Row → Bool
is_after [] r = true
is_after (c ∷ s) r = before (c ∷ s) r.key

-- The four queries.
unfoldable pub query : Text → Text → Bytes → ℕ → Table → List Row
unfolding order_keys
query ns prefix cursor limit db =
    take limit (
      order_keys
        (keep (λ r. text_eq r.namespace ns && (in_range prefix r && is_after cursor r)) db))

abbrev pub last_key : List Row → Bytes
last_key [] = []
last_key (r ∷ []) = r.key
last_key (r ∷ s ∷ rs) = last_key (s ∷ rs)

module _ {J : Type 0} (parse : Text → Option J) (stringify : J → Text) (decode : Bytes → Text) where
  unfoldable pub list_keys : List Row → Result Error (List (ListKey J))
  unfolding decode_metadata
  list_keys [] = ok []
  list_keys (r ∷ rs) = decode_metadata parse stringify decode r.metadata >>= λ m.
      list_keys rs >>= λ ks.
      ok (record { name = r.key; expiration = r.expiration; metadata = m } ∷ ks)

  unfoldable pub list : Namespace → ℕ → ListOptions → Table → Result Error (ListResult J) × Table
  unfolding query list_keys
  list kv now options db =
      let prefix = or_else options.prefix [] in
      let limit = min (or_else options.limit 1000) 1000 in
      let cursor = or_else options.cursor [] in
      let db' = delete_expired kv.namespace now db in
      let rows = query kv.namespace prefix cursor (limit + 1) db' in
      let list_complete = leb (length rows) limit in
      let result_rows = take limit rows in
      (
        list_keys result_rows >>= λ keys. ok (record {
          keys = keys;
          list_complete = list_complete;
          cursor = if list_complete then [] else last_key result_rows;
        }),
        db',
      )
