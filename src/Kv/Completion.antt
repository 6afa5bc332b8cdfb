-- ===== src/Kv/Completion.antt =====
-- A bulk read in src/bindings/kv.ts returns where single reads of its keys do.
use lopata.Common.{
  ℕ, ◌≡◌, refl, ◌∙◌, sym, ap, true, false, Option, none, List, [], ◌∷◌, ltb, ◌≤◌, length, All,
  All-map, All-both, Pairs, Text, Result, ok, ◌>>=◌, inv-bind, arith,
}
use lopata.Kv.Keys.{Bytes}
use lopata.Kv.{Row, Table, Namespace, Error, validate_key, ValueType, Value, get}
use lopata.Kv.Entries.{Distinct, live_row}
use lopata.Kv.Bulk.{
  is_type_supported, scan_rows, select_rows, validate_keys, map_set, entry, fill, bulk_read,
  found_value, bulk_get,
}
use lopata.Kv.Agreement.{read_row, scanned, entry-read_row, All-among}
use lopata.Kv.Reads.{get_lem}

validate_keys-of_All :
    (kv : Namespace) (keys : List Bytes)
    → All (λ k. validate_key kv k ≡ ok tt) keys
    → validate_keys kv keys ≡ ok tt
unfolding validate_keys
validate_keys-of_All kv [] h = refl
validate_keys-of_All kv (k ∷ keys) (e, h) = rw (e, validate_keys-of_All kv keys h) refl

module _ {B : Type 0} (found : Row → Result Error B) (missing : B) where
  fill-total :
      (row_map : List Row) (keys : List Bytes) (m : List (Bytes × B))
      → All (λ k. (v : B) × (entry found missing row_map k ≡ ok v)) keys
      → (out : List (Bytes × B)) × (fill found missing row_map keys m ≡ ok out)
  unfolding fill
  fill-total row_map [] m h = (m, refl)
  fill-total row_map (k ∷ keys) m ((v, e), h) =
      let (out, f) = fill-total row_map keys (map_set k v m) h in
      (out, ap (λ r. r >>= λ x. fill found missing row_map keys (map_set k x m)) e ∙ f)

  bulk_read-total :
      (kv : Namespace) (now : ℕ) (keys : List Bytes) (type : ValueType) (db : Table)
      → Pairs Distinct db
      → ltb kv.limits.max_bulk_get_keys (length keys) ≡ false
      → is_type_supported type ≡ true
      → All (λ k. validate_key kv k ≡ ok tt) keys
      → All (λ k. (v : B) × (read_row found missing (live_row now kv.namespace k db) ≡ ok v)) keys
      → (out : List (Bytes × B)) × (db' : Table) × (bulk_read found missing kv now keys type db
          ≡ (ok out, db'))
  unfolding bulk_read scanned
  bulk_read-total kv now [] type db d few supported valid reads =
      ([], db, rw (bulk_read, few, supported) refl)
  bulk_read-total kv now (k ∷ keys) type db d few supported valid reads =
      let entries =
        All-map
          (λ key (among, (v, e)).
            (v, entry-read_row found missing kv now db (k ∷ keys) key d among ∙ e))
          (k ∷ keys) (All-both _ _ (k ∷ keys) (All-among (k ∷ keys)) reads) in
      let (out, f) =
        fill-total (scanned found missing kv now db (k ∷ keys)) (k ∷ keys) [] entries in
      (
        out,
        (scan_rows kv.namespace now (select_rows kv.namespace (k ∷ keys) db) [] db).1,
        rw (bulk_read, few, validate_keys-of_All kv (k ∷ keys) valid, supported)
            (ap
              (λ r.
                (r, (scan_rows kv.namespace now (select_rows kv.namespace (k ∷ keys) db) [] db).1))
              f),
      )

module _ {J : Type 0} (parse : Text → Option J) (stringify : J → Text) (decode : Bytes → Text)
    (kv : Namespace) (now : ℕ) (keys : List Bytes) (type : ValueType) (db : Table) where
  get-reads :
      (key : Bytes) (v : Option (Value J)) (db' : Table)
      → get parse stringify decode kv now key type db ≡ ok (v, db')
      → (validate_key kv key ≡ ok tt)
        × (w : Option (Value J)) × (read_row
              (found_value parse stringify decode type)
              none
              (live_row now kv.namespace key db)
            ≡ ok w)
  get-reads key v db' h =
      let (_, valid, rest) =
        inv-bind (validate_key kv key) _
          (sym (get_lem parse stringify decode kv now key type db) ∙ h) in
      let (w, e, _) =
        inv-bind
          (read_row (found_value parse stringify decode type) none
            (live_row now kv.namespace key db))
          _ rest in
      (valid, w, e)

  -- In a table whose rows have different keys, a bulk read returns where its keys are no more than the limit, its
  -- type is one that bulk reads support, and a single read of each of its keys returns.
  pub bulk_get_returns :
      Pairs Distinct db
      → length keys ≤ kv.limits.max_bulk_get_keys
      → is_type_supported type ≡ true
      → All
          (λ k.
            (v : Option (Value J)) × (db' : Table) × (get parse stringify decode kv now k type db
              ≡ ok (v, db')))
          keys
      → (m : List (Bytes × Option (Value J))) × (db' : Table) × (bulk_get parse stringify decode kv
            now keys type db
          ≡ (ok m, db'))
  unfolding bulk_get
  bulk_get_returns d few supported reads =
      bulk_read-total (found_value parse stringify decode type) none kv now keys type db d
        (ground arith) supported (All-map (λ k (v, db', h). (get-reads k v db' h).0) keys reads)
        (All-map (λ k (v, db', h). let (_, w, e) = get-reads k v db' h in (w, e)) keys reads)
