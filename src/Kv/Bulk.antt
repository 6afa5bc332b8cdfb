-- ===== src/Kv/Bulk.antt =====
-- src/bindings/kv.ts, bulkGet and bulkGetWithMetadata. The code has the two with the same loops; here the
-- loops take what a row gives and what a missing key gives. A Map is a list of its entries.
use lopata.Common.{
  ℕ, Bool, true, false, not, ◌&&◌, Option, none, some, List, [], ◌∷◌, ltb, is_nil, if◌then◌else◌,
  length, keep, find, any, Text, text_eq, Result, throw, ok, ◌>>=◌,
}
use lopata.Kv.Keys.{Bytes}
use lopata.Kv.{
  Row, Table, delete_row, Namespace, Error, too_many_keys, type_not_supported, validate_key,
  is_expired, ValueType, array_buffer_type, stream_type, Value, WithMetadata, decode_value,
  decode_metadata,
}

abbrev pub is_type_supported : ValueType → Bool
is_type_supported array_buffer_type = false
is_type_supported stream_type = false
is_type_supported _ = true

abbrev pub is_selected : Text → List Bytes → Row → Bool
is_selected ns keys r = text_eq r.namespace ns && any (λ k. text_eq r.key k) keys

abbrev pub select_rows : Text → List Bytes → Table → List Row
select_rows ns keys db = keep (is_selected ns keys) db

-- The first loop: expired rows are deleted, the others go to `rowMap`, the last of a key in front.
unfoldable pub scan_rows : Text → ℕ → List Row → List Row → Table → List Row × Table
scan_rows ns now [] row_map db = (row_map, db)
scan_rows ns now (r ∷ rs) row_map db =
    scan_rows ns now rs (if is_expired now r then row_map else r ∷ row_map)
      (if is_expired now r then delete_row ns r.key db else db)

abbrev pub map_row : Bytes → List Row → Option Row
map_row key row_map = find (λ r. text_eq r.key key) row_map

unfoldable pub validate_keys : Namespace → List Bytes → Result Error Unit
unfolding validate_key
validate_keys kv [] = ok tt
validate_keys kv (key ∷ keys) = validate_key kv key >>= λ _. validate_keys kv keys

module _ {B : Type 0} where
  -- `Map.get` and `Map.set`
  unfoldable pub map_get : Bytes → List (Bytes × B) → Option B
  map_get key [] = none
  map_get key ((k, v) ∷ m) = if text_eq k key then some v else map_get key m

  unfoldable pub map_set : Bytes → B → List (Bytes × B) → List (Bytes × B)
  map_set key value [] = (key, value) ∷ []
  map_set key value ((k, v) ∷ m) =
      let rest = map_set key value m in if text_eq k key then (k, value) ∷ m else (k, v) ∷ rest

module _ {B : Type 0} (found : Row → Result Error B) (missing : B) where
  abbrev pub entry : List Row → Bytes → Result Error B
  entry row_map key = elim (map_row key row_map) [ none ↦ ok missing | some r ↦ found r ]

  -- The second loop.
  unfoldable pub fill : List Row → List Bytes → List (Bytes × B) → Result Error (List (Bytes × B))
  unfolding map_set
  fill row_map [] result = ok result
  fill row_map (key ∷ keys) result =
      entry row_map key >>= λ v. fill row_map keys (map_set key v result)

  unfoldable pub bulk_read :
      Namespace → ℕ → List Bytes → ValueType → Table → Result Error (List (Bytes × B)) × Table
  unfolding validate_keys scan_rows fill
  bulk_read kv now keys type db =
      if ltb kv.limits.max_bulk_get_keys (length keys)
      then (throw too_many_keys, db)
      else elim (validate_keys kv keys) [
        | throw error ↦ (throw error, db)
        | ok _ ↦
            if not (is_type_supported type)
            then (throw type_not_supported, db)
            else if is_nil keys
            then (ok [], db)
            else let (row_map, db') =
                scan_rows kv.namespace now (select_rows kv.namespace keys db) [] db in
              (fill row_map keys [], db')
      ]

module _ {J : Type 0} (parse : Text → Option J) (stringify : J → Text) (decode : Bytes → Text) where
  abbrev pub found_value : ValueType → Row → Result Error (Option (Value J))
  found_value type r = decode_value parse stringify decode r.value type >>= λ v. ok (some v)

  abbrev pub found_with_metadata : ValueType → Row → Result Error (WithMetadata J)
  found_with_metadata type r = decode_value parse stringify decode r.value type >>= λ v.
      decode_metadata parse stringify decode r.metadata >>= λ m.
      ok (record { value = some v; metadata = m })

  unfoldable pub bulk_get :
      Namespace
      → ℕ
      → List Bytes
      → ValueType
      → Table
      → Result Error (List (Bytes × Option (Value J))) × Table
  unfolding bulk_read
  bulk_get kv now keys type db = bulk_read (found_value type) none kv now keys type db

  unfoldable pub bulk_get_with_metadata :
      Namespace
      → ℕ
      → List Bytes
      → ValueType
      → Table
      → Result Error (List (Bytes × WithMetadata J)) × Table
  unfolding bulk_read
  bulk_get_with_metadata kv now keys type db =
      bulk_read (found_with_metadata type) (record { value = none; metadata = none }) kv now keys
        type db
