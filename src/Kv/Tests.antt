-- ===== src/Kv/Tests.antt =====
-- A namespace at work, and the theorems about src/bindings/kv.ts at these inputs.
use lopata.Common.{
  ℕ, ◌==◌, ◌≡◌, ◌≤◌, ◌<◌, ◌↔◌, refl, Option, none, some, List, [], ◌∷◌, map, if◌then◌else◌, arith,
  keep, All, Text, codes, ok, ◌>>=◌,
}
use Prim.Native.String.{String}
use lopata.Kv.Keys.{Bytes, utf8, before}
use lopata.Kv.{
  Row, Table, Namespace, kv_defaults, delete_row, text_type, Value, text, from_string, PutOptions,
  decode_value, encode_value, put, get, get_with_metadata, validate_key, validate_value, check_ttl,
  check_expiration, check_metadata, validate_metadata, validate_ttl, new_row, decode_metadata,
}
use lopata.Kv.Entries.{Permitted, put-ok_iff}
use lopata.Kv.Bulk.{map_get, map_set, bulk_get, bulk_read, scan_rows, fill, validate_keys}
use lopata.Kv.Reads.{Expires, string_bytes, sweep, bulk_get-agrees, get_with_metadata-put}
use lopata.Kv.Listing.{order_keys, insert_key, query, list_keys, list}
use lopata.Kv.Ranges.{ascii, is_listed}
use lopata.Kv.Pages.{list_all}
use lopata.Kv.Enumeration.{list_all-enumerates}
use lopata.Kv.Entries.{live_row}
use lopata.Kv.Completion.{bulk_get_returns}
use lopata.Kv.Unseen.{step-live}
use lopata.Kv.History.{step, bulk_gets, Op, puts, gets, run, Inv, run-Inv_table}

-- JSON values are texts here, which are printed behind a quotation mark.
abbrev parse : Text → Option Text
parse [] = none
parse (c ∷ s) = if c == 34 then some s else none

abbrev stringify : Text → Text
stringify s = 34 ∷ s

abbrev decode : Bytes → Text
decode bytes = bytes

abbrev kv : Namespace
kv = record { namespace = codes "KV"; limits = kv_defaults }

abbrev row : String → Option ℕ → Row
row key expiration = record {
  namespace = codes "KV";
  key = codes key;
  value = codes key;
  metadata = none;
  expiration = expiration;
}

-- Three keys with the prefix, one of them expired at 1000, and one without it.
abbrev table : Table
table = row "b/2" none ∷ row "c" none ∷ row "b/1" (some 2000) ∷ row "b/0" (some 500) ∷ []

abbrev lifetime : PutOptions Text
lifetime = record { metadata = some (codes "m"); expiration_ttl = some 60000; expiration = none }

abbrev stored : Table
stored =
    record {
      namespace = codes "KV";
      key = codes "k";
      value = codes "v";
      metadata = some (codes "\"m");
      expiration = some 61000;
    }
    ∷ []

put_run :
    put parse stringify decode kv 1000 (codes "k") (from_string (codes "v")) lifetime [] ≡ ok stored
unfolding put validate_key validate_value check_ttl check_expiration check_metadata
    validate_metadata validate_ttl new_row encode_value kv_defaults utf8
put_run = refl

listing_run :
    list_all parse stringify decode kv 1000 (codes "b/") 1 5 [] table
    ≡ some (codes "b/1" ∷ codes "b/2" ∷ [])
unfolding list_all list query list_keys order_keys insert_key before utf8 decode_metadata
listing_run = refl

get_with_metadata-put_example :
    ((t : ℕ)
      → Expires 1000 none (some 60000) t
      → t < 2000
      → get_with_metadata parse stringify decode kv 2000 (codes "k") text_type stored
        ≡ ok (record { value = none; metadata = none }, delete_row (codes "KV") (codes "k") stored))
    × (((t : ℕ) → Expires 1000 none (some 60000) t → 2000 ≤ t)
        → get_with_metadata parse stringify decode kv 2000 (codes "k") text_type stored ≡ (
            decode_value parse stringify decode (utf8 (codes "v")) text_type >>= λ v.
            ok (record { value = some v; metadata = some (codes "m") }, stored)))
get_with_metadata-put_example =
    get_with_metadata-put parse stringify decode kv 1000 (codes "k") (from_string (codes "v"))
      lifetime [] stored 2000 text_type (utf8 (codes "v")) (λ j. refl) (λ j. refl)
      (string_bytes (codes "v")) put_run

put-ok_iff_example :
    ((db : Table) × (put parse stringify decode kv 1000
          (codes "k")
          (from_string (codes "v"))
          lifetime
          []
        ≡ ok db))
    ↔ Permitted parse stringify decode kv 1000 (codes "k") (from_string (codes "v")) lifetime
put-ok_iff_example =
    put-ok_iff parse stringify decode kv 1000 (codes "k") (from_string (codes "v")) lifetime []

abbrev two_keys : List Bytes
two_keys = codes "b/0" ∷ codes "c" ∷ []

abbrev both_values : List (Bytes × Option (Value Text))
both_values = (codes "b/0", none) ∷ (codes "c", some (text (codes "c"))) ∷ []

bulk_run :
    bulk_get parse stringify decode kv 1000 two_keys text_type table
    ≡ (ok both_values, row "b/2" none ∷ row "c" none ∷ row "b/1" (some 2000) ∷ [])
unfolding bulk_get bulk_read scan_rows fill validate_keys validate_key map_set decode_value
    kv_defaults
bulk_run = refl

bulk_get-agrees_example :
    All
      (λ key.
        (v : Option (Value Text)) × (map_get key both_values ≡ some v)
        × (get parse stringify decode kv 1000 key text_type table
            ≡ ok (v, sweep 1000 (codes "KV") key table)))
      two_keys
bulk_get-agrees_example =
    bulk_get-agrees parse stringify decode kv 1000 two_keys text_type table both_values
      (row "b/2" none ∷ row "c" none ∷ row "b/1" (some 2000) ∷ [])
      ((refl, (refl, (refl, tt))), ((refl, (refl, tt)), ((refl, tt), (tt, tt)))) bulk_run

list_all-enumerates_example :
    list_all parse stringify decode kv 1000 (codes "b/") 1 5 [] table
    ≡ some (map (λ r. r.key) (order_keys (keep (is_listed (codes "KV") 1000 (codes "b/")) table)))
unfolding decode_metadata
list_all-enumerates_example =
    list_all-enumerates parse stringify decode kv 1000 (codes "b/") 1 table 4 (omega arith)
      (omega arith) (ascii (codes "b") 47 refl)
      ((refl, (refl, (refl, tt))), ((refl, (refl, tt)), ((refl, tt), (tt, tt))))
      (refl, (refl, (refl, (refl, tt))))
      ((none, refl), ((none, refl), ((none, refl), ((none, refl), tt))))

abbrev calls : List (Op Text)
calls =
    puts kv 1000 (codes "k") (from_string (codes "v")) lifetime
    ∷ gets kv 90000 (codes "k") text_type
    ∷ []

run-Inv_table_example : Inv (run parse stringify decode [] calls)
run-Inv_table_example = run-Inv_table parse stringify decode calls

-- The row has expired when it is read.
abbrev one_put : Table
one_put =
    run parse stringify decode [] (puts kv 1000 (codes "k") (from_string (codes "v")) lifetime ∷ [])

abbrev late_read : Op Text
late_read = bulk_gets kv 90000 (codes "k" ∷ codes "c" ∷ []) text_type

step-live_example :
    live_row 95000 (codes "KV") (codes "k") (step parse stringify decode one_put late_read)
    ≡ live_row 95000 (codes "KV") (codes "k") one_put
step-live_example =
    step-live parse stringify decode one_put late_read 90000 95000 (codes "KV") (codes "k")
      (run-Inv_table parse stringify decode
        (puts kv 1000 (codes "k") (from_string (codes "v")) lifetime ∷ []))
      refl (omega arith)

bulk_get_returns_example :
    (m : List (Bytes × Option (Value Text))) × (db : Table) × (bulk_get parse stringify decode kv
        1000 two_keys text_type table
      ≡ (ok m, db))
unfolding get validate_key kv_defaults decode_value
bulk_get_returns_example =
    bulk_get_returns parse stringify decode kv 1000 two_keys text_type table
      ((refl, (refl, (refl, tt))), ((refl, (refl, tt)), ((refl, tt), (tt, tt)))) (omega arith) refl
      (
        (none, row "b/2" none ∷ row "c" none ∷ row "b/1" (some 2000) ∷ [], refl),
        ((some (text (codes "c")), table, refl), tt),
      )
