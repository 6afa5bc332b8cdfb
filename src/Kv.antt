-- ===== src/Kv.antt =====
-- src/bindings/kv.ts over the table kv of src/db.ts. A key is its UTF-8 form, as SQLite holds it, and
-- times are in thousandths of a second. JSON and the decoder of UTF-8 are parameters.
pub mod Keys
pub mod Entries
pub mod History
pub mod Expiry
pub mod Unseen
pub mod Bulk
pub mod Filling
pub mod Agreement
pub mod Reads
pub mod Completion
pub mod Listing
pub mod Sorting
pub mod Cursors
pub mod Ranges
pub mod Pages
pub mod Enumeration
mod Tests
use lopata.Common.{
  ℕ, zero, suc, ◌+◌, ◌*◌, Bool, true, false, not, ◌&&◌, ◌||◌, Option, none, some, List, [], ◌∷◌,
  ◌++◌, ltb, leb, if◌then◌else◌, or_else, length, keep, find, Text, text_eq, codes, Result, throw,
  ok, ◌>>=◌,
}
use lopata.Kv.Keys.{Bytes, utf8}

pub record Row : Type 0 where
  pub namespace : Text
  pub key : Bytes
  pub value : Bytes
  pub metadata : Option Text
  pub expiration : Option ℕ

-- The table, with the statements that touch one key.
abbrev pub Table : Type 0
Table = List Row

abbrev pub is_row : Text → Bytes → Row → Bool
is_row namespace key r = text_eq r.namespace namespace && text_eq r.key key

abbrev pub select_row : Text → Bytes → Table → Option Row
select_row namespace key db = find (is_row namespace key) db

abbrev pub delete_row : Text → Bytes → Table → Table
delete_row namespace key db = keep (λ r. not (is_row namespace key r)) db

abbrev pub insert_or_replace : Row → Table → Table
insert_or_replace r db = delete_row r.namespace r.key db ++ (r ∷ [])

pub record KvLimits : Type 0 where
  pub max_key_size : ℕ
  pub max_value_size : ℕ
  pub max_metadata_size : ℕ
  pub min_ttl : ℕ
  pub max_bulk_get_keys : ℕ

unfoldable pub kv_defaults : KvLimits
kv_defaults = record {
  max_key_size = 512;
  max_value_size = 25 * 1024 * 1024;
  max_metadata_size = 1024;
  min_ttl = 60000;
  max_bulk_get_keys = 100;
}

pub record Namespace : Type 0 where
  pub namespace : Text
  pub limits : KvLimits

pub data Error : Type 0 where
  key_not_allowed key_too_big value_too_big metadata_too_big : Error
  ttl_too_small expiration_too_soon too_many_keys type_not_supported not_json : Error

-- A test whose failure throws.
abbrev pub require : Bool → Error → Result Error Unit
require test error = if test then ok tt else throw error

unfoldable pub validate_key : Namespace → Bytes → Result Error Unit
validate_key kv key =
    if text_eq key [] || (text_eq key (codes ".") || text_eq key (codes ".."))
    then throw key_not_allowed
    else require (leb (length key) kv.limits.max_key_size) key_too_big

unfoldable pub validate_value : Namespace → Bytes → Result Error Unit
validate_value kv blob = require (leb (length blob) kv.limits.max_value_size) value_too_big

unfoldable pub validate_ttl : Namespace → ℕ → Result Error Unit
validate_ttl kv ttl = require (leb kv.limits.min_ttl ttl) ttl_too_small

-- A number is falsy where it is 0.
abbrev pub truthy : Option ℕ → Option ℕ
truthy none = none
truthy (some zero) = none
truthy (some (suc n)) = some (suc n)

abbrev pub is_before : Option ℕ → ℕ → Bool
is_before none now = false
is_before (some t) now = ltb t now

-- `row.expiration && row.expiration < now`
abbrev pub is_expired : ℕ → Row → Bool
is_expired now r = is_before (truthy r.expiration) now

pub data ValueType : Type 0 where
  text_type json_type array_buffer_type stream_type : ValueType

pub data Value (J : Type 0) : Type 0 where
  text : Text → Value J
  json : J → Value J
  array_buffer : Bytes → Value J
  stream : (chunks : List Bytes) → Value J

pub record WithMetadata (J : Type 0) : Type 0 where
  pub value : Option (Value J)
  pub metadata : Option J

-- What `put` stores: a string, a buffer, or a stream that is read to its end.
pub data PutValue : Type 0 where
  from_string : Text → PutValue
  from_buffer : Bytes → PutValue
  from_stream : List Bytes → PutValue

abbrev pub concat : List Bytes → Bytes
concat [] = []
concat (chunk ∷ chunks) = chunk ++ concat chunks

unfoldable pub encode_value : PutValue → Bytes
encode_value (from_string s) = utf8 s
encode_value (from_buffer buffer) = buffer
encode_value (from_stream chunks) = concat chunks

pub record PutOptions (J : Type 0) : Type 0 where
  pub metadata : Option J
  pub expiration_ttl : Option ℕ
  pub expiration : Option ℕ

abbrev pub expiration_of : ℕ → (expiration ttl : Option ℕ) → Option ℕ
expiration_of now (some (suc t)) ttl = some (suc t)
expiration_of now (some zero) (some (suc n)) = some (now + suc n)
expiration_of now none (some (suc n)) = some (now + suc n)
expiration_of now _ _ = none

module _ {J : Type 0} (parse : Text → Option J) (stringify : J → Text) (decode : Bytes → Text) where
  pub parse_json : Text → Result Error J
  parse_json s = elim (parse s) [ none ↦ throw not_json | some j ↦ ok j ]

  unfoldable pub decode_value : Bytes → ValueType → Result Error (Value J)
  unfolding parse_json
  decode_value blob json_type = parse_json (decode blob) >>= λ j. ok (json j)
  decode_value blob array_buffer_type = ok (array_buffer blob)
  decode_value blob stream_type = ok (stream (blob ∷ []))
  decode_value blob text_type = ok (text (decode blob))

  -- `row.metadata ? JSON.parse(row.metadata) : null`
  unfoldable pub decode_metadata : Option Text → Result Error (Option J)
  unfolding parse_json
  decode_metadata none = ok none
  decode_metadata (some []) = ok none
  decode_metadata (some (c ∷ s)) = parse_json (c ∷ s) >>= λ j. ok (some j)

  unfoldable pub get :
      Namespace → ℕ → Bytes → ValueType → Table → Result Error (Option (Value J) × Table)
  unfolding validate_key decode_value
  get kv now key type db = validate_key kv key >>= λ _. elim (select_row kv.namespace key db) [
    | none ↦ ok (none, db)
    | some r ↦
        if is_expired now r
        then ok (none, delete_row kv.namespace key db)
        else decode_value r.value type >>= λ v. ok (some v, db)
  ]

  unfoldable pub get_with_metadata :
      Namespace → ℕ → Bytes → ValueType → Table → Result Error (WithMetadata J × Table)
  unfolding validate_key decode_value decode_metadata
  get_with_metadata kv now key type db = validate_key kv key >>= λ _.
      elim (select_row kv.namespace key db) [
        | none ↦ ok (record { value = none; metadata = none }, db)
        | some r ↦
            if is_expired now r
            then ok (record { value = none; metadata = none }, delete_row kv.namespace key db)
            else decode_value r.value type >>= λ v.
                decode_metadata r.metadata >>= λ m. ok (record { value = some v; metadata = m }, db)
      ]

  unfoldable pub validate_metadata : Namespace → J → Result Error Text
  unfolding utf8
  validate_metadata kv metadata =
      let serialized = stringify metadata in
      if ltb kv.limits.max_metadata_size (length (utf8 serialized))
      then throw metadata_too_big
      else ok serialized

  unfoldable pub check_ttl : Namespace → Option ℕ → Result Error Unit
  unfolding validate_ttl
  check_ttl kv none = ok tt
  check_ttl kv (some ttl) = validate_ttl kv ttl

  unfoldable pub check_expiration : Namespace → ℕ → Option ℕ → Result Error Unit
  check_expiration kv now none = ok tt
  check_expiration kv now (some t) = require (leb (now + kv.limits.min_ttl) t) expiration_too_soon

  unfoldable pub check_metadata : Namespace → Option J → Result Error (Option Text)
  unfolding validate_metadata
  check_metadata kv none = ok none
  check_metadata kv (some metadata) = validate_metadata kv metadata >>= λ s. ok (some s)

  unfoldable pub new_row : Namespace → ℕ → Bytes → PutValue → PutOptions J → Option Text → Row
  unfolding encode_value
  new_row kv now key value options metadata = record {
    namespace = kv.namespace;
    key = key;
    value = encode_value value;
    metadata = metadata;
    expiration = expiration_of now options.expiration options.expiration_ttl;
  }

  unfoldable pub put : Namespace → ℕ → Bytes → PutValue → PutOptions J → Table → Result Error Table
  unfolding validate_key validate_value encode_value check_ttl check_expiration check_metadata
      new_row
  put kv now key value options db = validate_key kv key >>= λ _.
      validate_value kv (encode_value value) >>= λ _. check_ttl kv options.expiration_ttl >>= λ _.
      check_expiration kv now options.expiration >>= λ _.
      check_metadata kv options.metadata >>= λ metadata.
      ok (insert_or_replace (new_row kv now key value options metadata) db)

unfoldable pub delete : Namespace → Bytes → Table → Table
delete kv key db = delete_row kv.namespace key db
