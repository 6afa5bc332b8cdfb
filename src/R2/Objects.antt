-- ===== src/R2/Objects.antt =====
-- The methods of FileR2Bucket in src/bindings/r2.ts on single objects. Calls of the file system are taken to succeed; the
-- clock, new UUIDs, MD5 and the size of metadata as JSON are arguments.
use lopata.Common.{
  ℕ, ◌+◌, ◌-◌, Bool, true, false, not, ◌&&◌, ◌||◌, Option, none, some, List, [], ◌∷◌, map, keep,
  find, ltb, leb, ◌==◌, if◌then◌else◌, length, take, drop, Text, codes, text_eq, starts_with,
  Result, throw, ok, ◌>>=◌, or_else,
}
use lopata.Kv.Keys.{Bytes, utf8}
use lopata.R2.{
  R2Limits, FilePath, Files, read_file, rm_file, write_file, R2HttpMetadata, CustomMetadata,
  R2Checksums, no_http_metadata, serialize_http_metadata, R2Row, Store, Length, exactly, below_zero,
  R2Object, row_to_meta, R2Conditional, evaluate_conditional, R2Range, resolve_range, Value,
  content, rejects, truthy_text,
}
use lopata.R2.Paths.{file_path}

pub record FileR2Bucket : Type 0 where
  pub bucket : Text
  pub base_dir : FilePath
  pub limits : R2Limits

-- What the methods take from the runtime.
pub record Runtime : Type 0 where
  pub md5 : Bytes → Text
  pub json_size : CustomMetadata → ℕ

pub data Error : Type 0 where
  key_too_long path_traversal metadata_too_large too_many_keys upload_not_found stream_failed :
      Error
  part_not_found etag_mismatch : ℕ → Error

abbrev pub has_dots : Text → Bool
has_dots [] = false
has_dots (c ∷ s) = starts_with (c ∷ s) (codes "..") || has_dots s

abbrev pub fail_if : Bool → Error → Result Error Bool
fail_if test error = if test then throw error else ok true

unfoldable pub validate_key : FileR2Bucket → Text → Result Error Bool
validate_key b key = do
  _ ← fail_if (ltb b.limits.max_key_size (length (utf8 key))) key_too_long
  fail_if (has_dots key) path_traversal

unfoldable pub validate_custom_metadata :
    Runtime → FileR2Bucket → Option CustomMetadata → Result Error Bool
validate_custom_metadata r b none = ok true
validate_custom_metadata r b (some m) =
    fail_if (ltb b.limits.max_custom_metadata_size (r.json_size m)) metadata_too_large

abbrev pub is_object : FileR2Bucket → Text → R2Row → Bool
is_object b key row = text_eq row.bucket b.bucket && text_eq row.key key

abbrev pub get_row : FileR2Bucket → Text → Store → Option R2Row
get_row b key s = find (is_object b key) s.objects

-- `INSERT OR REPLACE` and `DELETE`
abbrev pub insert_or_replace_object : FileR2Bucket → R2Row → Store → Store
insert_or_replace_object b row s = record s {
  objects = row ∷ keep (λ o. not (is_object b row.key o)) s.objects;
}

abbrev pub delete_object : FileR2Bucket → Text → Store → Store
delete_object b key s = record s { objects = keep (λ o. not (is_object b key o)) s.objects }

pub record R2PutOptions : Type 0 where
  pub http_metadata : Option R2HttpMetadata
  pub custom_metadata : Option CustomMetadata
  pub only_if : Option R2Conditional
  -- The digests of the other algorithms, as hexadecimal strings.
  pub digests : R2Checksums

abbrev pub is_blocked : FileR2Bucket → Text → Option R2Conditional → Store → Bool
is_blocked b key none s = false
is_blocked b key (some cond) s = elim (get_row b key s) [
  | none ↦ false
  | some row ↦ not (evaluate_conditional cond row.etag row.uploaded)
]

abbrev pub hex_digit : ℕ → Option ℕ
hex_digit c =
    if leb 48 c && leb c 57
    then some (c - 48)
    else if leb 97 c && leb c 102
    then some (c - 87)
    else if leb 65 c && leb c 70
    then some (c - 55)
    else none

abbrev pub hex_char : ℕ → ℕ
hex_char x = if ltb x 10 then x + 48 else x + 87

-- A string read by `Buffer.from(s, 'hex')`, up to the first pair that is none of two digits, and printed again.
abbrev pub valid_hex : Text → Text
valid_hex [] = []
valid_hex (a ∷ []) = []
valid_hex (a ∷ b ∷ s) =
    let rest = valid_hex s in
    elim (hex_digit a) [
      | none ↦ []
      | some x ↦ elim (hex_digit b) [ none ↦ [] | some y ↦ hex_char x ∷ hex_char y ∷ rest ]
    ]

-- `if (provided)`: an empty string is no digest.
abbrev pub provided : Option Text → Option Text
provided digest = elim (truthy_text digest) [ none ↦ none | some s ↦ some (valid_hex s) ]

abbrev pub checksums_of : Text → R2Checksums → R2Checksums
checksums_of md5 digests = record {
  md5 = some md5;
  sha1 = provided digests.sha1;
  sha256 = provided digests.sha256;
  sha384 = provided digests.sha384;
  sha512 = provided digests.sha512;
}

abbrev pub put_row :
    Runtime → FileR2Bucket → (now : ℕ) (version key : Text) → Bytes → R2PutOptions → R2Row
put_row r b now version key bytes options = record {
  bucket = b.bucket;
  key = key;
  size = length bytes;
  etag = r.md5 bytes;
  version = version;
  uploaded = now;
  http_metadata = serialize_http_metadata options.http_metadata;
  custom_metadata = options.custom_metadata;
  checksums = some (checksums_of (r.md5 bytes) options.digests);
  tags = none;
}

abbrev pub put_object :
    Runtime → FileR2Bucket → (now : ℕ) (version key : Text) → Bytes → R2PutOptions → R2Object
put_object r b now version key bytes options = record {
  key = key;
  size = length bytes;
  etag = r.md5 bytes;
  version = version;
  uploaded = now;
  http_metadata = or_else options.http_metadata no_http_metadata;
  custom_metadata = or_else options.custom_metadata [];
  checksums = checksums_of (r.md5 bytes) options.digests;
  range = none;
}

abbrev pub store_bytes : FileR2Bucket → R2Row → Bytes → Store → Store
store_bytes b row bytes s =
    insert_or_replace_object b row
      (record s { files = write_file (file_path b.base_dir row.key) bytes s.files })

unfoldable pub put :
    Runtime
    → FileR2Bucket
    → (now : ℕ) (version key : Text) → Value
    → R2PutOptions
    → Store
    → Result Error (Option R2Object) × Store
unfolding validate_key validate_custom_metadata
put r b now version key value options s =
    elim (validate_key b key >>= λ _. validate_custom_metadata r b options.custom_metadata) [
      | throw e ↦ (throw e, s)
      | ok _ ↦
          let bytes = content value in
          if is_blocked b key options.only_if s
          then (ok none, s)
          else if rejects value
          then (
            throw stream_failed,
            record s { files = write_file (file_path b.base_dir key) bytes s.files },
          )
          else (
            ok (some (put_object r b now version key bytes options)),
            store_bytes b (put_row r b now version key bytes options) bytes s,
          )
    ]

pub record R2ObjectBody : Type 0 where
  pub meta : R2Object
  pub file_path : FilePath
  pub range_offset : ℕ
  pub range_length : Length
  pub total_size : ℕ

pub data Got : Type 0 where
  missing : Got
  unmet : R2Object → Got
  found : R2ObjectBody → Got

pub record R2GetOptions : Type 0 where
  pub only_if : Option R2Conditional
  pub range : Option R2Range

abbrev pub is_met : Option R2Conditional → R2Row → Bool
is_met none row = true
is_met (some cond) row = evaluate_conditional cond row.etag row.uploaded

abbrev pub body_of : FileR2Bucket → Text → R2Row → Option R2Range → R2ObjectBody
body_of b key row none = record {
  meta = row_to_meta row;
  file_path = file_path b.base_dir key;
  range_offset = 0;
  range_length = exactly row.size;
  total_size = row.size;
}
body_of b key row (some range) =
    let resolved = resolve_range row.size range in
    record {
      meta = record (row_to_meta row) { range = some resolved };
      file_path = file_path b.base_dir key;
      range_offset = resolved.0;
      range_length = resolved.1;
      total_size = row.size;
    }

unfoldable pub get : FileR2Bucket → Text → R2GetOptions → Store → Got
unfolding row_to_meta
get b key options s = elim (get_row b key s) [
  | none ↦ missing
  | some row ↦
      if is_met options.only_if row
      then found (body_of b key row options.range)
      else unmet (row_to_meta row)
]

unfoldable pub head : FileR2Bucket → Text → Store → Option R2Object
unfolding row_to_meta
head b key s = elim (get_row b key s) [ none ↦ none | some row ↦ some (row_to_meta row) ]

-- The end of a slice.
abbrev pub slice_end : ℕ → Length → ℕ
slice_end offset (exactly n) = offset + n
slice_end offset (below_zero n) = offset - n

abbrev pub is_full_file : R2ObjectBody → Bool
is_full_file o = elim o.range_length [
  | exactly n ↦ (o.range_offset == 0) && (n == o.total_size)
  | below_zero n ↦ false
]

-- `arrayBuffer()`, from the files at the time of the call.
unfoldable pub array_buffer : R2ObjectBody → Files → Option Bytes
array_buffer o files = elim (read_file o.file_path files) [
  | none ↦ none
  | some bytes ↦
      if is_full_file o
      then some bytes
      else some (drop o.range_offset (take (slice_end o.range_offset o.range_length) bytes))
]

abbrev pub delete_key : FileR2Bucket → Text → Store → Store
delete_key b key s =
    let deleted = delete_object b key s in
    record deleted { files = rm_file (file_path b.base_dir key) deleted.files }

abbrev pub delete_keys : FileR2Bucket → List Text → Store → Store
delete_keys b [] s = s
delete_keys b (key ∷ keys) s = delete_keys b keys (delete_key b key s)

unfoldable pub delete : FileR2Bucket → List Text → Store → Result Error Bool × Store
delete b keys s =
    if ltb b.limits.max_batch_delete_keys (length keys)
    then (throw too_many_keys, s)
    else (ok true, delete_keys b keys s)

-- `getTags` and `setTags`
unfoldable pub get_tags : FileR2Bucket → Text → Store → List (Text × Text)
get_tags b key s = elim (get_row b key s) [ none ↦ [] | some row ↦ or_else row.tags [] ]

abbrev pub tags_column : List (Text × Text) → Option (List (Text × Text))
tags_column [] = none
tags_column (t ∷ ts) = some (t ∷ ts)

unfoldable pub set_tags : FileR2Bucket → Text → List (Text × Text) → Store → Store
set_tags b key tags s = record s {
  objects =
      map (λ o. if is_object b key o then record o { tags = tags_column tags } else o) s.objects;
}
