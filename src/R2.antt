-- ===== src/R2.antt =====
-- src/bindings/r2.ts: the rows of the tables r2_objects, r2_multipart_uploads and r2_multipart_parts (src/db.ts), the
-- files beside them, conditions and ranges. Objects has the methods of FileR2Bucket, Multipart those of
-- R2MultipartUpload.
pub mod Paths
pub mod Objects
pub mod Multipart
pub mod Files
pub mod Reading
pub mod Uploads
pub mod Completion
pub mod Consistency
pub mod Calls
pub mod Elsewhere
pub mod History
pub mod Pages
pub mod Listing
mod Tests
use lopata.Common.{
  ℕ, ◌+◌, ◌-◌, Bool, true, false, not, ◌&&◌, ◌||◌, Option, none, some, List, [], ◌∷◌, ◌++◌, any,
  keep, find, ltb, leb, ◌==◌, if◌then◌else◌, take, drop, Text, codes, text_eq,
}
use lopata.Kv.Keys.{Bytes, utf8}

pub record R2Limits : Type 0 where
  pub max_key_size : ℕ
  pub max_custom_metadata_size : ℕ
  pub max_batch_delete_keys : ℕ

abbrev pub r2_defaults : R2Limits
r2_defaults = record {
  max_key_size = 1024;
  max_custom_metadata_size = 2048;
  max_batch_delete_keys = 1000;
}

-- A file is known by the segments of its absolute path.
abbrev pub FilePath : Type 0
FilePath = List Text

abbrev pub path_eq : FilePath → FilePath → Bool
path_eq [] [] = true
path_eq (s ∷ p) (t ∷ q) = text_eq s t && path_eq p q
path_eq _ _ = false

abbrev pub is_under : (directory path : FilePath) → Bool
is_under [] path = true
is_under (s ∷ directory) [] = false
is_under (s ∷ directory) (t ∷ path) = text_eq s t && is_under directory path

abbrev pub Files : Type 0
Files = List (FilePath × Bytes)

abbrev pub at_path : FilePath → FilePath × Bytes → Bool
at_path path file = path_eq file.0 path

abbrev pub read_file : FilePath → Files → Option Bytes
read_file path files = elim (find (at_path path) files) [ none ↦ none | some file ↦ some file.1 ]

abbrev pub rm_file : FilePath → Files → Files
rm_file path files = keep (λ file. not (at_path path file)) files

abbrev pub write_file : FilePath → Bytes → Files → Files
write_file path bytes files = (path, bytes) ∷ rm_file path files

abbrev pub rm_directory : FilePath → Files → Files
rm_directory directory files = keep (λ file. not (is_under directory file.0)) files

-- The columns with JSON are held as what they encode.
pub record R2HttpMetadata : Type 0 where
  pub content_type : Option Text
  pub content_language : Option Text
  pub content_disposition : Option Text
  pub content_encoding : Option Text
  pub cache_control : Option Text
  pub cache_expiry : Option ℕ

abbrev pub CustomMetadata : Type 0
CustomMetadata = List (Text × Text)

-- Digests in hexadecimal digits.
pub record R2Checksums : Type 0 where
  pub md5 : Option Text
  pub sha1 : Option Text
  pub sha256 : Option Text
  pub sha384 : Option Text
  pub sha512 : Option Text

abbrev pub no_http_metadata : R2HttpMetadata
no_http_metadata = record {
  content_type = none;
  content_language = none;
  content_disposition = none;
  content_encoding = none;
  cache_control = none;
  cache_expiry = none;
}

abbrev pub no_checksums : R2Checksums
no_checksums = record { md5 = none; sha1 = none; sha256 = none; sha384 = none; sha512 = none }

-- An empty string is falsy.
abbrev pub truthy_text : Option Text → Option Text
truthy_text none = none
truthy_text (some []) = none
truthy_text (some (c ∷ s)) = some (c ∷ s)

abbrev pub truthy_fields : R2HttpMetadata → R2HttpMetadata
truthy_fields m = record {
  content_type = truthy_text m.content_type;
  content_language = truthy_text m.content_language;
  content_disposition = truthy_text m.content_disposition;
  content_encoding = truthy_text m.content_encoding;
  cache_control = truthy_text m.cache_control;
  cache_expiry = m.cache_expiry;
}

abbrev pub is_absent : {A : Type 0} → Option A → Bool
is_absent none = true
is_absent (some a) = false

abbrev pub has_no_field : R2HttpMetadata → Bool
has_no_field m =
    is_absent m.content_type
    && (is_absent m.content_language
        && (is_absent m.content_disposition
            && (is_absent m.content_encoding
                && (is_absent m.cache_control && is_absent m.cache_expiry))))

unfoldable pub serialize_http_metadata : Option R2HttpMetadata → Option R2HttpMetadata
serialize_http_metadata none = none
serialize_http_metadata (some m) =
    let fields = truthy_fields m in if has_no_field fields then none else some fields

unfoldable pub deserialize_http_metadata : Option R2HttpMetadata → R2HttpMetadata
deserialize_http_metadata none = no_http_metadata
deserialize_http_metadata (some fields) = truthy_fields fields

pub record R2Row : Type 0 where
  pub bucket : Text
  pub key : Text
  pub size : ℕ
  pub etag : Text
  pub version : Text
  pub uploaded : ℕ
  pub http_metadata : Option R2HttpMetadata
  pub custom_metadata : Option CustomMetadata
  pub checksums : Option R2Checksums
  pub tags : Option CustomMetadata

pub record MultipartRow : Type 0 where
  pub upload_id : Text
  pub bucket : Text
  pub key : Text
  pub http_metadata : Option R2HttpMetadata
  pub custom_metadata : Option CustomMetadata
  pub created_at : ℕ

pub record MultipartPartRow : Type 0 where
  pub upload_id : Text
  pub part_number : ℕ
  pub etag : Text
  pub size : ℕ
  pub file_path : FilePath

pub record Store : Type 0 where
  pub objects : List R2Row
  pub uploads : List MultipartRow
  pub parts : List MultipartPartRow
  pub files : Files

-- The offset and the length of what was asked for. An offset behind the end gives a negative length.
pub data Length : Type 0 where
  exactly below_zero : ℕ → Length

pub record R2Object : Type 0 where
  pub key : Text
  pub size : ℕ
  pub etag : Text
  pub version : Text
  pub uploaded : ℕ
  pub http_metadata : R2HttpMetadata
  pub custom_metadata : CustomMetadata
  pub checksums : R2Checksums
  pub range : Option (ℕ × Length)

unfoldable pub row_to_meta : R2Row → R2Object
unfolding deserialize_http_metadata
row_to_meta row = record {
  key = row.key;
  size = row.size;
  etag = row.etag;
  version = row.version;
  uploaded = row.uploaded;
  http_metadata = deserialize_http_metadata row.http_metadata;
  custom_metadata = elim row.custom_metadata [ none ↦ [] | some m ↦ m ];
  checksums = elim row.checksums [ none ↦ no_checksums | some c ↦ c ];
  range = none;
}

pub record R2Conditional : Type 0 where
  pub etag_matches : Option (List Text)
  pub etag_does_not_match : Option (List Text)
  pub uploaded_before : Option ℕ
  pub uploaded_after : Option ℕ

abbrev pub quoted : Text → Text
quoted etag = codes "\"" ++ etag ++ codes "\""

abbrev pub names_etag : Text → Text → Bool
names_etag etag t = text_eq t etag || text_eq t (quoted etag)

unfoldable pub evaluate_conditional : R2Conditional → (etag : Text) (uploaded : ℕ) → Bool
evaluate_conditional cond etag uploaded =
    elim cond.etag_matches [
      | none ↦ true
      | some tags ↦ any (λ t. names_etag etag t || text_eq t (codes "*")) tags
    ]
    && (elim cond.etag_does_not_match [ none ↦ true | some tags ↦ not (any (names_etag etag) tags) ]
        && (elim cond.uploaded_before [ none ↦ true | some time ↦ ltb uploaded time ]
            && elim cond.uploaded_after [ none ↦ true | some time ↦ ltb time uploaded ]))

pub record R2Range : Type 0 where
  pub offset : Option ℕ
  pub length : Option ℕ
  pub suffix : Option ℕ

abbrev pub minus : ℕ → ℕ → Length
minus a b = if leb b a then exactly (a - b) else below_zero (b - a)

abbrev pub or_zero : Option ℕ → ℕ
or_zero none = 0
or_zero (some n) = n

unfoldable pub resolve_range : (total_size : ℕ) → R2Range → ℕ × Length
resolve_range total_size range = elim range.suffix [
  | some suffix ↦ let offset = total_size - suffix in (offset, exactly (total_size - offset))
  | none ↦
      let offset = or_zero range.offset in
      elim range.length [
        | none ↦ (offset, minus total_size offset)
        | some length ↦
            if ltb total_size (offset + length)
            then (offset, minus total_size offset)
            else (offset, exactly length)
      ]
]

-- The value of a put: a string, bytes (an ArrayBuffer or a view of one), or the chunks of a stream or a Blob,
-- which ends after them or rejects the next read.
pub data Value : Type 0 where
  null_value : Value
  text : Text → Value
  bytes : Bytes → Value
  stream broken_stream : List Bytes → Value

abbrev pub concat : List Bytes → Bytes
concat [] = []
concat (chunk ∷ chunks) = chunk ++ concat chunks

-- What `writeValueToFile` writes and hashes; of a stream that breaks off, what it has written by then.
unfoldable pub content : Value → Bytes
content null_value = []
content (text s) = utf8 s
content (bytes b) = b
content (stream chunks) = concat chunks
content (broken_stream chunks) = concat chunks

-- Whether the loop over the stream throws.
abbrev pub rejects : Value → Bool
rejects (broken_stream chunks) = true
rejects _ = false
