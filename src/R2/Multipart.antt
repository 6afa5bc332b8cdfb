-- ===== src/R2/Multipart.antt =====
-- R2MultipartUpload of src/bindings/r2.ts, and the methods of FileR2Bucket on uploads.
use lopata.Common.{
  ℕ, ◌+◌, ◌*◌, Bool, not, ◌&&◌, Option, none, some, List, [], ◌∷◌, ◌++◌, map, keep, find, ◌==◌,
  if◌then◌else◌, length, order_by, Text, codes, text_eq, Result, throw, ok, ◌>>=◌, or_else,
}
use lopata.Kv.Keys.{Bytes}
use lopata.R2.{
  Files, read_file, write_file, rm_directory, R2HttpMetadata, CustomMetadata, no_checksums,
  serialize_http_metadata, deserialize_http_metadata, R2Row, MultipartRow, MultipartPartRow, Store,
  R2Object, Value, content, rejects, concat,
}
use lopata.R2.Paths.{part_dir, part_path, decimal}
use lopata.R2.Objects.{
  FileR2Bucket, Runtime, Error, stream_failed, hex_digit, upload_not_found, part_not_found,
  etag_mismatch, validate_key, validate_custom_metadata, store_bytes,
}

-- The key of an upload object is the one that it was made with, which `resumeMultipartUpload` takes as given.
pub record R2MultipartUpload : Type 0 where
  pub key : Text
  pub upload_id : Text

abbrev pub is_upload : FileR2Bucket → Text → MultipartRow → Bool
is_upload b upload_id row = text_eq row.upload_id upload_id && text_eq row.bucket b.bucket

abbrev pub find_upload : FileR2Bucket → Text → Store → Option MultipartRow
find_upload b upload_id s = find (is_upload b upload_id) s.uploads

abbrev pub is_part : Text → ℕ → MultipartPartRow → Bool
is_part upload_id part_number row =
    text_eq row.upload_id upload_id && (row.part_number == part_number)

abbrev pub find_part : Text → ℕ → List MultipartPartRow → Option MultipartPartRow
find_part upload_id part_number parts = find (is_part upload_id part_number) parts

pub record CreateOptions : Type 0 where
  pub http_metadata : Option R2HttpMetadata
  pub custom_metadata : Option CustomMetadata

unfoldable pub create_multipart_upload :
    Runtime
    → FileR2Bucket
    → (now : ℕ) (upload_id key : Text) → CreateOptions
    → Store
    → Result Error R2MultipartUpload × Store
unfolding validate_key validate_custom_metadata serialize_http_metadata
create_multipart_upload r b now upload_id key options s =
    elim (validate_key b key >>= λ _. validate_custom_metadata r b options.custom_metadata) [
      | throw e ↦ (throw e, s)
      | ok _ ↦ (
        ok (record { key = key; upload_id = upload_id }),
        record s {
          uploads =
              record {
                upload_id = upload_id;
                bucket = b.bucket;
                key = key;
                http_metadata = serialize_http_metadata options.http_metadata;
                custom_metadata = options.custom_metadata;
                created_at = now;
              }
              ∷ s.uploads;
        },
      )
    ]

abbrev pub part_row : Runtime → FileR2Bucket → Text → ℕ → Bytes → MultipartPartRow
part_row r b upload_id part_number bytes = record {
  upload_id = upload_id;
  part_number = part_number;
  etag = r.md5 bytes;
  size = length bytes;
  file_path = part_path b.base_dir upload_id part_number;
}

unfoldable pub upload_part :
    Runtime → FileR2Bucket → R2MultipartUpload → ℕ → Value → Store → Result Error (ℕ × Text) × Store
upload_part r b u part_number body s = elim (find_upload b u.upload_id s) [
  | none ↦ (throw upload_not_found, s)
  | some upload ↦
      let bytes = content body in
      if rejects body
      then (
        throw stream_failed,
        record s {
          files = write_file (part_path b.base_dir u.upload_id part_number) bytes s.files;
        },
      )
      else (
        ok (part_number, r.md5 bytes),
        record s {
          files = write_file (part_path b.base_dir u.upload_id part_number) bytes s.files;
          parts =
              part_row r b u.upload_id part_number bytes
              ∷ keep (λ p. not (is_part u.upload_id part_number p)) s.parts;
        },
      )
]

-- The rows of the parts that a client lists, each with the etag that it names.
abbrev pub select_parts :
    Text → List MultipartPartRow → List (ℕ × Text) → Result Error (List MultipartPartRow)
select_parts upload_id rows [] = ok []
select_parts upload_id rows ((part_number, etag) ∷ chosen) =
    elim (find_part upload_id part_number rows) [
      | none ↦ throw (part_not_found part_number)
      | some row ↦
          if text_eq row.etag etag
          then select_parts upload_id rows chosen >>= (λ rest. ok (row ∷ rest))
          else throw (etag_mismatch part_number)
    ]

-- A part whose file is gone has no bytes to give.
abbrev pub part_bytes : Files → MultipartPartRow → Bytes
part_bytes files row = or_else (read_file row.file_path files) []

abbrev pub sort_parts : List (ℕ × Text) → List (ℕ × Text)
sort_parts parts = order_by (λ p. p.0) parts

-- `Buffer.from(s, 'hex')`, which ends at the first pair that is none of two digits.
abbrev pub from_hex : Text → Bytes
from_hex [] = []
from_hex (a ∷ []) = []
from_hex (a ∷ b ∷ s) =
    let rest = from_hex s in
    elim (hex_digit a) [
      | none ↦ []
      | some x ↦ elim (hex_digit b) [ none ↦ [] | some y ↦ (16 * x + y) ∷ rest ]
    ]

unfoldable pub compute_multipart_etag : Runtime → List MultipartPartRow → Text
unfolding decimal
compute_multipart_etag r rows =
    r.md5 (concat (map (λ p. from_hex p.etag) rows)) ++ codes "-" ++ decimal (length rows)

-- Both tables forget the upload, and its files are removed.
unfoldable pub forget_upload : FileR2Bucket → Text → Store → Store
unfolding part_dir
forget_upload b upload_id s = record s {
  parts = keep (λ p. not (text_eq p.upload_id upload_id)) s.parts;
  uploads = keep (λ u. not (text_eq u.upload_id upload_id)) s.uploads;
  files = rm_directory (part_dir b.base_dir upload_id) s.files;
}

abbrev pub completed_row :
    FileR2Bucket
    → R2MultipartUpload
    → MultipartRow
    → (etag version : Text) (now : ℕ) → Bytes
    → R2Row
completed_row b u upload etag version now bytes = record {
  bucket = b.bucket;
  key = u.key;
  size = length bytes;
  etag = etag;
  version = version;
  uploaded = now;
  http_metadata = upload.http_metadata;
  custom_metadata = upload.custom_metadata;
  checksums = none;
  tags = none;
}

abbrev pub completed_object :
    R2MultipartUpload → MultipartRow → (etag version : Text) (now : ℕ) → Bytes → R2Object
completed_object u upload etag version now bytes = record {
  key = u.key;
  size = length bytes;
  etag = etag;
  version = version;
  uploaded = now;
  http_metadata = deserialize_http_metadata upload.http_metadata;
  custom_metadata = or_else upload.custom_metadata [];
  checksums = no_checksums;
  range = none;
}

unfoldable pub complete :
    Runtime
    → FileR2Bucket
    → R2MultipartUpload
    → (now : ℕ) (version : Text) → List (ℕ × Text)
    → Store
    → Result Error R2Object × Store
unfolding compute_multipart_etag deserialize_http_metadata forget_upload
complete r b u now version parts s = elim (find_upload b u.upload_id s) [
  | none ↦ (throw upload_not_found, s)
  | some upload ↦ elim (select_parts u.upload_id s.parts (sort_parts parts)) [
    | throw e ↦ (throw e, s)
    | ok rows ↦
        let bytes = concat (map (part_bytes s.files) rows) in
        let etag = compute_multipart_etag r rows in
        (
          ok (completed_object u upload etag version now bytes),
          forget_upload b u.upload_id
              (store_bytes b (completed_row b u upload etag version now bytes) bytes s),
        )
  ]
]

unfoldable pub abort : FileR2Bucket → R2MultipartUpload → Store → Store
unfolding forget_upload
abort b u s = forget_upload b u.upload_id s

unfoldable pub list_parts : R2MultipartUpload → Store → List MultipartPartRow
list_parts u s = order_by (λ p. p.part_number) (keep (λ p. text_eq p.upload_id u.upload_id) s.parts)
