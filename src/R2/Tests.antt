-- ===== src/R2/Tests.antt =====
-- A bucket at work, and the theorems about src/bindings/r2.ts at these inputs.
use lopata.Common.{
  ℕ, suc, map, ◌≡◌, ◌⊎◌, refl, sym, ap, ◌∙◌, subst, false, none, some, List, [], ◌∷◌, length, arith,
  Text, codes, inl, inr, order_by, ok,
}
use lopata.Kv.Keys.{Bytes, utf8, before}
use lopata.R2.{
  is_under, R2Row, Store, R2Object, R2Range, r2_defaults, R2Checksums, no_checksums, Value, bytes,
  content,
}
use lopata.R2.Paths.{part_dir, file_path, part_path}
use lopata.R2.Objects.{
  FileR2Bucket, Runtime, R2PutOptions, put, put_object, get, get_row, found, R2ObjectBody, body_of,
  array_buffer,
}
use lopata.R2.Multipart.{abort, R2MultipartUpload, complete, create_multipart_upload}
use lopata.R2.Reading.{array_buffer-put}
use lopata.R2.Uploads.{upload_all}
use lopata.R2.Completion.{Completed, complete-Completed}
use lopata.R2.Consistency.{multipart_root}
use lopata.R2.Calls.{Op, puts, deletes, creates, uploads, completes, run}
use lopata.R2.Listing.{matching, build_list_object}
use lopata.R2.Pages.{list_all, list_all-matching}
use lopata.R2.History.{empty_store, run-Held}

abbrev runtime : Runtime
runtime = record { md5 = λ b. b; json_size = λ m. length m }

abbrev bucket : FileR2Bucket
bucket = record {
  bucket = codes "B";
  base_dir = codes "data" ∷ codes "r2" ∷ codes "B" ∷ [];
  limits = r2_defaults;
}

abbrev plain : R2PutOptions
plain = record {
  http_metadata = none;
  custom_metadata = none;
  only_if = none;
  digests = no_checksums;
}

abbrev ab_key : Text
ab_key = codes "a/b"

abbrev digits : Value
digits = bytes (0 ∷ 1 ∷ 2 ∷ 3 ∷ 4 ∷ 5 ∷ [])

abbrev stored : Store
stored = (put runtime bucket 7 (codes "v") ab_key digits plain empty_store).1

-- From the fifth byte on, ten bytes, of which there are two.
abbrev tail_range : R2Range
tail_range = record { offset = some 4; length = some 10; suffix = none }

array_buffer-put_example :
    (6 ≡ length (content digits))
    × ((0 ∷ 1 ∷ 2 ∷ 3 ∷ 4 ∷ 5 ∷ []) ≡ runtime.md5 (content digits))
    × ((body : R2ObjectBody) × (get bucket ab_key
            (record { only_if = none; range = some tail_range })
            stored
          ≡ found body)
        × (array_buffer body stored.files ≡ some (4 ∷ 5 ∷ [])))
unfolding put content utf8
array_buffer-put_example =
    array_buffer-put runtime bucket 7 (codes "v") ab_key digits plain empty_store stored
      (put_object runtime bucket 7 (codes "v") ab_key (content digits) plain) (some tail_range) refl

-- Keys whose paths are the same have one file.
same_file : file_path bucket.base_dir (codes "a//b") ≡ file_path bucket.base_dir (codes "a/b")
unfolding file_path
same_file = refl

abbrev upload : R2MultipartUpload
upload = record { key = ab_key; upload_id = codes "u" }

abbrev started : Store
started =
    (create_multipart_upload runtime bucket 8 (codes "u") ab_key
      (record { http_metadata = none; custom_metadata = none }) stored).1

-- The second part first, and the first one twice.
abbrev pieces : List (ℕ × Value)
pieces = (2, bytes (20 ∷ 21 ∷ [])) ∷ (1, bytes (10 ∷ [])) ∷ (1, bytes (11 ∷ 12 ∷ [])) ∷ []

abbrev listed : List (ℕ × Text)
listed = (2, 20 ∷ 21 ∷ []) ∷ (1, 11 ∷ 12 ∷ []) ∷ []

complete-Completed_example :
    (object : R2Object) × (s' : Store) × (complete runtime bucket upload 9
        (codes "w")
        listed
        (upload_all runtime bucket upload pieces started)
      ≡ (ok object, s'))
    × (object.size ≡ 4)
    × Completed runtime bucket upload (11 ∷ 12 ∷ 20 ∷ 21 ∷ []) s'
unfolding create_multipart_upload put content file_path order_by utf8 part_dir
complete-Completed_example =
    complete-Completed runtime bucket upload 9 (codes "w") pieces listed started
      (record {
        upload_id = codes "u";
        bucket = codes "B";
        key = ab_key;
        http_metadata = none;
        custom_metadata = none;
        created_at = 8;
      })
      refl ((20 ∷ 21 ∷ [], refl, refl), ((11 ∷ 12 ∷ [], refl, refl), tt)) refl

abbrev c_key : Text
c_key = codes "c"

abbrev Named : Text → Type 0
Named k = (k ≡ ab_key) ⊎ (k ≡ c_key)

abbrev calls : List Op
calls =
    puts 7 (codes "v") ab_key digits plain
    ∷ puts 7 (codes "v") c_key digits plain
    ∷ creates 8 (codes "u") ab_key (record { http_metadata = none; custom_metadata = none })
    ∷ uploads upload 1 (bytes (11 ∷ 12 ∷ []))
    ∷ completes upload 9 (codes "w") ((1, 11 ∷ 12 ∷ []) ∷ [])
    ∷ deletes (c_key ∷ [])
    ∷ []

abbrev last_row : R2Row
last_row = record {
  bucket = codes "B";
  key = ab_key;
  size = 2;
  etag = codes "-1";
  version = codes "w";
  uploaded = 9;
  http_metadata = none;
  custom_metadata = none;
  checksums = none;
  tags = none;
}

row_after : (get_row bucket ab_key (run runtime bucket empty_store calls)) ≡ some last_row
unfolding run file_path utf8 order_by content part_path part_dir
row_after = refl

paths_own :
    (k l : Text)
    → Named k
    → Named l
    → file_path bucket.base_dir k ≡ file_path bucket.base_dir l
    → k ≡ l
unfolding file_path
paths_own k l (inl a) (inl c) e = a ∙ sym c
paths_own k l (inr a) (inr c) e = a ∙ sym c
paths_own k l (inl a) (inr c) e = absurd (
    let bad : file_path bucket.base_dir ab_key ≡ file_path bucket.base_dir c_key =
      sym (ap (file_path bucket.base_dir) a) ∙ e ∙ ap (file_path bucket.base_dir) c in
    ground arith)
paths_own k l (inr a) (inl c) e = absurd (
    let bad : file_path bucket.base_dir c_key ≡ file_path bucket.base_dir ab_key =
      sym (ap (file_path bucket.base_dir) a) ∙ e ∙ ap (file_path bucket.base_dir) c in
    ground arith)

paths_outside :
    (k : Text)
    → Named k
    → is_under (multipart_root bucket.base_dir) (file_path bucket.base_dir k) ≡ false
unfolding file_path
paths_outside k (inl a) =
    subst (λ x. is_under (multipart_root bucket.base_dir) (file_path bucket.base_dir x) ≡ false)
      (sym a) refl
paths_outside k (inr a) =
    subst (λ x. is_under (multipart_root bucket.base_dir) (file_path bucket.base_dir x) ≡ false)
      (sym a) refl

run-Held_example :
    (bytes : Bytes) × (array_buffer
        (body_of bucket ab_key last_row none)
        (run runtime bucket empty_store calls).files
      ≡ some bytes)
    × (length bytes ≡ 2)
    × ((c : R2Checksums) → none ≡ some c → c.md5 ≡ some (runtime.md5 bytes))
unfolding part_dir
run-Held_example =
    run-Held runtime bucket Named calls ab_key last_row paths_own paths_outside
      ((inl refl, refl), ((inr refl, refl), (tt, (refl, ((inl refl, refl), ((inr refl, tt), tt))))))
      row_after

-- Three objects, two of which have the prefix, listed one by one.
abbrev shelf : Store
shelf = run runtime bucket empty_store (
    puts 7 (codes "v") (codes "a/2") digits plain
    ∷ puts 7 (codes "v") (codes "c") digits plain
    ∷ puts 7 (codes "v") (codes "a/1") digits plain
    ∷ [])

keys_listed : map (λ o. o.key) (matching bucket (codes "a/") shelf) ≡ codes "a/1" ∷ codes "a/2" ∷ []
unfolding run matching file_path utf8 before
keys_listed = refl

list_all-matching_example :
    list_all (suc (length (matching bucket (codes "a/") shelf))) bucket (codes "a/") 1 none shelf
    ≡ some (map (build_list_object none) (matching bucket (codes "a/") shelf))
list_all-matching_example = list_all-matching bucket (codes "a/") 1 shelf (omega arith)

-- An upload that was resumed with the name of the parent directory: aborting it removes the files of the bucket.
abbrev resumed : R2MultipartUpload
resumed = record { key = ab_key; upload_id = codes ".." }

abort_all : (abort bucket resumed stored).files ≡ []
unfolding abort put part_dir file_path content utf8
abort_all = refl
