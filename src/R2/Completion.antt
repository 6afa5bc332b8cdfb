-- ===== src/R2/Completion.antt =====
-- A multipart upload of src/bindings/r2.ts from its parts to the object.
use lopata.Common.{
  ℕ, ◌≡◌, refl, sym, ap, ◌∙◌, subst, false, not, Option, none, some, List, [], ◌∷◌, map, keep, find,
  length, arith, Bool-cases, ok, inl, inr, Text, text_eq, text_eq_iff, All, All-order_by, or_else,
}
use lopata.Kv.Keys.{Bytes}
use lopata.R2.{
  is_under, read_file, write_file, R2Row, MultipartRow, MultipartPartRow, Store, R2Object, Value,
  concat,
}
use lopata.R2.Paths.{file_path, part_dir}
use lopata.R2.Objects.{FileR2Bucket, Runtime, get_row, store_bytes}
use lopata.R2.Multipart.{
  R2MultipartUpload, is_upload, find_upload, part_row, select_parts, part_bytes, sort_parts,
  compute_multipart_etag, forget_upload, completed_row, completed_object, complete,
}
use lopata.R2.Files.{read_file-write_file, read_file-rm_directory}
use lopata.R2.Uploads.{upload_all, last_uploaded, Holds, upload_all-Holds}

module _ (r : Runtime) (b : FileR2Bucket) (u : R2MultipartUpload) where
  -- What the client confirms: the etags that the last uploads under the numbers returned.
  abbrev pub Confirmed : (ℕ → Option Bytes) → ℕ × Text → Type 0
  Confirmed known p = (bytes : Bytes) × (known p.0 ≡ some bytes) × (p.1 ≡ r.md5 bytes)

  abbrev pub body : (ℕ → Option Bytes) → ℕ × Text → Bytes
  body known p = or_else (known p.0) []

  row_of : (ℕ → Option Bytes) → ℕ × Text → MultipartPartRow
  row_of known p = part_row r b u.upload_id p.0 (body known p)

  select_parts-Confirmed :
      (known : ℕ → Option Bytes) (s : Store) (chosen : List (ℕ × Text))
      → Holds r b u known s
      → All (Confirmed known) chosen
      → select_parts u.upload_id s.parts chosen ≡ ok (map (row_of known) chosen)
  unfolding row_of
  select_parts-Confirmed known s [] h a = refl
  select_parts-Confirmed known s ((n, etag) ∷ chosen) h ((bytes, k, e), a) =
      let rest = select_parts-Confirmed known s chosen h a in
      let row = h.row n bytes k in
      let matches = (text_eq_iff (r.md5 bytes) etag).1 (sym e) in
      rw (select_parts, row, matches, rest, k) refl

  part_bytes-Confirmed :
      (known : ℕ → Option Bytes) (s : Store) (chosen : List (ℕ × Text))
      → Holds r b u known s
      → All (Confirmed known) chosen
      → map (part_bytes s.files) (map (row_of known) chosen) ≡ map (body known) chosen
  unfolding row_of
  part_bytes-Confirmed known s [] h a = refl
  part_bytes-Confirmed known s ((n, etag) ∷ chosen) h ((bytes, k, e), a) =
      let rest = part_bytes-Confirmed known s chosen h a in
      let file = h.file n bytes k in rw (k, file, rest) refl

  -- The parts that are listed, in the order of their numbers.
  abbrev pub assembled : (ℕ → Option Bytes) → List (ℕ × Text) → Bytes
  assembled known parts = concat (map (body known) (sort_parts parts))

  -- What a completed upload leaves: the object with its row and its file, and no upload.
  pub record Completed (bytes : Bytes) (s : Store) : Type 0 where
    pub file : read_file (file_path b.base_dir u.key) s.files ≡ some bytes
    pub row : (row : R2Row) × (get_row b u.key s ≡ some row) × (row.size ≡ length bytes)
    pub gone : find_upload b u.upload_id s ≡ none

  stored-Completed :
      (row : R2Row) (bytes : Bytes) (s : Store)
      → row.bucket ≡ b.bucket
      → row.key ≡ u.key
      → row.size ≡ length bytes
      → is_under (part_dir b.base_dir u.upload_id) (file_path b.base_dir u.key) ≡ false
      → Completed bytes (forget_upload b u.upload_id (store_bytes b row bytes s))
  unfolding forget_upload
  stored-Completed row bytes s eb ek size outside = record {
    file =
        read_file-rm_directory (part_dir b.base_dir u.upload_id) (file_path b.base_dir u.key)
          (write_file (file_path b.base_dir row.key) bytes s.files) outside
        ∙ subst
            (λ k.
              read_file (file_path b.base_dir k)
                (write_file (file_path b.base_dir row.key) bytes s.files)
              ≡ some bytes)
            ek (read_file-write_file (file_path b.base_dir row.key) bytes s.files);
    row = (
      row,
      (let bucket = (text_eq_iff row.bucket b.bucket).1 eb in
          let key = (text_eq_iff row.key u.key).1 ek in rw (get_row, bucket, key) refl),
      size,
    );
    gone = no_upload s.uploads;
  }
    where
      no_upload :
          (rows : List MultipartRow)
          → find (is_upload b u.upload_id) (keep (λ x. not (text_eq x.upload_id u.upload_id)) rows)
            ≡ none
      no_upload [] = refl
      no_upload (x ∷ rows) = elim (Bool-cases (text_eq x.upload_id u.upload_id)) [
        | inl e ↦ rw e (no_upload rows)
        | inr e ↦ rw (e, e) (no_upload rows)
      ]

-- Where the upload exists, parts are uploaded in any order, with numbers again where a part is replaced, and
-- the client lists numbers with the etags that their last uploads returned, completing succeeds: the file of
-- the key holds the listed parts in the order of their numbers, the row and the object returned have its
-- size, and the upload is gone. The key's file is to lie outside the directory of the parts.
pub complete-Completed :
    (r : Runtime) (b : FileR2Bucket) (u : R2MultipartUpload) (now : ℕ) (version : Text)
    (puts : List (ℕ × Value)) (parts : List (ℕ × Text)) (s : Store) (upload : MultipartRow)
    → find_upload b u.upload_id s ≡ some upload
    → All (Confirmed r b u (last_uploaded puts)) parts
    → is_under (part_dir b.base_dir u.upload_id) (file_path b.base_dir u.key) ≡ false
    → (object : R2Object) × (s' : Store) × (complete r b u now version parts
          (upload_all r b u puts s)
        ≡ (ok object, s'))
      × (object.size ≡ length (assembled r b u (last_uploaded puts) parts))
      × Completed r b u (assembled r b u (last_uploaded puts) parts) s'
unfolding complete
complete-Completed r b u now version puts parts s upload e confirmed outside =
    let known = last_uploaded puts in
    let t = upload_all r b u puts s in
    let h =
      upload_all-Holds r b u (λ _. none) s puts
        (record {
          upload = (upload, e);
          row = λ n bytes k. absurd (ground arith);
          file = λ n bytes k. absurd (ground arith);
        }) in
    let (found, f) = h.upload in
    let chosen = sort_parts parts in
    let sorted = All-order_by (λ p. p.0) (Confirmed r b u known) parts confirmed in
    let rows = map (row_of r b u known) chosen in
    let selected = select_parts-Confirmed r b u known t chosen h sorted in
    let bodies = ap concat (part_bytes-Confirmed r b u known t chosen h sorted) in
    let etag = compute_multipart_etag r rows in
    let bytes = assembled r b u known parts in
    let at = completed_row b u found etag version now bytes in
    (
      completed_object u found etag version now bytes,
      forget_upload b u.upload_id (store_bytes b at bytes t),
      rw (complete, f, selected, bodies) refl,
      refl,
      stored-Completed r b u at bytes t refl refl refl outside,
    )
