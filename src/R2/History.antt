-- ===== src/R2/History.antt =====
-- The table r2_objects and the files of src/bindings/r2.ts through every history of calls.
use lopata.Common.{
  ℕ, ◌≡◌, refl, sym, ap, subst, true, false, Option, none, some, List, [], ◌∷◌, map, find-mem,
  mem-map, ltb, ==_iff, if◌then◌else◌, length, arith, Bool-cases, Option-cases, Result-cases, ◌>>=◌,
  inl, inr, Text, text_eq, text_eq_iff, and_iff, All,
}
use lopata.Kv.Keys.{Bytes}
use lopata.R2.{
  FilePath, Files, is_under, read_file, write_file, R2Checksums, R2Row, Store, Value, content,
  rejects, concat,
}
use lopata.R2.Paths.{file_path, part_dir, part_path}
use lopata.R2.Objects.{
  FileR2Bucket, Runtime, validate_key, validate_custom_metadata, is_object, get_row, R2PutOptions,
  is_blocked, put_row, store_bytes, put, R2ObjectBody, body_of, is_full_file, array_buffer, delete,
  tags_column, set_tags,
}
use lopata.R2.Multipart.{
  R2MultipartUpload, CreateOptions, find_upload, create_multipart_upload, upload_part, select_parts,
  part_bytes, sort_parts, compute_multipart_etag, forget_upload, completed_row, complete, abort,
}
use lopata.R2.Files.{read_file-write_file_other, read_file-rm_directory}
use lopata.R2.Consistency.{
  multipart_root, Held, Consistent, store_bytes-Consistent, delete_keys-Consistent,
  parts-Consistent,
}
use lopata.R2.Elsewhere.{HasOwnDirectory, part_path-elsewhere, part_dir-elsewhere}
use lopata.R2.Calls.{Op, puts, deletes, sets_tags, creates, uploads, completes, aborts, step, run}

-- The keys whose files an operation writes or removes, and the upload whose parts it does; the value of a
-- put is no stream that breaks off.
abbrev pub OpAllowed : FilePath → (Text → Type 0) → Op → Type 0
OpAllowed base_dir Allowed (puts now version key value options) =
    Allowed key × (rejects value ≡ false)
OpAllowed base_dir Allowed (deletes keys) = All Allowed keys
OpAllowed base_dir Allowed (uploads u part_number body) = HasOwnDirectory base_dir u.upload_id
OpAllowed base_dir Allowed (completes u now version parts) =
    Allowed u.key × HasOwnDirectory base_dir u.upload_id
OpAllowed base_dir Allowed (aborts u) = HasOwnDirectory base_dir u.upload_id
OpAllowed base_dir Allowed _ = Unit

module _ (r : Runtime) (b : FileR2Bucket) (Allowed : Text → Type 0)
    (own : (k l : Text)
      → Allowed k
      → Allowed l
      → file_path b.base_dir k ≡ file_path b.base_dir l
      → k ≡ l)
    (outside : (k : Text)
      → Allowed k
      → is_under (multipart_root b.base_dir) (file_path b.base_dir k) ≡ false) where
  abbrev Sound : Store → Type 0
  Sound s = Consistent r b Allowed own outside s

  forget_upload-Sound :
      (u : Text) (s : Store) → HasOwnDirectory b.base_dir u → Sound s → Sound (forget_upload b u s)
  unfolding forget_upload
  forget_upload-Sound u s d c =
      parts-Consistent r b Allowed own outside s (forget_upload b u s) refl
        (λ path h.
          read_file-rm_directory (part_dir b.base_dir u) path s.files
            (part_dir-elsewhere b.base_dir u path d h))
        c

  put-Sound :
      (now : ℕ) (version key : Text) (value : Value) (options : R2PutOptions) (s : Store)
      → Allowed key
      → rejects value ≡ false
      → Sound s
      → Sound (put r b now version key value options s).1
  unfolding put
  put-Sound now version key value options s k whole c =
      elim (Result-cases
        (validate_key b key >>= λ _. validate_custom_metadata r b options.custom_metadata)) [
          | inl (e, v) ↦ rw (put, v) c
          | inr (t, v) ↦ elim (Bool-cases (is_blocked b key options.only_if s)) [
            | inl h ↦ rw (put, v, h) c
            | inr h ↦
                rw (put, v, h, whole)
                  (store_bytes-Consistent r b Allowed own outside
                    (put_row r b now version key (content value) options) (content value) s k refl
                    (λ d e. sym (ap (λ o. elim o [ none ↦ none | some x ↦ x.md5 ]) e)) c)
          ]
        ]

  create-Sound :
      (now : ℕ) (upload_id key : Text) (options : CreateOptions) (s : Store)
      → Sound s
      → Sound (create_multipart_upload r b now upload_id key options s).1
  unfolding create_multipart_upload
  create-Sound now upload_id key options s c =
      elim (Result-cases
        (validate_key b key >>= λ _. validate_custom_metadata r b options.custom_metadata)) [
          | inl (e, v) ↦ rw (create_multipart_upload, v) c
          | inr (t, v) ↦
              rw (create_multipart_upload, v) (record { allowed = c.allowed; held = c.held })
        ]

  upload_part-Sound :
      (u : R2MultipartUpload) (n : ℕ) (body : Value) (s : Store)
      → HasOwnDirectory b.base_dir u.upload_id
      → Sound s
      → Sound (upload_part r b u n body s).1
  unfolding upload_part
  upload_part-Sound u n body s d c = elim (Option-cases (find_upload b u.upload_id s)) [
    | inl e ↦ rw (upload_part, e) c
    | inr (row, e) ↦
        let moved_Sound =
          (let moved : Store = record s {
            files = write_file (part_path b.base_dir u.upload_id n) (content body) s.files;
          } in
            let k =
              parts-Consistent r b Allowed own outside s moved refl
                (λ path h.
                  read_file-write_file_other (part_path b.base_dir u.upload_id n) path
                    (content body) s.files (part_path-elsewhere b.base_dir u.upload_id n path d h))
                c in
            k) in
        elim (Bool-cases (rejects body)) [
          | inl broken ↦ rw (upload_part, e, broken) moved_Sound
          | inr whole ↦
              rw (upload_part, e, whole)
                (record { allowed = moved_Sound.allowed; held = moved_Sound.held })
        ]
  ]

  complete-Sound :
      (u : R2MultipartUpload) (now : ℕ) (version : Text) (parts : List (ℕ × Text)) (s : Store)
      → Allowed u.key
      → HasOwnDirectory b.base_dir u.upload_id
      → Sound s
      → Sound (complete r b u now version parts s).1
  unfolding complete
  complete-Sound u now version parts s k d c = elim (Option-cases (find_upload b u.upload_id s)) [
    | inl e ↦ rw (complete, e) c
    | inr (upload, e) ↦ elim (Result-cases (select_parts u.upload_id s.parts (sort_parts parts))) [
      | inl (q, f) ↦ rw (complete, e, f) c
      | inr (rows, f) ↦
          rw (complete, e, f)
            (let bytes = concat (map (part_bytes s.files) rows) in
              let row =
                completed_row b u upload (compute_multipart_etag r rows) version now bytes in
              forget_upload-Sound u.upload_id (store_bytes b row bytes s) d (
                store_bytes-Consistent r b Allowed own outside row bytes s k refl
                  (λ x h. absurd (ground arith)) c))
    ]
  ]

  abbrev tagged : Text → List (Text × Text) → R2Row → R2Row
  tagged key tags o = if is_object b key o then record o { tags = tags_column tags } else o

  tagged_keeps :
      (P : R2Row → Type 0) (key : Text) (tags : List (Text × Text)) (o : R2Row)
      → ((column : Option (List (Text × Text))) → P o → P (record o { tags = column }))
      → P o
      → P (tagged key tags o)
  tagged_keeps P key tags o f h = elim (Bool-cases (is_object b key o)) [
    | inl e ↦
        subst (λ t. P (if t then record o { tags = tags_column tags } else o)) (sym e)
          (f (tags_column tags) h)
    | inr e ↦ subst (λ t. P (if t then record o { tags = tags_column tags } else o)) (sym e) h
  ]

  set_tags-Sound :
      (key : Text) (tags : List (Text × Text)) (s : Store) → Sound s → Sound (set_tags b key tags s)
  unfolding set_tags
  set_tags-Sound key tags s c = record {
    allowed = λ x m e.
        let (o, n, q) = mem-map (tagged key tags) s.objects x m in
        subst (λ y. Allowed y.key) (sym q)
          (tagged_keeps (λ y. (y.bucket ≡ b.bucket) → Allowed y.key) key tags o (λ column h. h)
            (c.allowed o n) (subst (λ y. y.bucket ≡ b.bucket) q e));
    held = λ x m e.
        let (o, n, q) = mem-map (tagged key tags) s.objects x m in
        subst (λ y. Held r b s.files y) (sym q)
          (tagged_keeps (λ y. (y.bucket ≡ b.bucket) → Held r b s.files y) key tags o
            (λ column h e.
              let k = h e in
              record { bytes = k.bytes; file = k.file; size = k.size; digest = k.digest })
            (c.held o n) (subst (λ y. y.bucket ≡ b.bucket) q e));
  }

  delete-Sound :
      (keys : List Text) (s : Store) → All Allowed keys → Sound s → Sound (delete b keys s).1
  unfolding delete
  delete-Sound keys s a c = elim (Bool-cases (ltb b.limits.max_batch_delete_keys (length keys))) [
    | inl e ↦ rw (delete, e) c
    | inr e ↦ rw (delete, e) (delete_keys-Consistent r b Allowed own outside keys s a c)
  ]

  abort-Sound :
      (u : R2MultipartUpload) (s : Store)
      → HasOwnDirectory b.base_dir u.upload_id
      → Sound s
      → Sound (abort b u s)
  unfolding abort
  abort-Sound u s d c = forget_upload-Sound u.upload_id s d c

  step-Sound :
      (s : Store) (op : Op) → OpAllowed b.base_dir Allowed op → Sound s → Sound (step r b s op)
  unfolding step
  step-Sound s (puts now version key value options) (k, whole) c =
      put-Sound now version key value options s k whole c
  step-Sound s (deletes keys) a c = delete-Sound keys s a c
  step-Sound s (sets_tags key tags) a c = set_tags-Sound key tags s c
  step-Sound s (creates now upload_id key options) a c = create-Sound now upload_id key options s c
  step-Sound s (uploads u part_number body) a c = upload_part-Sound u part_number body s a c
  step-Sound s (completes u now version parts) (k, d) c = complete-Sound u now version parts s k d c
  step-Sound s (aborts u) a c = abort-Sound u s a c

  run-Sound :
      (s : Store) (ops : List Op)
      → All (OpAllowed b.base_dir Allowed) ops
      → Sound s
      → Sound (run r b s ops)
  unfolding run
  run-Sound s [] a c = c
  run-Sound s (op ∷ ops) (first, a) c = run-Sound (step r b s op) ops a (step-Sound s op first c)

-- A body without a range is the whole file.
array_buffer_whole :
    (o : R2ObjectBody) (files : Files) (bytes : Bytes)
    → read_file o.file_path files ≡ some bytes
    → is_full_file o ≡ true
    → array_buffer o files ≡ some bytes
unfolding array_buffer
array_buffer_whole o files bytes e h = rw (array_buffer, e, h) refl

abbrev pub empty_store : Store
empty_store = record { objects = []; uploads = []; parts = []; files = [] }

-- After any calls on a bucket, one after the other, whose keys have files of their own outside the
-- directory of the parts, whose uploads are named by one segment of a path, as UUIDs are, and whose
-- puts are given no stream that breaks off (one that does leaves the row of the key with a file that
-- is partly written): every object that has a row has its file, a read of the whole object gives as
-- many bytes as the row says, and their MD5 is the one among the row's checksums, if it has any.
pub run-Held :
    (r : Runtime) (b : FileR2Bucket) (Allowed : Text → Type 0) (ops : List Op) (key : Text)
    (row : R2Row)
    → ((k l : Text)
        → Allowed k
        → Allowed l
        → file_path b.base_dir k ≡ file_path b.base_dir l
        → k ≡ l)
    → ((k : Text)
        → Allowed k
        → is_under (multipart_root b.base_dir) (file_path b.base_dir k) ≡ false)
    → All (OpAllowed b.base_dir Allowed) ops
    → get_row b key (run r b empty_store ops) ≡ some row
    → (bytes : Bytes) × (array_buffer (body_of b row.key row none) (run r b empty_store ops).files
        ≡ some bytes)
      × (length bytes ≡ row.size)
      × ((c : R2Checksums) → row.checksums ≡ some c → c.md5 ≡ some (r.md5 bytes))
run-Held r b Allowed ops key row own outside a e =
    let s = run r b empty_store ops in
    let start : Consistent r b Allowed own outside empty_store = record {
      allowed = λ x m. elim m [ ];
      held = λ x m. elim m [ ];
    } in
    let c = run-Sound r b Allowed own outside empty_store ops a start in
    let (m, is) = find-mem (is_object b key) s.objects row e in
    let h = c.held row m (
      (text_eq_iff row.bucket b.bucket).0
        ((and_iff (text_eq row.bucket b.bucket) (text_eq row.key key)).0 is).0) in
    (
      h.bytes,
      array_buffer_whole (body_of b row.key row none) s.files h.bytes h.file
          ((==_iff row.size row.size).1 refl),
      sym h.size,
      h.digest,
    )
