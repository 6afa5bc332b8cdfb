-- ===== src/R2/Uploads.antt =====
-- The parts of an upload that a client sends to src/bindings/r2.ts, one after the other.
use lopata.Common.{
  ℕ, ◌≡◌, ap, ◌∙◌, subst, true, false, not, Option, none, some, List, [], ◌∷◌, ◌==◌, ==_iff,
  if◌then◌else◌, arith, Bool-cases, inl, inr, text_eq, text_eq_refl, and_iff,
}
use lopata.Kv.Keys.{Bytes}
use lopata.R2.{
  read_file, write_file, MultipartRow, MultipartPartRow, Store, Value, content, rejects,
}
use lopata.R2.Paths.{part_path, part_path-Apart}
use lopata.R2.Objects.{FileR2Bucket, Runtime}
use lopata.R2.Multipart.{R2MultipartUpload, find_upload, is_part, find_part, part_row, upload_part}
use lopata.R2.Files.{find-keep, read_file-write_file, read_file-write_file_other}

-- The parts that a client uploads, one after the other, each with its number.
abbrev pub upload_all :
    Runtime → FileR2Bucket → R2MultipartUpload → List (ℕ × Value) → Store → Store
upload_all r b u [] s = s
upload_all r b u (p ∷ puts) s = upload_all r b u puts (upload_part r b u p.0 p.1 s).1

-- The bytes that were uploaded last under a number, where that upload returned.
abbrev pub remember : (ℕ → Option Bytes) → ℕ × Value → ℕ → Option Bytes
remember known p n =
    if p.0 == n then (if rejects p.1 then none else some (content p.1)) else known n

abbrev pub last_from : (ℕ → Option Bytes) → List (ℕ × Value) → ℕ → Option Bytes
last_from known [] = known
last_from known (p ∷ puts) = last_from (remember known p) puts

abbrev pub last_uploaded : List (ℕ × Value) → ℕ → Option Bytes
last_uploaded puts = last_from (λ _. none) puts

newest :
    (known : ℕ → Option Bytes) (n : ℕ) (v : Value) (m : ℕ) (bytes : Bytes)
    → rejects v ≡ false
    → (n == m) ≡ true
    → remember known (n, v) m ≡ some bytes
    → content v ≡ bytes
newest known n v m bytes whole q k =
    let found : some (content v) ≡ some bytes = rw (q, whole) at k in ground arith

-- An upload that broke off has left nothing to be remembered under its number.
forgotten :
    (known : ℕ → Option Bytes) (n : ℕ) (v : Value) (m : ℕ) (bytes : Bytes)
    → rejects v ≡ true
    → remember known (n, v) m ≡ some bytes
    → (n == m) ≡ false
forgotten known n v m bytes broken k = elim (Bool-cases (n == m)) [
  | inr q ↦ q
  | inl q ↦ absurd (let nothing : none ≡ some bytes = rw (q, broken) at k in ground arith)
]

older :
    (known : ℕ → Option Bytes) (n : ℕ) (v : Value) (m : ℕ) (bytes : Bytes)
    → (n == m) ≡ false
    → remember known (n, v) m ≡ some bytes
    → known m ≡ some bytes
older known n v m bytes q k = rw q at k

module _ (r : Runtime) (b : FileR2Bucket) (u : R2MultipartUpload) where
  -- The store holds the parts that are known.
  pub record Holds (known : ℕ → Option Bytes) (s : Store) : Type 0 where
    pub upload : (row : MultipartRow) × (find_upload b u.upload_id s ≡ some row)
    pub row :
        (n : ℕ) (bytes : Bytes)
        → known n ≡ some bytes
        → find_part u.upload_id n s.parts ≡ some (part_row r b u.upload_id n bytes)
    pub file :
        (n : ℕ) (bytes : Bytes)
        → known n ≡ some bytes
        → read_file (part_path b.base_dir u.upload_id n) s.files ≡ some bytes

  is_part-other :
      (m n : ℕ) (row : MultipartPartRow)
      → (m == n) ≡ false
      → is_part u.upload_id n row ≡ true
      → not (is_part u.upload_id m row) ≡ true
  is_part-other m n row apart h =
      let (_, here) = (and_iff (text_eq row.upload_id u.upload_id) (row.part_number == n)).0 h in
      elim (Bool-cases (is_part u.upload_id m row)) [
        | inr e ↦ ap not e
        | inl e ↦ absurd (
            let (_, there) =
              (and_iff (text_eq row.upload_id u.upload_id) (row.part_number == m)).0 e in
            ground arith)
      ]

  -- The other parts keep their files.
  file-other :
      (known : ℕ → Option Bytes) (s : Store) (n : ℕ) (v : Value) (m : ℕ) (bytes : Bytes)
      → Holds known s
      → (n == m) ≡ false
      → remember known (n, v) m ≡ some bytes
      → read_file
          (part_path b.base_dir u.upload_id m)
          (write_file (part_path b.base_dir u.upload_id n) (content v) s.files)
        ≡ some bytes
  file-other known s n v m bytes h q k =
      read_file-write_file_other (part_path b.base_dir u.upload_id n)
        (part_path b.base_dir u.upload_id m) (content v) s.files
        (part_path-Apart b.base_dir u.upload_id n m
          (λ e. absurd (let hit = (==_iff n m).1 e in ground arith)))
      ∙ h.file m bytes (older known n v m bytes q k)

  broken_part-Holds :
      (known : ℕ → Option Bytes) (s : Store) (n : ℕ) (v : Value)
      → rejects v ≡ true
      → Holds known s
      → Holds (remember known (n, v)) (upload_part r b u n v s).1
  unfolding upload_part
  broken_part-Holds known s n v broken h =
      let (upload, e) = h.upload in
      rw (upload_part, e, broken)
        (record {
          upload = (upload, e);
          row = λ m bytes k.
              h.row m bytes (older known n v m bytes (forgotten known n v m bytes broken k) k);
          file = λ m bytes k.
              file-other known s n v m bytes h (forgotten known n v m bytes broken k) k;
        })

  whole_part-Holds :
      (known : ℕ → Option Bytes) (s : Store) (n : ℕ) (v : Value)
      → rejects v ≡ false
      → Holds known s
      → Holds (remember known (n, v)) (upload_part r b u n v s).1
  unfolding upload_part
  whole_part-Holds known s n v whole h =
      let (upload, e) = h.upload in
      rw (upload_part, e, whole)
        (record {
          upload = (upload, e);
          row = λ m bytes k. elim (Bool-cases (n == m)) [
            | inl q ↦
                let id = text_eq_refl u.upload_id in
                let same = (==_iff n m).0 q in
                let now : content v ≡ bytes = newest known n v m bytes whole q k in
                rw (find_part, id, q)
                  (subst
                    (λ x.
                      some (part_row r b u.upload_id n (content v))
                      ≡ some (part_row r b u.upload_id m x))
                    now (ap (λ i. some (part_row r b u.upload_id i (content v))) same))
            | inr q ↦
                let id = text_eq_refl u.upload_id in
                rw (find_part, id, q)
                  (find-keep (is_part u.upload_id m) (λ p. not (is_part u.upload_id n p)) s.parts
                      (λ p here. is_part-other n m p q here)
                    ∙ h.row m bytes (older known n v m bytes q k))
          ];
          file = λ m bytes k. elim (Bool-cases (n == m)) [
            | inl q ↦
                let same = (==_iff n m).0 q in
                subst
                  (λ i.
                    read_file (part_path b.base_dir u.upload_id i)
                      (write_file (part_path b.base_dir u.upload_id n) (content v) s.files)
                    ≡ some bytes)
                  same
                  (read_file-write_file (part_path b.base_dir u.upload_id n) (content v) s.files
                    ∙ ap some (newest known n v m bytes whole q k))
            | inr q ↦ file-other known s n v m bytes h q k
          ];
        })

  upload_part-Holds :
      (known : ℕ → Option Bytes) (s : Store) (n : ℕ) (v : Value)
      → Holds known s
      → Holds (remember known (n, v)) (upload_part r b u n v s).1
  upload_part-Holds known s n v h = elim (Bool-cases (rejects v)) [
    | inl broken ↦ broken_part-Holds known s n v broken h
    | inr whole ↦ whole_part-Holds known s n v whole h
  ]

  pub upload_all-Holds :
      (known : ℕ → Option Bytes) (s : Store) (puts : List (ℕ × Value))
      → Holds known s
      → Holds (last_from known puts) (upload_all r b u puts s)
  upload_all-Holds known s [] h = h
  upload_all-Holds known s (p ∷ puts) h =
      upload_all-Holds (remember known p) (upload_part r b u p.0 p.1 s).1 puts
        (upload_part-Holds known s p.0 p.1 h)
