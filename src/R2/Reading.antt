-- ===== src/R2/Reading.antt =====
-- What a read through src/bindings/r2.ts gives, in terms of the bytes that were put.
use lopata.Common.{
  take-long, ℕ, zero, suc, ◌+◌, ◌-◌, ◌≡◌, refl, sym, ap, ◌∙◌, subst, true, false, ◌&&◌, Option,
  none, some, [], ◌∷◌, ltb, leb, ◌==◌, ==_iff, length, take, drop, length-drop, arith, Bool-cases,
  Option-cases, Result-cases, Result, throw, ok, ◌>>=◌, inl, inr, Text, text_eq_iff, text_eq_refl,
  and_iff,
}
use lopata.Kv.Keys.{Bytes}
use lopata.R2.{
  Files, read_file, R2Row, Store, Length, exactly, below_zero, R2Object, R2Range, minus, or_zero,
  resolve_range, Value, content, rejects,
}
use lopata.R2.Paths.{file_path}
use lopata.R2.Objects.{
  FileR2Bucket, Runtime, Error, validate_key, validate_custom_metadata, get_row, R2PutOptions,
  is_blocked, stream_failed, put_row, put_object, store_bytes, put, R2ObjectBody, found, body_of,
  get, slice_end, is_full_file, array_buffer,
}
use lopata.R2.Files.{read_file-write_file}

-- The bytes that a range asks for, with no clamping.
abbrev pub part_of : R2Range → Bytes → Bytes
part_of range bytes = elim range.suffix [
  | some suffix ↦ drop (length bytes - suffix) bytes
  | none ↦ elim range.length [
    | none ↦ drop (or_zero range.offset) bytes
    | some n ↦ take n (drop (or_zero range.offset) bytes)
  ]
]

abbrev pub asked : Option R2Range → Bytes → Bytes
asked none bytes = bytes
asked (some range) bytes = part_of range bytes

take-nil : (n : ℕ) → take {A = ℕ} n [] ≡ []
take-nil zero = refl
take-nil (suc n) = refl

drop-take : (o n : ℕ) (bytes : Bytes) → drop o (take (o + n) bytes) ≡ take n (drop o bytes)
drop-take zero n bytes = ap (λ k. take k bytes) (omega arith)
drop-take (suc o) n [] = let e : suc o + n ≡ suc (o + n) = omega arith in rw e (sym (take-nil n))
drop-take (suc o) n (c ∷ bytes) =
    let e : suc o + n ≡ suc (o + n) = omega arith in rw e (drop-take o n bytes)

abbrev slice : ℕ × Length → Bytes → Bytes
slice resolved bytes = drop resolved.0 (take (slice_end resolved.0 resolved.1) bytes)

slice-minus : (o : ℕ) (bytes : Bytes) → slice (o, minus (length bytes) o) bytes ≡ drop o bytes
slice-minus o bytes = elim (Bool-cases (leb o (length bytes))) [
  | inl e ↦ rw e (ap (drop o) (take-long (o + (length bytes - o)) bytes (ground arith)))
  | inr e ↦ rw e (ap (drop o) (take-long (o - (o - length bytes)) bytes (ground arith)))
]

slice-resolve_range :
    (range : R2Range) (bytes : Bytes)
    → slice (resolve_range (length bytes) range) bytes ≡ part_of range bytes
unfolding resolve_range
slice-resolve_range range bytes = elim (Option-cases range.suffix) [
  | inr (n, e) ↦
      rw (resolve_range, e)
        (ap (drop (length bytes - n))
          (take-long (length bytes - n + (length bytes - (length bytes - n))) bytes (omega arith)))
  | inl e ↦ elim (Option-cases range.length) [
    | inl f ↦ rw (resolve_range, e, f) (slice-minus (or_zero range.offset) bytes)
    | inr (n, f) ↦ elim (Bool-cases (ltb (length bytes) (or_zero range.offset + n))) [
      | inl g ↦
          rw (resolve_range, e, f, g)
            (slice-minus (or_zero range.offset) bytes
              ∙ sym (
                  take-long n (drop (or_zero range.offset) bytes)
                    (let rest = length-drop (or_zero range.offset) bytes in ground arith)))
      | inr g ↦ rw (resolve_range, e, f, g) (drop-take (or_zero range.offset) n bytes)
    ]
  ]
]

full-slice :
    (offset : ℕ) (n : Length) (total : ℕ) (bytes : Bytes)
    → elim n [ exactly k ↦ (offset == 0) && (k == total) | below_zero k ↦ false ] ≡ true
    → total ≡ length bytes
    → bytes ≡ slice (offset, n) bytes
full-slice offset (below_zero k) total bytes h size = absurd (ground arith)
full-slice offset (exactly k) total bytes h size =
    let (at_start, whole) = (and_iff (offset == 0) (k == total)).0 h in
    let zero_offset : offset ≡ 0 = (==_iff offset 0).0 at_start in
    let same : k ≡ length bytes = (==_iff k total).0 whole ∙ size in
    rw (zero_offset, same) (sym (take-long (0 + length bytes) bytes (omega arith)))

array_buffer_lem :
    (o : R2ObjectBody) (files : Files) (bytes : Bytes)
    → read_file o.file_path files ≡ some bytes
    → o.total_size ≡ length bytes
    → array_buffer o files ≡ some (slice (o.range_offset, o.range_length) bytes)
unfolding array_buffer
array_buffer_lem o files bytes e size = elim (Bool-cases (is_full_file o)) [
  | inr h ↦ rw (array_buffer, e, h) refl
  | inl h ↦
      rw (array_buffer, e, h)
        (ap some (full-slice o.range_offset o.range_length o.total_size bytes h size))
]

get_row-insert :
    (b : FileR2Bucket) (row : R2Row) (bytes : Bytes) (s : Store)
    → row.bucket ≡ b.bucket
    → get_row b row.key (store_bytes b row bytes s) ≡ some row
get_row-insert b row bytes s e =
    let same = (text_eq_iff row.bucket b.bucket).1 e in
    let key = text_eq_refl row.key in rw (get_row, same, key) refl

-- A read of a stored object without a condition gives the bytes of its file that the range asks for.
get-stored :
    (b : FileR2Bucket) (row : R2Row) (bytes : Bytes) (s : Store) (range : Option R2Range)
    → row.bucket ≡ b.bucket
    → row.size ≡ length bytes
    → (get b row.key (record { only_if = none; range = range }) (store_bytes b row bytes s)
        ≡ found (body_of b row.key row range))
      × (array_buffer (body_of b row.key row range) (store_bytes b row bytes s).files
          ≡ some (asked range bytes))
unfolding get
get-stored b row bytes s range e size =
    let stored = get_row-insert b row bytes s e in (rw (get, stored) refl, body range)
  where
    body :
        (range : Option R2Range)
        → array_buffer (body_of b row.key row range) (store_bytes b row bytes s).files
          ≡ some (asked range bytes)
    body none =
        array_buffer_lem (body_of b row.key row none) (store_bytes b row bytes s).files bytes
          (read_file-write_file (file_path b.base_dir row.key) bytes s.files) size
        ∙ ap some (rw size (take-long (0 + length bytes) bytes (omega arith)))
    body (some range) =
        array_buffer_lem (body_of b row.key row (some range)) (store_bytes b row bytes s).files
          bytes (read_file-write_file (file_path b.base_dir row.key) bytes s.files) size
        ∙ ap some (rw size (slice-resolve_range range bytes))

-- A put that returns an object has stored the value.
pub put-stored :
    (r : Runtime) (b : FileR2Bucket) (now : ℕ) (version key : Text) (value : Value)
    (options : R2PutOptions) (s s' : Store) (object : R2Object)
    → put r b now version key value options s ≡ (ok (some object), s')
    → (put_object r b now version key (content value) options ≡ object)
      × (store_bytes b (put_row r b now version key (content value) options) (content value) s ≡ s')
unfolding put
put-stored r b now version key value options s s' object h =
    elim (Result-cases
      (validate_key b key >>= λ _. validate_custom_metadata r b options.custom_metadata)) [
        | inl (e, v) ↦ absurd (
            let bad : throw e ≡ ok (some object) = ap (λ x. x.0) (rw (put, v) at h) in ground arith)
        | inr (yes_, v) ↦ elim (Bool-cases (is_blocked b key options.only_if s)) [
          | inl blocked ↦ absurd (
              let empty : Result Error (Option R2Object) = ok none in
              let bad : empty ≡ ok (some object) = ap (λ x. x.0) (rw (put, v, blocked) at h) in
              ground arith)
          | inr free ↦ elim (Bool-cases (rejects value)) [
            | inl broken ↦ absurd (
                let bad : throw stream_failed ≡ ok (some object) =
                  ap (λ x. x.0) (rw (put, v, free, broken) at h) in
                ground arith)
            | inr whole ↦
                let stored = rw (put, v, free, whole) at h in
                let first = ap (λ x. x.0) stored in
                (
                  (let same : put_object r b now version key (content value) options ≡ object =
                        ground arith in
                      same),
                  ap (λ x. x.1) stored,
                )
          ]
        ]
      ]

-- After a put that stores its value, a read of the key without a condition and with any range gives the
-- bytes of the value that the range asks for, where a longer range ends with the value, and the object that
-- the put returned has the number of these bytes and their MD5.
pub array_buffer-put :
    (r : Runtime) (b : FileR2Bucket) (now : ℕ) (version key : Text) (value : Value)
    (options : R2PutOptions) (s s' : Store) (object : R2Object) (range : Option R2Range)
    → put r b now version key value options s ≡ (ok (some object), s')
    → (object.size ≡ length (content value))
      × (object.etag ≡ r.md5 (content value))
      × ((body : R2ObjectBody) × (get b key (record { only_if = none; range = range }) s'
            ≡ found body)
          × (array_buffer body s'.files ≡ some (asked range (content value))))
unfolding put
array_buffer-put r b now version key value options s s' object range h =
    let (same_object, same_store) = put-stored r b now version key value options s s' object h in
    let row = put_row r b now version key (content value) options in
    let (got, read) = get-stored b row (content value) s range refl refl in
    (
      sym (ap (λ o. o.size) same_object),
      sym (ap (λ o. o.etag) same_object),
      (
        body_of b key row range,
        subst
            (λ x.
              get b key (record { only_if = none; range = range }) x
              ≡ found (body_of b key row range))
            same_store got,
        subst
            (λ x.
              array_buffer (body_of b key row range) x.files ≡ some (asked range (content value)))
            same_store read,
      ),
    )
