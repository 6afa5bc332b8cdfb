-- ===== src/Kv/Reads.antt =====
-- What reads return: a single read in terms of the live row of its key, and bulk reads in terms of single ones.
use lopata.Common.{
  ℕ, zero, suc, ◌+◌, ◌≤◌, ◌<◌, ◌≡◌, refl, ◌∙◌, ap, subst, ◌++◌, true, false, Option, none, some,
  List, [], ◌∷◌, All, All-map, Pairs, Text, ok, ◌>>=◌, arith, text_eq_refl, is_nil, Bool-cases,
  Option-cases, inl, inr, Result-cases, if◌then◌else◌,
}
use lopata.Kv.Keys.{Bytes, utf8}
use lopata.Kv.{
  Table, is_row, select_row, delete_row, Namespace, validate_key, is_expired, ValueType, Value,
  WithMetadata, PutValue, from_string, from_buffer, from_stream, concat, PutOptions, encode_value,
  expiration_of, is_before, new_row, put, insert_or_replace, check_metadata, validate_metadata,
  decode_value, decode_metadata, parse_json, get, get_with_metadata,
}
use lopata.Kv.Entries.{live_row, Distinct, select-insert, put-insert, truthy-expiration_of}
use lopata.Kv.Bulk.{map_get, found_value, found_with_metadata, bulk_get, bulk_get_with_metadata}
use lopata.Kv.Agreement.{read_row, bulk_read-Reads}

-- The table without the row of a key, where that row has expired.
abbrev pub sweep : ℕ → Text → Bytes → Table → Table
sweep now ns key db = elim (select_row ns key db) [
  | none ↦ db
  | some r ↦ if is_expired now r then delete_row ns key db else db
]

abbrev no_value : {J : Type 0} → WithMetadata J
no_value = record { value = none; metadata = none }

module _ {J : Type 0} (parse : Text → Option J) (stringify : J → Text) (decode : Bytes → Text)
    (kv : Namespace) (now : ℕ) (key : Bytes) (type : ValueType) (db : Table) where
  pub get_lem : get parse stringify decode kv now key type db ≡ (
      validate_key kv key >>= λ _.
      read_row (found_value parse stringify decode type) none (live_row now kv.namespace key db)
      >>= λ v. ok (v, sweep now kv.namespace key db))
  unfolding get
  get_lem = elim (Option-cases (select_row kv.namespace key db)) [
    | inl e ↦ rw (live_row, sweep, e) refl
    | inr (r, e) ↦ elim (Bool-cases (is_expired now r)) [
      | inl x ↦ rw (live_row, sweep, e) (rw x refl)
      | inr x ↦
          rw (live_row, sweep, e)
            (rw x (elim (Result-cases (decode_value parse stringify decode r.value type)) [
              | inl (er, y) ↦ rw y refl
              | inr (v, y) ↦ rw y refl
            ]))
    ]
  ]

  pub get_with_metadata_lem : get_with_metadata parse stringify decode kv now key type db ≡ (
      validate_key kv key >>= λ _.
      read_row
        (found_with_metadata parse stringify decode type)
        no_value
        (live_row now kv.namespace key db)
      >>= λ v. ok (v, sweep now kv.namespace key db))
  unfolding get_with_metadata
  get_with_metadata_lem = elim (Option-cases (select_row kv.namespace key db)) [
    | inl e ↦ rw (live_row, sweep, e) refl
    | inr (r, e) ↦ elim (Bool-cases (is_expired now r)) [
      | inl x ↦ rw (live_row, sweep, e) (rw x refl)
      | inr x ↦
          rw (live_row, sweep, e)
            (rw x (elim (Result-cases (decode_value parse stringify decode r.value type)) [
              | inl (er, y) ↦ rw y refl
              | inr (v, y) ↦
                  rw y (elim (Result-cases (decode_metadata parse stringify decode r.metadata)) [
                    | inl (er, z) ↦ rw z refl
                    | inr (m, z) ↦ rw z refl
                  ])
            ]))
    ]
  ]

module _ {J : Type 0} (parse : Text → Option J) (stringify : J → Text) (decode : Bytes → Text)
    (kv : Namespace) (now : ℕ) (keys : List Bytes) (type : ValueType) (db : Table) where
  -- In a table whose rows have different keys, a bulk read that returns has for each of its keys, those
  -- that occur twice included, exactly the value that a single read of that key returns at that time.
  pub bulk_get-agrees :
      (m : List (Bytes × Option (Value J))) (db' : Table)
      → Pairs Distinct db
      → bulk_get parse stringify decode kv now keys type db ≡ (ok m, db')
      → All
          (λ key.
            (v : Option (Value J)) × (map_get key m ≡ some v)
            × (get parse stringify decode kv now key type db
                ≡ ok (v, sweep now kv.namespace key db)))
          keys
  unfolding bulk_get
  bulk_get-agrees m db' d h =
      All-map
        (λ key (v, has, reads, valid).
          (v, has, get_lem parse stringify decode kv now key type db ∙ rw (valid, reads) refl))
        keys
        (bulk_read-Reads (found_value parse stringify decode type) none kv now db keys type m db' d
          h)

  -- In a table whose rows have different keys, a bulk read with metadata that returns has for each of its
  -- keys exactly the value and the metadata that a single read of that key returns at that time.
  pub bulk_get_with_metadata-agrees :
      (m : List (Bytes × WithMetadata J)) (db' : Table)
      → Pairs Distinct db
      → bulk_get_with_metadata parse stringify decode kv now keys type db ≡ (ok m, db')
      → All
          (λ key.
            (v : WithMetadata J) × (map_get key m ≡ some v)
            × (get_with_metadata parse stringify decode kv now key type db
                ≡ ok (v, sweep now kv.namespace key db)))
          keys
  unfolding bulk_get_with_metadata
  bulk_get_with_metadata-agrees m db' d h =
      All-map
        (λ key (v, has, reads, valid). (
          v,
          has,
          get_with_metadata_lem parse stringify decode kv now key type db ∙ rw (valid, reads) refl,
        ))
        keys
        (bulk_read-Reads (found_with_metadata parse stringify decode type) no_value kv now db keys
          type m db' d h)

module _ {J : Type 0} (parse : Text → Option J) (stringify : J → Text) (decode : Bytes → Text)
    (kv : Namespace) (parses : (j : J) → parse (stringify j) ≡ some j)
    (not_empty : (j : J) → is_nil (stringify j) ≡ false) where
  decode-some :
      (j : J) (s : Text)
      → is_nil s ≡ false
      → parse s ≡ some j
      → decode_metadata parse stringify decode (some s) ≡ ok (some j)
  unfolding decode_metadata parse_json
  decode-some j [] h e = absurd (ground arith)
  decode-some j (c ∷ s) h e = rw (parse_json, e) refl

  decode-check :
      (o : Option J) (m : Option Text)
      → check_metadata parse stringify decode kv o ≡ ok m
      → decode_metadata parse stringify decode m ≡ ok o
  unfolding check_metadata decode_metadata validate_metadata
  decode-check none m h =
      let same : none ≡ m = ground arith in
      subst (λ x. decode_metadata parse stringify decode x ≡ ok none) same refl
  decode-check (some j) m h =
      let same : some (stringify j) ≡ m = ground arith in
      subst (λ x. decode_metadata parse stringify decode x ≡ ok (some j)) same
        (decode-some j (stringify j) (not_empty j) (parses j))

-- The bytes of a stream: those of its first chunk, then those of the rest.
pub data Joined : List Bytes → Bytes → Type 0 where
  at_end : Joined [] []
  after :
      {chunk rest : Bytes} {chunks : List Bytes}
      → Joined chunks rest
      → Joined (chunk ∷ chunks) (chunk ++ rest)

-- The bytes of a value that is put.
pub data Holds : PutValue → Bytes → Type 0 where
  string_bytes : (s : Text) → Holds (from_string s) (utf8 s)
  buffer_bytes : (buffer : Bytes) → Holds (from_buffer buffer) buffer
  stream_bytes :
      {chunks : List Bytes} {bytes : Bytes} → Joined chunks bytes → Holds (from_stream chunks) bytes

-- The expiration that the options ask for: a time that is not 0, or else so long from now.
pub data Expires (now : ℕ) : (expiration ttl : Option ℕ) → ℕ → Type 0 where
  at_time : {t : ℕ} (ttl : Option ℕ) → 1 ≤ t → Expires now (some t) ttl t
  from_now : {ttl : ℕ} → 1 ≤ ttl → Expires now none (some ttl) (now + ttl)
  from_now_falsy : {ttl : ℕ} → 1 ≤ ttl → Expires now (some 0) (some ttl) (now + ttl)

concat-Joined : {chunks : List Bytes} {bytes : Bytes} → Joined chunks bytes → concat chunks ≡ bytes
concat-Joined at_end = refl
concat-Joined (after {chunk = chunk} rest) = ap (λ bytes. chunk ++ bytes) (concat-Joined rest)

encode_value-Holds :
    (value : PutValue) (blob : Bytes) → Holds value blob → encode_value value ≡ blob
unfolding encode_value
encode_value-Holds _ _ (string_bytes s) = refl
encode_value-Holds _ _ (buffer_bytes buffer) = refl
encode_value-Holds _ _ (stream_bytes joined) = concat-Joined joined

expiration_of-Expires :
    (now : ℕ) (expiration ttl : Option ℕ) (t : ℕ)
    → Expires now expiration ttl t
    → expiration_of now expiration ttl ≡ some t
expiration_of-Expires now _ _ _ (at_time {t = zero} ttl h) = absurd (omega (arith, h))
expiration_of-Expires now _ _ _ (at_time {t = suc t} ttl h) = refl
expiration_of-Expires now _ _ _ (from_now {ttl = zero} h) = absurd (omega (arith, h))
expiration_of-Expires now _ _ _ (from_now {ttl = suc ttl} h) = refl
expiration_of-Expires now _ _ _ (from_now_falsy {ttl = zero} h) = absurd (omega (arith, h))
expiration_of-Expires now _ _ _ (from_now_falsy {ttl = suc ttl} h) = refl

not_before :
    (now later : ℕ) (expiration ttl : Option ℕ)
    → ((t : ℕ) → Expires now expiration ttl t → later ≤ t)
    → is_before (expiration_of now expiration ttl) later ≡ false
not_before now later (some (suc t)) ttl h =
    let fits = h (suc t) (at_time ttl (omega arith)) in ground arith
not_before now later (some zero) (some (suc n)) h =
    let fits = h (now + suc n) (from_now_falsy (omega arith)) in ground arith
not_before now later (some zero) (some zero) h = refl
not_before now later (some zero) none h = refl
not_before now later none (some (suc n)) h =
    let fits = h (now + suc n) (from_now (omega arith)) in ground arith
not_before now later none (some zero) h = refl
not_before now later none none h = refl

module _ {J : Type 0} (parse : Text → Option J) (stringify : J → Text) (decode : Bytes → Text)
    (kv : Namespace) (now : ℕ) (key : Bytes) (value : PutValue) (o : PutOptions J)
    (db db' : Table) where
  put-select :
      (m : Option Text)
      → db' ≡ insert_or_replace (new_row parse stringify decode kv now key value o m) db
      → select_row kv.namespace key db' ≡ some (new_row parse stringify decode kv now key value o m)
  unfolding new_row
  put-select m e =
      let r = new_row parse stringify decode kv now key value o m in
      let here : is_row kv.namespace key r ≡ true =
        rw (text_eq_refl kv.namespace, text_eq_refl key) refl in
      rw e (select-insert kv.namespace key r db ∙ rw here refl)

  get_with_metadata-inserted :
      (later : ℕ) (type : ValueType)
      → ((j : J) → parse (stringify j) ≡ some j)
      → ((j : J) → is_nil (stringify j) ≡ false)
      → put parse stringify decode kv now key value o db ≡ ok db'
      → get_with_metadata parse stringify decode kv later key type db' ≡ (
          if is_before (expiration_of now o.expiration o.expiration_ttl) later
          then ok (record { value = none; metadata = none }, delete_row kv.namespace key db')
          else decode_value parse stringify decode (encode_value value) type >>= λ v.
              ok (record { value = some v; metadata = o.metadata }, db'))
  unfolding get_with_metadata new_row
  get_with_metadata-inserted later type parses not_empty h =
      let (m, checked, valid, e) = put-insert parse stringify decode kv now key value o db db' h in
      let meta = decode-check parse stringify decode kv parses not_empty o.metadata m checked in
      let expiry = truthy-expiration_of now o.expiration o.expiration_ttl in
      rw (valid, put-select m e)
        (elim (Bool-cases (is_before (expiration_of now o.expiration o.expiration_ttl) later)) [
          | inl x ↦ rw (expiry, x) refl
          | inr x ↦
              rw (expiry, x)
                (elim (Result-cases
                  (decode_value parse stringify decode (encode_value value) type)) [
                    | inl (er, y) ↦ rw y refl
                    | inr (v, y) ↦ rw (y, meta) refl
                  ])
        ])

  -- After a put that returns, a read of the key with the metadata gives null at any time after the
  -- expiration that the put asked for, be it a time or a time to live; at any time up to it, and for
  -- ever where none was asked for, it gives the value, decoded from all the bytes that were put, with
  -- the metadata that were put. JSON is taken to parse what it prints, and to print no value as the
  -- empty string.
  pub get_with_metadata-put :
      (later : ℕ) (type : ValueType) (blob : Bytes)
      → ((j : J) → parse (stringify j) ≡ some j)
      → ((j : J) → is_nil (stringify j) ≡ false)
      → Holds value blob
      → put parse stringify decode kv now key value o db ≡ ok db'
      → ((t : ℕ)
          → Expires now o.expiration o.expiration_ttl t
          → t < later
          → get_with_metadata parse stringify decode kv later key type db'
            ≡ ok (record { value = none; metadata = none }, delete_row kv.namespace key db'))
        × (((t : ℕ) → Expires now o.expiration o.expiration_ttl t → later ≤ t)
            → get_with_metadata parse stringify decode kv later key type db' ≡ (
                decode_value parse stringify decode blob type >>= λ v.
                ok (record { value = some v; metadata = o.metadata }, db')))
  get_with_metadata-put later type blob parses not_empty holds h =
      let read = get_with_metadata-inserted later type parses not_empty h in
      (
        λ t asked past.
            let late : is_before (some t) later ≡ true = ground arith in
            read ∙ rw (expiration_of-Expires now o.expiration o.expiration_ttl t asked, late) refl,
        λ unexpired.
            read
            ∙ rw
                (
                  not_before now later o.expiration o.expiration_ttl unexpired,
                  encode_value-Holds value blob holds,
                )
                refl,
      )
