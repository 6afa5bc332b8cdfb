-- ===== src/Kv/Entries.antt =====
-- What put, get and delete do to the entry of each key.
use lopata.Common.{
  ℕ, zero, suc, ◌+◌, ◌≤◌, ◌≡◌, refl, ◌↔◌, ◌∙◌, sym, subst, Bool, true, false, ◌&&◌, Option, none,
  some, [], ◌∷◌, ◌++◌, ltb, if◌then◌else◌, arith, Text, text_eq, text_eq_iff, codes, ok, inv-bind,
  length, Bool-cases, and_iff, inl, inr,
}
use lopata.Kv.Keys.{Bytes, utf8}
use lopata.Kv.{
  Row, Table, is_row, select_row, delete_row, insert_or_replace, Namespace, validate_key,
  validate_value, validate_ttl, truthy, is_expired, PutValue, PutOptions, encode_value,
  expiration_of, check_ttl, check_expiration, validate_metadata, check_metadata, put, new_row,
}

-- The entry of a key that a reader sees at a time.
abbrev pub live_row : ℕ → Text → Bytes → Table → Option Row
live_row now ns key db = elim (select_row ns key db) [
  | none ↦ none
  | some r ↦ if is_expired now r then none else some r
]

abbrev pub same_key : (ns : Text) (key : Bytes) (ns' : Text) (key' : Bytes) → Bool
same_key ns key ns' key' = text_eq ns' ns && text_eq key' key

-- Rows of different keys; the primary key of the table makes all its rows so.
abbrev pub Distinct : Row → Row → Type 0
Distinct r s = is_row r.namespace r.key s ≡ false

pub select-delete_same :
    (ns : Text) (key : Bytes) (db : Table) → select_row ns key (delete_row ns key db) ≡ none
select-delete_same ns key [] = refl
select-delete_same ns key (r ∷ db) = ground (arith, select-delete_same ns key db)

-- A row is of one key only.
pub is_row-other :
    (ns : Text) (key : Bytes) (ns' : Text) (key' : Bytes) (r : Row)
    → same_key ns key ns' key' ≡ false
    → is_row ns key r ≡ true
    → is_row ns' key' r ≡ false
is_row-other ns key ns' key' r other h = elim (Bool-cases (is_row ns' key' r)) [
  | inr e ↦ e
  | inl e ↦
      let (a, b) = (and_iff (text_eq r.namespace ns) (text_eq r.key key)).0 h in
      let (c, d) = (and_iff (text_eq r.namespace ns') (text_eq r.key key')).0 e in
      let same_ns : ns ≡ ns' =
        sym ((text_eq_iff r.namespace ns).0 a) ∙ (text_eq_iff r.namespace ns').0 c in
      let same : key ≡ key' = sym ((text_eq_iff r.key key).0 b) ∙ (text_eq_iff r.key key').0 d in
      let yes : same_key ns key ns' key' ≡ true =
        (and_iff (text_eq ns' ns) (text_eq key' key)).1
          ((text_eq_iff ns' ns).1 (sym same_ns), (text_eq_iff key' key).1 (sym same)) in
      absurd (ground arith)
]

pub select-delete_other :
    (ns : Text) (key : Bytes) (ns' : Text) (key' : Bytes) (db : Table)
    → same_key ns key ns' key' ≡ false
    → select_row ns key (delete_row ns' key' db) ≡ select_row ns key db
select-delete_other ns key ns' key' [] other = refl
select-delete_other ns key ns' key' (r ∷ db) other =
    ground
      (arith, select-delete_other ns key ns' key' db other, is_row-other ns key ns' key' r other)

select-snoc :
    (ns : Text) (key : Bytes) (db : Table) (r : Row)
    → select_row ns key db ≡ none
    → select_row ns key (db ++ (r ∷ [])) ≡ (if is_row ns key r then some r else none)
select-snoc ns key [] r h = refl
select-snoc ns key (x ∷ db) r h = ground (arith, select-snoc ns key db r)

select-snoc_other :
    (ns : Text) (key : Bytes) (db : Table) (r : Row)
    → is_row ns key r ≡ false
    → select_row ns key (db ++ (r ∷ [])) ≡ select_row ns key db
select-snoc_other ns key [] r h = ground arith
select-snoc_other ns key (x ∷ db) r h = ground (arith, select-snoc_other ns key db r)

-- INSERT OR REPLACE updates the table at one key.
pub select-insert :
    (ns : Text) (key : Bytes) (r : Row) (db : Table)
    → select_row ns key (insert_or_replace r db)
      ≡ (if same_key ns key r.namespace r.key then some r else select_row ns key db)
select-insert ns key r db = elim (Bool-cases (is_row ns key r)) [
  | inl e ↦
      let (a, b) = (and_iff (text_eq r.namespace ns) (text_eq r.key key)).0 e in
      let gone : select_row ns key (delete_row r.namespace r.key db) ≡ none =
        rw ((text_eq_iff r.namespace ns).0 a, (text_eq_iff r.key key).0 b)
          (select-delete_same ns key db) in
      select-snoc ns key (delete_row r.namespace r.key db) r gone ∙ rw e refl
  | inr e ↦
      select-snoc_other ns key (delete_row r.namespace r.key db) r e
      ∙ select-delete_other ns key r.namespace r.key db e
      ∙ rw e refl
]

module _ {J : Type 0} (parse : Text → Option J) (stringify : J → Text) (decode : Bytes → Text)
    (kv : Namespace) where
  -- What put demands.
  pub record Permitted (now : ℕ) (key : Bytes) (value : PutValue) (o : PutOptions J) : Type 0 where
    pub not_reserved :
        (text_eq key [] ≡ false)
        × (text_eq key (codes ".") ≡ false)
        × (text_eq key (codes "..") ≡ false)
    pub key_fits : length key ≤ kv.limits.max_key_size
    pub value_fits : length (encode_value value) ≤ kv.limits.max_value_size
    pub ttl_fits : (t : ℕ) → o.expiration_ttl ≡ some t → kv.limits.min_ttl ≤ t
    pub expiration_fits : (t : ℕ) → o.expiration ≡ some t → now + kv.limits.min_ttl ≤ t
    pub metadata_fits :
        (m : J) → o.metadata ≡ some m → length (utf8 (stringify m)) ≤ kv.limits.max_metadata_size

  validate_key-ok_iff :
      (key : Bytes)
      → (validate_key kv key ≡ ok tt) ↔ (
          (text_eq key [] ≡ false)
          × (text_eq key (codes ".") ≡ false)
          × (text_eq key (codes "..") ≡ false)
          × (length key ≤ kv.limits.max_key_size))
  unfolding validate_key
  validate_key-ok_iff key = ground arith

  validate_value-ok_iff :
      (blob : Bytes) → (validate_value kv blob ≡ ok tt) ↔ (length blob ≤ kv.limits.max_value_size)
  unfolding validate_value
  validate_value-ok_iff blob = ground arith

  check_ttl-ok_iff :
      (o : Option ℕ)
      → (check_ttl parse stringify decode kv o ≡ ok tt)
        ↔ ((t : ℕ) → o ≡ some t → kv.limits.min_ttl ≤ t)
  unfolding check_ttl validate_ttl
  check_ttl-ok_iff none = (λ h t e. absurd (ground arith), λ h. refl)
  check_ttl-ok_iff (some t) = (λ h t' e. ground arith, λ h. let fits = h t refl in ground arith)

  check_expiration-ok_iff :
      (now : ℕ) (o : Option ℕ)
      → (check_expiration parse stringify decode kv now o ≡ ok tt)
        ↔ ((t : ℕ) → o ≡ some t → now + kv.limits.min_ttl ≤ t)
  unfolding check_expiration
  check_expiration-ok_iff now none = (λ h t e. absurd (ground arith), λ h. refl)
  check_expiration-ok_iff now (some t) =
      (λ h t' e. ground arith, λ h. let fits = h t refl in ground arith)

  check_metadata-ok_iff :
      (o : Option J)
      → ((m : Option Text) × (check_metadata parse stringify decode kv o ≡ ok m))
        ↔ ((j : J) → o ≡ some j → length (utf8 (stringify j)) ≤ kv.limits.max_metadata_size)
  unfolding check_metadata validate_metadata
  check_metadata-ok_iff none = (λ h j e. absurd (ground arith), λ h. (none, refl))
  check_metadata-ok_iff (some j) =
      elim (Bool-cases (ltb kv.limits.max_metadata_size (length (utf8 (stringify j))))) [
        | inl big ↦ (
          λ (m, h) j' e. absurd (let g = rw big at h in ground arith),
          λ h. absurd (let fits = h j refl in ground arith),
        )
        | inr fits ↦ (
          λ h j' e.
              let same : j ≡ j' = ground arith in
              subst (λ k. length (utf8 (stringify k)) ≤ kv.limits.max_metadata_size) same
                (ground arith),
          λ h. (some (stringify j), rw fits refl),
        )
      ]

  -- A put returns exactly where the key, the value and the metadata fit the limits, the key is not
  -- reserved, and the time to live and the expiration that were given are not too soon.
  pub put-ok_iff :
      (now : ℕ) (key : Bytes) (value : PutValue) (o : PutOptions J) (db : Table)
      → ((db' : Table) × (put parse stringify decode kv now key value o db ≡ ok db'))
        ↔ Permitted now key value o
  unfolding put
  put-ok_iff now key value o db = (
    λ (db', h).
        let (_, a, h1) = inv-bind (validate_key kv key) _ h in
        let (_, b, h2) = inv-bind (validate_value kv (encode_value value)) _ h1 in
        let (_, c, h3) = inv-bind (check_ttl parse stringify decode kv o.expiration_ttl) _ h2 in
        let (_, d, h4) =
          inv-bind (check_expiration parse stringify decode kv now o.expiration) _ h3 in
        let (m, e, _) = inv-bind (check_metadata parse stringify decode kv o.metadata) _ h4 in
        let (n1, n2, n3, fits) = (validate_key-ok_iff key).0 a in
        record {
          not_reserved = (n1, n2, n3);
          key_fits = fits;
          value_fits = (validate_value-ok_iff (encode_value value)).0 b;
          ttl_fits = (check_ttl-ok_iff o.expiration_ttl).0 c;
          expiration_fits = (check_expiration-ok_iff now o.expiration).0 d;
          metadata_fits = (check_metadata-ok_iff o.metadata).0 (m, e);
        },
    λ p.
        let (n1, n2, n3) = p.not_reserved in
        let (m, e) = (check_metadata-ok_iff o.metadata).1 p.metadata_fits in
        (
          insert_or_replace (new_row parse stringify decode kv now key value o m) db,
          rw
              (
                (validate_key-ok_iff key).1 (n1, n2, n3, p.key_fits),
                (validate_value-ok_iff (encode_value value)).1 p.value_fits,
                (check_ttl-ok_iff o.expiration_ttl).1 p.ttl_fits,
                (check_expiration-ok_iff now o.expiration).1 p.expiration_fits,
                e,
              )
              refl,
        ),
  )

  -- The table after a put that returns.
  pub put-insert :
      (now : ℕ) (key : Bytes) (value : PutValue) (o : PutOptions J) (db db' : Table)
      → put parse stringify decode kv now key value o db ≡ ok db'
      → (m : Option Text) × (check_metadata parse stringify decode kv o.metadata ≡ ok m)
        × (validate_key kv key ≡ ok tt)
        × (db' ≡ insert_or_replace (new_row parse stringify decode kv now key value o m) db)
  unfolding put
  put-insert now key value o db db' h =
      let (_, a, h1) = inv-bind (validate_key kv key) _ h in
      let (_, b, h2) = inv-bind (validate_value kv (encode_value value)) _ h1 in
      let (_, c, h3) = inv-bind (check_ttl parse stringify decode kv o.expiration_ttl) _ h2 in
      let (_, d, h4) =
        inv-bind (check_expiration parse stringify decode kv now o.expiration) _ h3 in
      let (m, e, h5) = inv-bind (check_metadata parse stringify decode kv o.metadata) _ h4 in
      (m, e, a, ground arith)

truthy-later : (now n : ℕ) → truthy (some (now + suc n)) ≡ some (now + suc n)
truthy-later now n =
    let e : suc (now + n) ≡ now + suc n = omega arith in
    subst (λ k. truthy (some k) ≡ some k) e refl

-- An expiration that a put computes is never the falsy 0.
pub truthy-expiration_of :
    (now : ℕ) (e ttl : Option ℕ) → truthy (expiration_of now e ttl) ≡ expiration_of now e ttl
truthy-expiration_of now (some (suc t)) ttl = refl
truthy-expiration_of now (some zero) (some (suc n)) = truthy-later now n
truthy-expiration_of now (some zero) (some zero) = refl
truthy-expiration_of now (some zero) none = refl
truthy-expiration_of now none (some (suc n)) = truthy-later now n
truthy-expiration_of now none (some zero) = refl
truthy-expiration_of now none none = refl
