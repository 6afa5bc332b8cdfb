-- ===== src/Kv/Unseen.antt =====
-- The calls of src/bindings/kv.ts that only read change no entry that a reader finds.
use lopata.Common.{
  ℕ, ◌≤◌, ◌≡◌, refl, ◌∙◌, sym, ap, subst, true, not, Option, none, some, List, [], arith, ltb, All,
  All-map, All-keep, Pairs, Text, text_eq, Result, throw, ok, ◌>>=◌, Bool-cases, inl, inr, and_iff,
  All-keep_test, any, is_nil, length, Result-cases, ◌⊎◌,
}
use lopata.Kv.Keys.{Bytes}
use lopata.Kv.{Row, Table, Namespace, Error, validate_key, is_before, ValueType}
use lopata.Kv.Entries.{Distinct, live_row}
use lopata.Kv.Reads.{sweep, get_lem, get_with_metadata_lem}
use lopata.Kv.Bulk.{
  validate_keys, is_type_supported, scan_rows, select_rows, is_selected, bulk_read, bulk_get,
  bulk_get_with_metadata, found_value, found_with_metadata,
}
use lopata.Kv.Listing.{is_past, delete_expired, list}
use lopata.Kv.History.{
  Inv, after_get, Op, gets, gets_with_metadata, bulk_gets, bulk_gets_with_metadata, puts, deletes,
  lists, step,
}
use lopata.Kv.Expiry.{keep-live, Twins, Twins-All, sweep-live, scan_rows-live}

selected-namespace :
    (ns : Text) (keys : List Bytes) (db : Table)
    → All (λ r. text_eq r.namespace ns ≡ true) (select_rows ns keys db)
selected-namespace ns keys db =
    All-map (λ r h. ((and_iff (text_eq r.namespace ns) (any (λ k. text_eq r.key k) keys)).0 h).0)
      (select_rows ns keys db) (All-keep_test (is_selected ns keys) db)

after_get-live :
    {A : Type 0} (valid : Result Error Unit) (read : Result Error A) (db swept : Table) (later : ℕ)
    (ns : Text) (key : Bytes)
    → live_row later ns key swept ≡ live_row later ns key db
    → live_row later ns key (after_get db (valid >>= λ _. read >>= λ v. ok (v, swept)))
      ≡ live_row later ns key db
after_get-live (throw error) read db swept later ns key h = refl
after_get-live (ok _) (throw error) db swept later ns key h = refl
after_get-live (ok _) (ok v) db swept later ns key h = h

-- A bulk read leaves the table, or what its first loop leaves.
bulk_read-table :
    {B : Type 0} (found : Row → Result Error B) (missing : B) (kv : Namespace) (now : ℕ)
    (keys : List Bytes) (type : ValueType) (db : Table)
    → ((bulk_read found missing kv now keys type db).1 ≡ db)
      ⊎ ((bulk_read found missing kv now keys type db).1
          ≡ (scan_rows kv.namespace now (select_rows kv.namespace keys db) [] db).1)
unfolding bulk_read
bulk_read-table found missing kv now keys type db =
    elim (Bool-cases (ltb kv.limits.max_bulk_get_keys (length keys))) [
      | inl e ↦ rw e (inl refl)
      | inr e ↦ elim (Result-cases (validate_keys kv keys)) [
        | inl (error, v) ↦ rw (e, v) (inl refl)
        | inr (_, v) ↦ elim (Bool-cases (is_type_supported type)) [
          | inr t ↦ rw (e, v, t) (inl refl)
          | inl t ↦ elim (Bool-cases (is_nil keys)) [
            | inl n ↦ rw (e, v, t, n) (inl refl)
            | inr n ↦ rw (e, v, t, n) (inr refl)
          ]
        ]
      ]
    ]

bulk_read-live :
    {B : Type 0} (found : Row → Result Error B) (missing : B) (kv : Namespace) (now : ℕ)
    (keys : List Bytes) (type : ValueType) (db : Table) (later : ℕ) (ns : Text) (key : Bytes)
    → Pairs Distinct db
    → now ≤ later
    → live_row later ns key (bulk_read found missing kv now keys type db).1
      ≡ live_row later ns key db
bulk_read-live found missing kv now keys type db later ns key d le =
    let swept =
      scan_rows-live kv.namespace now later ns key (select_rows kv.namespace keys db) [] db d le
        (selected-namespace kv.namespace keys db)
        (All-keep (Twins now db) (is_selected kv.namespace keys) db (Twins-All now db d)) in
    elim (bulk_read-table found missing kv now keys type db) [
      | inl same ↦ ap (live_row later ns key) same
      | inr scanned ↦ ap (live_row later ns key) scanned ∙ swept
    ]

-- The time of a call that only reads.
abbrev pub read_time : {J : Type 0} → Op J → Option ℕ
read_time (gets kv now key type) = some now
read_time (gets_with_metadata kv now key type) = some now
read_time (bulk_gets kv now keys type) = some now
read_time (bulk_gets_with_metadata kv now keys type) = some now
read_time (lists kv now options) = some now
read_time (puts kv now key value options) = none
read_time (deletes kv key) = none

delete_expired-live :
    (db : Table) (now later : ℕ) (ns' ns : Text) (key : Bytes)
    → Inv db
    → now ≤ later
    → live_row later ns key (delete_expired ns' now db) ≡ live_row later ns key db
delete_expired-live db now later ns' ns key v le =
    keep-live (λ r. not (is_past ns' now r)) db now later ns key v.distinct le
      (All-map
        (λ r timed gone.
          let past : is_before r.expiration now ≡ true = ground arith in
          subst (λ e. is_before e now ≡ true) (sym timed) past)
        db v.timed)

module _ {J : Type 0} (parse : Text → Option J) (stringify : J → Text) (decode : Bytes → Text) where
  -- In the tables that calls can leave, a call that only reads, single, in bulk or a listing, of whatever namespace,
  -- may delete expired rows, but for every namespace and key the entry that a read finds at the same
  -- time or later stays what it was.
  pub step-live :
      (db : Table) (op : Op J) (now later : ℕ) (ns : Text) (key : Bytes)
      → Inv db
      → read_time op ≡ some now
      → now ≤ later
      → live_row later ns key (step parse stringify decode db op) ≡ live_row later ns key db
  unfolding step list bulk_get bulk_get_with_metadata
  step-live db (gets kv at k type) now later ns key v h le =
      let le' : at ≤ later = ground arith in
      ap (λ t. live_row later ns key (after_get db t))
        (get_lem parse stringify decode kv at k type db)
      ∙ after_get-live (validate_key kv k) _ db (sweep at kv.namespace k db) later ns key
          (sweep-live db at later ns key kv.namespace k v.distinct le')
  step-live db (gets_with_metadata kv at k type) now later ns key v h le =
      let le' : at ≤ later = ground arith in
      ap (λ t. live_row later ns key (after_get db t))
        (get_with_metadata_lem parse stringify decode kv at k type db)
      ∙ after_get-live (validate_key kv k) _ db (sweep at kv.namespace k db) later ns key
          (sweep-live db at later ns key kv.namespace k v.distinct le')
  step-live db (bulk_gets kv at keys type) now later ns key v h le =
      bulk_read-live (found_value parse stringify decode type) none kv at keys type db later ns key
        v.distinct (ground arith)
  step-live db (bulk_gets_with_metadata kv at keys type) now later ns key v h le =
      bulk_read-live (found_with_metadata parse stringify decode type)
        (record { value = none; metadata = none }) kv at keys type db later ns key v.distinct
        (ground arith)
  step-live db (lists kv at options) now later ns key v h le =
      delete_expired-live db at later kv.namespace ns key v (ground arith)
  step-live db (puts kv at k value options) now later ns key v h le = absurd (ground arith)
  step-live db (deletes kv k) now later ns key v h le = absurd (ground arith)
