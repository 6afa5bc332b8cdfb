-- ===== src/Kv/History.antt =====
-- Any calls on any namespaces of one table keep what the listing relies on.
use lopata.Common.{
  ℕ, ◌≡◌, refl, Bool, false, not, Option, none, List, [], ◌∷◌, if◌then◌else◌, arith, keep, is_nil,
  All, All-map, All-keep, All-append, All-keep_test, Pairs, keep-Pairs, snoc-Pairs, Text,
  text_eq_iff, Result, throw, ok, ◌>>=◌, Bool-cases, inl, inr, is_nil, Option-cases, Result-cases,
}
use lopata.Kv.Keys.{Bytes}
use lopata.Kv.{
  Row, Table, is_row, select_row, delete_row, insert_or_replace, Namespace, Error, validate_key,
  truthy, is_expired, ValueType, PutValue, PutOptions, get, get_with_metadata, new_row, put, delete,
}
use lopata.Kv.Entries.{Distinct, put-insert, truthy-expiration_of}
use lopata.Kv.Reads.{sweep, get_lem, get_with_metadata_lem}
use lopata.Kv.Cursors.{Named}
use lopata.Kv.Bulk.{
  scan_rows, select_rows, bulk_read, found_value, found_with_metadata, bulk_get,
  bulk_get_with_metadata,
}
use lopata.Kv.Listing.{ListOptions, is_past, list}

-- The primary key, keys that the code accepts, and no expiration at 0.
pub record Inv (db : Table) : Type 0 where
  pub distinct : Pairs Distinct db
  pub named : All Named db
  pub timed : All (λ r. truthy r.expiration ≡ r.expiration) db

keep-Inv : (p : Row → Bool) (db : Table) → Inv db → Inv (keep p db)
keep-Inv p db v = record {
  distinct = keep-Pairs Distinct p db v.distinct;
  named = All-keep Named p db v.named;
  timed = All-keep (λ r. truthy r.expiration ≡ r.expiration) p db v.timed;
}

pub Distinct-symm : (r s : Row) → Distinct r s → Distinct s r
Distinct-symm r s h = elim (Bool-cases (is_row s.namespace s.key r)) [
  | inr e ↦ e
  | inl e ↦ absurd (
      ground (
        arith,
        text_eq_iff r.namespace s.namespace,
        text_eq_iff r.key s.key,
        text_eq_iff s.namespace r.namespace,
        text_eq_iff s.key r.key,
      ))
]

insert-Inv :
    (r : Row) (db : Table)
    → is_nil r.key ≡ false
    → truthy r.expiration ≡ r.expiration
    → Inv db
    → Inv (insert_or_replace r db)
insert-Inv r db named timed v =
    let w = keep-Inv (λ x. not (is_row r.namespace r.key x)) db v in
    let others = delete_row r.namespace r.key db in
    let apart : All (λ x. Distinct x r) others =
      All-map (λ x h. Distinct-symm r x (ground (arith, h))) others
        (All-keep_test (λ x. not (is_row r.namespace r.key x)) db) in
    record {
      distinct = snoc-Pairs Distinct others r apart w.distinct;
      named = All-append Named others (r ∷ []) w.named (named, tt);
      timed =
          All-append (λ x. truthy x.expiration ≡ x.expiration) others (r ∷ []) w.timed (timed, tt);
    }

scan_rows-Inv :
    (ns : Text) (now : ℕ) (rs row_map : List Row) (db : Table)
    → Inv db
    → Inv (scan_rows ns now rs row_map db).1
unfolding scan_rows
scan_rows-Inv ns now [] row_map db v = v
scan_rows-Inv ns now (r ∷ rs) row_map db v =
    scan_rows-Inv ns now rs (if is_expired now r then row_map else r ∷ row_map)
      (if is_expired now r then delete_row ns r.key db else db)
      (elim (Bool-cases (is_expired now r)) [
        | inl e ↦ rw e (keep-Inv (λ x. not (is_row ns r.key x)) db v)
        | inr e ↦ rw e v
      ])

named_if_valid : (kv : Namespace) (key : Bytes) → validate_key kv key ≡ ok tt → is_nil key ≡ false
unfolding validate_key
named_if_valid kv [] h = absurd (ground arith)
named_if_valid kv (b ∷ key) h = refl

-- The calls of one client after another.
pub data Op (J : Type 0) : Type 0 where
  gets gets_with_metadata : (kv : Namespace) (now : ℕ) (key : Bytes) (type : ValueType) → Op J
  bulk_gets bulk_gets_with_metadata :
      (kv : Namespace) (now : ℕ) (keys : List Bytes) (type : ValueType) → Op J
  puts : (kv : Namespace) (now : ℕ) (key : Bytes) (value : PutValue) (options : PutOptions J) → Op J
  deletes : (kv : Namespace) (key : Bytes) → Op J
  lists : (kv : Namespace) (now : ℕ) (options : ListOptions) → Op J

-- The table that a call leaves: a call that throws before it writes leaves the table as it was.
abbrev pub after_get : {A : Type 0} → Table → Result Error (A × Table) → Table
after_get db (throw error) = db
after_get db (ok (value, db')) = db'

abbrev pub after_put : Table → Result Error Table → Table
after_put db (throw error) = db
after_put db (ok db') = db'

module _ {J : Type 0} (parse : Text → Option J) (stringify : J → Text) (decode : Bytes → Text) where
  unfoldable pub step : Table → Op J → Table
  unfolding get get_with_metadata bulk_get bulk_get_with_metadata put delete list
  step db (gets kv now key type) = after_get db (get parse stringify decode kv now key type db)
  step db (gets_with_metadata kv now key type) =
      after_get db (get_with_metadata parse stringify decode kv now key type db)
  step db (bulk_gets kv now keys type) = (bulk_get parse stringify decode kv now keys type db).1
  step db (bulk_gets_with_metadata kv now keys type) =
      (bulk_get_with_metadata parse stringify decode kv now keys type db).1
  step db (puts kv now key value options) =
      after_put db (put parse stringify decode kv now key value options db)
  step db (deletes kv key) = delete kv key db
  step db (lists kv now options) = (list parse stringify decode kv now options db).1

  unfoldable pub run : Table → List (Op J) → Table
  unfolding step
  run db [] = db
  run db (op ∷ ops) = run (step db op) ops

  sweep-Inv : (now : ℕ) (ns : Text) (key : Bytes) (db : Table) → Inv db → Inv (sweep now ns key db)
  sweep-Inv now ns key db v = elim (Option-cases (select_row ns key db)) [
    | inl e ↦ rw (sweep, e) v
    | inr (r, e) ↦ elim (Bool-cases (is_expired now r)) [
      | inl x ↦ rw (sweep, e) (rw x (keep-Inv (λ s. not (is_row ns key s)) db v))
      | inr x ↦ rw (sweep, e) (rw x v)
    ]
  ]

  after_get-Inv :
      {A : Type 0} (valid : Result Error Unit) (read : Result Error A) (db swept : Table)
      → Inv db
      → Inv swept
      → Inv (after_get db (valid >>= λ _. read >>= λ v. ok (v, swept)))
  after_get-Inv (throw error) read db swept v w = v
  after_get-Inv (ok _) (throw error) db swept v w = v
  after_get-Inv (ok _) (ok value) db swept v w = w

  bulk_read-Inv :
      {B : Type 0} (found : Row → Result Error B) (missing : B) (kv : Namespace) (now : ℕ)
      (keys : List Bytes) (type : ValueType) (db : Table)
      → Inv db
      → Inv (bulk_read found missing kv now keys type db).1
  unfolding bulk_read
  bulk_read-Inv found missing kv now keys type db v =
      let swept = scan_rows-Inv kv.namespace now (select_rows kv.namespace keys db) [] db v in
      ground (arith, swept, v)

  put-Inv :
      (kv : Namespace) (now : ℕ) (key : Bytes) (value : PutValue) (o : PutOptions J) (db : Table)
      → Inv db
      → Inv (after_put db (put parse stringify decode kv now key value o db))
  unfolding new_row
  put-Inv kv now key value o db v =
      elim (Result-cases (put parse stringify decode kv now key value o db)) [
        | inl (error, e) ↦ rw e v
        | inr (db', e) ↦
            let (m, _, valid, shape) =
              put-insert parse stringify decode kv now key value o db db' e in
            rw (e, shape)
              (insert-Inv (new_row parse stringify decode kv now key value o m) db
                (named_if_valid kv key valid)
                (truthy-expiration_of now o.expiration o.expiration_ttl) v)
      ]

  step-Inv : (db : Table) (op : Op J) → Inv db → Inv (step db op)
  unfolding step delete list bulk_get bulk_get_with_metadata
  step-Inv db (gets kv now key type) v = rw (get_lem parse stringify decode kv now key type db) (
      after_get-Inv (validate_key kv key) _ db (sweep now kv.namespace key db) v
        (sweep-Inv now kv.namespace key db v))
  step-Inv db (gets_with_metadata kv now key type) v =
      rw (get_with_metadata_lem parse stringify decode kv now key type db) (
        after_get-Inv (validate_key kv key) _ db (sweep now kv.namespace key db) v
          (sweep-Inv now kv.namespace key db v))
  step-Inv db (bulk_gets kv now keys type) v =
      bulk_read-Inv (found_value parse stringify decode type) none kv now keys type db v
  step-Inv db (bulk_gets_with_metadata kv now keys type) v =
      bulk_read-Inv (found_with_metadata parse stringify decode type)
        (record { value = none; metadata = none }) kv now keys type db v
  step-Inv db (puts kv now key value options) v = put-Inv kv now key value options db v
  step-Inv db (deletes kv key) v = keep-Inv (λ r. not (is_row kv.namespace key r)) db v
  step-Inv db (lists kv now options) v = keep-Inv (λ r. not (is_past kv.namespace now r)) db v

  run_from-Inv : (db : Table) (ops : List (Op J)) → Inv db → Inv (run db ops)
  unfolding run
  run_from-Inv db [] v = v
  run_from-Inv db (op ∷ ops) v = run_from-Inv (step db op) ops (step-Inv db op v)

  -- Whatever calls are made, in whatever order, on whatever namespaces, the rows of the table have different
  -- keys, no key is empty, and no row has the expiration 0 that a read would take for none.
  pub run-Inv_table : (ops : List (Op J)) → Inv (run [] ops)
  run-Inv_table ops = run_from-Inv [] ops (record { distinct = tt; named = tt; timed = tt })
