-- ===== src/Kv/Agreement.antt =====
-- A bulk read gives for each key what a single read of it gives.
use lopata.Common.{
  ℕ, ◌≡◌, refl, ◌∙◌, sym, ap, subst, Bool, true, false, not, ◌&&◌, Option, none, some, List, [],
  ◌∷◌, if◌then◌else◌, find, any, All, All-map, Pairs, Text, text_eq, text_eq_iff, text_eq_refl,
  Result, ok, inv-bind, arith, Bool-cases, inl, inr, and_iff, or_iff, All-keep_test, keep-Pairs,
  All-both,
}
use lopata.Kv.Keys.{Bytes}
use lopata.Kv.{
  Row, Table, is_row, delete_row, Namespace, Error, validate_key, is_expired, ValueType,
}
use lopata.Kv.Entries.{live_row, Distinct}
use lopata.Kv.Filling.{fill-Good}
use lopata.Kv.Bulk.{
  is_selected, select_rows, scan_rows, map_row, validate_keys, map_get, entry, fill, bulk_read,
}

-- A row that a single read of the key would return.
abbrev pub is_live : Text → ℕ → Bytes → Row → Bool
is_live ns now key r = is_row ns key r && not (is_expired now r)

find_twin :
    (ns : Text) (now : ℕ) (key : Bytes) (r : Row) (rs : List Row)
    → is_row ns key r ≡ true
    → All (Distinct r) rs
    → find (is_live ns now key) rs ≡ none
find_twin ns now key r [] h d = refl
find_twin ns now key r (s ∷ rs) h (first, d) =
    let (a, b) = (and_iff (text_eq r.namespace ns) (text_eq r.key key)).0 h in
    let other : is_row ns key s ≡ false =
      subst (λ n. (text_eq s.namespace n && text_eq s.key key) ≡ false)
        ((text_eq_iff r.namespace ns).0 a)
        (subst (λ k. (text_eq s.namespace r.namespace && text_eq s.key k) ≡ false)
          ((text_eq_iff r.key key).0 b) first) in
    ground (arith, find_twin ns now key r rs h d)

pub live_row-find :
    (ns : Text) (now : ℕ) (key : Bytes) (db : Table)
    → Pairs Distinct db
    → live_row now ns key db ≡ find (is_live ns now key) db
live_row-find ns now key [] d = refl
live_row-find ns now key (r ∷ db) (first, d) =
    ground (arith, live_row-find ns now key db d, find_twin ns now key r db)

-- The rows of the namespace that a bulk read selects have the same live row for its keys.
selected-live :
    (ns : Text) (now : ℕ) (key : Bytes) (keys : List Bytes) (db : Table)
    → any (λ k. text_eq key k) keys ≡ true
    → find (is_live ns now key) (select_rows ns keys db) ≡ find (is_live ns now key) db
selected-live ns now key keys [] m = refl
selected-live ns now key keys (r ∷ db) m = elim (Bool-cases (is_row ns key r)) [
  | inl e ↦
      let (a, b) = (and_iff (text_eq r.namespace ns) (text_eq r.key key)).0 e in
      let among : any (λ k. text_eq r.key k) keys ≡ true =
        subst (λ x. any (λ k. text_eq x k) keys ≡ true) (sym ((text_eq_iff r.key key).0 b)) m in
      ground (arith, selected-live ns now key keys db m)
  | inr e ↦ ground (arith, selected-live ns now key keys db m)
]

scan_rows-map_row :
    (ns : Text) (now : ℕ) (key : Bytes) (rs row_map : List Row) (db : Table)
    → All (λ r. text_eq r.namespace ns ≡ true) rs
    → Pairs Distinct rs
    → map_row key (scan_rows ns now rs row_map db).0
      ≡ (elim (find (is_live ns now key) rs) [ none ↦ map_row key row_map | some r ↦ some r ])
unfolding scan_rows
scan_rows-map_row ns now key [] row_map db n d = refl
scan_rows-map_row ns now key (r ∷ rs) row_map db (e, n) (first, d) = ground (
  arith,
  scan_rows-map_row ns now key rs (if is_expired now r then row_map else r ∷ row_map)
      (if is_expired now r then delete_row ns r.key db else db) n d,
  find_twin ns now key r rs,
)

-- What a read makes of a row that may be missing.
abbrev pub read_row : {B : Type 0} → (Row → Result Error B) → B → Option Row → Result Error B
read_row found missing none = ok missing
read_row found missing (some r) = found r

option_self : (o : Option Row) → (elim o as (λ _. Option Row) [ none ↦ none | some r ↦ some r ]) ≡ o
option_self none = refl
option_self (some r) = refl

read_row_self :
    {B : Type 0} (found : Row → Result Error B) (missing : B) (o : Option Row)
    → (elim o as (λ _. Result Error B) [ none ↦ ok missing | some r ↦ found r ])
      ≡ read_row found missing o
read_row_self found missing none = refl
read_row_self found missing (some r) = refl

selected-All :
    (ns : Text) (keys : List Bytes) (db : Table)
    → All (λ r. text_eq r.namespace ns ≡ true) (select_rows ns keys db)
selected-All ns keys db =
    All-map (λ r h. ((and_iff (text_eq r.namespace ns) (any (λ k. text_eq r.key k) keys)).0 h).0)
      (select_rows ns keys db) (All-keep_test (is_selected ns keys) db)

validate_keys-All :
    (kv : Namespace) (keys : List Bytes)
    → validate_keys kv keys ≡ ok tt
    → All (λ k. validate_key kv k ≡ ok tt) keys
unfolding validate_keys
validate_keys-All kv [] h = tt
validate_keys-All kv (k ∷ keys) h =
    let (_, first, rest) = inv-bind (validate_key kv k) _ h in
    (first, validate_keys-All kv keys rest)

among_self :
    (keys all : List Bytes)
    → All (λ k. any (λ x. text_eq k x) all ≡ true) keys
    → (k : Bytes) → All (λ k'. any (λ x. text_eq k' x) (k ∷ all) ≡ true) keys
among_self keys all h k =
    All-map (λ k' e. (or_iff (text_eq k' k) (any (λ x. text_eq k' x) all)).1 (inr e)) keys h

pub All-among : (keys : List Bytes) → All (λ k. any (λ x. text_eq k x) keys ≡ true) keys
All-among [] = tt
All-among (k ∷ keys) = (
  (or_iff (text_eq k k) (any (λ x. text_eq k x) keys)).1 (inl (text_eq_refl k)),
  among_self keys keys (All-among keys) k,
)

module _ {B : Type 0} (found : Row → Result Error B) (missing : B) (kv : Namespace) (now : ℕ)
    (db : Table) where
  -- The Map has for the key what the row makes that a single read would find.
  abbrev pub Reads : List (Bytes × B) → Bytes → Type 0
  Reads m key =
      (v : B) × (map_get key m ≡ some v)
      × (read_row found missing (live_row now kv.namespace key db) ≡ ok v)
      × (validate_key kv key ≡ ok tt)

  unfoldable pub scanned : List Bytes → List Row
  scanned keys = (scan_rows kv.namespace now (select_rows kv.namespace keys db) [] db).0

  scanned-live :
      (keys : List Bytes) (key : Bytes)
      → Pairs Distinct db
      → any (λ k. text_eq key k) keys ≡ true
      → map_row key (scanned keys) ≡ live_row now kv.namespace key db
  unfolding scanned
  scanned-live keys key d m =
      scan_rows-map_row kv.namespace now key (select_rows kv.namespace keys db) [] db
        (selected-All kv.namespace keys db)
        (keep-Pairs Distinct (is_selected kv.namespace keys) db d)
      ∙ rw (selected-live kv.namespace now key keys db m)
          (option_self (find (is_live kv.namespace now key) db))
      ∙ sym (live_row-find kv.namespace now key db d)

  pub entry-read_row :
      (keys : List Bytes) (key : Bytes)
      → Pairs Distinct db
      → any (λ k. text_eq key k) keys ≡ true
      → entry found missing (scanned keys) key
        ≡ read_row found missing (live_row now kv.namespace key db)
  entry-read_row keys key d m =
      read_row_self found missing (map_row key (scanned keys))
      ∙ ap (read_row found missing) (scanned-live keys key d m)

  fill-Reads :
      (keys : List Bytes) (out : List (Bytes × B))
      → Pairs Distinct db
      → validate_keys kv keys ≡ ok tt
      → fill found missing (scanned keys) keys [] ≡ ok out
      → All (Reads out) keys
  unfolding map_get
  fill-Reads keys out d valid h =
      let (good, _, all) =
        fill-Good found missing (scanned keys) keys [] out h (λ k v e. absurd (ground arith)) in
      All-map
        (λ key ((v, has), (m, ok_key)).
          (v, has, sym (entry-read_row keys key d m) ∙ good key v has, ok_key))
        keys
        (All-both _ _ keys all
          (All-both _ _ keys (All-among keys) (validate_keys-All kv keys valid)))

  bulk_read-filled :
      (k : Bytes) (keys : List Bytes) (type : ValueType) (out : List (Bytes × B)) (db' : Table)
      → bulk_read found missing kv now (k ∷ keys) type db ≡ (ok out, db')
      → (validate_keys kv (k ∷ keys) ≡ ok tt)
        × (fill found missing (scanned (k ∷ keys)) (k ∷ keys) [] ≡ ok out)
  unfolding bulk_read scanned
  bulk_read-filled k keys type out db' h = ground arith

  pub bulk_read-Reads :
      (keys : List Bytes) (type : ValueType) (out : List (Bytes × B)) (db' : Table)
      → Pairs Distinct db
      → bulk_read found missing kv now keys type db ≡ (ok out, db')
      → All (Reads out) keys
  bulk_read-Reads [] type out db' d h = tt
  bulk_read-Reads (k ∷ keys) type out db' d h =
      let (valid, filled) = bulk_read-filled k keys type out db' h in
      fill-Reads (k ∷ keys) out d valid filled
