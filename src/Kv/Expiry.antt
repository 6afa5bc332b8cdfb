-- ===== src/Kv/Expiry.antt =====
-- The lazy deletion of expired rows in src/bindings/kv.ts is not seen by any read at that time or later.
use lopata.Common.{
  ℕ, ◌≤◌, ◌≡◌, refl, ◌∙◌, sym, subst, Bool, true, false, not, Option, none, some, List, [], ◌∷◌,
  if◌then◌else◌, arith, keep, find, find-mem, All, All-map, All-at, All-keep, Pairs, keep-Pairs,
  Text, text_eq, text_eq_iff, Bool-cases, inl, inr, Option-cases, and_iff, All-both,
}
use lopata.Kv.Keys.{Bytes}
use lopata.Kv.{Row, Table, is_row, select_row, delete_row, truthy, is_before, is_expired}
use lopata.Kv.Entries.{Distinct, live_row}
use lopata.Kv.Agreement.{is_live, live_row-find}
use lopata.Kv.Reads.{sweep}
use lopata.Kv.Bulk.{scan_rows}
use lopata.Kv.History.{Distinct-symm}

is_before-later :
    (e : Option ℕ) (now later : ℕ) → now ≤ later → is_before e now ≡ true → is_before e later ≡ true
is_before-later none now later le h = h
is_before-later (some t) now later le h = ground arith

find-keep :
    (p q : Row → Bool) (db : Table)
    → All (λ r. p r ≡ true → q r ≡ true) db
    → find p (keep q db) ≡ find p db
find-keep p q [] h = refl
find-keep p q (r ∷ db) (first, h) = elim (Bool-cases (p r)) [
  | inl e ↦ let kept = first e in ground arith
  | inr e ↦ ground (arith, find-keep p q db h)
]

-- Removing expired rows only changes nothing that a reader sees from then on.
pub keep-live :
    (q : Row → Bool) (db : Table) (now later : ℕ) (ns : Text) (key : Bytes)
    → Pairs Distinct db
    → now ≤ later
    → All (λ r. q r ≡ false → is_expired now r ≡ true) db
    → live_row later ns key (keep q db) ≡ live_row later ns key db
keep-live q db now later ns key d le h =
    live_row-find ns later key (keep q db) (keep-Pairs Distinct q db d)
    ∙ find-keep (is_live ns later key) q db (
        All-map
          (λ r gone live. elim (Bool-cases (q r)) [
            | inl e ↦ e
            | inr e ↦ absurd (
                let old = is_before-later (truthy r.expiration) now later le (gone e) in
                ground arith)
          ])
          db h)
    ∙ sym (live_row-find ns later key db d)

-- A row of the same key as an expired one is that one.
abbrev pub Twins : ℕ → Table → Row → Type 0
Twins now db r =
    is_expired now r ≡ true
    → All (λ x. is_row r.namespace r.key x ≡ true → is_expired now x ≡ true) db

pub Twins-All : (now : ℕ) (db : Table) → Pairs Distinct db → All (Twins now db) db
Twins-All now [] d = tt
Twins-All now (r ∷ db) (first, d) = (
  λ e. ((λ h. e), All-map (λ x apart h. absurd (ground arith)) db first),
  All-map
      (λ x (twins, apart) e.
        ((λ h. absurd (let back = Distinct-symm r x apart in ground arith)), twins e))
      db (All-both (Twins now db) (Distinct r) db (Twins-All now db d) first),
)

delete-live :
    (db : Table) (now later : ℕ) (ns : Text) (key : Bytes) (r : Row)
    → Pairs Distinct db
    → now ≤ later
    → Twins now db r
    → is_expired now r ≡ true
    → live_row later ns key (delete_row r.namespace r.key db) ≡ live_row later ns key db
delete-live db now later ns key r d le twins e =
    keep-live (λ x. not (is_row r.namespace r.key x)) db now later ns key d le
      (All-map (λ x h gone. h (ground arith)) db (twins e))

pub sweep-live :
    (db : Table) (now later : ℕ) (ns : Text) (key : Bytes) (ns' : Text) (key' : Bytes)
    → Pairs Distinct db
    → now ≤ later
    → live_row later ns key (sweep now ns' key' db) ≡ live_row later ns key db
sweep-live db now later ns key ns' key' d le = elim (Option-cases (select_row ns' key' db)) [
  | inl e ↦ rw (sweep, e) refl
  | inr (r, e) ↦ elim (Bool-cases (is_expired now r)) [
    | inr x ↦ rw (sweep, e, x) refl
    | inl x ↦
        let (mem, here) = find-mem (is_row ns' key') db r e in
        let (a, b) = (and_iff (text_eq r.namespace ns') (text_eq r.key key')).0 here in
        let gone =
          delete-live db now later ns key r d le (All-at (Twins now db) mem (Twins-All now db d))
            x in
        rw (sweep, e, x)
          (subst (λ n. live_row later ns key (delete_row n key' db) ≡ live_row later ns key db)
            ((text_eq_iff r.namespace ns').0 a)
            (subst
              (λ k. live_row later ns key (delete_row r.namespace k db) ≡ live_row later ns key db)
              ((text_eq_iff r.key key').0 b) gone))
  ]
]

pub scan_rows-live :
    (ns' : Text) (now later : ℕ) (ns : Text) (key : Bytes) (rs row_map : List Row) (db : Table)
    → Pairs Distinct db
    → now ≤ later
    → All (λ r. text_eq r.namespace ns' ≡ true) rs
    → All (Twins now db) rs
    → live_row later ns key (scan_rows ns' now rs row_map db).1 ≡ live_row later ns key db
unfolding scan_rows
scan_rows-live ns' now later ns key [] row_map db d le n t = refl
scan_rows-live ns' now later ns key (r ∷ rs) row_map db d le (n, ns_all) (t, ts) =
    elim (Bool-cases (is_expired now r)) [
      | inr e ↦
          subst
            (λ (b : Bool).
              live_row later ns key
                (scan_rows ns' now rs (if b then row_map else r ∷ row_map)
                  (if b then delete_row ns' r.key db else db)).1
              ≡ live_row later ns key db)
            (sym e) (scan_rows-live ns' now later ns key rs (r ∷ row_map) db d le ns_all ts)
      | inl e ↦
          let q : Row → Bool = λ x. not (is_row r.namespace r.key x) in
          let rest =
            scan_rows-live ns' now later ns key rs row_map (delete_row r.namespace r.key db)
              (keep-Pairs Distinct q db d) le ns_all
              (All-map
                (λ x twins old.
                  All-keep (λ y. is_row x.namespace x.key y ≡ true → is_expired now y ≡ true) q db
                    (twins old))
                rs ts) in
          subst
            (λ (b : Bool).
              live_row later ns key
                (scan_rows ns' now rs (if b then row_map else r ∷ row_map)
                  (if b then delete_row ns' r.key db else db)).1
              ≡ live_row later ns key db)
            (sym e)
            (subst
              (λ m.
                live_row later ns key (scan_rows ns' now rs row_map (delete_row m r.key db)).1
                ≡ live_row later ns key db)
              ((text_eq_iff r.namespace ns').0 n)
              (rest ∙ delete-live db now later ns key r d le t e))
    ]
