-- ===== src/Queue/PullConsumer/Exclusive.antt =====
-- A message is leased at most once at a time.
use lopata.Common.{
  ℕ, suc, ◌≤◌, ◌<◌, ◌≡◌, sym, ◌≢◌, true, false, not, ◌&&◌, List, [], ◌∷◌, arith, leb, All, All-map,
  All-both, All-keep_test, All-take, All-order_by, All-append, Pairs, keep-Pairs, take-Pairs,
  order_by-Pairs, snoc-Pairs, Text, text_eq, text_eq_iff,
}
use lopata.Queue.{MessageRow, Lease, Db, Differ, Differ-symm, DistinctIds}
use lopata.Queue.PullConsumer.{
  drop_expired, is_leased, available, candidates, lease_row, lease_rows,
}

-- Two leases of one queue are for different messages.
abbrev pub Disjoint : Lease → Lease → Type 0
Disjoint l k = l.queue ≡ k.queue → l.message_id ≢ k.message_id

abbrev pub Exclusive : Db → Type 0
Exclusive db = Pairs Disjoint db.leases

-- No lease of the queue is for the message.
abbrev pub Unleased : Text → List Lease → MessageRow → Type 0
Unleased queue leases m = All (λ l. l.queue ≡ queue → l.message_id ≢ m.id) leases

pub lease_rows-Exclusive :
    (queue : Text) (uuid : ℕ → ℕ) (expires : ℕ) (rows : List MessageRow) (db : Db)
    → DistinctIds rows
    → All (Unleased queue db.leases) rows
    → Exclusive db
    → Exclusive (lease_rows queue uuid expires rows db)
unfolding lease_rows lease_row
lease_rows-Exclusive queue uuid expires [] db d u h = h
lease_rows-Exclusive queue uuid expires (r ∷ rs) db (first, d) (own, u) h =
    lease_rows-Exclusive queue (λ i. uuid (suc i)) expires rs
      (lease_row queue (uuid 0) expires r db) d
      (All-map {P = λ s. Differ r s × Unleased queue db.leases s}
        (λ s (ne, k). All-append _ db.leases (_ ∷ []) k (λ q e. ne (sym e), tt)) rs
        (All-both (Differ r) (Unleased queue db.leases) rs first u))
      (snoc-Pairs Disjoint db.leases _ own h)

-- A row that the query found free has no live lease; once the expired ones are gone, it has none.
pub Unleased_of_free :
    (queue : Text) (now id : ℕ) (leases : List Lease)
    → is_leased queue now leases id ≡ false
    → All (λ l. l.queue ≡ queue → l.message_id ≡ id → l.expires_at ≤ now) leases
Unleased_of_free queue now id [] h = tt
Unleased_of_free queue now id (l ∷ ls) h = (
  λ q e. ground (arith, text_eq_iff l.queue queue),
  Unleased_of_free queue now id ls (ground arith),
)

pub drop_expired-live :
    (queue : Text) (now : ℕ) (leases : List Lease)
    → All (λ l. l.queue ≡ queue → now < l.expires_at) (drop_expired queue now leases)
unfolding drop_expired
drop_expired-live queue now leases =
    All-map (λ l h q. ground (arith, text_eq_iff l.queue queue)) _
      (All-keep_test (λ l. not (text_eq l.queue queue && leb l.expires_at now)) leases)

-- What holds of the rows that the query finds available.
pub candidates-All :
    (P : MessageRow → Type 0) (queue : Text) (now batch : ℕ) (db : Db)
    → ((m : MessageRow) → available queue now db.leases m ≡ true → P m)
    → All P (candidates queue now batch db)
unfolding candidates
candidates-All P queue now batch db f = All-take P batch _ (
    All-order_by (λ m. m.visible_at) P _
      (All-map f _ (All-keep_test (available queue now db.leases) db.messages)))

pub candidates-DistinctIds :
    (queue : Text) (now batch : ℕ) (db : Db)
    → DistinctIds db.messages
    → DistinctIds (candidates queue now batch db)
unfolding candidates
candidates-DistinctIds queue now batch db h =
    take-Pairs Differ batch _
      (order_by-Pairs Differ Differ-symm (λ m. m.visible_at) _ (keep-Pairs Differ _ db.messages h))

pub candidates-Unleased :
    (queue : Text) (now batch : ℕ) (db : Db)
    → All (λ l. l.queue ≡ queue → now < l.expires_at) db.leases
    → All (Unleased queue db.leases) (candidates queue now batch db)
candidates-Unleased queue now batch db live =
    candidates-All (Unleased queue db.leases) queue now batch db λ m h.
      All-map
        {P = λ l.
          (l.queue ≡ queue → now < l.expires_at)
          × (l.queue ≡ queue → l.message_id ≡ m.id → l.expires_at ≤ now)}
        (λ l (p, k) q e. omega (arith, p q, k q e)) db.leases
        (All-both _ _ db.leases live (Unleased_of_free queue now m.id db.leases (ground arith)))
