-- ===== src/Queue/PullConsumer/Consumed.antt =====
-- A lease is good for one acknowledgement.
use lopata.Common.{
  or_else, ℕ, ◌+◌, ◌*◌, ◌≤◌, ◌≡◌, refl, not, Option, none, List, [], ◌∷◌, ◌==◌, arith, inl, inr,
  Option-cases, All, All-map, All-keep, All-keep_test, Text, text_eq_iff,
}
use lopata.Queue.{MessageRow, Lease, Db, mark_acked, delay_until}
use lopata.Queue.PullConsumer.{
  AckRequest, find_lease, drop_lease, settle_lease, ack_all, retry_all, ack,
}

-- No lease of the queue with the identifier outlives the time.
abbrev Spent : Text → ℕ → List Lease → ℕ → Type 0
Spent queue now ls id = All (λ l. l.lease_id ≡ id → l.queue ≡ queue → l.expires_at ≤ now) ls

find_lease-none :
    (queue : Text) (now later id : ℕ) (ls : List Lease)
    → now ≤ later
    → Spent queue now ls id
    → find_lease queue later id ls ≡ none
unfolding find_lease
find_lease-none queue now later id [] le h = refl
find_lease-none queue now later id (l ∷ ls) le (p, h) =
    ground (arith, find_lease-none queue now later id ls le h, text_eq_iff l.queue queue)

Spent-of_none :
    (queue : Text) (now id : ℕ) (ls : List Lease)
    → find_lease queue now id ls ≡ none
    → Spent queue now ls id
unfolding find_lease
Spent-of_none queue now id [] h = tt
Spent-of_none queue now id (l ∷ ls) h =
    (λ e q. ground (arith, text_eq_iff l.queue queue), Spent-of_none queue now id ls (ground arith))

drop_lease-Spent :
    (queue : Text) (now id : ℕ) (ls : List Lease) → Spent queue now (drop_lease id ls) id
unfolding drop_lease
drop_lease-Spent queue now id ls =
    All-map (λ l h e q. absurd (ground arith)) _ (All-keep_test (λ l. not (l.lease_id == id)) ls)

module _ (queue : Text) (now : ℕ) where
  settle_lease-Spent :
      (id : ℕ) (f : MessageRow → MessageRow) (s : Db × ℕ)
      → Spent queue now (settle_lease queue now id f s).0.leases id
  unfolding settle_lease
  settle_lease-Spent id f (db, count) = elim (Option-cases (find_lease queue now id db.leases)) [
    | inl e ↦ rw (e, settle_lease) (Spent-of_none queue now id db.leases e)
    | inr (l, e) ↦ rw (e, settle_lease) (drop_lease-Spent queue now id db.leases)
  ]

  -- What is spent stays spent, whichever lease is settled.
  settle_lease-keeps :
      (id other : ℕ) (f : MessageRow → MessageRow) (s : Db × ℕ)
      → Spent queue now s.0.leases other
      → Spent queue now (settle_lease queue now id f s).0.leases other
  unfolding settle_lease drop_lease
  settle_lease-keeps id other f (db, count) h =
      elim (Option-cases (find_lease queue now id db.leases)) [
        | inl e ↦ rw (e, settle_lease) h
        | inr (l, e) ↦ rw (e, settle_lease) (All-keep _ _ db.leases h)
      ]

  ack_all-keeps :
      (clock : ℕ → ℕ) (ids : List ℕ) (other : ℕ) (s : Db × ℕ)
      → Spent queue now s.0.leases other
      → Spent queue now (ack_all queue now clock ids s).0.leases other
  unfolding ack_all
  ack_all-keeps clock [] other s h = h
  ack_all-keeps clock (id ∷ ids) other s h =
      ack_all-keeps clock ids other _ (settle_lease-keeps id other _ s h)

  retry_all-keeps :
      (rs : List (ℕ × Option ℕ)) (other : ℕ) (s : Db × ℕ)
      → Spent queue now s.0.leases other
      → Spent queue now (retry_all queue now rs s).0.leases other
  unfolding retry_all
  retry_all-keeps [] other s h = h
  retry_all-keeps ((id, delay) ∷ rs) other s h =
      retry_all-keeps rs other _ (settle_lease-keeps id other _ s h)

  ack_all-Spent :
      (clock : ℕ → ℕ) (ids : List ℕ) (s : Db × ℕ)
      → All (Spent queue now (ack_all queue now clock ids s).0.leases) ids
  unfolding ack_all
  ack_all-Spent clock [] s = tt
  ack_all-Spent clock (id ∷ ids) s = (
    ack_all-keeps clock ids id _ (settle_lease-Spent id (mark_acked (clock id)) s),
    ack_all-Spent clock ids _,
  )

  retry_all-Spent :
      (rs : List (ℕ × Option ℕ)) (s : Db × ℕ)
      → All (λ r. Spent queue now (retry_all queue now rs s).0.leases r.0) rs
  unfolding retry_all
  retry_all-Spent [] s = tt
  retry_all-Spent ((id, delay) ∷ rs) s = (
    retry_all-keeps rs id _ (settle_lease-Spent id (delay_until (now + or_else delay 0 * 1000)) s),
    retry_all-Spent rs _,
  )

module _ (queue : Text) (now later : ℕ) (le : now ≤ later) where
  settle_lease-eq_self :
      (id : ℕ) (f : MessageRow → MessageRow) (db : Db) (count : ℕ)
      → Spent queue now db.leases id
      → settle_lease queue later id f (db, count) ≡ (db, count)
  unfolding settle_lease
  settle_lease-eq_self id f db count h =
      rw (find_lease-none queue now later id db.leases le h, settle_lease)

  ack_all-eq_self :
      (clock : ℕ → ℕ) (ids : List ℕ) (db : Db) (count : ℕ)
      → All (Spent queue now db.leases) ids
      → ack_all queue later clock ids (db, count) ≡ (db, count)
  unfolding ack_all
  ack_all-eq_self clock [] db count h = refl
  ack_all-eq_self clock (id ∷ ids) db count (p, h) =
      rw (settle_lease-eq_self id (mark_acked (clock id)) db count p)
        (ack_all-eq_self clock ids db count h)

  retry_all-eq_self :
      (rs : List (ℕ × Option ℕ)) (db : Db) (count : ℕ)
      → All (λ r. Spent queue now db.leases r.0) rs
      → retry_all queue later rs (db, count) ≡ (db, count)
  unfolding retry_all
  retry_all-eq_self [] db count h = refl
  retry_all-eq_self ((id, delay) ∷ rs) db count (p, h) =
      rw (settle_lease-eq_self id (delay_until (later + or_else delay 0 * 1000)) db count p)
        (retry_all-eq_self rs db count h)

-- A request that is sent a second time, then or later, acknowledges and retries nothing and
-- changes no row.
pub ack_again :
    (queue : Text) (now later : ℕ) (clock clock' : ℕ → ℕ) (request : AckRequest) (db : Db)
    → now ≤ later
    → let db' = (ack queue now clock request db).0 in
      ack queue later clock' request db' ≡ (db', 0, 0)
unfolding ack
ack_again queue now later clock clock' request db le =
    let s1 = ack_all queue now clock request.acks (db, 0) in
    let s2 = retry_all queue now request.retries (s1.0, 0) in
    let acks_spent =
      All-map {P = Spent queue now s1.0.leases} {Q = Spent queue now s2.0.leases}
        (λ id h. retry_all-keeps queue now request.retries id (s1.0, 0) h) request.acks
        (ack_all-Spent queue now clock request.acks (db, 0)) in
    rw (
      ack_all-eq_self queue now later le clock' request.acks s2.0 0 acks_spent,
      retry_all-eq_self queue now later le request.retries s2.0 0
          (retry_all-Spent queue now request.retries (s1.0, 0)),
    )
