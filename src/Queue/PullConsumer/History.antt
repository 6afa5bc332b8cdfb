-- ===== src/Queue/PullConsumer/History.antt =====
-- Leases over a history of sends, pulls and acknowledgements.
use lopata.Common.{
  or_else, ℕ, suc, ◌+◌, ◌≤◌, ◌≡◌, refl, subst, not, ◌&&◌, Option, some, List, [], ◌∷◌, ◌++◌, arith,
  inl, inr, Bool-cases, Option-cases, leb, keep, any, All, All-keep, keep-Pairs, snoc-Pairs, Text,
  text_eq,
}
use lopata.Queue.{
  MessageRow, Lease, Db, Differ, DistinctIds, is_v8, update_message-DistinctIds, count_attempt,
  mark_acked, delay_until,
}
use lopata.Queue.PullConsumer.{
  PullRequest, PullMessage, AckRequest, drop_expired, candidates, lease_row, lease_rows,
  messages_of, pull, find_lease, settle_lease, ack_all, retry_all, ack,
}
use lopata.Queue.Bodies.{decode_body}
use lopata.Queue.Consumer.{throws}
use lopata.Queue.PullConsumer.Exclusive.{
  Disjoint, Exclusive, lease_rows-Exclusive, candidates-DistinctIds, candidates-Unleased,
  drop_expired-live, Unleased_of_free, candidates-All,
}

-- The tables of a pull: two ways out, of which the first leases nothing.
pub leasing : (queue : Text) (uuid : ℕ → ℕ) (now : ℕ) (options : PullRequest) (db : Db) → Db
leasing queue uuid now options db =
    let db1 = record db { leases = drop_expired queue now db.leases } in
    lease_rows queue uuid (now + or_else options.visibility_timeout_ms 30000)
      (keep (λ r. not (is_v8 r.content_type))
        (candidates queue now (or_else options.batch_size 10) db1))
      db1

module _ {J : Type 0} (parse : List ℕ → Option J) (queue : Text) where
  -- What holds of the tables after a pull if it holds with and without leases given out.
  pull_cases :
      (P : Db → Type 0) (uuid : ℕ → ℕ) (now : ℕ) (options : PullRequest) (db : Db)
      → P (record db { leases = drop_expired queue now db.leases })
      → P (leasing queue uuid now options db)
      → P (pull parse queue uuid now options db).0
  unfolding pull leasing
  pull_cases P uuid now options db undone done =
      elim (Bool-cases (
        any (λ r. throws (decode_body parse r.body r.content_type))
          (keep (λ r. not (is_v8 r.content_type))
            (candidates queue now (or_else options.batch_size 10)
              (record db { leases = drop_expired queue now db.leases }))))) [
                | inl e ↦ rw (e, pull) undone
                | inr e ↦ rw (e, pull) done
              ]

  -- Whatever the time and the request, a pull leaves no two leases of one queue for one message.
  pub pull-Exclusive :
      (uuid : ℕ → ℕ) (now : ℕ) (options : PullRequest) (db : Db)
      → DistinctIds db.messages
      → Exclusive db
      → Exclusive (pull parse queue uuid now options db).0
  unfolding drop_expired leasing
  pull-Exclusive uuid now options db d h =
      let db1 : Db = record db { leases = drop_expired queue now db.leases } in
      let cleaned : Exclusive db1 = keep-Pairs Disjoint _ db.leases h in
      let batch = or_else options.batch_size 10 in
      pull_cases Exclusive uuid now options db cleaned (
        lease_rows-Exclusive queue uuid _ _ db1
          (keep-Pairs Differ _ _ (candidates-DistinctIds queue now batch db1 d))
          (All-keep _ _ _
            (candidates-Unleased queue now batch db1 (drop_expired-live queue now db.leases)))
          cleaned)

settle_lease-Exclusive :
    (q : Text) (now id : ℕ) (f : MessageRow → MessageRow) (s : Db × ℕ)
    → Exclusive s.0
    → Exclusive (settle_lease q now id f s).0
unfolding settle_lease
settle_lease-Exclusive q now id f (db, count) h =
    elim (Option-cases (find_lease q now id db.leases)) [
      | inl e ↦ rw (e, settle_lease) h
      | inr (l, e) ↦ rw (e, settle_lease) (keep-Pairs Disjoint _ db.leases h)
    ]

ack_all-Exclusive :
    (q : Text) (now : ℕ) (clock : ℕ → ℕ) (ids : List ℕ) (s : Db × ℕ)
    → Exclusive s.0
    → Exclusive (ack_all q now clock ids s).0
unfolding ack_all
ack_all-Exclusive q now clock [] s h = h
ack_all-Exclusive q now clock (id ∷ ids) s h =
    ack_all-Exclusive q now clock ids _ (settle_lease-Exclusive q now id _ s h)

retry_all-Exclusive :
    (q : Text) (now : ℕ) (rs : List (ℕ × Option ℕ)) (s : Db × ℕ)
    → Exclusive s.0
    → Exclusive (retry_all q now rs s).0
unfolding retry_all
retry_all-Exclusive q now [] s h = h
retry_all-Exclusive q now ((id, delay) ∷ rs) s h =
    retry_all-Exclusive q now rs _ (settle_lease-Exclusive q now id _ s h)

pub ack-Exclusive :
    (q : Text) (now : ℕ) (clock : ℕ → ℕ) (request : AckRequest) (db : Db)
    → Exclusive db
    → Exclusive (ack q now clock request db).0
unfolding ack
ack-Exclusive q now clock request db h =
    retry_all-Exclusive q now request.retries _
      (ack_all-Exclusive q now clock request.acks (db, 0) h)

lease_rows-DistinctIds :
    (queue : Text) (uuid : ℕ → ℕ) (expires : ℕ) (rows : List MessageRow) (db : Db)
    → DistinctIds db.messages
    → DistinctIds (lease_rows queue uuid expires rows db).messages
unfolding lease_rows lease_row
lease_rows-DistinctIds queue uuid expires [] db d = d
lease_rows-DistinctIds queue uuid expires (r ∷ rs) db d =
    lease_rows-DistinctIds queue (λ i. uuid (suc i)) expires rs
      (lease_row queue (uuid 0) expires r db)
      (update_message-DistinctIds r.id count_attempt (λ m. refl) db.messages d)

pull-DistinctIds :
    {J : Type 0} (parse : List ℕ → Option J) (queue : Text) (uuid : ℕ → ℕ) (now : ℕ)
    (options : PullRequest) (db : Db)
    → DistinctIds db.messages
    → DistinctIds (pull parse queue uuid now options db).0.messages
unfolding leasing
pull-DistinctIds parse queue uuid now options db d =
    pull_cases parse queue (λ t. DistinctIds t.messages) uuid now options db d
      (lease_rows-DistinctIds queue uuid _ _ _ d)

settle_lease-DistinctIds :
    (q : Text) (now id : ℕ) (f : MessageRow → MessageRow) (s : Db × ℕ)
    → ((m : MessageRow) → (f m).id ≡ m.id)
    → DistinctIds s.0.messages
    → DistinctIds (settle_lease q now id f s).0.messages
unfolding settle_lease
settle_lease-DistinctIds q now id f (db, count) same d =
    elim (Option-cases (find_lease q now id db.leases)) [
      | inl e ↦ rw (e, settle_lease) d
      | inr (l, e) ↦
          rw (e, settle_lease) (update_message-DistinctIds l.message_id f same db.messages d)
    ]

ack_all-DistinctIds :
    (q : Text) (now : ℕ) (clock : ℕ → ℕ) (ids : List ℕ) (s : Db × ℕ)
    → DistinctIds s.0.messages
    → DistinctIds (ack_all q now clock ids s).0.messages
unfolding ack_all
ack_all-DistinctIds q now clock [] s d = d
ack_all-DistinctIds q now clock (id ∷ ids) s d =
    ack_all-DistinctIds q now clock ids _
      (settle_lease-DistinctIds q now id (mark_acked (clock id)) s (λ m. refl) d)

retry_all-DistinctIds :
    (q : Text) (now : ℕ) (rs : List (ℕ × Option ℕ)) (s : Db × ℕ)
    → DistinctIds s.0.messages
    → DistinctIds (retry_all q now rs s).0.messages
unfolding retry_all
retry_all-DistinctIds q now [] s d = d
retry_all-DistinctIds q now ((id, delay) ∷ rs) s d =
    retry_all-DistinctIds q now rs _
      (settle_lease-DistinctIds q now id (delay_until _) s (λ m. refl) d)

ack-DistinctIds :
    (q : Text) (now : ℕ) (clock : ℕ → ℕ) (request : AckRequest) (db : Db)
    → DistinctIds db.messages
    → DistinctIds (ack q now clock request db).0.messages
unfolding ack
ack-DistinctIds q now clock request db d =
    retry_all-DistinctIds q now request.retries _
      (ack_all-DistinctIds q now clock request.acks (db, 0) d)

-- Sends, pulls and acknowledgements on any queues, at any times, from empty tables.
pub data Leased {J : Type 0} (parse : List ℕ → Option J) : Db → Type 0 where
  begin : Leased parse (record { messages = []; leases = [] })
  sends :
      {db : Db} (row : MessageRow)
      → Leased parse db
      → All (λ m. Differ m row) db.messages
      → Leased parse (record db { messages = db.messages ++ (row ∷ []) })
  pulls :
      {db : Db} (queue : Text) (uuid : ℕ → ℕ) (now : ℕ) (options : PullRequest)
      → Leased parse db
      → Leased parse (pull parse queue uuid now options db).0
  acks :
      {db : Db} (queue : Text) (now : ℕ) (clock : ℕ → ℕ) (request : AckRequest)
      → Leased parse db
      → Leased parse (ack queue now clock request db).0

module _ {J : Type 0} (parse : List ℕ → Option J) where
  Leased-DistinctIds : {db : Db} → Leased parse db → DistinctIds db.messages
  Leased-DistinctIds begin = tt
  Leased-DistinctIds (sends {db} row r fresh) =
      snoc-Pairs Differ db.messages row fresh (Leased-DistinctIds r)
  Leased-DistinctIds (pulls {db} queue uuid now options r) =
      pull-DistinctIds parse queue uuid now options db (Leased-DistinctIds r)
  Leased-DistinctIds (acks {db} queue now clock request r) =
      ack-DistinctIds queue now clock request db (Leased-DistinctIds r)

  Leased-Exclusive : {db : Db} → Leased parse db → Exclusive db
  Leased-Exclusive begin = tt
  Leased-Exclusive (sends row r fresh) = Leased-Exclusive r
  Leased-Exclusive (pulls {db} queue uuid now options r) =
      pull-Exclusive parse queue uuid now options db (Leased-DistinctIds r) (Leased-Exclusive r)
  Leased-Exclusive (acks {db} queue now clock request r) =
      ack-Exclusive queue now clock request db (Leased-Exclusive r)

-- Every lease of the queue for the message has expired by the time.
abbrev pub IsFree : Text → ℕ → Db → ℕ → Type 0
IsFree queue now db id =
    All (λ l. l.queue ≡ queue → l.message_id ≡ id → l.expires_at ≤ now) db.leases

-- Dropping expired leases hides none that counts.
IsFree-of-drop_expired :
    (queue : Text) (now id : ℕ) (ls : List Lease)
    → All
        (λ l. l.queue ≡ queue → l.message_id ≡ id → l.expires_at ≤ now)
        (drop_expired queue now ls)
    → All (λ l. l.queue ≡ queue → l.message_id ≡ id → l.expires_at ≤ now) ls
unfolding drop_expired
IsFree-of-drop_expired queue now id [] h = tt
IsFree-of-drop_expired queue now id (l ∷ ls) h =
    elim (Bool-cases (text_eq l.queue queue && leb l.expires_at now)) [
      | inl e ↦ (λ q same. ground arith, IsFree-of-drop_expired queue now id ls (rw (e) at h))
      | inr e ↦
          let (first, rest) = rw e at h in (first, IsFree-of-drop_expired queue now id ls rest)
    ]

messages_of-IsFree :
    {J : Type 0} (parse : List ℕ → Option J) (uuid : ℕ → ℕ) (queue : Text) (now : ℕ) (db : Db)
    (rows : List MessageRow)
    → All (λ r. IsFree queue now db r.id) rows
    → All (λ (m : PullMessage J). IsFree queue now db m.id) (messages_of parse uuid rows)
unfolding messages_of
messages_of-IsFree parse uuid queue now db [] h = tt
messages_of-IsFree parse uuid queue now db (r ∷ rs) (p, h) =
    (p, messages_of-IsFree parse (λ i. uuid (suc i)) queue now db rs h)

candidates-IsFree :
    (queue : Text) (now batch : ℕ) (db : Db)
    → let db1 = record db { leases = drop_expired queue now db.leases } in
      All (λ r. IsFree queue now db r.id) (candidates queue now batch db1)
candidates-IsFree queue now batch db =
    candidates-All (λ r. IsFree queue now db r.id) queue now batch _
      λ m h.
        IsFree-of-drop_expired queue now m.id db.leases
          (Unleased_of_free queue now m.id (drop_expired queue now db.leases) (ground arith))

-- After any history of sends, pulls and acknowledgements, at any times and on any queues, no two
-- leases of one queue are for one message.
pub leases-Exclusive :
    {J : Type 0} (parse : List ℕ → Option J) (db : Db) → Leased parse db → Exclusive db
leases-Exclusive parse db r = Leased-Exclusive parse r

-- A pull never hands out a message for which a lease of its queue is still running.
pub pull-IsFree :
    {J : Type 0} (parse : List ℕ → Option J) (queue : Text) (uuid : ℕ → ℕ) (now : ℕ)
    (options : PullRequest) (db : Db) (ms : List (PullMessage J))
    → (pull parse queue uuid now options db).1 ≡ some ms
    → All (λ m. IsFree queue now db m.id) ms
unfolding pull
pull-IsFree parse queue uuid now options db ms h =
    let rows =
      candidates queue now (or_else options.batch_size 10)
        (record db { leases = drop_expired queue now db.leases }) in
    let valid = keep (λ r. not (is_v8 r.content_type)) rows in
    elim (Bool-cases (any (λ r. throws (decode_body parse r.body r.content_type)) valid)) [
      | inl e ↦ absurd (ground arith)
      | inr e ↦
          let same : messages_of parse uuid valid ≡ ms = ground arith in
          subst (All (λ m. IsFree queue now db m.id)) same (
            messages_of-IsFree parse uuid queue now db valid
              (All-keep _ _ rows (candidates-IsFree queue now (or_else options.batch_size 10) db)))
    ]
