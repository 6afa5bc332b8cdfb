-- ===== src/Queue/PullConsumer.antt =====
-- The class `QueuePullConsumer` of src/bindings/queue.ts. Lease identifiers are drawn by the caller
-- of the model: `uuid i` is the one for the i-th row of a pull.
pub mod Exclusive
pub mod History
pub mod Consumed
mod Tests
use lopata.Common.{
  or_else, ℕ, suc, ◌+◌, ◌*◌, ◌≡◌, Bool, true, false, not, ◌&&◌, Option, none, some, List, [], ◌∷◌,
  ◌++◌, ◌==◌, ltb, leb, if◌then◌else◌, keep, any, find, take, order_by, Text, text_eq,
}
use lopata.Queue.{
  MessageRow, Lease, Db, is_pending, is_v8, update_message, count_attempt, mark_acked, delay_until,
}
use lopata.Queue.Bodies.{Decoded, decode_body}
use lopata.Queue.Consumer.{throws}

pub record PullRequest : Type 0 where
  pub batch_size : Option ℕ
  pub visibility_timeout_ms : Option ℕ

-- The timestamp of a message is its time of creation.
pub record PullMessage (J : Type 0) : Type 0 where
  pub lease_id : ℕ
  pub id : ℕ
  pub created_at : ℕ
  pub body : Decoded J
  pub attempts : ℕ

-- `queue = ? AND expires_at > ?`
abbrev pub is_live : Text → ℕ → Lease → Bool
is_live queue now l = text_eq l.queue queue && ltb now l.expires_at

pub drop_expired : Text → ℕ → List Lease → List Lease
drop_expired queue now = keep (λ l. not (text_eq l.queue queue && leb l.expires_at now))

abbrev pub is_leased : Text → ℕ → List Lease → ℕ → Bool
is_leased queue now leases id = any (λ l. is_live queue now l && (l.message_id == id)) leases

abbrev pub available : Text → ℕ → List Lease → MessageRow → Bool
available queue now leases m =
    text_eq m.queue queue
    && (is_pending m.status && (leb m.visible_at now && not (is_leased queue now leases m.id)))

-- The `SELECT` of `pull`.
pub candidates : Text → ℕ → ℕ → Db → List MessageRow
candidates queue now batch db =
    take batch (order_by (λ m. m.visible_at) (keep (available queue now db.leases) db.messages))

-- One round of the transaction's loop, on the tables.
lease_row : Text → ℕ → ℕ → MessageRow → Db → Db
lease_row queue lease_id expires_at r db = record {
  messages = update_message r.id count_attempt db.messages;
  leases =
      db.leases
      ++ (record { lease_id = lease_id; message_id = r.id; queue = queue; expires_at = expires_at }
          ∷ []);
}

pub lease_rows : Text → (ℕ → ℕ) → ℕ → List MessageRow → Db → Db
unfolding lease_row
lease_rows queue uuid expires_at [] db = db
lease_rows queue uuid expires_at (r ∷ rs) db =
    lease_rows queue (λ i. uuid (suc i)) expires_at rs (lease_row queue (uuid 0) expires_at r db)

pub messages_of :
    {J : Type 0} → (List ℕ → Option J) → (ℕ → ℕ) → List MessageRow → List (PullMessage J)
unfolding decode_body
messages_of parse uuid [] = []
messages_of parse uuid (r ∷ rs) =
    record {
      lease_id = uuid 0;
      id = r.id;
      created_at = r.created_at;
      body = decode_body parse r.body r.content_type;
      attempts = suc r.attempts;
    }
    ∷ messages_of parse (λ i. uuid (suc i)) rs

-- `none` is the error of a body that cannot be decoded: the transaction is rolled back, the
-- clean-up of leases before it is not.
unfoldable pub pull :
    {J : Type 0}
    → (List ℕ → Option J)
    → Text
    → (uuid : ℕ → ℕ) → ℕ
    → PullRequest
    → Db
    → Db × Option (List (PullMessage J))
pull parse queue uuid now options db =
    let db1 = record db { leases = drop_expired queue now db.leases } in
    let rows = candidates queue now (or_else options.batch_size 10) db1 in
    let valid = keep (λ r. not (is_v8 r.content_type)) rows in
    let expires_at = now + or_else options.visibility_timeout_ms 30000 in
    if any (λ r. throws (decode_body parse r.body r.content_type)) valid
    then (db1, none)
    else (lease_rows queue uuid expires_at valid db1, some (messages_of parse uuid valid))

-- A request without a list of acks or of retries has an empty one.
pub record AckRequest : Type 0 where
  pub acks : List ℕ
  pub retries : List (ℕ × Option ℕ)

-- The `SELECT` for the lease of an identifier.
find_lease : Text → ℕ → ℕ → List Lease → Option Lease
find_lease queue now id = find (λ l. (l.lease_id == id) && is_live queue now l)

drop_lease : ℕ → List Lease → List Lease
drop_lease id = keep (λ l. not (l.lease_id == id))

-- What settles a lease that is still live: its message is changed and the lease deleted.
settle_lease : Text → ℕ → ℕ → (MessageRow → MessageRow) → Db × ℕ → Db × ℕ
unfolding find_lease drop_lease
settle_lease queue now id f (db, count) = elim (find_lease queue now id db.leases) [
  | none ↦ (db, count)
  | some l ↦ (
    record {
      messages = update_message l.message_id f db.messages;
      leases = drop_lease id db.leases;
    },
    suc count,
  )
]

-- `clock` gives the time at which the message of a lease is marked.
ack_all : Text → ℕ → (clock : ℕ → ℕ) → List ℕ → Db × ℕ → Db × ℕ
unfolding settle_lease
ack_all queue now clock [] s = s
ack_all queue now clock (id ∷ ids) s =
    ack_all queue now clock ids (settle_lease queue now id (mark_acked (clock id)) s)

retry_all : Text → ℕ → List (ℕ × Option ℕ) → Db × ℕ → Db × ℕ
unfolding settle_lease
retry_all queue now [] s = s
retry_all queue now ((id, delay) ∷ rs) s =
    retry_all queue now rs
      (settle_lease queue now id (delay_until (now + or_else delay 0 * 1000)) s)

-- The counts of acknowledged and of retried leases.
unfoldable pub ack : Text → ℕ → (clock : ℕ → ℕ) → AckRequest → Db → Db × ℕ × ℕ
unfolding ack_all retry_all
ack queue now clock request db =
    let (db1, acked) = ack_all queue now clock request.acks (db, 0) in
    let (db2, retried) = retry_all queue now request.retries (db1, 0) in (db2, acked, retried)
