-- ===== src/Queue/Consumer.antt =====
-- The class `QueueConsumer` of src/bindings/queue.ts. A poll has two parts with the user's handler
-- between them: `poll_begin` cleans up, selects and counts the attempt, `poll_end` settles the
-- messages by what the handler did. Other users of the tables may act in between.
pub mod Decisions
pub mod Passes
pub mod Settlement
pub mod Deliveries
pub mod Begun
pub mod Retries
pub mod Recounts
pub mod Failure
mod Tests
use lopata.Common.{
  or_else, is_nil, ℕ, suc, ◌+◌, ◌-◌, ◌*◌, ◌≡◌, Bool, true, false, not, ◌&&◌, Option, none, some,
  List, [], ◌∷◌, ◌==◌, ltb, leb, if◌then◌else◌, map, keep, any, take, order_by, Text, text_eq,
}
use lopata.Queue.{
  MessageRow, Status, is_pending, Db, update_message, count_attempt, mark_acked, mark_failed,
  delay_until, dead_letter,
}
use lopata.Queue.Bodies.{Decoded, parsed, decode_body}

pub record ConsumerConfig : Type 0 where
  pub queue : Text
  pub max_batch_size : ℕ
  pub max_retries : ℕ
  pub dead_letter_queue : Option Text
  pub max_concurrency : Option ℕ
  pub retry_delay : Option ℕ
  pub retention_period_seconds : Option ℕ

pub record Consumer : Type 0 where
  pub timer : Bool
  pub polling : Bool
  pub active_deliveries : ℕ

-- The second part says whether a first poll is made at once.
pub start : Consumer → Consumer × Bool
start c = if c.timer then (c, false) else (record c { timer = true }, true)

pub stop : Consumer → Consumer
stop c = record c { timer = false }

-- The retention `DELETE`: `created_at < now - retention`, in milliseconds.
pub purge : ConsumerConfig → ℕ → List MessageRow → List MessageRow
purge config now = keep (λ m. not (
    text_eq m.queue config.queue
    && ltb (m.created_at + or_else config.retention_period_seconds 345600 * 1000) now))

abbrev deliverable : Text → ℕ → MessageRow → Bool
deliverable queue now m = text_eq m.queue queue && (is_pending m.status && leb m.visible_at now)

pub select : ConsumerConfig → ℕ → List MessageRow → List MessageRow
select config now ms =
    take config.max_batch_size
      (order_by (λ m. m.visible_at) (keep (deliverable config.queue now) ms))

-- `id IN (…)` for the selected rows.
abbrev pub is_among : List MessageRow → ℕ → Bool
is_among rows id = any (λ r. r.id == id) rows

pub count_attempts : List MessageRow → List MessageRow → List MessageRow
count_attempts rows = map (λ m. if is_among rows m.id then count_attempt m else m)

-- `maxConcurrency && _activeDeliveries >= maxConcurrency`
at_capacity : ConsumerConfig → Consumer → Bool
at_capacity config c = elim config.max_concurrency [
  | none ↦ false
  | some n ↦ not (n == 0) && leb n c.active_deliveries
]

-- The rows that go to the handler, as they were before the attempt was counted; none where the
-- poll has ended.
pub poll_begin : ConsumerConfig → ℕ → Consumer → Db → Consumer × Db × List MessageRow
unfolding purge select count_attempts at_capacity
poll_begin config now c db =
    if c.polling
    then (c, db, [])
    else if at_capacity config c
    then (c, db, [])
    else let left = purge config now db.messages in
      let rows = select config now left in
      if is_nil rows then (c, record db { messages = left }, []) else (
        record c { polling = true; active_deliveries = suc c.active_deliveries },
        record db { messages = count_attempts rows left },
        rows,
      )

pub data Decision : Type 0 where
  ack : Decision
  retry : Option ℕ → Decision

-- The calls that a handler makes on the messages and on the batch, in order.
pub data Call : Type 0 where
  on_message : ℕ → Decision → Call
  on_batch : Decision → Call

-- What the handler did, and whether it threw.
pub record Outcome : Type 0 where
  pub calls : List Call
  pub threw : Bool

-- The map of decisions by message: the last call wins.
message_decision : ℕ → List Call → Option Decision → Option Decision
message_decision id [] found = found
message_decision id (on_message i d ∷ cs) found =
    message_decision id cs (if i == id then some d else found)
message_decision id (on_batch d ∷ cs) found = message_decision id cs found

batch_decision : List Call → Option Decision → Option Decision
batch_decision [] found = found
batch_decision (on_message i d ∷ cs) found = batch_decision cs found
batch_decision (on_batch d ∷ cs) found = batch_decision cs (some d)

pub decision_of : Outcome → ℕ → Option Decision
unfolding message_decision batch_decision
decision_of o id = if o.threw then some (retry none) else elim (message_decision id o.calls none) [
  | none ↦ batch_decision o.calls none
  | some d ↦ some d
]

abbrev is_empty : Text → Bool
is_empty [] = true
is_empty (a ∷ s) = false

-- The `UPDATE` of a message that has used up its attempts.
exhaust : ConsumerConfig → ℕ → MessageRow → MessageRow
exhaust config now m = elim config.dead_letter_queue [
  | none ↦ mark_failed now m
  | some q ↦ if is_empty q then mark_failed now m else dead_letter q now m
]

-- The `UPDATE` that settles a message; `attempts` counts this delivery.
pub settle : ConsumerConfig → Option Decision → (attempts now : ℕ) → MessageRow → MessageRow
unfolding exhaust
settle config none attempts now m = mark_acked now m
settle config (some ack) attempts now m = mark_acked now m
settle config (some (retry seconds)) attempts now m =
    if leb config.max_retries attempts
    then exhaust config now m
    else delay_until (now + or_else seconds (or_else config.retry_delay 0) * 1000) m

-- The loop over the rows; `clock` gives the time at which the row of an identifier is settled.
pub settle_all :
    ConsumerConfig → (clock : ℕ → ℕ) → Outcome → List MessageRow → List MessageRow → List MessageRow
unfolding settle
settle_all config clock o [] ms = ms
settle_all config clock o (r ∷ rs) ms =
    settle_all config clock o rs
      (update_message r.id (settle config (decision_of o r.id) (suc r.attempts) (clock r.id)) ms)

abbrev is_unparsed {ℓ} : {A : Type ℓ} → Option A → Bool
is_unparsed none = true
is_unparsed (some j) = false

unfoldable pub throws : {J : Type 0} → Decoded J → Bool
throws (parsed p) = is_unparsed p
throws _ = false

-- `decodeBody` runs over the rows before the handler; where it throws, nothing is settled and the
-- poll ends with the error.
pub unreadable : {J : Type 0} → (List ℕ → Option J) → List MessageRow → Bool
unfolding throws decode_body
unreadable parse rows = any (λ r. throws (decode_body parse r.body r.content_type)) rows

pub poll_end :
    {J : Type 0}
    → (List ℕ → Option J)
    → ConsumerConfig
    → (clock : ℕ → ℕ) → Outcome
    → List MessageRow
    → Consumer
    → Db
    → Consumer × Db
unfolding unreadable settle_all
poll_end parse config clock o [] c db = (c, db)
poll_end parse config clock o (r ∷ rs) c db = (
  record c { polling = false; active_deliveries = c.active_deliveries - 1 },
  if unreadable parse (r ∷ rs)
      then db
      else record db { messages = settle_all config clock o (r ∷ rs) db.messages },
)
