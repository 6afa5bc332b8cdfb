-- ===== src/Queue/Producer.antt =====
-- The class `SqliteQueueProducer` of src/bindings/queue.ts.
pub mod Preparation
pub mod Batches
mod Tests
use lopata.Common.{
  Result, ok, throw, ◌>>=◌, or_else, ℕ, suc, ◌+◌, ◌*◌, Bool, true, false, ◌||◌, Option, none, some,
  List, [], ◌∷◌, ◌++◌, ltb, length, if◌then◌else◌, Text,
}
use lopata.Queue.{ContentType, json, Status, pending, MessageRow, Db}
use lopata.Queue.Bodies.{
  Body, Error, bad_delay, message_too_big, too_many_messages, batch_too_big, encode_body,
}

-- A number of seconds that a caller passes; `minus n` is -(n + 1).
pub data Seconds : Type 0 where
  plus minus : ℕ → Seconds

pub record QueueLimits : Type 0 where
  pub max_message_size : ℕ
  pub max_batch_messages : ℕ
  pub max_batch_size : ℕ
  pub max_delay_seconds : ℕ

abbrev pub queue_defaults : QueueLimits
queue_defaults = record {
  max_message_size = 128 * 1024;
  max_batch_messages = 100;
  max_batch_size = 256 * 1024;
  max_delay_seconds = 43200;
}

pub record SendOptions : Type 0 where
  pub content_type : Option ContentType
  pub delay_seconds : Option Seconds

pub record BatchMessage (J : Type 0) : Type 0 where
  pub body : Body J
  pub options : SendOptions

pub record Producer : Type 0 where
  pub queue_name : Text
  pub default_delay : Seconds
  pub limits : QueueLimits

-- The range check of a delay.
pub checked_delay : QueueLimits → Seconds → Result Error ℕ
checked_delay limits (minus n) = throw bad_delay
checked_delay limits (plus n) = if ltb limits.max_delay_seconds n then throw bad_delay else ok n

pub record Encoded : Type 0 where
  pub content : List ℕ
  pub content_type : ContentType
  pub delay_seconds : ℕ

-- The row that an `INSERT` of a producer writes.
pub new_row : Text → ℕ → ℕ → Encoded → MessageRow
new_row queue id now e = record {
  id = id;
  queue = queue;
  body = e.content;
  content_type = e.content_type;
  attempts = 0;
  status = pending;
  visible_at = now + e.delay_seconds * 1000;
  created_at = now;
  completed_at = none;
}

insert_message : MessageRow → Db → Db
insert_message row db = record db { messages = db.messages ++ (row ∷ []) }

-- The rows of a batch are inserted one by one; `uuid` gives the identifiers, by position.
insert_rows : Text → (ℕ → ℕ) → ℕ → List Encoded → Db → Db
unfolding insert_message
insert_rows queue uuid now [] db = db
insert_rows queue uuid now (e ∷ es) db =
    insert_rows queue (λ i. uuid (suc i)) now es (insert_message (new_row queue (uuid 0) now e) db)

module _ {J : Type 0} (to_text stringify : Body J → List ℕ) where
  -- One message encoded and checked, as `send` and each round of `sendBatch` do.
  pub prepare : QueueLimits → Body J → ContentType → Seconds → Result Error Encoded
  prepare limits body content_type delay = do
    seconds ← checked_delay limits delay
    content ← encode_body to_text stringify body content_type
    if ltb limits.max_message_size (length content)
        then throw message_too_big
        else ok (record { content = content; content_type = content_type; delay_seconds = seconds })

  -- The new tables, or the error; a call that throws has written nothing.
  pub send : Producer → Body J → SendOptions → (id now : ℕ) → Db → Result Error Db
  send p message options id now db = do
    e ←
        prepare p.limits message (or_else options.content_type json)
          (or_else options.delay_seconds p.default_delay)
    ok (insert_message (new_row p.queue_name id now e) db)

  -- One message of a batch, with the options that apply to it.
  pub prepare_one : Producer → SendOptions → BatchMessage J → Result Error Encoded
  prepare_one p options m =
      prepare p.limits m.body (or_else m.options.content_type (or_else options.content_type json))
        (or_else m.options.delay_seconds (or_else options.delay_seconds p.default_delay))

  -- The loop of `sendBatch`, with the total size so far.
  prepare_all : Producer → SendOptions → List (BatchMessage J) → ℕ → Result Error (List Encoded × ℕ)
  prepare_all p options [] total = ok ([], total)
  prepare_all p options (m ∷ ms) total = do
    e ← prepare_one p options m
    rest ← prepare_all p options ms (total + length e.content)
    ok (e ∷ rest.0, rest.1)

  pub send_batch :
      Producer
      → List (BatchMessage J)
      → SendOptions
      → (uuid : ℕ → ℕ) (now : ℕ) → Db
      → Result Error Db
  send_batch p messages options uuid now db =
      if ltb p.limits.max_batch_messages (length messages) then throw too_many_messages else do
        encoded ← prepare_all p options messages 0
        if ltb p.limits.max_batch_size encoded.1
            then throw batch_too_big
            else ok (insert_rows p.queue_name uuid now encoded.0 db)
