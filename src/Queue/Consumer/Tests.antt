-- ===== src/Queue/Consumer/Tests.antt =====
-- A consumer with a dead letter queue, and the theorems about it at its polls.
use lopata.Common.{
  ℕ, ◌≡◌, ◌≤◌, ◌⊎◌, refl, ◌≢◌, false, true, Option, none, some, List, [], ◌∷◌, ◌++◌, arith, map,
  codes, order_by,
}
use lopata.Queue.{MessageRow, Db, json, pending, acked, update_message}
use lopata.Queue.Consumer.{
  ConsumerConfig, Consumer, Outcome, on_message, on_batch, ack, retry, poll_begin, poll_end,
  unreadable, decision_of,
}
use lopata.Queue.Consumer.Settlement.{Ends, poll_end_settles}
use lopata.Queue.Consumer.Deliveries.{times, delivered}
use lopata.Queue.Consumer.Retries.{poll_round, Reached, start, sends, polls, deliveries_bounded}
use lopata.Queue.Consumer.Recounts.{attempts_more}
use lopata.Queue.Consumer.Failure.{polls_with, poll_unreadable}

abbrev config : ConsumerConfig
config = record {
  queue = codes "q";
  max_batch_size = 10;
  max_retries = 2;
  dead_letter_queue = some (codes "dlq");
  max_concurrency = none;
  retry_delay = some 3;
  retention_period_seconds = none;
}

abbrev idle : Consumer
idle = record { timer = true; polling = false; active_deliveries = 0 }

-- An empty body cannot be parsed, as with `JSON.parse`.
abbrev parse : List ℕ → Option ℕ
parse [] = none
parse (n ∷ rest) = some n

abbrev message : ℕ → List ℕ → MessageRow
message id body = record {
  id = id;
  queue = codes "q";
  body = body;
  content_type = json;
  attempts = 0;
  status = pending;
  visible_at = 1000;
  created_at = 1000;
  completed_at = none;
}

abbrev two : Db
two = record { messages = message 1 (5 ∷ []) ∷ message 2 (6 ∷ []) ∷ []; leases = [] }

-- The handler retries the first message and acknowledges the batch.
abbrev outcome : Outcome
outcome = record { calls = on_message 1 (retry none) ∷ on_batch ack ∷ []; threw = false }

poll_runs :
    let (c, db, rows) = poll_begin config 2000 idle two in
    (poll_end parse config (λ i. 2500) outcome rows c db).1.messages
    ≡ record (message 1 (5 ∷ [])) { attempts = 1; visible_at = 5500 }
      ∷ record (message 2 (6 ∷ [])) { attempts = 1; status = acked; completed_at = some 2500 }
      ∷ []
unfolding poll_begin poll_end order_by update_message decision_of
poll_runs = refl

readable : unreadable parse (poll_begin config 2000 idle two).2 ≡ false
unfolding poll_begin unreadable order_by
readable = refl

poll_end_settles_example :
    let rows = (poll_begin config 2000 idle two).2 in
    (f : MessageRow → MessageRow) × ((poll_end parse config
        (λ i. 2500)
        outcome
        rows
        idle
        two).1.messages
      ≡ map f two.messages)
    × ((m : MessageRow) → Ends config (λ i. 2500) outcome rows m (f m))
poll_end_settles_example =
    poll_end_settles parse config 2000 (λ i. 2500) outcome idle idle two two (omega arith) readable

other_queue : config.dead_letter_queue ≢ some config.queue
other_queue e = cc

one : Db
one = record { messages = message 1 (5 ∷ []) ∷ []; leases = [] }

one-Reached : Reached parse config [] one
unfolding one
one-Reached = sends (message 1 (5 ∷ [])) (start []) refl tt refl

-- What the first poll delivers, and the tables after it.
abbrev first_log : List ℕ
first_log = delivered parse (poll_begin config 2000 idle one).2 ++ []

abbrev after_poll : Db
after_poll = poll_round parse config 2000 (λ i. 2500) outcome idle one

first_log_run : first_log ≡ 1 ∷ []
unfolding one poll_begin unreadable order_by
first_log_run = refl

polled-Reached : Reached parse config first_log after_poll
polled-Reached = polls 2000 (λ i. 2500) outcome idle one-Reached

deliveries_bounded_example : (times 1 first_log ≤ 1) ⊎ (times 1 first_log ≤ config.max_retries)
deliveries_bounded_example =
    deliveries_bounded parse config first_log after_poll other_queue polled-Reached 1

abbrev poisoned : Db
poisoned = record { messages = message 1 [] ∷ message 2 (6 ∷ []) ∷ []; leases = [] }

unreadable_batch : unreadable parse (poll_begin config 2000 idle poisoned).2 ≡ true
unfolding poll_begin unreadable order_by
unreadable_batch = refl

poll_unreadable_example :
    let (c', db', rows) =
      poll_begin config 2000 idle (
        polls_with parse config 2000
          (λ i. 2500)
          idle
          (outcome ∷ outcome ∷ outcome ∷ [])
          poisoned) in
    (rows ≡ map (attempts_more 3) (poll_begin config 2000 idle poisoned).2)
    × (delivered parse rows ≡ [])
    × ((poll_end parse config (λ i. 2500) outcome rows c' db').0 ≡ idle)
poll_unreadable_example =
    poll_unreadable parse config 2000 (λ i. 2500) idle poisoned (outcome ∷ outcome ∷ outcome ∷ [])
      outcome unreadable_batch
