-- ===== src/Queue/PullConsumer/Tests.antt =====
-- Pulls and acknowledgements of two messages, and the theorems about them at these inputs.
use lopata.Common.{
  ℕ, ◌+◌, ◌≡◌, refl, none, some, Option, List, [], ◌∷◌, arith, All, codes, order_by,
}
use lopata.Queue.Consumer.{throws}
use lopata.Queue.{MessageRow, Db, ContentType, json, v8, pending, update_message}
use lopata.Queue.Bodies.{parsed}
use lopata.Queue.PullConsumer.{
  PullRequest, PullMessage, AckRequest, pull, ack, drop_expired, candidates, lease_rows,
  messages_of,
}
use lopata.Queue.PullConsumer.Exclusive.{Exclusive}
use lopata.Queue.PullConsumer.History.{
  Leased, begin, sends, pulls, IsFree, leases-Exclusive, pull-IsFree,
}
use lopata.Queue.PullConsumer.Consumed.{ack_again}

abbrev parse : List ℕ → Option (List ℕ)
parse raw = some raw

abbrev message : ℕ → ContentType → MessageRow
message id content_type = record {
  id = id;
  queue = codes "q";
  body = id ∷ [];
  content_type = content_type;
  attempts = 0;
  status = pending;
  visible_at = 1000;
  created_at = 1000;
  completed_at = none;
}

abbrev one : Db
one = record { messages = message 1 json ∷ []; leases = [] }

abbrev defaults : PullRequest
defaults = record { batch_size = none; visibility_timeout_ms = none }

abbrev first_pull : Db × Option (List (PullMessage (List ℕ)))
first_pull = pull parse (codes "q") (λ i. 100 + i) 2000 defaults one

abbrev pulled : List (PullMessage (List ℕ))
pulled =
    record {
      lease_id = 100;
      id = 1;
      created_at = 1000;
      body = parsed (some (1 ∷ []));
      attempts = 1;
    }
    ∷ []

pull_runs : first_pull.1 ≡ some pulled
unfolding pull drop_expired candidates lease_rows messages_of order_by update_message throws
pull_runs = refl

-- While the lease runs the message is not handed out again; when it has expired, it is.
pull_twice :
    ((pull parse (codes "q") (λ i. 200 + i) 3000 defaults first_pull.0).1 ≡ some [])
    × ((pull parse (codes "q") (λ i. 200 + i) 32000 defaults first_pull.0).0.leases
        ≡ record { lease_id = 200; message_id = 1; queue = codes "q"; expires_at = 62000 } ∷ [])
unfolding pull drop_expired candidates lease_rows messages_of order_by update_message throws
pull_twice = (refl, refl)

-- A batch of one that meets a v8 message returns nothing, though another message waits behind it.
v8_blocks :
    (pull parse
      (codes "q")
      (λ i. 100 + i)
      2000
      (record defaults { batch_size = some 1 })
      (record { messages = message 1 v8 ∷ message 2 json ∷ []; leases = [] })).1
    ≡ some []
unfolding pull drop_expired candidates lease_rows messages_of order_by update_message throws
v8_blocks = refl

one-Leased : Leased parse first_pull.0
one-Leased = pulls (codes "q") (λ i. 100 + i) 2000 defaults (sends (message 1 json) begin tt)

leases-Exclusive_example : Exclusive first_pull.0
leases-Exclusive_example = leases-Exclusive parse first_pull.0 one-Leased

pull-IsFree_example : All (λ m. IsFree (codes "q") 2000 one m.id) pulled
pull-IsFree_example =
    pull-IsFree parse (codes "q") (λ i. 100 + i) 2000 defaults one pulled pull_runs

abbrev request : AckRequest
request = record { acks = 100 ∷ 7 ∷ []; retries = [] }

ack_runs : (ack (codes "q") 2500 (λ i. 2600) request first_pull.0).1 ≡ 1
unfolding ack pull drop_expired candidates lease_rows messages_of order_by throws
ack_runs = refl

ack_again_example :
    let db' = (ack (codes "q") 2500 (λ i. 2600) request first_pull.0).0 in
    ack (codes "q") 2500 (λ i. 2600) request db' ≡ (db', 0, 0)
ack_again_example =
    ack_again (codes "q") 2500 2500 (λ i. 2600) (λ i. 2600) request first_pull.0 (omega arith)
