-- ===== src/Queue/Producer/Tests.antt =====
-- A producer at work, and the theorems about it at these inputs.
use lopata.Common.{ok, throw, ℕ, ◌+◌, ◌≡◌, refl, ◌↔◌, none, some, List, [], ◌∷◌, codes}
use lopata.Queue.{json, bytes, Db}
use lopata.Queue.Bodies.{Body, value, uint8_array, message_too_big, bad_delay, encode_body}
use lopata.Queue.Producer.{
  plus, minus, queue_defaults, SendOptions, BatchMessage, Producer, Encoded, send, send_batch,
  new_row, checked_delay, prepare, prepare_one, prepare_all, insert_rows, insert_message,
}
use lopata.Queue.Producer.Batches.{Accepted, batch_rows, send_batch_iff}

-- Values are numbers here, and a number is its own encoding.
abbrev encoded_as : Body ℕ → List ℕ
encoded_as (value n) = n ∷ []
encoded_as _ = []

abbrev producer : Producer
producer = record {
  queue_name = codes "q";
  default_delay = plus 5;
  limits = record queue_defaults { max_message_size = 3; max_batch_size = 3 };
}

abbrev no_options : SendOptions
no_options = record { content_type = none; delay_seconds = none }

abbrev empty : Db
empty = record { messages = []; leases = [] }

abbrev two : List (BatchMessage ℕ)
two =
    record { body = value 7; options = no_options }
    ∷ record {
      body = uint8_array (1 ∷ 2 ∷ []);
      options = record { content_type = some bytes; delay_seconds = some (plus 0) };
    }
    ∷ []

abbrev two_encoded : List Encoded
two_encoded =
    record { content = 7 ∷ []; content_type = json; delay_seconds = 5 }
    ∷ record { content = 1 ∷ 2 ∷ []; content_type = bytes; delay_seconds = 0 }
    ∷ []

abbrev after_two : Db
after_two = record { messages = batch_rows (codes "q") (λ i. 10 + i) 1000 two_encoded; leases = [] }

two_accepted :
    send_batch encoded_as encoded_as producer two no_options (λ i. 10 + i) 1000 empty ≡ ok after_two
unfolding send_batch prepare_all prepare_one prepare checked_delay encode_body insert_rows
    insert_message new_row
two_accepted = refl

send_refusals :
    (send encoded_as encoded_as producer
        (uint8_array (1 ∷ 2 ∷ 3 ∷ 4 ∷ []))
        (record { content_type = some bytes; delay_seconds = none })
        1
        0
        empty
      ≡ throw message_too_big)
    × (send encoded_as encoded_as producer
          (value 1)
          (record { content_type = none; delay_seconds = some (minus 0) })
          1
          0
          empty
        ≡ throw bad_delay)
unfolding send prepare checked_delay encode_body
send_refusals = (refl, refl)

send_batch_iff_example :
    (send_batch encoded_as encoded_as producer two no_options (λ i. 10 + i) 1000 empty
      ≡ ok after_two)
    ↔ Accepted encoded_as encoded_as producer no_options (λ i. 10 + i) 1000 two empty after_two
send_batch_iff_example =
    send_batch_iff encoded_as encoded_as producer no_options (λ i. 10 + i) 1000 two empty after_two
