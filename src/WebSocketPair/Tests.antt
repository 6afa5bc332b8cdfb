-- ===== src/WebSocketPair/Tests.antt =====
-- Runs and examples for src/bindings/websocket-pair.ts.
use lopata.Common.{◌≡◌, ◌↔◌, refl, true, false, none, List, [], ◌∷◌, Text}
use lopata.WebSocketPair.{
  Payload, string, view, array_buffer, message, close_event, one, two, new_pair, send, close,
  accept_side, flush, accept, dispatch_or_queue, new_socket, dispatch, normalize,
}
use lopata.WebSocketPair.Channel.{
  Op, accepts, sends, closes, run, step, spec_run, new_channel, may_send, Implements,
  run-Implements, send-eq-none_iff,
}

abbrev hello : Text
hello = 104 ∷ 105 ∷ []

abbrev some_bytes : Payload
some_bytes = view (1 ∷ 2 ∷ 3 ∷ 4 ∷ []) 1 2

-- The first side sends before the second accepts, and closes.
abbrev session : List Op
session =
    accepts one
    ∷ sends one (string hello)
    ∷ sends one some_bytes
    ∷ closes one none none
    ∷ accepts two
    ∷ []

-- The second side sees everything in order once it accepts, a view copied into a buffer of its own.
session_second :
    (run new_pair session).second.dispatched
    ≡ message (string hello) ∷ message (array_buffer (2 ∷ 3 ∷ [])) ∷ close_event 1000 [] true ∷ []
unfolding run step send close accept_side accept dispatch_or_queue flush dispatch normalize new_pair
    new_socket
session_second = refl

run-Implements_example : Implements (spec_run new_channel session) (run new_pair session)
run-Implements_example = run-Implements session

send-eq-none_iff_example :
    (send two (string hello) (run new_pair session) ≡ none)
    ↔ (may_send two (spec_run new_channel session) ≡ false)
send-eq-none_iff_example = send-eq-none_iff session two (string hello)
