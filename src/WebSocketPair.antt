-- ===== src/WebSocketPair.antt =====
-- src/bindings/websocket-pair.ts. The listeners of a socket are seen through the list of events that
-- were dispatched to them; a listener that calls back into the pair while it is being called is not
-- modelled. An attachment is held as its JSON text.
pub mod Channel
mod Tests
use lopata.Common.{
  ℕ, Bool, true, false, not, ◌&&◌, ◌||◌, Option, none, some, List, [], ◌∷◌, ◌++◌, if◌then◌else◌,
  or_else, take, drop, Text, codes,
}

pub data ReadyState : Type 0 where
  connecting open_state closing closed : ReadyState

abbrev pub is_open : ReadyState → Bool
is_open open_state = true
is_open _ = false

abbrev pub is_closed : ReadyState → Bool
is_closed closed = true
is_closed _ = false

abbrev pub is_closing : ReadyState → Bool
is_closing closing = true
is_closing _ = false

-- What `send` takes, and what a message event carries.
pub data Payload : Type 0 where
  string : Text → Payload
  array_buffer : List ℕ → Payload
  view : (buffer : List ℕ) (offset size : ℕ) → Payload

pub data WsEvent : Type 0 where
  message : Payload → WsEvent
  close_event : (code : ℕ) (reason : Text) (was_clean : Bool) → WsEvent
  error_event : WsEvent
  open_event : WsEvent

-- `dispatched` lists the events that the listeners have been called with, oldest first.
pub record CfWebSocket : Type 0 where
  pub ready_state : ReadyState
  pub accepted : Bool
  pub event_queue : List WsEvent
  pub dispatched : List WsEvent
  pub attachment : Option Text

pub new_socket : CfWebSocket
new_socket = record {
  ready_state = connecting;
  accepted = false;
  event_queue = [];
  dispatched = [];
  attachment = none;
}

pub serialize_attachment : Text → CfWebSocket → CfWebSocket
serialize_attachment json s = record s { attachment = some json }

pub deserialize_attachment : CfWebSocket → Option Text
deserialize_attachment s = s.attachment

pub dispatch : WsEvent → CfWebSocket → CfWebSocket
dispatch e s = record s { dispatched = s.dispatched ++ (e ∷ []) }

-- The loop that flushes the queue.
pub flush : List WsEvent → CfWebSocket → CfWebSocket
unfolding dispatch
flush [] s = s
flush (e ∷ es) s = flush es (dispatch e s)

pub accept : CfWebSocket → CfWebSocket
accept s =
    if s.accepted
    then s
    else flush s.event_queue (record s {
      accepted = true;
      ready_state = if is_closed s.ready_state then s.ready_state else open_state;
      event_queue = [];
    })

pub dispatch_or_queue : WsEvent → CfWebSocket → CfWebSocket
unfolding dispatch
dispatch_or_queue e s =
    if s.accepted then dispatch e s else record s { event_queue = s.event_queue ++ (e ∷ []) }

-- A view is copied into a buffer of its own.
pub normalize : Payload → Payload
normalize (view buffer offset size) = array_buffer (take size (drop offset buffer))
normalize (string text) = string text
normalize (array_buffer buffer) = array_buffer buffer

-- The two sockets of a pair.
pub record WebSocketPair : Type 0 where
  pub first : CfWebSocket
  pub second : CfWebSocket

pub data Side : Type 0 where
  one two : Side

abbrev pub other : Side → Side
other one = two
other two = one

abbrev pub socket : Side → WebSocketPair → CfWebSocket
socket one p = p.first
socket two p = p.second

-- The pair with a socket and its peer replaced.
abbrev pub with_sockets : Side → CfWebSocket → CfWebSocket → WebSocketPair
with_sockets one self peer = record { first = self; second = peer }
with_sockets two self peer = record { first = peer; second = self }

pub new_pair : WebSocketPair
unfolding new_socket
new_pair = record { first = new_socket; second = new_socket }

pub accept_side : Side → WebSocketPair → WebSocketPair
unfolding accept flush
accept_side i p = with_sockets i (accept (socket i p)) (socket (other i) p)

-- `none` is the error of a socket that is not open.
pub send : Side → Payload → WebSocketPair → Option WebSocketPair
unfolding dispatch_or_queue
send i data_sent p =
    if not (is_open (socket i p).ready_state)
    then none
    else if is_closed (socket (other i) p).ready_state
    then some p
    else some (
        with_sockets i (socket i p)
          (dispatch_or_queue (message (normalize data_sent)) (socket (other i) p)))

pub close : Side → Option ℕ → Option Text → WebSocketPair → WebSocketPair
unfolding dispatch_or_queue
close i code reason p =
    let self = socket i p in
    let peer = socket (other i) p in
    let e = close_event (or_else code 1000) (or_else reason []) true in
    if is_closed self.ready_state || is_closing self.ready_state
    then p
    else let peer' =
        if is_closed peer.ready_state || is_closing peer.ready_state
        then peer
        else record (dispatch_or_queue e peer) { ready_state = closed } in
      with_sockets i (dispatch_or_queue e (record self { ready_state = closed })) peer'
