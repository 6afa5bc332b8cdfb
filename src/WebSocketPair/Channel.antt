-- ===== src/WebSocketPair/Channel.antt =====
-- A pair of sockets implements a channel that knows nothing of queues: each side has one stream of
-- events, and sees it from the moment that it accepts.
use lopata.Common.{
  ℕ, ◌≡◌, refl, ◌∙◌, sym, ap, ◌↔◌, Bool, true, false, not, ◌&&◌, Option, none, List, [], ◌∷◌, ◌++◌,
  append_assoc, append-nil, arith, or_else, if◌then◌else◌, Text,
}
use lopata.WebSocketPair.{
  is_closed, connecting, open_state, closed, Payload, WsEvent, message, close_event, CfWebSocket,
  dispatch, flush, accept, dispatch_or_queue, normalize, WebSocketPair, Side, one, two, other,
  new_pair, accept_side, send, close,
}

-- The specification.
pub record End : Type 0 where
  pub accepted : Bool
  pub stream : List WsEvent

pub record Channel : Type 0 where
  pub is_shut : Bool
  pub left : End
  pub right : End

abbrev pub end_of : Side → Channel → End
end_of one c = c.left
end_of two c = c.right

abbrev put : WsEvent → End → End
put e t = record t { stream = t.stream ++ (e ∷ []) }

abbrev with_ends : Side → End → End → Channel → Channel
with_ends one self peer c = record c { left = self; right = peer }
with_ends two self peer c = record c { left = peer; right = self }

abbrev pub new_channel : Channel
new_channel = record {
  is_shut = false;
  left = record { accepted = false; stream = [] };
  right = record { accepted = false; stream = [] };
}

-- The calls on a pair.
pub data Op : Type 0 where
  accepts : Side → Op
  sends : Side → Payload → Op
  closes : Side → Option ℕ → Option Text → Op

-- A send goes through exactly from an end that has accepted, before the channel is shut.
abbrev pub may_send : Side → Channel → Bool
may_send i c = (end_of i c).accepted && not c.is_shut

unfoldable pub spec_step : Channel → Op → Channel
spec_step c (accepts i) =
    with_ends i (record (end_of i c) { accepted = true }) (end_of (other i) c) c
spec_step c (sends i p) =
    if may_send i c
    then with_ends i (end_of i c) (put (message (normalize p)) (end_of (other i) c)) c
    else c
spec_step c (closes i code reason) =
    let e = close_event (or_else code 1000) (or_else reason []) true in
    if c.is_shut
    then c
    else record (with_ends i (put e (end_of i c)) (put e (end_of (other i) c)) c) { is_shut = true }

-- A send that throws leaves the pair as it is.
unfoldable pub step : WebSocketPair → Op → WebSocketPair
step p (accepts i) = accept_side i p
step p (sends i data_sent) = or_else (send i data_sent p) p
step p (closes i code reason) = close i code reason p

-- A socket in the state that its end of the channel prescribes.
pub record Shows (shut : Bool) (t : End) (s : CfWebSocket) : Type 0 where
  pub accepted : s.accepted ≡ t.accepted
  pub dispatched : s.dispatched ≡ (if t.accepted then t.stream else [])
  pub queued : s.event_queue ≡ (if t.accepted then [] else t.stream)
  pub state :
      s.ready_state ≡ (if shut then closed else if t.accepted then open_state else connecting)

pub record Implements (c : Channel) (p : WebSocketPair) : Type 0 where
  pub left : Shows c.is_shut c.left p.first
  pub right : Shows c.is_shut c.right p.second

flush_lem :
    (es : List WsEvent) (s : CfWebSocket)
    → flush es s ≡ record s { dispatched = s.dispatched ++ es }
unfolding flush
flush_lem [] s =
    ap (λ (d : List WsEvent). record s { dispatched = d }) (sym (append-nil s.dispatched))
flush_lem (e ∷ es) s =
    flush_lem es (dispatch e s)
    ∙ ap (λ (d : List WsEvent). record s { dispatched = d }) (append_assoc s.dispatched (e ∷ []) es)

accept-Shows :
    (shut : Bool) (t : End) (s : CfWebSocket)
    → Shows shut t s
    → Shows shut (record t { accepted = true }) (accept s)
unfolding accept
accept-Shows shut t s v = ground (
  arith,
  flush_lem s.event_queue (record s {
    accepted = true;
    ready_state = if is_closed s.ready_state then s.ready_state else open_state;
    event_queue = [];
  }),
)

dispatch_or_queue-Shows :
    (shut : Bool) (t : End) (s : CfWebSocket) (e : WsEvent)
    → Shows shut t s
    → Shows shut (put e t) (dispatch_or_queue e s)
unfolding dispatch_or_queue
dispatch_or_queue-Shows shut t s e v = ground arith

-- Shutting changes only what the state of the socket shows.
shut-Shows :
    (shut : Bool) (t : End) (s : CfWebSocket)
    → Shows shut t s
    → Shows true t (record s { ready_state = closed })
shut-Shows shut t s v = ground arith

close-Shows :
    (shut : Bool) (t : End) (s : CfWebSocket) (e : WsEvent)
    → Shows shut t s
    → Shows true (put e t) (dispatch_or_queue e (record s { ready_state = closed }))
unfolding dispatch_or_queue
close-Shows shut t s e v = ground arith

close_peer-Shows :
    (shut : Bool) (t : End) (s : CfWebSocket) (e : WsEvent)
    → Shows shut t s
    → Shows true (put e t) (record (dispatch_or_queue e s) { ready_state = closed })
unfolding dispatch_or_queue
close_peer-Shows shut t s e v = ground arith

step-Implements :
    (c : Channel) (p : WebSocketPair) (op : Op)
    → Implements c p
    → Implements (spec_step c op) (step p op)
unfolding step spec_step accept_side send close
step-Implements c p (accepts one) v = record {
  left = accept-Shows c.is_shut c.left p.first v.left;
  right = v.right;
}
step-Implements c p (accepts two) v = record {
  left = v.left;
  right = accept-Shows c.is_shut c.right p.second v.right;
}
step-Implements c p (sends one d) v =
    ground
      (arith, dispatch_or_queue-Shows c.is_shut c.right p.second (message (normalize d)) v.right)
step-Implements c p (sends two d) v =
    ground (arith, dispatch_or_queue-Shows c.is_shut c.left p.first (message (normalize d)) v.left)
step-Implements c p (closes one code reason) v =
    let e = close_event (or_else code 1000) (or_else reason []) true in
    ground (
      arith,
      close-Shows c.is_shut c.left p.first e v.left,
      close_peer-Shows c.is_shut c.right p.second e v.right,
    )
step-Implements c p (closes two code reason) v =
    let e = close_event (or_else code 1000) (or_else reason []) true in
    ground (
      arith,
      close-Shows c.is_shut c.right p.second e v.right,
      close_peer-Shows c.is_shut c.left p.first e v.left,
    )

unfoldable pub run : WebSocketPair → List Op → WebSocketPair
run p [] = p
run p (op ∷ ops) = run (step p op) ops

unfoldable pub spec_run : Channel → List Op → Channel
spec_run c [] = c
spec_run c (op ∷ ops) = spec_run (spec_step c op) ops

run_from-Implements :
    (c : Channel) (p : WebSocketPair) (ops : List Op)
    → Implements c p
    → Implements (spec_run c ops) (run p ops)
unfolding run spec_run
run_from-Implements c p [] v = v
run_from-Implements c p (op ∷ ops) v =
    run_from-Implements (spec_step c op) (step p op) ops (step-Implements c p op v)

-- After any calls on a new pair, each socket has dispatched its whole stream of the channel, in order
-- and each event once, if it has accepted, and holds the whole stream back if it has not; it is
-- open, connecting or closed as the channel says.
pub run-Implements : (ops : List Op) → Implements (spec_run new_channel ops) (run new_pair ops)
unfolding new_pair
run-Implements ops = run_from-Implements new_channel new_pair ops (record {
  left = record { accepted = refl; dispatched = refl; queued = refl; state = refl };
  right = record { accepted = refl; dispatched = refl; queued = refl; state = refl };
})

-- After any calls on a new pair, a send throws exactly where the sender has not accepted or the
-- channel has been shut from either side.
pub send-eq-none_iff :
    (ops : List Op) (i : Side) (d : Payload)
    → (send i d (run new_pair ops) ≡ none) ↔ (may_send i (spec_run new_channel ops) ≡ false)
unfolding send
send-eq-none_iff ops one d = ground (arith, run-Implements ops)
send-eq-none_iff ops two d = ground (arith, run-Implements ops)
