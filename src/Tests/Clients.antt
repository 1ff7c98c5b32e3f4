-- ===== src/Tests/Clients.antt =====
-- A client of two servers.
use coactor.Base.{
  ℕ, ◌+◌, ◌≤◌, ◌≡◌, refl, Bool, true, false, Option, some, none, List, [], ◌∷◌, Bytes, bytes,
  Bytes-discrete, ℕ_discrete, Result, ok, err, get, insert, remove, bytes_eq, nat_eq, map, length,
}
use coactor.Failure.{SendError, OpenError, open_error}
use coactor.Address.{ActorAddress}
use coactor.Transport.{Kind, request, request}
use coactor.Cluster.{NodeRecord, answered}
use coactor.Client.{
  PlacementStrategy, TransportConnection, bind, unbind, on_connection, register_local,
  unregister_local, is_closed, send_over, terminate, terminate_all, close, try_send,
}
use coactor.Client.Receive.Others.{receive_loop-Spares}
use coactor.Client.Receive.Ended.{Told, finish_receive_loop-Told}
use coactor.Client.Open.{
  resolve_owner, select_placement_candidate, candidates_of, is_candidate, placement_candidates,
  timeout_at,
}
use coactor.Client.Receive.{handle_envelope, mark_closed, finish_receive_loop, shutdown, bound_in}
use coactor.Client.Open.Rounds.{
  RoundEnd, done, Inner, Answers, open_session, rounds, round, on_error, withdraw,
  acquire_connection, send_session_open, closing,
}
use coactor.Client.Open.Rounds.Acquired.{IsQuiet}
use coactor.Client.Open.Rounds.Cleanup.{Settled, open_session-Settled}
use coactor.Client.Open.Rounds.Sent.{opens, IsAlone}
use coactor.Client.Open.Rounds.Attempts.{open_session-Bounded}

-- The candidates in their order; the placements that failed are counted.
abbrev in_order : PlacementStrategy
in_order = record {
  Placement = ℕ;
  candidates = λ a cs n. (map (λ c. c.endpoint) cs, n);
  on_placement_failed = λ endpoint n. n + 1;
}

abbrev is_empty : Bytes → Bool
is_empty [] = true
is_empty _ = false

abbrev carol : ActorAddress
carol = record { actor_type = bytes "user"; actor_id = bytes "carol" }

abbrev idle : Inner in_order is_empty
idle = record {
  running = true;
  max_open_attempts = 2;
  max_connections_per_endpoint = 1;
  placement = 0;
  receivers = [];
  connections = [];
  pools = [];
  pending_opens = [];
  placement_cache = none;
  next_connection_id = 0;
  sent = [];
  delivered = [];
  completions = [];
}

abbrev node : Bytes → NodeRecord
node endpoint = record {
  node_id = endpoint;
  session_id = bytes "s";
  advertised_endpoint = endpoint;
  protocol_version = 2;
  lease_generation = 1;
  sampled_at_unix_ms = 0;
  active_actor_count = 0;
  max_actor_count = 10;
  pressured = false;
  draining = false;
}

-- No owner and two servers. Another open is acked in the wait for the own ack.
abbrev unowned_round : Option ℕ → Option (Result SendError (Unit {0})) → Answers in_order is_empty
unowned_round connected ack = record {
  owner = answered none;
  node = answered none;
  nodes = answered (node (bytes "n1") ∷ node (bytes "n2") ∷ []);
  now = 5000;
  locked_in_time = true;
  connected = connected;
  connecting = λ s. s;
  acquired = λ s. s;
  accepts = λ sender e. ok tt;
  complete = 40;
  ack = ack;
  acking = λ s. record s { completions = (39, ok tt) ∷ s.completions };
}

-- The first server refuses, the second cannot be reached, the first has the Actor then.
abbrev answers : List (Answers in_order is_empty)
answers =
    unowned_round (some 100) (some (err SendError.runtime_at_capacity))
    ∷ unowned_round none none
    ∷ unowned_round (some 102) (some (ok tt))
    ∷ []

abbrev alice : Bytes
alice = bytes "session-1"

abbrev outcome : RoundEnd × Inner in_order is_empty → RoundEnd × (ℕ × List Bytes)
outcome (r, s) = (r, (length s.sent, map (λ e. e.0) s.receivers))

refused_test :
    outcome (open_session in_order is_empty carol alice answers 7 idle)
    ≡ (done (err OpenError.runtime_at_capacity), (2, []))
unfolding open_session rounds round on_error withdraw acquire_connection send_session_open closing
    resolve_owner select_placement_candidate candidates_of is_candidate placement_candidates
    timeout_at send_over on_connection bind unbind register_local unregister_local is_closed
    try_send get insert remove Bytes-discrete ℕ_discrete request open_error
refused_test = refl

-- The connection is lost after the open has it and before it sends; the retry is answered.
abbrev lost_round : Answers in_order is_empty
lost_round = record (unowned_round (some 100) none) {
  acquired = λ s. finish_receive_loop in_order 0 (mark_closed in_order 0 s);
}

-- The open succeeds although its session has lost its receiver.
lost_receiver_test :
    outcome (
      open_session in_order is_empty carol alice
        (lost_round ∷ unowned_round (some 101) (some (ok tt)) ∷ [])
        7
        idle)
    ≡ (done (ok 1), (1, []))
unfolding open_session rounds round on_error withdraw acquire_connection send_session_open closing
    resolve_owner select_placement_candidate candidates_of is_candidate placement_candidates
    timeout_at send_over on_connection bind unbind register_local unregister_local is_closed
    try_send get insert remove Bytes-discrete ℕ_discrete request open_error finish_receive_loop
    mark_closed terminate close
lost_receiver_test = refl

-- The client is stopped in the wait for the ack.
abbrev stopped_round : Answers in_order is_empty
stopped_round = record (unowned_round (some 100) none) { acking = λ s. shutdown in_order s }

-- The open goes on with the next server and succeeds.
stopped_test :
    outcome (
      open_session in_order is_empty carol alice
        (stopped_round ∷ unowned_round (some 101) (some (ok tt)) ∷ [])
        7
        idle)
    ≡ (done (ok 1), (2, []))
unfolding open_session rounds round on_error withdraw acquire_connection send_session_open closing
    resolve_owner select_placement_candidate candidates_of is_candidate placement_candidates
    timeout_at send_over on_connection bind unbind register_local unregister_local is_closed
    try_send get insert remove Bytes-discrete ℕ_discrete request open_error shutdown mark_closed
    terminate_all close
stopped_test = refl

unowned_round-IsAlone :
    (connected : Option ℕ) (ack : Option (Result SendError (Unit {0})))
    → IsAlone in_order is_empty carol alice (unowned_round connected ack)
unowned_round-IsAlone connected ack = record {
  connecting = λ s. record { opened = refl; limit = refl };
  acquired = λ s. record { opened = refl; limit = refl };
  acking = λ s. record { opened = refl; limit = refl };
}

open_session-Bounded_example :
    opens alice (open_session in_order is_empty carol alice answers 7 idle).1.sent ≤ 2
open_session-Bounded_example =
    open_session-Bounded in_order is_empty carol alice answers 7 idle
      (unowned_round-IsAlone _ _, (unowned_round-IsAlone _ _, (unowned_round-IsAlone _ _, tt)))

-- The receive loop of the first connection handles an event in the wait for the ack, and ends while
-- the second connection is made.
abbrev loop_round : Answers in_order is_empty
loop_round = record (unowned_round (some 100) none) {
  acking = λ s. handle_envelope in_order 0 (request carol alice (Kind.event (bytes "hello"))) s;
}

abbrev end_round : Answers in_order is_empty
end_round = record (unowned_round (some 101) (some (ok tt))) {
  connecting = λ s. finish_receive_loop in_order 0 (mark_closed in_order 0 s);
}

loop_round-IsQuiet : IsQuiet in_order is_empty carol alice loop_round
loop_round-IsQuiet = record {
  connecting = record { unbound = λ s id h. h };
  acquired = record { unbound = λ s id h. h };
  acking = record {
    unbound =
        (receive_loop-Spares in_order alice 0 (request carol alice (Kind.event (bytes "hello")))).0;
  };
}

end_round-IsQuiet : IsQuiet in_order is_empty carol alice end_round
end_round-IsQuiet =
    let (_, closes, ends) =
      receive_loop-Spares in_order alice 0 (request carol alice (Kind.event (bytes "hello"))) in
    record {
      connecting = record {
        unbound = λ s id h. ends (mark_closed in_order 0 s) id (closes s id h);
      };
      acquired = record { unbound = λ s id h. h };
      acking = record { unbound = λ s id h. h };
    }

open_session-Settled_example :
    Settled in_order is_empty carol alice
      (open_session in_order is_empty carol alice (loop_round ∷ end_round ∷ []) 7 idle)
unfolding get bound_in
open_session-Settled_example =
    open_session-Settled in_order is_empty carol alice (loop_round ∷ end_round ∷ []) 7 idle
      (loop_round-IsQuiet, (end_round-IsQuiet, tt)) (λ id. refl) refl refl

-- Alice has her session on connection 0, and an open awaits its ack there.
abbrev bob : Bytes
bob = bytes "session-2"

abbrev wire : TransportConnection
wire = record {
  endpoint = bytes "n1";
  sender = 100;
  sessions = (alice, tt) ∷ (bob, tt) ∷ [];
  bound_sessions = 2;
  closed = true;
}

abbrev busy : Inner in_order is_empty
busy = record idle {
  receivers = (alice, 7) ∷ (bob, 8) ∷ [];
  connections = (0, wire) ∷ [];
  pools = (bytes "n1", 0 ∷ []) ∷ [];
  pending_opens = (bob, record { connection_id = 0; complete = 41 }) ∷ [];
}

finish_receive_loop-Told_example : Told in_order 0 bob busy (finish_receive_loop in_order 0 busy)
unfolding get ℕ_discrete Bytes-discrete
finish_receive_loop-Told_example = finish_receive_loop-Told in_order 0 bob busy wire refl refl
