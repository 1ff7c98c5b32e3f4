-- ===== src/Client.antt =====
-- The caller's side: `ClientInner` with its connections and pools (coactor/src/client/mod.rs), and
-- the registry of its sessions (coactor/src/client/session.rs). Connections are shared: they are kept
-- by their id, and a pool lists ids.
pub mod Receive
pub mod Open
pub mod Bindings
use coactor.Base.{
  ℕ, ◌+◌, ◌-◌, ◌%◌, ◌^◌, Bool, true, Option, none, some, List, [], ◌∷◌, Bytes, Map, get, insert,
  remove, Result, ok, err, if◌then◌else◌, bytes_eq, nat_eq,
}
use coactor.Failure.{SendError}
use coactor.Address.{ActorAddress}
use coactor.Transport.{SenderId, Sends, Accepts, Envelope, Kind, CloseReason, request}
use coactor.Sessions.{SessionId, is_some, or_unavailable}
use coactor.Cluster.Placement.{PlacementCandidate}

-- A `HashSet` is a map to nothing.
abbrev pub HashSet : Type 0 → Type 0
HashSet A = Map A (Unit {0})

-- `PlacementStrategy`, with the state behind its locks.
pub record PlacementStrategy : Type 1 where
  pub Placement : Type 0
  pub candidates : ActorAddress → List PlacementCandidate → Placement → List Bytes × Placement
  pub on_placement_failed : Bytes → Placement → Placement

pub record TransportConnection : Type 0 where
  pub endpoint : Bytes
  pub sender : SenderId
  pub sessions : HashSet SessionId
  pub bound_sessions : ℕ
  pub closed : Bool

unfoldable pub bind : SessionId → TransportConnection → TransportConnection
bind session_id c = if is_some (get session_id c.sessions) then c else record c {
  sessions = insert session_id tt c.sessions;
  bound_sessions = (c.bound_sessions + 1) % 2 ^ 64;
}

-- `fetch_sub` wraps around.
unfoldable pub unbind : SessionId → TransportConnection → TransportConnection
unbind session_id c =
    if is_some (get session_id c.sessions)
    then record c {
      sessions = remove session_id c.sessions;
      bound_sessions = (c.bound_sessions + (2 ^ 64 - 1)) % 2 ^ 64;
    }
    else c

-- `TransportConnection::try_send`.
unfoldable pub try_send : Accepts → TransportConnection → Envelope → Result SendError (Unit {0})
try_send accepts c e =
    if c.closed then err SendError.remote_unavailable else or_unavailable (accepts c.sender e)

-- `close`, without the call of the sender.
unfoldable pub close : TransportConnection → TransportConnection
close c = record c { closed = true }

-- A `oneshot::Sender` is named by a number.
pub record PendingOpen : Type 0 where
  pub connection_id : ℕ
  pub complete : ℕ

-- The sending half of the events of a session is named by a number; a delivery is the try to send
-- to it, whose answer is ignored.
abbrev pub Deliveries : Type 0
Deliveries = List (ℕ × Result SendError Bytes)

module _ (strategy : PlacementStrategy) where
  open strategy use {Placement}

  -- `receivers` is the `CallerRegistry`. `sent` are the envelopes that the senders
  -- admitted, `delivered` and `completions` the calls that were made, all latest first.
  pub record ClientInner : Type 0 where
    pub running : Bool
    pub max_open_attempts : ℕ
    pub max_connections_per_endpoint : ℕ
    pub placement : Placement
    pub receivers : Map SessionId ℕ
    pub connections : Map ℕ TransportConnection
    pub pools : Map Bytes (List ℕ)
    pub pending_opens : Map SessionId PendingOpen
    pub placement_cache : Option (List PlacementCandidate × ℕ)
    pub next_connection_id : ℕ
    pub sent : Sends
    pub delivered : Deliveries
    pub completions : List (ℕ × Result SendError (Unit {0}))

  -- A change of the shared connection `id`.
  abbrev changed :
      (TransportConnection → TransportConnection)
      → ℕ
      → ClientInner
      → Option TransportConnection
      → ClientInner
  changed f id s none = s
  changed f id s (some c) = record s { connections = insert id (f c) s.connections }

  unfoldable pub on_connection :
      (TransportConnection → TransportConnection) → ℕ → ClientInner → ClientInner
  on_connection f id s = changed f id s (get id s.connections)

  -- `CallerRegistry`.
  unfoldable pub register_local : SessionId → ℕ → ClientInner → ClientInner
  register_local session_id sender s = record s { receivers = insert session_id sender s.receivers }

  unfoldable pub unregister_local : SessionId → ClientInner → ClientInner
  unregister_local session_id s = record s { receivers = remove session_id s.receivers }

  unfoldable pub receiver : SessionId → ClientInner → Option ℕ
  receiver session_id s = get session_id s.receivers

  abbrev ended : SessionId → SendError → ClientInner → Option ℕ → ClientInner
  ended session_id e s none = s
  ended session_id e s (some sender) = record s {
    receivers = remove session_id s.receivers;
    delivered = (sender, err e) ∷ s.delivered;
  }

  unfoldable pub terminate : SessionId → SendError → ClientInner → ClientInner
  terminate session_id e s = ended session_id e s (get session_id s.receivers)

  each_terminated : SendError → Map SessionId ℕ → Deliveries → Deliveries
  each_terminated e [] d = d
  each_terminated e ((_, sender) ∷ r) d = each_terminated e r ((sender, err e) ∷ d)

  unfoldable pub terminate_all : SendError → ClientInner → ClientInner
  unfolding each_terminated
  terminate_all e s = record s {
    receivers = [];
    delivered = each_terminated e s.receivers s.delivered;
  }

  admitted : Result SendError (Unit {0}) → SenderId → Envelope → ClientInner → ClientInner
  admitted (ok _) sender e s = record s { sent = (sender, e) ∷ s.sent }
  admitted (err _) sender e s = s

  -- The send over the connection `id`, which is there while anyone holds it.
  pub sent_over :
      Accepts
      → Envelope
      → ClientInner
      → Option TransportConnection
      → Result SendError (Unit {0}) × ClientInner
  unfolding admitted try_send
  sent_over accepts e s none = (err SendError.remote_unavailable, s)
  sent_over accepts e s (some c) =
      let result = try_send accepts c e in (result, admitted result c.sender e s)

  unfoldable pub send_over :
      Accepts → Envelope → ℕ → ClientInner → Result SendError (Unit {0}) × ClientInner
  unfolding sent_over
  send_over accepts e id s = sent_over accepts e s (get id s.connections)

  unfoldable pub is_closed : ClientInner → ℕ → Bool
  is_closed s id = elim (get id s.connections) [ none ↦ true | some c ↦ c.closed ]

  -- `Session::send`, when the client is still there.
  unfoldable pub session_send :
      Accepts
      → ActorAddress
      → SessionId
      → ℕ
      → Bytes
      → ClientInner
      → Result SendError (Unit {0}) × ClientInner
  session_send accepts a session_id id payload s =
      if s.running
      then send_over accepts (request a session_id (Kind.action payload)) id s
      else (err SendError.runtime_stopped, s)

  -- `Drop for Session`.
  unfoldable pub session_drop : Accepts → ActorAddress → SessionId → ℕ → ClientInner → ClientInner
  session_drop accepts a session_id id s =
      (send_over accepts (request a session_id (Kind.session_close CloseReason.caller_dropped)) id
        (on_connection (unbind session_id) id (unregister_local session_id s))).1
