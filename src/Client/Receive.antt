-- ===== src/Client/Receive.antt =====
-- The receive loop of a connection, and the shutdown of the client (coactor/src/client/mod.rs).
pub mod Ended
pub mod Others
use coactor.Base.{
  ℕ, ◌==◌, Bool, false, not, Option, none, some, List, [], ◌∷◌, Bytes, Map, get, insert, remove,
  Result, ok, err, keep, if◌then◌else◌, bytes_eq, nat_eq,
}
use coactor.Failure.{SendError, malformed_message, from_wire}
use coactor.Transport.{Envelope, Kind, AckOutcome, opened, failure}
use coactor.Sessions.{SessionId, is_some, session_id_of}
use coactor.Client.{
  HashSet, PlacementStrategy, TransportConnection, PendingOpen, ClientInner, close, on_connection,
  receiver, terminate, terminate_all,
}

-- What a caller learns from an ack.
unfoldable pub ack_result : Option AckOutcome → Result SendError (Unit {0})
ack_result (some (opened _)) = ok tt
ack_result (some (failure n)) = err (from_wire n)
ack_result none = err (SendError.remote_protocol malformed_message)

module _ (strategy : PlacementStrategy) where
  abbrev Inner : Type 0
  Inner = ClientInner strategy

  -- The session is bound to the connection.
  unfoldable pub bound_in : Map ℕ TransportConnection → ℕ → SessionId → Bool
  bound_in m id session_id = elim (get id m) [
    | none ↦ false
    | some c ↦ is_some (get session_id c.sessions)
  ]

  abbrev pub is_bound : Inner → ℕ → SessionId → Bool
  is_bound s id session_id = bound_in s.connections id session_id

  abbrev is_of : ℕ → Option PendingOpen → Bool
  is_of id none = false
  is_of id (some p) = p.connection_id == id

  deliver : Option ℕ → Result SendError Bytes → Inner → Inner
  deliver none x s = s
  deliver (some sender) x s = record s { delivered = (sender, x) ∷ s.delivered }

  complete_open : SessionId → Result SendError (Unit {0}) → Inner → Option PendingOpen → Inner
  complete_open session_id x s none = s
  complete_open session_id x s (some p) = record s {
    pending_opens = remove session_id s.pending_opens;
    completions = (p.complete, x) ∷ s.completions;
  }

  on_kind : ℕ → SessionId → Inner → Kind → Inner
  unfolding deliver complete_open bound_in receiver ack_result
  on_kind id session_id s (Kind.event payload) =
      if is_bound s id session_id
      then deliver (receiver strategy session_id s) (ok payload) s
      else s
  on_kind id session_id s (Kind.session_error n) =
      if is_bound s id session_id
      then deliver (receiver strategy session_id s) (err (from_wire n)) s
      else s
  on_kind id session_id s (Kind.session_opened_ack outcome) =
      let pending = get session_id s.pending_opens in
      if is_of id pending then complete_open session_id (ack_result outcome) s pending else s
  on_kind id session_id s _ = s

  on_session : ℕ → Inner → Option Kind → Option SessionId → Inner
  unfolding on_kind
  on_session id s (some kind) (some session_id) = on_kind id session_id s kind
  on_session id s _ _ = s

  -- `handle_envelope`, of the connection `id`.
  unfoldable pub handle_envelope : ℕ → Envelope → Inner → Inner
  unfolding on_session
  handle_envelope id e s = on_session id s e.kind (session_id_of e.session_id)

  -- The end of a receive loop for one session that was bound: its open fails, or it ends.
  end_session : ℕ → SessionId → Inner → Inner
  unfolding complete_open
  end_session id session_id s =
      let pending = get session_id s.pending_opens in
      if is_of id pending
      then complete_open session_id (err SendError.remote_unavailable) s pending
      else terminate strategy session_id SendError.remote_unavailable s

  end_sessions : ℕ → HashSet SessionId → Inner → Inner
  unfolding end_session
  end_sessions id [] s = s
  end_sessions id ((session_id, _) ∷ rest) s = end_sessions id rest (end_session id session_id s)

  abbrev bound_to : Option TransportConnection → HashSet SessionId
  bound_to none = []
  bound_to (some c) = c.sessions

  without : ℕ → Bytes → Inner → Option (List ℕ) → Inner
  without id endpoint s none = s
  without id endpoint s (some ids) = record s {
    pools = insert endpoint (keep (λ i. not (i == id)) ids) s.pools;
  }

  -- `pool.connections.lock().await.retain(|candidate| candidate.id != connection.id)`.
  leave_pool : ℕ → Inner → Option TransportConnection → Inner
  unfolding without
  leave_pool id s none = s
  leave_pool id s (some c) = without id c.endpoint s (get c.endpoint s.pools)

  abbrev drained : TransportConnection → TransportConnection
  drained c = record c { sessions = []; bound_sessions = 0 }

  -- The end of `spawn_receive_loop`, when the stream is over: first the connection is closed, then,
  -- with the lock of the pool, it leaves the pool and its sessions end.
  unfoldable pub mark_closed : ℕ → Inner → Inner
  mark_closed id s = on_connection strategy close id s

  unfoldable pub finish_receive_loop : ℕ → Inner → Inner
  unfolding leave_pool end_sessions
  finish_receive_loop id s =
      let s' = leave_pool id s (get id s.connections) in
      end_sessions id (bound_to (get id s'.connections)) (on_connection strategy drained id s')

  close_each : List ℕ → Inner → Inner
  unfolding mark_closed
  close_each [] s = s
  close_each (id ∷ ids) s = close_each ids (mark_closed id s)

  close_pools : Map Bytes (List ℕ) → Inner → Inner
  unfolding close_each
  close_pools [] s = s
  close_pools ((_, ids) ∷ rest) s = close_pools rest (close_each ids s)

  -- `Client::shutdown`; the abort of the receive loops is not modelled.
  unfoldable pub shutdown : Inner → Inner
  unfolding close_pools
  shutdown s =
      let s' = close_pools s.pools (record s { running = false; pools = [] }) in
      if s.running
      then terminate_all strategy SendError.runtime_stopped (record s' { pending_opens = [] })
      else s
