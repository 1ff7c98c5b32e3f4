-- ===== src/Client/Open/Rounds.antt =====
-- The loop of `Client::open` (coactor/src/client/mod.rs).
pub mod Cleanup
pub mod Attempts
pub mod Sent
pub mod Acquired
use coactor.Base.{
  ℕ, ◌+◌, ltb, leb, Bool, true, false, not, Option, none, some, List, [], ◌∷◌, ◌++◌, Bytes, Map,
  get, insert, remove, Result, ok, err, keep, length, ite, if◌then◌else◌, bytes_eq, nat_eq,
}
use coactor.Failure.{SendError, OpenError, open_error}
use coactor.Address.{ActorAddress}
use coactor.Transport.{SenderId, Accepts, Kind, CloseReason, request}
use coactor.Sessions.{SessionId}
use coactor.Cluster.{NodeRecord, VersionedActorOwnerRecord, Timed}
use coactor.Client.{
  HashSet, PlacementStrategy, TransportConnection, bind, unbind, PendingOpen, ClientInner,
  on_connection, register_local, unregister_local, send_over, is_closed,
}
use coactor.Client.Open.{OwnerResolution, live, unowned, resolve_owner, select_placement_candidate}

-- The variables of the loop.
pub record Locals : Type 0 where
  pub attempts : ℕ
  pub excluded : HashSet Bytes
  pub failed_live_owner : Option (Bytes × Bytes)

-- What a round ends with: a result, with the connection of the session, or one more round.
pub data RoundEnd : Type 0 where
  done : Result OpenError ℕ → RoundEnd
  continue : Locals → RoundEnd

module _ (strategy : PlacementStrategy) (is_blank : Bytes → Bool) where
  open strategy use {on_placement_failed}

  abbrev pub Inner : Type 0
  Inner = ClientInner strategy

  -- What the waits of one round end with. `connecting`, `acquired` and `acking` are what the other
  -- tasks of the client do in the wait for the connection, between its return and the sending, and in
  -- the wait for the ack; `connected` and `ack` are none at a failure or a timeout.
  pub record Answers : Type 0 where
    pub owner : Timed (Option VersionedActorOwnerRecord)
    pub node : Timed (Option NodeRecord)
    pub nodes : Timed (List NodeRecord)
    pub now : ℕ
    pub locked_in_time : Bool
    pub connected : Option SenderId
    pub connecting : Inner → Inner
    pub acquired : Inner → Inner
    pub accepts : Accepts
    pub complete : ℕ
    pub ack : Option (Result SendError (Unit {0}))
    pub acking : Inner → Inner

  abbrev ids_of : Option (List ℕ) → List ℕ
  ids_of none = []
  ids_of (some ids) = ids

  -- `min_by_key`: the first connection with the fewest sessions.
  abbrev bound_of : Inner → ℕ → ℕ
  bound_of s id = elim (get id s.connections) [ none ↦ 0 | some c ↦ c.bound_sessions ]

  least : Inner → ℕ → List ℕ → ℕ
  least s best [] = best
  least s best (id ∷ ids) =
      if ltb (bound_of s id) (bound_of s best) then least s id ids else least s best ids

  abbrev new_connection : Bytes → SenderId → TransportConnection
  new_connection endpoint sender = record {
    endpoint = endpoint;
    sender = sender;
    sessions = [];
    bound_sessions = 0;
    closed = false;
  }

  abbrev pushed : Bytes → List ℕ → Option (List ℕ) → Map Bytes (List ℕ) → Map Bytes (List ℕ)
  pushed endpoint ids none pools = pools
  pushed endpoint ids (some _) pools = insert endpoint ids pools

  -- The new connection: it joins its pool, whose lock is held since `ids` were read, if the client
  -- still has the pool.
  connect : Bytes → SessionId → List ℕ → Option SenderId → Inner → Result SendError ℕ × Inner
  connect endpoint session_id ids none s = (err SendError.remote_unavailable, s)
  connect endpoint session_id ids (some sender) s =
      let id = s.next_connection_id in
      (
        ok id,
        record s {
          next_connection_id = id + 1;
          connections = insert id (bind session_id (new_connection endpoint sender)) s.connections;
          pools = pushed endpoint (ids ++ id ∷ []) (get endpoint s.pools) s.pools;
        },
      )

  reuse : SessionId → Inner → List ℕ → Result SendError ℕ × Inner
  unfolding least
  reuse session_id s [] = (err SendError.remote_unavailable, s)
  reuse session_id s (id ∷ ids) =
      let best = least s id ids in (ok best, on_connection strategy (bind session_id) best s)

  with_room : Answers → Bytes → SessionId → List ℕ → Inner → Bool → Result SendError ℕ × Inner
  unfolding connect reuse
  with_room x endpoint session_id ids s true =
      connect endpoint session_id ids x.connected (x.connecting s)
  with_room x endpoint session_id ids s false = reuse session_id s ids

  -- The lock of the pool, which `pool` has made if need be, is there in time or not.
  pub locked : Answers → Bytes → SessionId → List ℕ → Inner → Bool → Result SendError ℕ × Inner
  unfolding with_room
  locked x endpoint session_id ids s false =
      (err SendError.remote_unavailable, record s { pools = insert endpoint ids s.pools })
  locked x endpoint session_id ids s true =
      let open_ids = keep (λ id. not (is_closed strategy s id)) ids in
      with_room x endpoint session_id open_ids
        (record s { pools = insert endpoint open_ids s.pools })
        (ltb (length open_ids) s.max_connections_per_endpoint)

  -- `acquire_connection`.
  unfoldable pub acquire_connection :
      Answers → Bytes → SessionId → Inner → Result SendError ℕ × Inner
  unfolding locked
  acquire_connection x endpoint session_id s =
      locked x endpoint session_id (ids_of (get endpoint s.pools)) s x.locked_in_time

  abbrev meanwhile : Answers → Result SendError ℕ × Inner → Result SendError ℕ × Inner
  meanwhile x (err e, s) = (err e, s)
  meanwhile x (ok id, s) = (ok id, x.acquired s)

  abbrev acked : Option (Result SendError (Unit {0})) → Result SendError (Unit {0})
  acked none = err SendError.remote_unavailable
  acked (some result) = result

  abbrev waited :
      Answers → Result SendError (Unit {0}) → Inner → (Bool × Result SendError (Unit {0})) × Inner
  waited x (err e) s = ((false, err e), s)
  waited x (ok _) s = ((true, acked x.ack), x.acking s)

  -- `send_session_open`: whether it was sent, and what came of it.
  unfoldable pub send_session_open :
      Answers → ActorAddress → SessionId → ℕ → Inner → (Bool × Result SendError (Unit {0})) × Inner
  send_session_open x a session_id id s =
      let entry : PendingOpen = record { connection_id = id; complete = x.complete } in
      let (result, s') =
        send_over strategy x.accepts (request a session_id Kind.session_open) id
          (record s { pending_opens = insert session_id entry s.pending_opens }) in
      waited x result s'

  -- `on_placement_failed`, if the round is a placement.
  abbrev failed_placement : Bool → Bytes → Inner → Inner
  failed_placement true endpoint s = record s {
    placement = on_placement_failed endpoint s.placement;
  }
  failed_placement false endpoint s = s

  module _ (a : ActorAddress) (session_id : SessionId) where
    -- The arms on the error of an open, once its traces are removed.
    unfoldable pub on_error :
        ℕ → Bool → Bytes → Option (Bytes × Bytes) → Locals → SendError → RoundEnd
    on_error max placed endpoint owner v SendError.not_owner =
        if leb max v.attempts then done (err OpenError.attempts_exhausted) else continue v
    on_error max true endpoint owner v SendError.runtime_at_capacity =
        if leb max v.attempts
        then done (err OpenError.attempts_exhausted)
        else continue (record v { excluded = insert endpoint tt v.excluded })
    on_error max true endpoint owner v SendError.remote_unavailable =
        if leb max v.attempts
        then done (err OpenError.attempts_exhausted)
        else continue (record v { excluded = insert endpoint tt v.excluded })
    on_error max false endpoint owner v SendError.remote_unavailable =
        if leb max v.attempts
        then done (err OpenError.attempts_exhausted)
        else continue (record v { failed_live_owner = owner })
    on_error max placed endpoint owner v e = done (err (open_error e))

    -- What every failed open leaves: a close is sent, the connection and the pending entry go.
    unfoldable pub withdraw : Answers → ℕ → Inner → Inner
    withdraw x id s =
        let s' =
          (send_over strategy x.accepts
            (request a session_id (Kind.session_close CloseReason.caller_dropped)) id s).1 in
        let s'' = on_connection strategy (unbind session_id) id s' in
        record s'' { pending_opens = remove session_id s''.pending_opens }

    after_send :
        Answers
        → Bool
        → Bytes
        → Option (Bytes × Bytes)
        → ℕ
        → Locals
        → (Bool × Result SendError (Unit {0})) × Inner
        → RoundEnd × Inner
    unfolding on_error withdraw
    after_send x placed endpoint owner id v ((sent, ok _), s) = (done (ok id), s)
    after_send x placed endpoint owner id v ((sent, err e), s) =
        let v' = if sent then record v { attempts = v.attempts + 1 } else v in
        let s' = failed_placement placed endpoint (withdraw x id s) in
        (on_error s.max_open_attempts placed endpoint owner v' e, s')

    abbrev no_connection : Bool → Bytes → Option (Bytes × Bytes) → Locals → Inner → RoundEnd × Inner
    no_connection true endpoint owner v s = (
      continue (record v { excluded = insert endpoint tt v.excluded }),
      failed_placement true endpoint s,
    )
    no_connection false endpoint owner v s = (continue (record v { failed_live_owner = owner }), s)

    with_connection :
        Answers
        → Bool
        → Bytes
        → Option (Bytes × Bytes)
        → Locals
        → Result SendError ℕ × Inner
        → RoundEnd × Inner
    unfolding after_send
    with_connection x placed endpoint owner v (err _, s) = no_connection placed endpoint owner v s
    with_connection x placed endpoint owner v (ok id, s) =
        if leb s.max_open_attempts v.attempts
        then (
          done (err OpenError.attempts_exhausted),
          failed_placement placed endpoint (on_connection strategy (unbind session_id) id s),
        )
        else after_send x placed endpoint owner id v (send_session_open x a session_id id s)

    toward : Answers → Bool → Bytes → Option (Bytes × Bytes) → Locals → Inner → RoundEnd × Inner
    unfolding with_connection
    toward x placed endpoint owner v s =
        with_connection x placed endpoint owner v
          (meanwhile x (acquire_connection x endpoint session_id s))

    is_failed : Option (Bytes × Bytes) → Bytes → Bytes → Bool
    is_failed none node_id owner_session = false
    is_failed (some (n, o)) node_id owner_session =
        ite (bytes_eq.dec n node_id) (ite (bytes_eq.dec o owner_session) true false) false

    placed_at : Answers → Locals → Result SendError Bytes × Inner → RoundEnd × Inner
    unfolding toward
    placed_at x v (err e, s) = (done (err (open_error e)), s)
    placed_at x v (ok endpoint, s) = toward x true endpoint none v s

    resolved : Answers → Locals → Inner → Result SendError OwnerResolution → RoundEnd × Inner
    unfolding toward is_failed placed_at
    resolved x v s (err e) = (done (err (open_error e)), s)
    resolved x v s (ok (live endpoint node_id owner_session)) =
        if is_failed v.failed_live_owner node_id owner_session
        then (done (err OpenError.remote_unavailable), s)
        else toward x false endpoint (some (node_id, owner_session)) v s
    resolved x v s (ok unowned) =
        placed_at x v (select_placement_candidate strategy is_blank a v.excluded x.now x.nodes s)

    -- The body of the loop.
    unfoldable pub round : Answers → Locals → Inner → RoundEnd × Inner
    unfolding resolved
    round x v s = resolved x v s (resolve_owner is_blank x.owner x.node)

    proceed : (Locals → Inner → RoundEnd × Inner) → RoundEnd × Inner → RoundEnd × Inner
    proceed next (done result, s) = (done result, s)
    proceed next (continue v, s) = next v s

    -- The loop, over the answers of its rounds so far.
    unfoldable pub rounds : List Answers → Locals → Inner → RoundEnd × Inner
    unfolding proceed
    rounds [] v s = (continue v, s)
    rounds (x ∷ xs) v s = proceed (rounds xs) (round x v s)

    -- The end of `open`.
    unfoldable pub closing : RoundEnd × Inner → RoundEnd × Inner
    closing (done (err e), s) = (
      done (err e),
      unregister_local strategy session_id
          (record s { pending_opens = remove session_id s.pending_opens }),
    )
    closing (r, s) = (r, s)

    abbrev no_locals : Locals
    no_locals = record { attempts = 0; excluded = []; failed_live_owner = none }

    begun : List Answers → ℕ → Inner → Bool → RoundEnd × Inner
    begun xs channel s true =
        closing (rounds xs no_locals (register_local strategy session_id channel s))
    begun xs channel s false = (done (err OpenError.runtime_stopped), s)

    -- `Client::open`, over the answers of its rounds so far; `channel` is the one of its events.
    unfoldable pub open_session : List Answers → ℕ → Inner → RoundEnd × Inner
    unfolding begun
    open_session xs channel s = begun xs channel s s.running
