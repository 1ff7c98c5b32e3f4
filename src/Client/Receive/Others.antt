-- ===== src/Client/Receive/Others.antt =====
-- What a receive loop does to the bindings of the sessions.
use coactor.Base.{
  ℕ, ◌≡◌, refl, Bool, true, false, Option, none, some, List, [], ◌∷◌, Bytes, get, get-insert,
  Result, if◌then◌else◌, arith, bytes_eq, nat_eq, Option-cases, Bool-cases, inl, inr, ◌∙◌,
}
use coactor.Failure.{SendError}
use coactor.Transport.{Envelope, Kind}
use coactor.Sessions.{SessionId, is_some, session_id_of}
use coactor.Client.{
  PlacementStrategy, HashSet, PendingOpen, TransportConnection, close, terminate, ended,
  on_connection,
}
use coactor.Client.Receive.{
  Inner, is_bound, bound_in, is_of, deliver, complete_open, on_kind, on_session, handle_envelope,
  end_session, end_sessions, without, leave_pool, drained, bound_to, mark_closed,
  finish_receive_loop,
}

module _ (strategy : PlacementStrategy) where
  deliver-connections :
      (c : Option ℕ) (x : Result SendError Bytes) (s : Inner strategy)
      → (deliver strategy c x s).connections ≡ s.connections
  unfolding deliver
  deliver-connections none x s = refl
  deliver-connections (some c) x s = refl

  complete-connections :
      (j : SessionId) (x : Result SendError (Unit {0})) (s : Inner strategy)
      (p : Option PendingOpen)
      → (complete_open strategy j x s p).connections ≡ s.connections
  unfolding complete_open
  complete-connections j x s none = refl
  complete-connections j x s (some p) = refl

  if-connections :
      (b : Bool) (s t : Inner strategy)
      → t.connections ≡ s.connections
      → (if b then t else s).connections ≡ s.connections
  if-connections true s t h = h
  if-connections false s t h = refl

  kind-connections :
      (id : ℕ) (j : SessionId) (s : Inner strategy) (k : Kind)
      → (on_kind strategy id j s k).connections ≡ s.connections
  unfolding on_kind
  kind-connections id j s (Kind.event payload) = if-connections _ s _ (deliver-connections _ _ s)
  kind-connections id j s (Kind.session_error n) = if-connections _ s _ (deliver-connections _ _ s)
  kind-connections id j s (Kind.session_opened_ack o) =
      if-connections _ s _ (complete-connections j _ s _)
  kind-connections id j s (Kind.action p) = refl
  kind-connections id j s Kind.session_open = refl
  kind-connections id j s (Kind.session_close r) = refl

  session-connections :
      (id : ℕ) (s : Inner strategy) (k : Option Kind) (j : Option SessionId)
      → (on_session strategy id s k j).connections ≡ s.connections
  unfolding on_session
  session-connections id s (some k) (some j) = kind-connections id j s k
  session-connections id s (some k) none = refl
  session-connections id s none (some j) = refl
  session-connections id s none none = refl

  ended-connections :
      (j : SessionId) (e : SendError) (s : Inner strategy) (c : Option ℕ)
      → (ended strategy j e s c).connections ≡ s.connections
  ended-connections j e s none = refl
  ended-connections j e s (some c) = refl

  end-connections :
      (id : ℕ) (j : SessionId) (s : Inner strategy)
      → (end_session strategy id j s).connections ≡ s.connections
  unfolding end_session terminate
  end-connections id j s = elim (Bool-cases (is_of strategy id (get j s.pending_opens))) [
    | inl e ↦ rw e (complete-connections j _ s _)
    | inr e ↦ rw e (ended-connections j SendError.remote_unavailable s (get j s.receivers))
  ]

  each-connections :
      (id : ℕ) (js : HashSet SessionId) (s : Inner strategy)
      → (end_sessions strategy id js s).connections ≡ s.connections
  unfolding end_sessions
  each-connections id [] s = refl
  each-connections id ((j, _) ∷ js) s =
      each-connections id js (end_session strategy id j s) ∙ end-connections id j s

  without-connections :
      (id : ℕ) (endpoint : Bytes) (s : Inner strategy) (ids : Option (List ℕ))
      → (without strategy id endpoint s ids).connections ≡ s.connections
  unfolding without
  without-connections id endpoint s none = refl
  without-connections id endpoint s (some ids) = refl

  leave-connections :
      (id : ℕ) (s : Inner strategy) (c : Option TransportConnection)
      → (leave_pool strategy id s c).connections ≡ s.connections
  unfolding leave_pool
  leave-connections id s none = refl
  leave-connections id s (some c) = without-connections id c.endpoint s (get c.endpoint s.pools)

  module _ (i : SessionId) where
    -- The operation binds no connection to the session.
    abbrev pub Spares : (Inner strategy → Inner strategy) → Type 0
    Spares f =
        (s : Inner strategy) (j : ℕ)
        → is_bound strategy s j i ≡ false
        → is_bound strategy (f s) j i ≡ false

    on_connection-Spares :
        (f : TransportConnection → TransportConnection) (id : ℕ)
        → ((c : TransportConnection)
            → is_some (get i c.sessions) ≡ false
            → is_some (get i (f c).sessions) ≡ false)
        → Spares (on_connection strategy f id)
    unfolding bound_in on_connection
    on_connection-Spares f id k s j h = elim (Option-cases (get id s.connections)) [
      | inl e ↦ rw e h
      | inr (c, e) ↦ ground (arith, h, k c, get-insert j id (f c) s.connections)
    ]

    drained-Spares :
        (c : TransportConnection)
        → is_some (get i c.sessions) ≡ false
        → is_some (get i (drained strategy c).sessions) ≡ false
    unfolding get
    drained-Spares c h = refl

    handle_envelope-Spares : (id : ℕ) (e : Envelope) → Spares (handle_envelope strategy id e)
    unfolding handle_envelope
    handle_envelope-Spares id e s j h =
        rw (session-connections id s e.kind (session_id_of e.session_id)) h

    mark_closed-Spares : (id : ℕ) → Spares (mark_closed strategy id)
    unfolding mark_closed close
    mark_closed-Spares id = on_connection-Spares close id (λ c h. h)

    finish-Spares : (id : ℕ) → Spares (finish_receive_loop strategy id)
    unfolding finish_receive_loop
    finish-Spares id s j h =
        let s' = leave_pool strategy id s (get id s.connections) in
        rw
          (each-connections id (bound_to strategy (get id s'.connections))
            (on_connection strategy (drained strategy) id s'))
          (on_connection-Spares (drained strategy) id drained-Spares s' j
            (rw (leave-connections id s (get id s.connections)) h))

    -- A receive loop binds no session to any connection: not by an envelope, whatever it says, not
    -- when its stream ends, and not by what it does then.
    pub receive_loop-Spares :
        (id : ℕ) (e : Envelope)
        → Spares (handle_envelope strategy id e)
          × Spares (mark_closed strategy id)
          × Spares (finish_receive_loop strategy id)
    receive_loop-Spares id e =
        (handle_envelope-Spares id e, mark_closed-Spares id, finish-Spares id)
