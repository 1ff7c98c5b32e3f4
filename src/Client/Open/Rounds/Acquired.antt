-- ===== src/Client/Open/Rounds/Acquired.antt =====
-- The bindings of a session while it is opened.
use coactor.Base.{
  ℕ, ◌≡◌, Bool, true, false, Option, none, some, List, [], ◌∷◌, Bytes, insert, get-insert, Result,
  ok, err, arith, bytes_eq, nat_eq,
}
use coactor.Failure.{SendError}
use coactor.Address.{ActorAddress}
use coactor.Transport.{SenderId, Kind, CloseReason, request}
use coactor.Sessions.{SessionId}
use coactor.Client.{PlacementStrategy, bind, PendingOpen, send_over}
use coactor.Client.Receive.{is_bound, bound_in}
use coactor.Client.Bindings.{
  Unbound, UnboundBut, bind-UnboundBut, unbind-Unbound, send_over-UnboundBut,
}
use coactor.Client.Open.Rounds.{
  RoundEnd, done, Inner, Answers, connect, reuse, least, with_room, locked, send_session_open,
  withdraw, failed_placement, new_connection, waited,
}

module _ (strategy : PlacementStrategy) (is_blank : Bytes → Bool) (a : ActorAddress)
    (i : SessionId) where
  abbrev pub Client : Type 0
  Client = Inner strategy is_blank

  -- The other tasks of the client bind no connection to this session, whose id is new and random.
  pub record Quiet (f : Client → Client) : Type 0 where
    pub unbound :
        (s : Client) (id : ℕ)
        → is_bound strategy s id i ≡ false
        → is_bound strategy (f s) id i ≡ false

  pub record IsQuiet (x : Answers strategy is_blank) : Type 0 where
    pub connecting : Quiet x.connecting
    pub acquired : Quiet x.acquired
    pub acking : Quiet x.acking

  -- A connection is bound to the session, or nothing was acquired.
  abbrev pub Acquired : Result SendError ℕ × Client → Type 0
  Acquired (ok id, s) = UnboundBut strategy i id s
  Acquired (err _, s) = Unbound strategy i s

  -- A round, or a whole open, leaves the session bound to its own connection at most.
  abbrev pub Cleaned : RoundEnd × Client → Type 0
  Cleaned (done (ok id), s) = UnboundBut strategy i id s
  Cleaned (_, s) = Unbound strategy i s

  connect-Acquired :
      (endpoint : Bytes) (ids : List ℕ) (sender : Option SenderId) (s : Client)
      → Unbound strategy i s
      → Acquired (connect strategy is_blank endpoint i ids sender s)
  unfolding connect bound_in
  connect-Acquired endpoint ids none s h = λ j. h j
  connect-Acquired endpoint ids (some sender) s h = λ j n. ground (
    arith,
    h j,
    get-insert j s.next_connection_id (bind i (new_connection strategy is_blank endpoint sender))
        s.connections,
  )

  reuse-Acquired :
      (s : Client) (ids : List ℕ)
      → Unbound strategy i s
      → Acquired (reuse strategy is_blank i s ids)
  unfolding reuse
  reuse-Acquired s [] h = h
  reuse-Acquired s (id ∷ ids) h = bind-UnboundBut strategy i (least strategy is_blank s id ids) s h

  with_room-Acquired :
      (x : Answers strategy is_blank) (endpoint : Bytes) (ids : List ℕ) (s : Client) (room : Bool)
      → IsQuiet x
      → Unbound strategy i s
      → Acquired (with_room strategy is_blank x endpoint i ids s room)
  unfolding with_room
  with_room-Acquired x endpoint ids s true q h =
      connect-Acquired endpoint ids x.connected (x.connecting s)
        (λ j. q.connecting.unbound s j (h j))
  with_room-Acquired x endpoint ids s false q h = reuse-Acquired s ids h

  pub locked-Acquired :
      (x : Answers strategy is_blank) (endpoint : Bytes) (ids : List ℕ) (s : Client)
      (in_time : Bool)
      → IsQuiet x
      → Unbound strategy i s
      → Acquired (locked strategy is_blank x endpoint i ids s in_time)
  unfolding locked
  locked-Acquired x endpoint ids s false q h = h
  locked-Acquired x endpoint ids s true q h = with_room-Acquired x endpoint _ _ _ q h

  waited-UnboundBut :
      (x : Answers strategy is_blank) (id : ℕ) (r : Result SendError (Unit {0})) (s : Client)
      → IsQuiet x
      → UnboundBut strategy i id s
      → UnboundBut strategy i id (waited strategy is_blank x r s).1
  waited-UnboundBut x id (ok _) s q h = λ j n. q.acking.unbound s j (h j n)
  waited-UnboundBut x id (err _) s q h = h

  pub sent-UnboundBut :
      (x : Answers strategy is_blank) (id : ℕ) (s : Client)
      → IsQuiet x
      → UnboundBut strategy i id s
      → UnboundBut strategy i id (send_session_open strategy is_blank x a i id s).1
  unfolding send_session_open
  sent-UnboundBut x id s q h =
      let entry : PendingOpen = record { connection_id = id; complete = x.complete } in
      let s' : Client = record s { pending_opens = insert i entry s.pending_opens } in
      let e = request a i Kind.session_open in
      waited-UnboundBut x id (send_over strategy x.accepts e id s').0
        (send_over strategy x.accepts e id s').1 q
        (send_over-UnboundBut strategy i x.accepts e id id s' h)

  pub withdraw-Unbound :
      (x : Answers strategy is_blank) (id : ℕ) (s : Client)
      → UnboundBut strategy i id s
      → Unbound strategy i (withdraw strategy is_blank a i x id s)
  unfolding withdraw
  withdraw-Unbound x id s h =
      let e = request a i (Kind.session_close CloseReason.caller_dropped) in
      unbind-Unbound strategy i id (send_over strategy x.accepts e id s).1
        (send_over-UnboundBut strategy i x.accepts e id id s h)

  pub failed-Unbound :
      (b : Bool) (endpoint : Bytes) (s : Client)
      → Unbound strategy i s
      → Unbound strategy i (failed_placement strategy is_blank b endpoint s)
  failed-Unbound true endpoint s h = h
  failed-Unbound false endpoint s h = h
