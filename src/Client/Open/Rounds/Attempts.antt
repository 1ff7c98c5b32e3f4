-- ===== src/Client/Open/Rounds/Attempts.antt =====
-- How many times an open asks a server, and that it ends.
use coactor.Base.{
  ℕ, ◌+◌, ◌≤◌, ◌<◌, ◌≡◌, inl, inr, refl, Bool, true, false, Option, none, some, List, [], ◌∷◌,
  Bytes, Result, ok, err, if◌then◌else◌, arith, bytes_eq, nat_eq, Bool-cases, All, leb, get, insert,
}
use coactor.Failure.{SendError, OpenError, open_error}
use coactor.Address.{ActorAddress}
use coactor.Transport.{Kind, request}
use coactor.Sessions.{SessionId}
use coactor.Client.{
  PlacementStrategy, unbind, PendingOpen, on_connection, register_local, unregister_local,
  send_over, sent_over,
}
use coactor.Client.Open.{OwnerResolution, live, unowned, resolve_owner, select_placement_candidate}
use coactor.Client.Open.Rounds.{
  Locals, RoundEnd, done, continue, Inner, Answers, acquire_connection, send_session_open, on_error,
  withdraw, after_send, with_connection, toward, placed_at, is_failed, resolved, round, proceed,
  rounds, closing, open_session, meanwhile, waited, begun, no_locals, no_connection,
}
use coactor.Client.Open.Rounds.Sent.{
  opens, Same, IsAlone, trans, changed-Same, locked-Same, meanwhile-Same, Counted, open-Counted,
  withdraw-Same, failed-Same, select-Same,
}

module _ (strategy : PlacementStrategy) (is_blank : Bytes → Bool) (a : ActorAddress)
    (i : SessionId) where
  abbrev Client : Type 0
  Client = Inner strategy is_blank

  -- With `base` envelopes before the open and the limit `max`: those of this open are at most its
  -- attempts, and those at most the limit.
  module _ (base max : ℕ) where
    record Within (v : Locals) (s : Client) : Type 0 where
      limit : s.max_open_attempts ≡ max
      attempts : v.attempts ≤ max
      opened : opens i s.sent ≤ base + v.attempts

    abbrev Bounded : RoundEnd × Client → Type 0
    Bounded (done _, s) = opens i s.sent ≤ base + max
    Bounded (continue v, s) = Within v s

    Within-Same :
        (v : Locals) (s t : Client) → Same strategy is_blank a i s t → Within v s → Within v t
    Within-Same v s t p w = record {
      limit = omega (arith, p.limit, w.limit);
      attempts = w.attempts;
      opened = omega (arith, p.opened, w.opened);
    }

    done-Bounded :
        (r : Result OpenError ℕ) (v : Locals) (s : Client) → Within v s → Bounded (done r, s)
    done-Bounded r v s w = omega (arith, w.attempts, w.opened)

    limited-Bounded :
        (b : Bool) (e : OpenError) (v : Locals) (s : Client)
        → Within v s
        → Bounded (if b then done (err e) else continue v, s)
    limited-Bounded true e v s w = done-Bounded (err e) v s w
    limited-Bounded false e v s w = w

    on_error-Bounded :
        (limit : ℕ) (b : Bool) (endpoint : Bytes) (owner : Option (Bytes × Bytes)) (v : Locals)
        (e : SendError) (s : Client)
        → Within v s
        → Bounded (on_error strategy is_blank a i limit b endpoint owner v e, s)
    unfolding on_error
    on_error-Bounded limit b endpoint owner v SendError.not_owner s w =
        limited-Bounded (leb limit v.attempts) OpenError.attempts_exhausted v s w
    on_error-Bounded limit true endpoint owner v SendError.runtime_at_capacity s w =
        limited-Bounded (leb limit v.attempts) OpenError.attempts_exhausted
          (record v { excluded = insert endpoint tt v.excluded }) s
          (record { limit = w.limit; attempts = w.attempts; opened = w.opened })
    on_error-Bounded limit true endpoint owner v SendError.remote_unavailable s w =
        limited-Bounded (leb limit v.attempts) OpenError.attempts_exhausted
          (record v { excluded = insert endpoint tt v.excluded }) s
          (record { limit = w.limit; attempts = w.attempts; opened = w.opened })
    on_error-Bounded limit false endpoint owner v SendError.remote_unavailable s w =
        limited-Bounded (leb limit v.attempts) OpenError.attempts_exhausted
          (record v { failed_live_owner = owner }) s
          (record { limit = w.limit; attempts = w.attempts; opened = w.opened })
    on_error-Bounded limit true endpoint owner v _ s w = omega (arith, w.attempts, w.opened)
    on_error-Bounded limit false endpoint owner v _ s w = omega (arith, w.attempts, w.opened)

    abbrev once_more : Bool → Locals → Locals
    once_more sent v = if sent then record v { attempts = v.attempts + 1 } else v

    abbrev Sent : Locals → (Bool × Result SendError (Unit {0})) × Client → Type 0
    Sent v ((sent, _), t) = Within (once_more sent v) t

    waited-Sent :
        (x : Answers strategy is_blank) (v : Locals) (r : Result SendError (Unit {0}))
        (s t : Client)
        → (IsAlone strategy is_blank a i) x
        → v.attempts < max
        → Within v s
        → (Counted strategy is_blank a i) s (r, t)
        → Sent v (waited strategy is_blank x r t)
    waited-Sent x v (ok _) s t q l w c =
        let p = q.acking t in
        record {
          limit = omega (arith, p.limit, c.1, w.limit);
          attempts = omega (arith, l);
          opened = omega (arith, p.opened, c.0, w.opened);
        }
    waited-Sent x v (err e) s t q l w c = Within-Same v s t c w

    send-Sent :
        (x : Answers strategy is_blank) (id : ℕ) (v : Locals) (s : Client)
        → (IsAlone strategy is_blank a i) x
        → v.attempts < max
        → Within v s
        → Sent v (send_session_open strategy is_blank x a i id s)
    unfolding send_session_open send_over
    send-Sent x id v s q l w =
        let entry : PendingOpen = record { connection_id = id; complete = x.complete } in
        let s' : Client = record s { pending_opens = insert i entry s.pending_opens } in
        let r =
          sent_over strategy x.accepts (request a i Kind.session_open) s' (get id s.connections) in
        waited-Sent x v r.0 s' r.1 q l
          (record { limit = w.limit; attempts = w.attempts; opened = w.opened })
          (open-Counted strategy is_blank a i x.accepts s' (get id s.connections))

    after_send-Bounded :
        (x : Answers strategy is_blank) (b : Bool) (endpoint : Bytes)
        (owner : Option (Bytes × Bytes)) (id : ℕ) (v : Locals)
        (r : (Bool × Result SendError (Unit {0})) × Client)
        → Sent v r
        → Bounded (after_send strategy is_blank a i x b endpoint owner id v r)
    unfolding after_send
    after_send-Bounded x b endpoint owner id v ((sent, ok _), s) w =
        done-Bounded (ok id) (once_more sent v) s w
    after_send-Bounded x b endpoint owner id v ((sent, err e), s) w =
        let t = withdraw strategy is_blank a i x id s in
        on_error-Bounded s.max_open_attempts b endpoint owner (once_more sent v) e _ (
          Within-Same (once_more sent v) s _
            (trans strategy is_blank a i (withdraw-Same strategy is_blank a i x id s)
              (failed-Same strategy is_blank a i b endpoint t))
            w)

    no_connection-Bounded :
        (b : Bool) (endpoint : Bytes) (owner : Option (Bytes × Bytes)) (v : Locals) (s : Client)
        → Within v s
        → Bounded (no_connection strategy is_blank a i b endpoint owner v s)
    no_connection-Bounded true endpoint owner v s w = record {
      limit = w.limit;
      attempts = w.attempts;
      opened = w.opened;
    }
    no_connection-Bounded false endpoint owner v s w = record {
      limit = w.limit;
      attempts = w.attempts;
      opened = w.opened;
    }

    with_connection-Bounded :
        (x : Answers strategy is_blank) (b : Bool) (endpoint : Bytes)
        (owner : Option (Bytes × Bytes)) (v : Locals) (r : Result SendError ℕ × Client)
        → (IsAlone strategy is_blank a i) x
        → Within v r.1
        → Bounded (with_connection strategy is_blank a i x b endpoint owner v r)
    unfolding with_connection
    with_connection-Bounded x b endpoint owner v (err _, s) q w =
        no_connection-Bounded b endpoint owner v s w
    with_connection-Bounded x b endpoint owner v (ok id, s) q w =
        elim (Bool-cases (leb s.max_open_attempts v.attempts)) [
          | inl e ↦ rw e (
              done-Bounded (err OpenError.attempts_exhausted) v _ (
                Within-Same v s _
                  (trans strategy is_blank a i (changed-Same strategy is_blank a i (unbind i) id s)
                    (failed-Same strategy is_blank a i b endpoint
                      (on_connection strategy (unbind i) id s)))
                  w))
          | inr e ↦ rw e (
              after_send-Bounded x b endpoint owner id v
                (send_session_open strategy is_blank x a i id s)
                (send-Sent x id v s q (ground (arith, e, w.limit)) w))
        ]

    toward-Bounded :
        (x : Answers strategy is_blank) (b : Bool) (endpoint : Bytes)
        (owner : Option (Bytes × Bytes)) (v : Locals) (s : Client)
        → (IsAlone strategy is_blank a i) x
        → Within v s
        → Bounded (toward strategy is_blank a i x b endpoint owner v s)
    unfolding toward acquire_connection
    toward-Bounded x b endpoint owner v s q w =
        let r = acquire_connection strategy is_blank x endpoint i s in
        with_connection-Bounded x b endpoint owner v (meanwhile strategy is_blank x r) q (
          Within-Same v s _
            (trans strategy is_blank a i
              (locked-Same strategy is_blank a i x endpoint _ s x.locked_in_time q)
              (meanwhile-Same strategy is_blank a i x r q))
            w)

    placed_at-Bounded :
        (x : Answers strategy is_blank) (v : Locals) (r : Result SendError Bytes × Client)
        → (IsAlone strategy is_blank a i) x
        → Within v r.1
        → Bounded (placed_at strategy is_blank a i x v r)
    unfolding placed_at
    placed_at-Bounded x v (err e, s) q w = done-Bounded (err (open_error e)) v s w
    placed_at-Bounded x v (ok endpoint, s) q w = toward-Bounded x true endpoint none v s q w

    resolved-Bounded :
        (x : Answers strategy is_blank) (v : Locals) (s : Client)
        (r : Result SendError OwnerResolution)
        → (IsAlone strategy is_blank a i) x
        → Within v s
        → Bounded (resolved strategy is_blank a i x v s r)
    unfolding resolved
    resolved-Bounded x v s (err e) q w = done-Bounded (err (open_error e)) v s w
    resolved-Bounded x v s (ok (live endpoint node_id owner_session)) q w =
        elim (Bool-cases
          (is_failed strategy is_blank a i v.failed_live_owner node_id owner_session)) [
            | inl e ↦ rw e (done-Bounded (err OpenError.remote_unavailable) v s w)
            | inr e ↦ rw e (toward-Bounded x false endpoint (some (node_id, owner_session)) v s q w)
          ]
    resolved-Bounded x v s (ok unowned) q w =
        placed_at-Bounded x v
          (select_placement_candidate strategy is_blank a v.excluded x.now x.nodes s) q
          (Within-Same v s _ (select-Same strategy is_blank a i v.excluded x.now x.nodes s) w)

    proceed-Bounded :
        (next : Locals → Client → RoundEnd × Client) (r : RoundEnd × Client)
        → ((v : Locals) (s : Client) → Within v s → Bounded (next v s))
        → Bounded r
        → Bounded (proceed strategy is_blank a i next r)
    unfolding proceed
    proceed-Bounded next (done _, s) k h = h
    proceed-Bounded next (continue v, s) k h = k v s h

    rounds-Bounded :
        (xs : List (Answers strategy is_blank)) (v : Locals) (s : Client)
        → All (IsAlone strategy is_blank a i) xs
        → Within v s
        → Bounded (rounds strategy is_blank a i xs v s)
    unfolding rounds round
    rounds-Bounded [] v s q w = w
    rounds-Bounded (x ∷ xs) v s q w =
        proceed-Bounded (rounds strategy is_blank a i xs) (round strategy is_blank a i x v s)
          (λ v' t k. rounds-Bounded xs v' t q.1 k)
          (resolved-Bounded x v s (resolve_owner is_blank x.owner x.node) q.0 w)

    sends-Bounded : (r : RoundEnd × Client) → Bounded r → opens i r.1.sent ≤ base + max
    sends-Bounded (done _, s) h = h
    sends-Bounded (continue v, s) w = omega (arith, w.attempts, w.opened)

  closing-Same :
      (r : RoundEnd × Client) → opens i (closing strategy is_blank a i r).1.sent ≡ opens i r.1.sent
  unfolding closing unregister_local
  closing-Same (done (ok id), s) = refl
  closing-Same (done (err e), s) = refl
  closing-Same (continue v, s) = refl

  begun-Bounded :
      (xs : List (Answers strategy is_blank)) (channel : ℕ) (s : Client) (running : Bool)
      → All (IsAlone strategy is_blank a i) xs
      → opens i (begun strategy is_blank a i xs channel s running).1.sent
        ≤ opens i s.sent + s.max_open_attempts
  unfolding begun register_local
  begun-Bounded xs channel s false q = omega arith
  begun-Bounded xs channel s true q =
      let s' = register_local strategy i channel s in
      let r = rounds strategy is_blank a i xs (no_locals strategy is_blank a i) s' in
      rw (closing-Same r) (
        sends-Bounded (opens i s.sent) s.max_open_attempts r (
          rounds-Bounded (opens i s.sent) s.max_open_attempts xs _ s' q
            (record { limit = refl; attempts = omega arith; opened = omega arith })))

  -- Whatever the answers of its rounds, an open has at most `max_open_attempts` `SessionOpen` messages
  -- of its session admitted, when the other tasks of the client send none of this session and leave
  -- that limit alone.
  pub open_session-Bounded :
      (xs : List (Answers strategy is_blank)) (channel : ℕ) (s : Client)
      → All (IsAlone strategy is_blank a i) xs
      → opens i (open_session strategy is_blank a i xs channel s).1.sent
        ≤ opens i s.sent + s.max_open_attempts
  unfolding open_session
  open_session-Bounded xs channel s q = begun-Bounded xs channel s s.running q
