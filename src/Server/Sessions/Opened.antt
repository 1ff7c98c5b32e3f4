-- ===== src/Server/Sessions/Opened.antt =====
-- What is registered when an opening session has been answered, or waits for its Actor.
use coactor.Base.{
  ℕ, ◌≡◌, refl, ap, ◌≢◌, Bool, true, false, Option, none, some, ◌∷◌, Result, ok, err, arith, length,
  Bool-cases, inl, inr, get, ite, bytes_eq,
}
use coactor.Failure.{SendError}
use coactor.Address.{ActorAddress, address_eq}
use coactor.Tokio.{Semaphore, Mpsc}
use coactor.Transport.{SenderId}
use coactor.Sessions.{SessionId, SessionRegistry, is_some, register_actor, unregister_actor, sink}
use coactor.Sessions.View.{sink-register_actor, sink-unregister_actor}
use coactor.Server.{MailboxMessage, session_opened}
use coactor.Server.Dispatch.{Server, Reply, drop_reservation, dispatch_message}
use coactor.Server.Dispatch.Frames.{dispatch_message-Framed}
use coactor.Server.Sessions.{
  Opening, finished, waiting, after_dispatch, after_register, unregister, open_local_session,
}

-- An opening that has finished is unregistered again.
abbrev sessions_after : ActorAddress → SessionId → Opening → SessionRegistry → SessionRegistry
sessions_after a i (finished _) r = (unregister_actor r a i).1
sessions_after a i waiting r = r

module _ (sem : Semaphore) (mpsc : Mpsc MailboxMessage) where
  -- Some other address.
  other : ActorAddress → ActorAddress
  other a = record a { actor_id = 0 ∷ a.actor_id }

  other_ne : (a : ActorAddress) → a ≢ other a
  unfolding other
  other_ne a h = omega (arith, ap (λ (b : ActorAddress). length b.actor_id) h)

  dispatch-sessions :
      (a : ActorAddress) (now : ℕ) (m : MailboxMessage) (reserved : Bool) (s t : Server sem mpsc)
      (x : Result SendError (Unit {0}))
      → dispatch_message sem mpsc now a m reserved s ≡ some (x, t)
      → t.sessions ≡ s.sessions
  dispatch-sessions a now m reserved s t x h =
      (dispatch_message-Framed sem mpsc a (other a) now m reserved s t x (other_ne a) h).sessions

  module _ (a : ActorAddress) (i : SessionId) where
    after_dispatch-sessions :
        (r : Reply sem mpsc) (sessions : SessionRegistry) (o : Opening) (s' : Server sem mpsc)
        → ((x : Result SendError (Unit {0})) (t : Server sem mpsc)
            → r ≡ some (x, t)
            → t.sessions ≡ sessions)
        → after_dispatch sem mpsc a i r ≡ some (o, s')
        → s'.sessions ≡ sessions_after a i o sessions
    unfolding after_dispatch unregister
    after_dispatch-sessions none sessions o s' h e = absurd (cc)
    after_dispatch-sessions (some (ok u, t)) sessions o s' h e = ground (arith, h (ok u) t refl)
    after_dispatch-sessions (some (err x, t)) sessions o s' h e = ground (arith, h (err x) t refl)

    -- What an opening does to the sender of a pair: nothing if it has finished.
    abbrev view_after :
        Opening → SessionRegistry → SenderId → ActorAddress → SessionId → Option SenderId
    view_after (finished _) r sender b j = sink r b j
    view_after waiting r sender b j =
        ite (address_eq.dec a b) (ite (bytes_eq.dec i j) (some sender) (sink r b j)) (sink r b j)

    added_view :
        (o : Opening) (r r' : SessionRegistry) (sender : SenderId) (b : ActorAddress)
        (j : SessionId)
        → sink r a i ≡ none
        → r' ≡ sessions_after a i o (register_actor r a i sender).1
        → sink r' b j ≡ view_after o r sender b j
    added_view (finished _) r r' sender b j h e = ground (
      arith,
      (sink-unregister_actor (register_actor r a i sender).1 a i b j).0,
      (sink-register_actor r a i sender b j).0,
    )
    added_view waiting r r' sender b j h e =
        ground (arith, (sink-register_actor r a i sender b j).0)

    rejected_view :
        (r : SessionRegistry) (sender : SenderId)
        → (register_actor r a i sender).0 ≡ false
        → (register_actor r a i sender).1 ≡ r
    unfolding register_actor
    rejected_view r sender h = ground arith

    drop-sessions :
        (reserved : Bool) (s : Server sem mpsc)
        → (drop_reservation sem mpsc reserved s).sessions ≡ s.sessions
    unfolding drop_reservation
    drop-sessions true s = refl
    drop-sessions false s = refl

    registered_view :
        (now : ℕ) (sender : SenderId) (complete : ℕ) (reserved : Bool) (s s' : Server sem mpsc)
        (o : Opening) (added : Bool)
        → (register_actor s.sessions a i sender).0 ≡ added
        → after_register sem mpsc now a i complete reserved
            (record s { sessions = (register_actor s.sessions a i sender).1 })
            added
          ≡ some (o, s')
        → (b : ActorAddress) (j : SessionId)
        → sink s'.sessions b j ≡ view_after o s.sessions sender b j
    unfolding after_register
    registered_view now sender complete reserved s s' o true e h b j =
        let s1 = record s { sessions = (register_actor s.sessions a i sender).1 } in
        let m = session_opened i complete in
        added_view o s.sessions s'.sessions sender b j
          ((sink-register_actor s.sessions a i sender b j).1.0 e)
          (after_dispatch-sessions (dispatch_message sem mpsc now a m reserved s1) s1.sessions o s'
            (λ x t. dispatch-sessions a now m reserved s1 t x) h)
    registered_view now sender complete reserved s s' (finished x) false e h b j =
        let s1 = record s { sessions = (register_actor s.sessions a i sender).1 } in
        ap (λ (r : SessionRegistry). sink r b j)
          (ground (arith, drop-sessions reserved s1, rejected_view s.sessions sender e))
    registered_view now sender complete reserved s s' waiting false e h b j = absurd (cc)

    refused_view :
        (o : Opening) (t s' : Server sem mpsc) (sender : SenderId) (s : Server sem mpsc)
        {x : Result SendError (Result SendError (Unit {0}))}
        → t.sessions ≡ s.sessions
        → ◌≡◌ {A = Option (Opening × Server sem mpsc)} (some (finished x, t)) (some (o, s'))
        → (b : ActorAddress) (j : SessionId)
        → sink s'.sessions b j ≡ view_after o s.sessions sender b j
    refused_view (finished y) t s' sender s e h b j =
        ap (λ (r : SessionRegistry). sink r b j) (ground arith)
    refused_view waiting t s' sender s e h b j = absurd (cc)

    open_view :
        (now : ℕ) (sender : SenderId) (complete : ℕ) (reserved : Bool) (s s' : Server sem mpsc)
        (o : Opening)
        → open_local_session sem mpsc now a i sender complete reserved s ≡ some (o, s')
        → (b : ActorAddress) (j : SessionId)
        → sink s'.sessions b j ≡ view_after o s.sessions sender b j
    unfolding open_local_session
    open_view now sender complete reserved s s' o h b j =
        elim (Bool-cases (is_some (get a.actor_type s.registrations))) [
          | inl known ↦
              registered_view now sender complete reserved s s' o
                (register_actor s.sessions a i sender).0 refl (rw known at h) b j
          | inr unknown ↦
              refused_view o (drop_reservation sem mpsc reserved s) s' sender s
                (drop-sessions reserved s) (rw unknown at h) b j
        ]

  -- An opening that finishes at once, whatever its result, leaves every session as it was: nothing of
  -- a failed opening stays registered.
  pub open_finished :
      (now : ℕ) (a : ActorAddress) (i : SessionId) (sender : SenderId) (complete : ℕ)
      (reserved : Bool) (s s' : Server sem mpsc)
      (x : Result SendError (Result SendError (Unit {0})))
      → open_local_session sem mpsc now a i sender complete reserved s ≡ some (finished x, s')
      → (b : ActorAddress) (j : SessionId) → sink s'.sessions b j ≡ sink s.sessions b j
  open_finished now a i sender complete reserved s s' x h b j =
      open_view a i now sender complete reserved s s' (finished x) h b j

  -- An opening that waits for its Actor has registered its session with its own sender, and left
  -- every other session as it was.
  pub open_waiting :
      (now : ℕ) (a : ActorAddress) (i : SessionId) (sender : SenderId) (complete : ℕ)
      (reserved : Bool) (s s' : Server sem mpsc)
      → open_local_session sem mpsc now a i sender complete reserved s ≡ some (waiting, s')
      → (b : ActorAddress) (j : SessionId)
      → sink s'.sessions b j
        ≡ ite
            (address_eq.dec a b)
            (ite (bytes_eq.dec i j) (some sender) (sink s.sessions b j))
            (sink s.sessions b j)
  open_waiting now a i sender complete reserved s s' h b j =
      open_view a i now sender complete reserved s s' waiting h b j
