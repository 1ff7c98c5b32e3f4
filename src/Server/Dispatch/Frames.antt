-- ===== src/Server/Dispatch/Frames.antt =====
-- What a dispatch leaves alone, and when it refuses.
use coactor.Base.{
  ℕ, ◌≡◌, refl, ◌≢◌, inl, inr, Bool, true, false, Option, none, some, Result, ok, err, arith,
  Option-cases, Bool-cases, get, get-insert, get-remove, subst, ◌∙◌, if_neg, bytes_eq,
}
use coactor.Failure.{SendError}
use coactor.Address.{ActorAddress, address_eq}
use coactor.Tokio.{Semaphore, Mpsc, TrySendError}
use coactor.Server.{
  MailboxMessage, session_opened, RouteState, active, deactivating, refusal, Route,
}
use coactor.Server.Dispatch.{
  authority_lost, Server, Reply, drop_reservation, fail_message, spawn_route, mailbox_size,
  with_permit, activate, drop_route, offer, by_state, by_route, by_status, dispatch_message,
}

module _ (sem : Semaphore) (mpsc : Mpsc MailboxMessage) where
  open sem use {Sem, try_acquire}
  open mpsc use {Chan, try_send}

  -- The sessions, the registrations, the status and the route of another address stay.
  pub record Framed (a b : ActorAddress) (s t : Server sem mpsc) : Type 0 where
    pub sessions : t.sessions ≡ s.sessions
    pub registrations : t.registrations ≡ s.registrations
    pub status : t.status ≡ s.status
    pub others : get b t.actors ≡ get b s.actors

  module _ (a b : ActorAddress) (a≢b : a ≢ b) (s : Server sem mpsc) where
    abbrev FramedReply : Reply sem mpsc → Type 0
    FramedReply none = Unit {0}
    FramedReply (some (_, t)) = Framed a b s t

    drop-Framed :
        (reserved : Bool) (t : Server sem mpsc)
        → Framed a b s t
        → Framed a b s (drop_reservation sem mpsc reserved t)
    unfolding drop_reservation
    drop-Framed true t f = ground arith
    drop-Framed false t f = f

    fail-Framed :
        (m : MailboxMessage) (e : SendError) (t : Server sem mpsc)
        → Framed a b s t
        → Framed a b s (fail_message sem mpsc m e t)
    unfolding fail_message
    fail-Framed (session_opened _ _) e t f = ground arith
    fail-Framed _ e t f = f

    self : Framed a b s s
    self = record { sessions = refl; registrations = refl; status = refl; others = refl }

    spawn-Framed :
        (m : MailboxMessage) (t : Server sem mpsc) (size : Option ℕ)
        → Framed a b s t
        → FramedReply (spawn_route sem mpsc a m t size)
    unfolding spawn_route
    spawn-Framed m t none f = tt
    spawn-Framed m t (some n) f = record {
      sessions = f.sessions;
      registrations = f.registrations;
      status = f.status;
      others = get-insert b a _ t.actors ∙ if_neg (address_eq.dec a b) a≢b _ _ ∙ f.others;
    }

    activate-Framed :
        (reserved : Bool) (m : MailboxMessage) (t : Server sem mpsc)
        → Framed a b s t
        → FramedReply (activate sem mpsc reserved a m t)
    unfolding activate with_permit
    activate-Framed true m t f =
        spawn-Framed m t (mailbox_size (get a.actor_type t.registrations)) f
    activate-Framed false m t f = elim (Option-cases (try_acquire t.capacity)) [
      | inl e ↦ rw (e, with_permit) (fail-Framed m SendError.runtime_at_capacity t f)
      | inr (left, e) ↦
          rw (e, with_permit)
            (spawn-Framed m (record t { capacity = left })
              (mailbox_size (get a.actor_type t.registrations)) (ground arith))
    ]

    offer-Framed :
        (reserved : Bool) (m : MailboxMessage) (route : Route sem mpsc)
        (x : Result TrySendError (Unit {0}) × Chan)
        → FramedReply (offer sem mpsc reserved a m route s x)
    unfolding offer drop_route
    offer-Framed reserved m route (ok _, sender) = drop-Framed reserved _ (record {
      sessions = refl;
      registrations = refl;
      status = refl;
      others = get-insert b a _ s.actors ∙ if_neg (address_eq.dec a b) a≢b _ _;
    })
    offer-Framed reserved m route (err TrySendError.full, _) =
        drop-Framed reserved _ (fail-Framed m SendError.mailbox_full s self)
    offer-Framed reserved m route (err TrySendError.closed, _) =
        activate-Framed reserved m (drop_route sem mpsc a s) (record {
          sessions = refl;
          registrations = refl;
          status = refl;
          others = get-remove b a s.actors ∙ if_neg (address_eq.dec a b) a≢b _ _;
        })

    by_state-Framed :
        (reserved : Bool) (m : MailboxMessage) (route : Route sem mpsc) (state : RouteState)
        → FramedReply (by_state sem mpsc reserved a m s route state)
    unfolding by_state
    by_state-Framed reserved m route active =
        offer-Framed reserved m route (try_send m route.task.sender)
    by_state-Framed reserved m route deactivating = drop-Framed reserved s self

    by_route-Framed :
        (reserved : Bool) (m : MailboxMessage) (route : Option (Route sem mpsc))
        → FramedReply (by_route sem mpsc reserved a m s route)
    unfolding by_route
    by_route-Framed reserved m none = activate-Framed reserved m s self
    by_route-Framed reserved m (some route) = by_state-Framed reserved m route route.state

    dispatch-Framed :
        (now : ℕ) (reserved : Bool) (m : MailboxMessage)
        → FramedReply (dispatch_message sem mpsc now a m reserved s)
    unfolding dispatch_message by_status
    dispatch-Framed now reserved m = elim (Bool-cases (authority_lost now s.authority)) [
      | inl e ↦ rw e (drop-Framed reserved s self)
      | inr e ↦ elim (Option-cases (refusal s.status)) [
        | inl f ↦ rw (e, f, by_status) (by_route-Framed reserved m (get a s.actors))
        | inr (x, f) ↦ rw (e, f, by_status) (drop-Framed reserved s self)
      ]
    ]

  -- A dispatch to one address leaves the sessions, the registrations, the status and the route of
  -- every other address as they were.
  pub dispatch_message-Framed :
      (a b : ActorAddress) (now : ℕ) (m : MailboxMessage) (reserved : Bool) (s s' : Server sem mpsc)
      (x : Result SendError (Unit {0}))
      → a ≢ b
      → dispatch_message sem mpsc now a m reserved s ≡ some (x, s')
      → Framed a b s s'
  dispatch_message-Framed a b now m reserved s s' x n h =
      subst (FramedReply a b n s) h (dispatch-Framed a b n s now reserved m)
