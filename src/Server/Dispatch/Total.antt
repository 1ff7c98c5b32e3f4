-- ===== src/Server/Dispatch/Total.antt =====
-- A dispatch to a registered Actor Type does not panic.
use coactor.Base.{
  ℕ, refl, ◌≢◌, Bool, true, false, Option, none, some, Result, ok, err, Bool-cases, inl, inr, get,
  subst, bytes_eq,
}
use coactor.Failure.{SendError}
use coactor.Address.{ActorAddress, address_eq}
use coactor.Tokio.{Semaphore, Mpsc, TrySendError}
use coactor.Server.{MailboxMessage, RouteState, active, deactivating, refusal, Route}
use coactor.Server.Dispatch.{
  authority_lost, Server, Reply, spawn_route, mailbox_size, with_permit, activate, drop_route,
  offer, by_state, by_route, by_status, dispatch_message,
}

module _ (sem : Semaphore) (mpsc : Mpsc MailboxMessage) where
  open sem use {Sem, try_acquire}
  open mpsc use {Chan, try_send}

  abbrev Answers : Reply sem mpsc → Type 0
  Answers none = ⊥
  Answers (some _) = Unit {0}

  -- The Actor Type of the address is registered with a mailbox of positive size.
  abbrev pub IsConfigured : ActorAddress → Server sem mpsc → Type 0
  IsConfigured a s = mailbox_size (get a.actor_type s.registrations) ≢ none

  module _ (a : ActorAddress) (m : MailboxMessage) (reserved : Bool) where
    spawn-Answers :
        (s : Server sem mpsc) (size : Option ℕ)
        → size ≢ none
        → Answers (spawn_route sem mpsc a m s size)
    unfolding spawn_route
    spawn-Answers s none h = h refl
    spawn-Answers s (some n) h = tt

    with_permit-Answers :
        (s : Server sem mpsc) (b : Bool) (left : Option Sem)
        → IsConfigured a s
        → Answers (with_permit sem mpsc b a m s left)
    unfolding with_permit
    with_permit-Answers s true left h =
        spawn-Answers s (mailbox_size (get a.actor_type s.registrations)) h
    with_permit-Answers s false (some left) h =
        spawn-Answers (record s { capacity = left })
          (mailbox_size (get a.actor_type s.registrations)) h
    with_permit-Answers s false none h = tt

    activate-Answers :
        (s : Server sem mpsc) → IsConfigured a s → Answers (activate sem mpsc reserved a m s)
    unfolding activate
    activate-Answers s h = with_permit-Answers s reserved (try_acquire s.capacity) h

    offer-Answers :
        (s : Server sem mpsc) (route : Route sem mpsc) (x : Result TrySendError (Unit {0}) × Chan)
        → IsConfigured a s
        → Answers (offer sem mpsc reserved a m route s x)
    unfolding offer drop_route
    offer-Answers s route (ok _, c) h = tt
    offer-Answers s route (err TrySendError.full, c) h = tt
    offer-Answers s route (err TrySendError.closed, c) h =
        activate-Answers (drop_route sem mpsc a s) h

    by_state-Answers :
        (s : Server sem mpsc) (route : Route sem mpsc) (state : RouteState)
        → IsConfigured a s
        → Answers (by_state sem mpsc reserved a m s route state)
    unfolding by_state
    by_state-Answers s route active h = offer-Answers s route (try_send m route.task.sender) h
    by_state-Answers s route deactivating h = tt

    by_route-Answers :
        (s : Server sem mpsc) (route : Option (Route sem mpsc))
        → IsConfigured a s
        → Answers (by_route sem mpsc reserved a m s route)
    unfolding by_route
    by_route-Answers s none h = activate-Answers s h
    by_route-Answers s (some route) h = by_state-Answers s route route.state h

    by_status-Answers :
        (s : Server sem mpsc) (e : Option SendError)
        → IsConfigured a s
        → Answers (by_status sem mpsc reserved a m s e)
    unfolding by_status
    by_status-Answers s none h = by_route-Answers s (get a s.actors) h
    by_status-Answers s (some e) h = tt

    pub dispatch-Answers :
        (now : ℕ) (s : Server sem mpsc)
        → IsConfigured a s
        → Answers (dispatch_message sem mpsc now a m reserved s)
    unfolding dispatch_message
    dispatch-Answers now s h = elim (Bool-cases (authority_lost now s.authority)) [
      | inl e ↦ rw e tt
      | inr e ↦ rw e (by_status-Answers s (refusal s.status) h)
    ]

  -- A dispatch to an Actor Type that is registered and configured returns a result: it does not
  -- panic.
  pub dispatch_message-ne-none :
      (a : ActorAddress) (m : MailboxMessage) (reserved : Bool) (now : ℕ) (s : Server sem mpsc)
      → IsConfigured a s
      → dispatch_message sem mpsc now a m reserved s ≢ none
  dispatch_message-ne-none a m reserved now s h e =
      subst Answers e (dispatch-Answers a m reserved now s h)
