-- ===== src/Server/Dispatch/Accounting.antt =====
-- Every permit of the capacity is available, reserved or held by one route.
use coactor.Base.{
  ℕ, ◌+◌, ◌≡◌, refl, Bool, true, false, Option, none, some, Result, ok, err, arith, Option-cases,
  Bool-cases, inl, inr, get, insert, length, Distinct, insert-Distinct, remove-Distinct,
  length-insert_new, length-insert_old, length-remove, get-remove, subst, bytes_eq,
}
use coactor.Failure.{SendError}
use coactor.Address.{ActorAddress, address_eq}
use coactor.Tokio.{Semaphore, Mpsc, TrySendError}
use coactor.Server.{
  MailboxMessage, session_opened, RouteState, active, deactivating, refusal, Route,
}
use coactor.Server.Dispatch.{
  authority_lost, Server, Reply, drop_reservation, fail_message, spawn_route, mailbox_size,
  with_permit, activate, drop_route, offer, by_state, by_route, by_status, dispatch_message,
  is_generation, remove_route, begin_deactivation, begin_route,
}

module _ (sem : Semaphore) (mpsc : Mpsc MailboxMessage) where
  open sem use {
    Sem, available_permits, try_acquire, release, available_permits-release, try_acquire-some,
  }
  open mpsc use {Chan, try_send}

  -- `held` permits are reserved outside the routes, and `total` are there in all.
  pub record Accounted (held total : ℕ) (s : Server sem mpsc) : Type 0 where
    pub distinct : Distinct s.actors
    pub permits : available_permits s.capacity + length s.actors + held ≡ total

  abbrev pub permits_of : Bool → ℕ
  permits_of true = 1
  permits_of false = 0

  abbrev AfterReply : ℕ → Reply sem mpsc → Type 0
  AfterReply total none = Unit {0}
  AfterReply total (some (_, s)) = Accounted 0 total s

  module _ (total : ℕ) where
    drop_reservation-Accounted :
        (b : Bool) (s : Server sem mpsc)
        → Accounted (permits_of b) total s
        → Accounted 0 total (drop_reservation sem mpsc b s)
    unfolding drop_reservation
    drop_reservation-Accounted true s v = record {
      distinct = v.distinct;
      permits = omega (arith, available_permits-release s.capacity);
    }
    drop_reservation-Accounted false s v = v

    fail_message-Accounted :
        (held : ℕ) (m : MailboxMessage) (e : SendError) (s : Server sem mpsc)
        → Accounted held total s
        → Accounted held total (fail_message sem mpsc m e s)
    unfolding fail_message
    fail_message-Accounted held (session_opened i c) e s v = record {
      distinct = v.distinct;
      permits = v.permits;
    }
    fail_message-Accounted held _ e s v = v

    insert_new-Accounted :
        (a : ActorAddress) (route : Route sem mpsc) (g : ℕ) (s : Server sem mpsc)
        → get a s.actors ≡ none
        → Accounted 1 total s
        → Accounted 0 total (record s { actors = insert a route s.actors; next_generation = g })
    insert_new-Accounted a route g s h v = record {
      distinct = insert-Distinct a route s.actors v.distinct;
      permits = omega (arith, length-insert_new a route s.actors h, v.permits);
    }

    insert_old-Accounted :
        (held : ℕ) (a : ActorAddress) (route old : Route sem mpsc) (s : Server sem mpsc)
        → get a s.actors ≡ some old
        → Accounted held total s
        → Accounted held total (record s { actors = insert a route s.actors })
    insert_old-Accounted held a route old s h v = record {
      distinct = insert-Distinct a route s.actors v.distinct;
      permits = omega (arith, length-insert_old a route old s.actors h, v.permits);
    }

    get_dropped :
        (a : ActorAddress) (s : Server sem mpsc) → get a (drop_route sem mpsc a s).actors ≡ none
    unfolding drop_route
    get_dropped a s = ground (arith, get-remove a a s.actors)

    drop_route-Accounted :
        (held : ℕ) (a : ActorAddress) (old : Route sem mpsc) (s : Server sem mpsc)
        → get a s.actors ≡ some old
        → Accounted held total s
        → Accounted held total (drop_route sem mpsc a s)
    unfolding drop_route
    drop_route-Accounted held a old s h v = record {
      distinct = remove-Distinct a s.actors v.distinct;
      permits = omega (
        arith,
        length-remove a old s.actors v.distinct h,
        available_permits-release s.capacity,
        v.permits,
      );
    }

    spawn_route-Accounted :
        (a : ActorAddress) (m : MailboxMessage) (s : Server sem mpsc) (size : Option ℕ)
        → get a s.actors ≡ none
        → Accounted 1 total s
        → AfterReply total (spawn_route sem mpsc a m s size)
    unfolding spawn_route
    spawn_route-Accounted a m s none h v = tt
    spawn_route-Accounted a m s (some n) h v = insert_new-Accounted a _ _ s h v

    activate-Accounted :
        (b : Bool) (a : ActorAddress) (m : MailboxMessage) (s : Server sem mpsc)
        → get a s.actors ≡ none
        → Accounted (permits_of b) total s
        → AfterReply total (activate sem mpsc b a m s)
    unfolding activate with_permit
    activate-Accounted true a m s h v =
        spawn_route-Accounted a m s (mailbox_size (get a.actor_type s.registrations)) h v
    activate-Accounted false a m s h v = elim (Option-cases (try_acquire s.capacity)) [
      | inl e ↦ rw (e, with_permit) (fail_message-Accounted 0 m SendError.runtime_at_capacity s v)
      | inr (left, e) ↦
          rw (e, with_permit)
            (spawn_route-Accounted a m (record s { capacity = left })
              (mailbox_size (get a.actor_type s.registrations)) h
              (record {
                distinct = v.distinct;
                permits = omega (arith, try_acquire-some s.capacity e, v.permits);
              }))
    ]

    offer-Accounted :
        (b : Bool) (a : ActorAddress) (m : MailboxMessage) (route : Route sem mpsc)
        (s : Server sem mpsc) (x : Result TrySendError (Unit {0}) × Chan)
        → get a s.actors ≡ some route
        → Accounted (permits_of b) total s
        → AfterReply total (offer sem mpsc b a m route s x)
    unfolding offer
    offer-Accounted b a m route s (ok _, sender) h v =
        drop_reservation-Accounted b _ (insert_old-Accounted (permits_of b) a _ route s h v)
    offer-Accounted b a m route s (err TrySendError.full, _) h v =
        drop_reservation-Accounted b _
          (fail_message-Accounted (permits_of b) m SendError.mailbox_full s v)
    offer-Accounted b a m route s (err TrySendError.closed, _) h v =
        activate-Accounted b a m (drop_route sem mpsc a s) (get_dropped a s)
          (drop_route-Accounted (permits_of b) a route s h v)

    by_state-Accounted :
        (b : Bool) (a : ActorAddress) (m : MailboxMessage) (s : Server sem mpsc)
        (route : Route sem mpsc) (state : RouteState)
        → get a s.actors ≡ some route
        → Accounted (permits_of b) total s
        → AfterReply total (by_state sem mpsc b a m s route state)
    unfolding by_state
    by_state-Accounted b a m s route active h v =
        offer-Accounted b a m route s (try_send m route.task.sender) h v
    by_state-Accounted b a m s route deactivating h v = drop_reservation-Accounted b s v

    by_route-Accounted :
        (b : Bool) (a : ActorAddress) (m : MailboxMessage) (s : Server sem mpsc)
        (route : Option (Route sem mpsc))
        → get a s.actors ≡ route
        → Accounted (permits_of b) total s
        → AfterReply total (by_route sem mpsc b a m s route)
    unfolding by_route
    by_route-Accounted b a m s none h v = activate-Accounted b a m s h v
    by_route-Accounted b a m s (some route) h v = by_state-Accounted b a m s route route.state h v

    by_status-Accounted :
        (b : Bool) (a : ActorAddress) (m : MailboxMessage) (s : Server sem mpsc)
        (refused : Option SendError)
        → Accounted (permits_of b) total s
        → AfterReply total (by_status sem mpsc b a m s refused)
    unfolding by_status
    by_status-Accounted b a m s none v = by_route-Accounted b a m s (get a s.actors) refl v
    by_status-Accounted b a m s (some e) v = drop_reservation-Accounted b s v

    dispatch_message-AfterReply :
        (now : ℕ) (b : Bool) (a : ActorAddress) (m : MailboxMessage) (s : Server sem mpsc)
        → Accounted (permits_of b) total s
        → AfterReply total (dispatch_message sem mpsc now a m b s)
    unfolding dispatch_message
    dispatch_message-AfterReply now b a m s v = elim (Bool-cases (authority_lost now s.authority)) [
      | inl e ↦ rw e (drop_reservation-Accounted b s v)
      | inr e ↦ rw e (by_status-Accounted b a m s (refusal s.status) v)
    ]

  -- Whatever the outcome, a dispatch gives back or hands on the permit that it may be handed: after
  -- it, each permit is available or held by one route, and each address has one route.
  pub dispatch_message-Accounted :
      (total now : ℕ) (b : Bool) (a : ActorAddress) (m : MailboxMessage) (s s' : Server sem mpsc)
      (x : Result SendError (Unit {0}))
      → Accounted (permits_of b) total s
      → dispatch_message sem mpsc now a m b s ≡ some (x, s')
      → Accounted 0 total s'
  dispatch_message-Accounted total now b a m s s' x v h =
      subst (AfterReply total) h (dispatch_message-AfterReply total now b a m s v)

  -- Removing a route gives its permit back; a route of another generation stays where it is.
  pub remove_route-Accounted :
      (total : ℕ) (a : ActorAddress) (g : ℕ) (s : Server sem mpsc)
      → Accounted 0 total s
      → Accounted 0 total (remove_route sem mpsc a g s)
  unfolding remove_route is_generation
  remove_route-Accounted total a g s v = elim (Option-cases (get a s.actors)) [
    | inl e ↦ rw (e, is_generation) v
    | inr (route, e) ↦ ground (arith, drop_route-Accounted total 0 a route s e v)
  ]

  -- Marking a route for deactivation, or leaving it, keeps each permit where it is.
  pub begin_deactivation-Accounted :
      (total : ℕ) (a : ActorAddress) (g : ℕ) (c : Chan) (s : Server sem mpsc)
      → Accounted 0 total s
      → Accounted 0 total (begin_deactivation sem mpsc a g c s).1
  unfolding begin_deactivation begin_route
  begin_deactivation-Accounted total a g c s v = elim (Option-cases (get a s.actors)) [
    | inl e ↦ rw (e, begin_route) v
    | inr (route, e) ↦
        ground (
          arith,
          insert_old-Accounted total 0 a (record route { state = deactivating }) route s e v,
        )
  ]
