-- ===== src/Server/Task/Permits.antt =====
-- The permit of an Actor that ends goes back, and its route goes.
use coactor.Base.{
  ℕ, ◌≡◌, refl, ◌∙◌, Bool, true, false, List, [], ◌∷◌, Bytes, get, get-remove, arith, if◌then◌else◌,
}
use coactor.Failure.{SendError}
use coactor.Address.{ActorAddress, address_eq}
use coactor.Tokio.{Semaphore, Mpsc}
use coactor.Sessions.{SessionId}
use coactor.Server.{MailboxMessage, action, session_opened, session_closed}
use coactor.Server.Dispatch.{begin_deactivation, remove_route, is_generation, drop_route}
use coactor.Server.Dispatch.Accounting.{
  Accounted, remove_route-Accounted, begin_deactivation-Accounted,
}
use coactor.Server.Task.{
  DeactivationReason, idle, shutdown, Ending, completed, failed, panicked, Phase, activating,
  looping, over, Running, Hooks, Event, arrive, activated, received, senders_gone, shutdown_signal,
  aborted, idle_timeout, ActorTask, after_hook, after_opened, execute_message, finish, fail_pending,
  terminated, removed, on_activation, carry_on, receive, after_deactivate, stop, drain_next, drain,
  deactivated, on_idle, has_live_sessions, in_loop, in_activation, in_phase, step, run,
}

module _ (sem : Semaphore) (mpsc : Mpsc MailboxMessage) (hooks : Hooks sem mpsc)
    (address : ActorAddress) (generation : ℕ) (is_clustered : Bool) (total : ℕ) where
  abbrev Task : Type 0
  Task = ActorTask sem mpsc hooks address generation is_clustered

  abbrev Full : Running sem mpsc → Type 0
  Full s = Accounted sem mpsc 0 total s

  abbrev Kept : Ending × hooks.Actor × Running sem mpsc → Type 0
  Kept x = Full x.2

  -- While a hook runs, every permit stays available or with a route.
  pub record IsKeeping : Type 0 where
    pub activate : (a : hooks.Actor) (s : Running sem mpsc) → Full s → Kept (hooks.activate a s)
    pub handle :
        (i : SessionId) (payload : Bytes) (a : hooks.Actor) (s : Running sem mpsc)
        → Full s
        → Kept (hooks.handle i payload a s)
    pub opened :
        (i : SessionId) (a : hooks.Actor) (s : Running sem mpsc)
        → Full s
        → Kept (hooks.session_opened_hook i a s)
    pub closed :
        (i : SessionId) (a : hooks.Actor) (s : Running sem mpsc)
        → Full s
        → Kept (hooks.session_closed_hook i a s)
    pub deactivate :
        (r : DeactivationReason) (a : hooks.Actor) (s : Running sem mpsc)
        → Full s
        → Full (hooks.deactivate r a s).1

  -- The task has no route any more.
  abbrev HasNoRoute : Running sem mpsc → Type 0
  HasNoRoute s = is_generation sem mpsc generation (get address s.actors) ≡ false

  abbrev Settled : Phase → Running sem mpsc → Type 0
  Settled over s = Full s × HasNoRoute s
  Settled _ s = Full s

  abbrev pub IsSettled : Task → Type 0
  IsSettled t = Settled t.phase t.server

  Settled-Full : (p : Phase) (s : Running sem mpsc) → Settled p s → Full s
  Settled-Full activating s v = v
  Settled-Full looping s v = v
  Settled-Full over s v = v.0

  Full-Settled : (p : Phase) (s : Running sem mpsc) → p ≡ looping → Full s → Settled p s
  Full-Settled activating s h v = v
  Full-Settled looping s h v = v
  Full-Settled over s h v = cc

  dropped-HasNoRoute :
      (b : Bool) (s : Running sem mpsc)
      → is_generation sem mpsc generation (get address s.actors) ≡ b
      → HasNoRoute (if b then drop_route sem mpsc address s else s)
  unfolding drop_route is_generation
  dropped-HasNoRoute true s e = ground (arith, get-remove address address s.actors)
  dropped-HasNoRoute false s e = e

  remove_route-HasNoRoute :
      (s : Running sem mpsc) → HasNoRoute (remove_route sem mpsc address generation s)
  unfolding remove_route
  remove_route-HasNoRoute s =
      dropped-HasNoRoute (is_generation sem mpsc generation (get address s.actors)) s refl

  finish-IsSettled :
      (t : Task)
      → Full t.server
      → IsSettled (finish sem mpsc hooks address generation is_clustered t)
  unfolding finish
  finish-IsSettled t v = (
    remove_route-Accounted sem mpsc total address generation t.server v,
    remove_route-HasNoRoute t.server,
  )

  terminated-Full :
      (e : SendError) (t : Task)
      → Full t.server
      → Full (terminated sem mpsc hooks address generation is_clustered e t).server
  unfolding terminated
  terminated-Full e t v = record { distinct = v.distinct; permits = v.permits }

  removed-Full :
      (t : Task)
      → Full t.server
      → Full (removed sem mpsc hooks address generation is_clustered t).server
  unfolding removed
  removed-Full t v = remove_route-Accounted sem mpsc total address generation t.server v

  hook-Full :
      (x : Ending × hooks.Actor × Running sem mpsc) (t : Task)
      → Kept x
      → Full (after_hook sem mpsc hooks address generation is_clustered x t).1.server
        × ((after_hook sem mpsc hooks address generation is_clustered x t).1.phase ≡ t.phase)
  unfolding after_hook
  hook-Full (e, actor, server) t v = (v, refl)

  opened-Full :
      (d : ℕ) (x : Ending × hooks.Actor × Running sem mpsc) (t : Task)
      → Kept x
      → Full (after_opened sem mpsc hooks address generation is_clustered d x t).1.server
        × ((after_opened sem mpsc hooks address generation is_clustered d x t).1.phase ≡ t.phase)
  unfolding after_opened
  opened-Full d (completed, actor, server) t v = (v, refl)
  opened-Full d (failed, actor, server) t v = (v, refl)
  opened-Full d (panicked, actor, server) t v = (v, refl)

  module _ (keeping : IsKeeping) where
    execute-Full :
        (m : MailboxMessage) (t : Task)
        → Full t.server
        → Full (execute_message sem mpsc hooks address generation is_clustered m t).1.server
          × ((execute_message sem mpsc hooks address generation is_clustered m t).1.phase ≡ t.phase)
    unfolding execute_message
    execute-Full (action i payload) t v =
        hook-Full (hooks.handle i payload t.actor t.server) t
          (keeping.handle i payload t.actor t.server v)
    execute-Full (session_opened i d) t v =
        opened-Full d (hooks.session_opened_hook i t.actor t.server) t
          (keeping.opened i t.actor t.server v)
    execute-Full (session_closed i) t v =
        hook-Full (hooks.session_closed_hook i t.actor t.server) t
          (keeping.closed i t.actor t.server v)

    carry_on-IsSettled :
        (x : Bool × Task)
        → x.1.phase ≡ looping
        → Full x.1.server
        → IsSettled (carry_on sem mpsc hooks address generation is_clustered x)
    unfolding carry_on
    carry_on-IsSettled (true, t) h v = Full-Settled t.phase t.server h v
    carry_on-IsSettled (false, t) h v =
        finish-IsSettled _ (terminated-Full SendError.actor_stopped t v)

    receive-IsSettled :
        (ms : List MailboxMessage) (t : Task)
        → t.phase ≡ looping
        → Full t.server
        → IsSettled (receive sem mpsc hooks address generation is_clustered ms t)
    unfolding receive
    receive-IsSettled [] t h v = Full-Settled t.phase t.server h v
    receive-IsSettled (m ∷ ms) t h v =
        let (w, p) = execute-Full m (record t { mailbox = ms }) v in
        carry_on-IsSettled
          (execute_message sem mpsc hooks address generation is_clustered m
            (record t { mailbox = ms }))
          (p ∙ h) w

    stop-IsSettled :
        (t : Task)
        → Full t.server
        → IsSettled (stop sem mpsc hooks address generation is_clustered t)
    unfolding stop after_deactivate
    stop-IsSettled t v =
        let t' =
          terminated sem mpsc hooks address generation is_clustered SendError.runtime_shutting_down
            t in
        let w =
          keeping.deactivate shutdown t'.actor t'.server
            (terminated-Full SendError.runtime_shutting_down t v) in
        finish-IsSettled _ (removed-Full _ w)

    drain_next-IsSettled :
        (ms : List MailboxMessage) (x : Bool × Task)
        → ((t : Task)
            → Full t.server
            → IsSettled (drain sem mpsc hooks address generation is_clustered ms t))
        → Full x.1.server
        → IsSettled (
            drain_next sem mpsc hooks address generation is_clustered
              (drain sem mpsc hooks address generation is_clustered ms)
              x)
    unfolding drain_next
    drain_next-IsSettled ms (true, t) k v = k t v
    drain_next-IsSettled ms (false, t) k v =
        finish-IsSettled _ (terminated-Full SendError.actor_stopped t v)

    drain-IsSettled :
        (ms : List MailboxMessage) (t : Task)
        → Full t.server
        → IsSettled (drain sem mpsc hooks address generation is_clustered ms t)
    unfolding drain
    drain-IsSettled [] t v = stop-IsSettled (record t { mailbox = [] }) v
    drain-IsSettled (m ∷ ms) t v =
        drain_next-IsSettled ms
          (execute_message sem mpsc hooks address generation is_clustered m
            (record t { mailbox = ms }))
          (λ u w. drain-IsSettled ms u w) (execute-Full m (record t { mailbox = ms }) v).0

    deactivated-IsSettled :
        (x : Bool × Running sem mpsc) (t : Task)
        → t.phase ≡ looping
        → Full x.1
        → IsSettled (deactivated sem mpsc hooks address generation is_clustered x t)
    unfolding deactivated after_deactivate
    deactivated-IsSettled (false, server) t h v = Full-Settled t.phase server h v
    deactivated-IsSettled (true, server) t h v =
        finish-IsSettled _ (removed-Full _ (keeping.deactivate idle t.actor server v))

    idle-IsSettled :
        (k : mpsc.Chan) (b : Bool) (t : Task)
        → t.phase ≡ looping
        → Full t.server
        → IsSettled (on_idle sem mpsc hooks address generation is_clustered k b t)
    unfolding on_idle
    idle-IsSettled k true t h v = Full-Settled t.phase t.server h v
    idle-IsSettled k false t h v =
        deactivated-IsSettled (begin_deactivation sem mpsc address generation k t.server) t h
          (begin_deactivation-Accounted sem mpsc total address generation k t.server v)

    activation-IsSettled :
        (x : Ending × hooks.Actor × Running sem mpsc) (t : Task)
        → Kept x
        → IsSettled (on_activation sem mpsc hooks address generation is_clustered x t)
    unfolding on_activation fail_pending
    activation-IsSettled (completed, actor, server) t v = v
    activation-IsSettled (failed, actor, server) t v = finish-IsSettled _ (
        terminated-Full SendError.activation_failed _
          (removed-Full (record t { actor = actor; server = server }) v))
    activation-IsSettled (panicked, actor, server) t v = finish-IsSettled _ (
        terminated-Full SendError.actor_stopped _
          (removed-Full (record t { actor = actor; server = server }) v))

    loop-IsSettled :
        (e : Event sem mpsc) (t : Task)
        → t.phase ≡ looping
        → Full t.server
        → IsSettled (in_loop sem mpsc hooks address generation is_clustered e t)
    unfolding in_loop
    loop-IsSettled (arrive m) t h v = Full-Settled t.phase t.server h v
    loop-IsSettled activated t h v = Full-Settled t.phase t.server h v
    loop-IsSettled received t h v = receive-IsSettled t.mailbox t h v
    loop-IsSettled senders_gone t h v = finish-IsSettled _ (removed-Full t v)
    loop-IsSettled shutdown_signal t h v = drain-IsSettled t.mailbox t v
    loop-IsSettled aborted t h v = finish-IsSettled t v
    loop-IsSettled (idle_timeout k) t h v =
        idle-IsSettled k (has_live_sessions sem mpsc hooks address generation is_clustered t) t h v

    activating-IsSettled :
        (e : Event sem mpsc) (t : Task)
        → t.phase ≡ activating
        → Full t.server
        → IsSettled (in_activation sem mpsc hooks address generation is_clustered e t)
    unfolding in_activation
    activating-IsSettled (arrive m) t h v = rw h v
    activating-IsSettled activated t h v =
        activation-IsSettled (hooks.activate t.actor t.server) t
          (keeping.activate t.actor t.server v)
    activating-IsSettled aborted t h v = finish-IsSettled t v
    activating-IsSettled _ t h v = rw h v

    phase-IsSettled :
        (p : Phase) (e : Event sem mpsc) (t : Task)
        → t.phase ≡ p
        → IsSettled t
        → IsSettled (in_phase sem mpsc hooks address generation is_clustered p e t)
    unfolding in_phase
    phase-IsSettled activating e t h v =
        activating-IsSettled e t h (Settled-Full t.phase t.server v)
    phase-IsSettled looping e t h v = loop-IsSettled e t h (Settled-Full t.phase t.server v)
    phase-IsSettled over e t h v = v

    -- If the hooks, and what runs beside them, keep every permit with a route or available, then so
    -- does the task, whatever its events; and when it is over, its own route is gone.
    pub run-IsSettled :
        (es : List (Event sem mpsc)) (t : Task)
        → IsSettled t
        → IsSettled (run sem mpsc hooks address generation is_clustered es t)
    unfolding run step
    run-IsSettled [] t v = v
    run-IsSettled (e ∷ es) t v =
        run-IsSettled es (step sem mpsc hooks address generation is_clustered e t)
          (phase-IsSettled t.phase e t refl v)
