-- ===== src/Server/Shutdown/Emptied.antt =====
-- What a server that is fenced or shut down has left: no session, no route, every permit.
use coactor.Base.{
  ℕ, suc, ◌+◌, ◌≡◌, refl, true, err, [], ◌∷◌, ◌++◌, Map, remove, remove_absent, length, arith, get,
  ap,
}
use coactor.Failure.{SendError, to_wire}
use coactor.Address.{ActorAddress, address_eq}
use coactor.Tokio.{Semaphore, Mpsc}
use coactor.Transport.{Sends, Kind}
use coactor.Sessions.{SessionRegistry, Sinks, by_actor_addresses, terminate_all}
use coactor.Sessions.View.{IsValid}
use coactor.Sessions.Termination.{to_each, terminate_all_lem}
use coactor.Server.{MailboxMessage, Route, Spawned, stopped}
use coactor.Server.Dispatch.{Server}
use coactor.Server.Dispatch.Accounting.{Accounted}
use coactor.Server.Shutdown.{
  terminate_all_sessions, release_each, clear_actors, on_tasks, finish_fence, finish_shutdown,
  shutdown_timed_out,
}

-- The error for every session of every address, in the order of the registry.
abbrev pub to_all : SendError → SessionRegistry → Sends
to_all e [] = []
to_all e ((a, m) ∷ r) = to_each (Kind.session_error (to_wire e)) m ++ to_all e r

first_terminated :
    (r : SessionRegistry) (a : ActorAddress) (m : Sinks) (e : SendError)
    → IsValid ((a, m) ∷ r)
    → terminate_all ((a, m) ∷ r) a e ≡ (r, to_each (Kind.session_error (to_wire e)) m)
unfolding get remove
first_terminated r a m e v =
    ground (arith, terminate_all_lem ((a, m) ∷ r) a e v, remove_absent a r v.0)

-- On a valid registry, ending all sessions leaves no session, and sends the error exactly once to
-- each session that was live, to the sender of that session.
pub terminate_all_sessions_lem :
    (r : SessionRegistry) (e : SendError)
    → IsValid r
    → terminate_all_sessions r e ≡ ([], to_all e r)
unfolding terminate_all_sessions by_actor_addresses
terminate_all_sessions_lem [] e v = refl
terminate_all_sessions_lem ((a, m) ∷ r) e (h, n, d, v) =
    rw (first_terminated r a m e (h, n, d, v), terminate_all_sessions_lem r e v) refl

module _ (sem : Semaphore) (mpsc : Mpsc MailboxMessage) where
  open sem use {Sem, available_permits, release, available_permits-release}

  release_each-permits :
      (m : Map ActorAddress (Route sem mpsc)) (c : Sem)
      → available_permits (release_each sem mpsc m c) ≡ available_permits c + length m
  unfolding release_each
  release_each-permits [] c = omega arith
  release_each-permits (_ ∷ rest) c =
      omega (arith, release_each-permits rest (release c), available_permits-release c)

  -- On a server whose permits are accounted for and whose registry is valid, the end of a fence leaves
  -- no route and no session, has every permit available again, and sends "node fenced" exactly once
  -- to each session that was live.
  pub finish_fence_lem :
      (total : ℕ) (s : Server sem mpsc)
      → Accounted sem mpsc 0 total s
      → IsValid s.sessions
      → ((finish_fence sem mpsc s).0.actors ≡ [])
        × ((finish_fence sem mpsc s).0.sessions ≡ [])
        × (available_permits (finish_fence sem mpsc s).0.capacity ≡ total)
        × ((finish_fence sem mpsc s).1 ≡ to_all SendError.node_fenced s.sessions)
  unfolding finish_fence clear_actors
  finish_fence_lem total s v i =
      let e = terminate_all_sessions_lem s.sessions SendError.node_fenced i in
      (
        refl,
        ap (λ p. p.0) e,
        omega (arith, release_each-permits s.actors s.capacity, v.permits),
        ap (λ p. p.1) e,
      )

  length-on_tasks :
      (f : Spawned sem mpsc → Spawned sem mpsc) (m : Map ActorAddress (Route sem mpsc))
      → length (on_tasks sem mpsc f m) ≡ length m
  length-on_tasks f [] = refl
  length-on_tasks f (_ ∷ m) = ap suc (length-on_tasks f m)

  -- On such a server, the end of a shutdown that ran out of time reports it, and leaves no route and
  -- no session and every permit available again; each session that was live was sent "shutting
  -- down" exactly once.
  pub finish_shutdown_timed_out :
      (total : ℕ) (s : Server sem mpsc)
      → Accounted sem mpsc 0 total s
      → IsValid s.sessions
      → ((finish_shutdown sem mpsc true s).0 ≡ err shutdown_timed_out)
        × ((finish_shutdown sem mpsc true s).1.actors ≡ [])
        × ((finish_shutdown sem mpsc true s).1.sessions ≡ [])
        × ((finish_shutdown sem mpsc true s).1.status ≡ stopped)
        × (available_permits (finish_shutdown sem mpsc true s).1.capacity ≡ total)
        × ((finish_shutdown sem mpsc true s).2 ≡ to_all SendError.runtime_shutting_down s.sessions)
  unfolding finish_shutdown clear_actors
  finish_shutdown_timed_out total s v i =
      let e = terminate_all_sessions_lem s.sessions SendError.runtime_shutting_down i in
      let f = λ (t : Spawned sem mpsc). record t { aborted = true } in
      (
        refl,
        refl,
        ap (λ p. p.0) e,
        refl,
        omega (
          arith,
          release_each-permits (on_tasks sem mpsc f s.actors) s.capacity,
          length-on_tasks f s.actors,
          v.permits,
        ),
        ap (λ p. p.1) e,
      )
