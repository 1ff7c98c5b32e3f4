-- ===== src/Server/Shutdown.antt =====
-- Shutdown and fencing of a server (coactor/src/runtime/shutdown.rs), each up to its `await` on the
-- actor tasks and from there; inbound tasks are not modelled.
pub mod Emptied
use coactor.Base.{
  ℕ, Bool, true, false, Option, none, some, List, [], ◌∷◌, ◌++◌, Map, not, ◌&&◌, if◌then◌else◌,
  Result, ok, err,
}
use coactor.Failure.{SendError, ServerError, shutdown_timed_out}
use coactor.Address.{ActorAddress}
use coactor.Tokio.{Semaphore, Mpsc}
use coactor.Transport.{Sends}
use coactor.Sessions.{SessionRegistry, by_actor_addresses, terminate_all}
use coactor.Server.{MailboxMessage, Status, running, shutting_down, stopped, fenced, Spawned, Route}
use coactor.Server.Dispatch.{Server, authority_lost}

is_fenced : Status → Bool
is_fenced fenced = true
is_fenced _ = false

terminate_addresses : SessionRegistry → SendError → List ActorAddress → SessionRegistry × Sends
terminate_addresses r e [] = (r, [])
terminate_addresses r e (a ∷ rest) =
    let (r', calls) = terminate_all r a e in
    let (r'', more) = terminate_addresses r' e rest in (r'', calls ++ more)

-- `terminate_all_sessions`.
unfoldable pub terminate_all_sessions : SessionRegistry → SendError → SessionRegistry × Sends
unfolding terminate_addresses
terminate_all_sessions r e = terminate_addresses r e (by_actor_addresses r)

module _ (sem : Semaphore) (mpsc : Mpsc MailboxMessage) where
  open sem use {Sem, release}

  abbrev Running : Type 0
  Running = Server sem mpsc

  unfoldable pub has_authority : ℕ → Running → Bool
  unfolding is_fenced
  has_authority now s = not (is_fenced s.status) && not (authority_lost now s.authority)

  abbrev on_tasks :
      (Spawned sem mpsc → Spawned sem mpsc)
      → Map ActorAddress (Route sem mpsc)
      → Map ActorAddress (Route sem mpsc)
  on_tasks f [] = []
  on_tasks f ((a, route) ∷ rest) = (a, record route { task = f route.task }) ∷ on_tasks f rest

  -- The routes drop their permits one by one.
  release_each : Map ActorAddress (Route sem mpsc) → Sem → Sem
  release_each [] c = c
  release_each (_ ∷ rest) c = release_each rest (release c)

  -- `self.actors.lock().clear()`.
  unfoldable pub clear_actors : Running → Running
  unfolding release_each
  clear_actors s = record s { actors = []; capacity = release_each s.actors s.capacity }

  -- `shutdown` up to its `await`; none if it was not running.
  unfoldable pub begin_shutdown : Running → Option Running
  begin_shutdown s = elim (s.status) [
    | running ↦ some (record s {
      status = shutting_down;
      actors = on_tasks (λ t. record t { shutdown = true }) s.actors;
    })
    | _ ↦ none
  ]

  abbrev abort_all : Running → Running
  abort_all s = record s { actors = on_tasks (λ t. record t { aborted = true }) s.actors }

  -- The end of `shutdown`, when the tasks have completed or the time is over.
  unfoldable pub finish_shutdown : Bool → Running → Result ServerError (Unit {0}) × Running × Sends
  unfolding clear_actors
  finish_shutdown timed_out s =
      let (sessions, sends) = terminate_all_sessions s.sessions SendError.runtime_shutting_down in
      let s' = if timed_out then clear_actors (abort_all s) else s in
      (
        if timed_out then err shutdown_timed_out else ok tt,
        record s' { sessions = sessions; status = stopped },
        sends,
      )

  -- `fence` up to its `await`.
  unfoldable pub begin_fence : Running → Running
  begin_fence s = abort_all (record s { status = fenced })

  -- The end of `fence`, when every task has completed.
  unfoldable pub finish_fence : Running → Running × Sends
  unfolding clear_actors
  finish_fence s =
      let (sessions, sends) = terminate_all_sessions s.sessions SendError.node_fenced in
      (record (clear_actors s) { sessions = sessions }, sends)
