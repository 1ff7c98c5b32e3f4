-- ===== src/Server/Task.antt =====
-- The task of an Actor (coactor/src/runtime/lifecycle.rs): its activation, its loop and its end. The
-- hooks of the application are a parameter; the tasks beside this one may change the server while a
-- hook runs. An abort is taken between two messages. Logging is left out.
pub mod Openings
pub mod Ends
pub mod Permits
use coactor.Base.{
  ℕ, ltb, Bool, true, false, List, [], ◌∷◌, ◌++◌, Bytes, Result, ok, err, if◌then◌else◌,
}
use coactor.Failure.{SendError}
use coactor.Address.{ActorAddress, address_eq}
use coactor.Tokio.{Semaphore, Mpsc}
use coactor.Transport.{Sends}
use coactor.Sessions.{SessionId, session_count, terminate_all}
use coactor.Server.{MailboxMessage, action, session_opened, session_closed}
use coactor.Server.Dispatch.{Server, remove_route, begin_deactivation}

pub data DeactivationReason : Type 0 where
  idle shutdown : DeactivationReason

-- How a hook ends.
pub data Ending : Type 0 where
  completed failed panicked : Ending

pub data Phase : Type 0 where
  activating looping over : Phase

module _ (sem : Semaphore) (mpsc : Mpsc MailboxMessage) where
  open mpsc use {Chan}

  abbrev pub Running : Type 0
  Running = Server sem mpsc

  -- The hooks of the Actor, with its own state. Only activate can fail; deactivate may run out of
  -- time, which makes no difference.
  pub record Hooks : Type 1 where
    pub Actor : Type 0
    pub activate : Actor → Running → Ending × Actor × Running
    pub handle : SessionId → Bytes → Actor → Running → Ending × Actor × Running
    pub session_opened_hook : SessionId → Actor → Running → Ending × Actor × Running
    pub session_closed_hook : SessionId → Actor → Running → Ending × Actor × Running
    pub deactivate : DeactivationReason → Actor → Running → Actor × Running

  -- What the environment does, and which arm of `select!` is taken: a message that the mailbox
  -- accepts; the end of `activate`; a message that is received; the end of all senders; the
  -- signal of shutdown; the idle timeout, with the channel as it is then; an abort.
  pub data Event : Type 0 where
    arrive : MailboxMessage → Event
    activated received senders_gone shutdown_signal aborted : Event
    idle_timeout : Chan → Event

  is_completed : Ending → Bool
  is_completed completed = true
  is_completed _ = false

  module _ (hooks : Hooks) (address : ActorAddress) (generation : ℕ) (is_clustered : Bool) where
    open hooks use {Actor, activate, handle, session_opened_hook, session_closed_hook, deactivate}

    -- `mailbox` is what waits in the channel. `answers` are the results sent to the `oneshot` senders,
    -- `dropped` those senders that were dropped, `deactivations` the calls of that hook, all latest
    -- first; `released` says whether `release_local_owner` was called.
    pub record ActorTask : Type 0 where
      pub phase : Phase
      pub actor : Actor
      pub mailbox : List MailboxMessage
      pub server : Running
      pub answers : List (ℕ × Result SendError (Unit {0}))
      pub dropped : List ℕ
      pub sends : Sends
      pub deactivations : List DeactivationReason
      pub released : Bool

    after_hook : Ending × Actor × Running → ActorTask → Bool × ActorTask
    unfolding is_completed
    after_hook (e, actor, server) t = (is_completed e, record t { actor = actor; server = server })

    after_opened : ℕ → Ending × Actor × Running → ActorTask → Bool × ActorTask
    after_opened complete (completed, actor, server) t =
        (true, record t { actor = actor; server = server; answers = (complete, ok tt) ∷ t.answers })
    after_opened complete (_, actor, server) t = (
      false,
      record t {
        actor = actor;
        server = server;
        answers = (complete, err SendError.actor_stopped) ∷ t.answers;
      },
    )

    -- Whether the Actor goes on.
    unfoldable pub execute_message : MailboxMessage → ActorTask → Bool × ActorTask
    unfolding after_hook after_opened
    execute_message (action session_id payload) t =
        after_hook (handle session_id payload t.actor t.server) t
    execute_message (session_opened session_id complete) t =
        after_opened complete (session_opened_hook session_id t.actor t.server) t
    execute_message (session_closed session_id) t =
        after_hook (session_closed_hook session_id t.actor t.server) t

    unfoldable pub opens_of : List MailboxMessage → List ℕ
    opens_of [] = []
    opens_of (session_opened _ complete ∷ ms) = complete ∷ opens_of ms
    opens_of (_ ∷ ms) = opens_of ms

    -- The end of the task: the receiver is dropped with what waits in it, and the guard removes
    -- the route and reports completion.
    unfoldable pub finish : ActorTask → ActorTask
    unfolding opens_of
    finish t = record t {
      phase = over;
      mailbox = [];
      dropped = opens_of t.mailbox ++ t.dropped;
      server = remove_route sem mpsc address generation t.server;
    }

    fail_each :
        SendError
        → List ℕ
        → List (ℕ × Result SendError (Unit {0}))
        → List (ℕ × Result SendError (Unit {0}))
    fail_each e [] answers = answers
    fail_each e (c ∷ cs) answers = fail_each e cs ((c, err e) ∷ answers)

    unfoldable pub fail_pending : SendError → ActorTask → ActorTask
    unfolding fail_each opens_of
    fail_pending e t = record t {
      mailbox = [];
      answers = fail_each e (opens_of t.mailbox) t.answers;
    }

    -- `sessions.terminate_all(&address, error)`.
    unfoldable pub terminated : SendError → ActorTask → ActorTask
    terminated e t =
        let (sessions, sends) = terminate_all t.server.sessions address e in
        record t { server = record t.server { sessions = sessions }; sends = sends ++ t.sends }

    unfoldable pub removed : ActorTask → ActorTask
    removed t = record t { server = remove_route sem mpsc address generation t.server }

    on_activation : Ending × Actor × Running → ActorTask → ActorTask
    on_activation (completed, actor, server) t = record t {
      phase = looping;
      actor = actor;
      server = server;
    }
    on_activation (failed, actor, server) t =
        let t' : ActorTask = record t { actor = actor; server = server } in
        finish (
          terminated SendError.activation_failed
            (fail_pending SendError.activation_failed (removed t')))
    on_activation (panicked, actor, server) t =
        let t' : ActorTask = record t { actor = actor; server = server } in
        finish
          (terminated SendError.actor_stopped (fail_pending SendError.actor_stopped (removed t')))

    -- After a message: on with the loop, or the end.
    carry_on : Bool × ActorTask → ActorTask
    carry_on (true, t) = t
    carry_on (false, t) = finish (terminated SendError.actor_stopped t)

    receive : List MailboxMessage → ActorTask → ActorTask
    unfolding carry_on
    receive [] t = t
    receive (m ∷ ms) t = carry_on (execute_message m (record t { mailbox = ms }))

    after_deactivate : DeactivationReason → Actor × Running → ActorTask → ActorTask
    after_deactivate reason (actor, server) t = record t {
      actor = actor;
      server = server;
      deactivations = reason ∷ t.deactivations;
    }

    -- The end of the drain.
    stop : ActorTask → ActorTask
    unfolding after_deactivate
    stop t =
        let t' = terminated SendError.runtime_shutting_down t in
        finish (removed (after_deactivate shutdown (deactivate shutdown t'.actor t'.server) t'))

    drain_next : (ActorTask → ActorTask) → Bool × ActorTask → ActorTask
    drain_next rest (true, t) = rest t
    drain_next rest (false, t) = finish (terminated SendError.actor_stopped t)

    -- The messages that wait when the receiver is closed, one by one.
    unfoldable pub drain : List MailboxMessage → ActorTask → ActorTask
    unfolding drain_next stop
    drain [] t = stop (record t { mailbox = [] })
    drain (m ∷ ms) t = drain_next (drain ms) (execute_message m (record t { mailbox = ms }))

    unfoldable pub has_live_sessions : ActorTask → Bool
    has_live_sessions t = ltb 0 (session_count t.server.sessions address)

    -- The idle end, once the route is marked: deactivate, release the ownership, remove the route.
    deactivated : Bool × Running → ActorTask → ActorTask
    unfolding after_deactivate
    deactivated (false, server) t = record t { server = server }
    deactivated (true, server) t =
        let t' = after_deactivate idle (deactivate idle t.actor server) t in
        finish (removed (record t' { released = if is_clustered then true else t'.released }))

    on_idle : Chan → Bool → ActorTask → ActorTask
    unfolding deactivated
    on_idle sender true t = t
    on_idle sender false t =
        deactivated (begin_deactivation sem mpsc address generation sender t.server) t

    -- One event. While the Actor is activated, only arrivals and an abort make a difference.
    in_loop : Event → ActorTask → ActorTask
    unfolding receive on_idle has_live_sessions
    in_loop (arrive m) t = record t { mailbox = t.mailbox ++ m ∷ [] }
    in_loop activated t = t
    in_loop received t = receive t.mailbox t
    in_loop senders_gone t = finish (removed t)
    in_loop shutdown_signal t = drain t.mailbox t
    in_loop aborted t = finish t
    in_loop (idle_timeout sender) t = on_idle sender (has_live_sessions t) t

    in_activation : Event → ActorTask → ActorTask
    unfolding on_activation
    in_activation (arrive m) t = record t { mailbox = t.mailbox ++ m ∷ [] }
    in_activation activated t = on_activation (activate t.actor t.server) t
    in_activation aborted t = finish t
    in_activation _ t = t

    in_phase : Phase → Event → ActorTask → ActorTask
    unfolding in_loop in_activation
    in_phase activating e t = in_activation e t
    in_phase looping e t = in_loop e t
    in_phase over e t = t

    unfoldable pub step : Event → ActorTask → ActorTask
    unfolding in_phase
    step e t = in_phase t.phase e t

    unfoldable pub run : List Event → ActorTask → ActorTask
    unfolding step
    run [] t = t
    run (e ∷ es) t = run es (step e t)
