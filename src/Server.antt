-- ===== src/Server.antt =====
-- `ServerInner` (coactor/src/runtime/core.rs), its routes (route.rs) and mailbox messages
-- (message.rs). A function returns the new server; `none` is a panic.
pub mod Dispatch
pub mod Sessions
pub mod Shutdown
pub mod Task
pub mod Builder
use coactor.Base.{ℕ, Bool, Option, none, some, List, Bytes, Map, Result, ok, err}
use coactor.Failure.{SendError}
use coactor.Address.{ActorAddress, address_eq}
use coactor.Tokio.{Semaphore, Mpsc, TrySendError}
use coactor.Sessions.{SessionId, SessionRegistry}
use coactor.Cluster.Lease.{NodeAuthority}

-- A `oneshot::Sender` is named by a number.
pub data MailboxMessage : Type 0 where
  action : SessionId → Bytes → MailboxMessage
  session_opened : SessionId → ℕ → MailboxMessage
  session_closed : SessionId → MailboxMessage

-- The policy of an Actor Type; its hooks are the application's.
pub record Registration : Type 0 where
  pub name : Bytes
  pub mailbox_capacity : Option ℕ
  pub idle_timeout : Option ℕ

pub data Status : Type 0 where
  running shutting_down stopped fenced : Status

pub data RouteState : Type 0 where
  active deactivating : RouteState

-- The refusal of a server that does not run.
unfoldable pub refusal : Status → Option SendError
refusal running = none
refusal shutting_down = some SendError.runtime_shutting_down
refusal fenced = some SendError.node_fenced
refusal stopped = some SendError.runtime_stopped

-- `map_err` of `try_send` (coactor/src/runtime/route.rs).
unfoldable pub send_result : Result TrySendError (Unit {0}) → Result SendError (Unit {0})
send_result (ok u) = ok u
send_result (err TrySendError.full) = err SendError.mailbox_full
send_result (err TrySendError.closed) = err SendError.actor_stopped

module _ (sem : Semaphore) (mpsc : Mpsc MailboxMessage) where
  open sem use {Sem}
  open mpsc use {Chan}

  -- The handles of an actor task.
  pub record Spawned : Type 0 where
    pub sender : Chan
    pub shutdown : Bool
    pub aborted : Bool
    pub completed : Bool

  -- A route holds a permit, which is given back when the route is dropped.
  pub record Route : Type 0 where
    pub generation : ℕ
    pub state : RouteState
    pub task : Spawned

  -- `completions` are the results that were sent to the `oneshot` senders, latest first.
  pub record ServerInner : Type 0 where
    pub registrations : Map Bytes Registration
    pub actors : Map ActorAddress Route
    pub sessions : SessionRegistry
    pub capacity : Sem
    pub max_active_actors : ℕ
    pub next_generation : ℕ
    pub status : Status
    pub transport_protocol_version : ℕ
    pub authority : Option NodeAuthority
    pub completions : List (ℕ × Result SendError (Unit {0}))
