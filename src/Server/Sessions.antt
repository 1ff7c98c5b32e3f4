-- ===== src/Server/Sessions.antt =====
-- Opening and closing a session on this server, and the envelopes of its clients
-- (coactor/src/runtime/core.rs).
pub mod Opened
pub mod Isolation
use coactor.Base.{
  ℕ, ◌==◌, Bool, true, false, Option, none, some, List, [], ◌∷◌, Bytes, get, Result, ok, err,
  if◌then◌else◌, bytes_eq,
}
use coactor.Failure.{SendError, version_mismatch, to_wire}
use coactor.Address.{ActorAddress, from_envelope}
use coactor.Tokio.{Semaphore, Mpsc}
use coactor.Transport.{SenderId, Sends, Envelope, Kind, AckOutcome, opened, failure, reply}
use coactor.Sessions.{
  SessionId, session_id_of, is_some, register_actor, unregister_actor, sink, is_bound_to,
  by_sender_snapshot,
}
use coactor.Server.{MailboxMessage, session_opened, session_closed, action}
use coactor.Server.Dispatch.{Server, drop_reservation, dispatch_message, dispatch_message_if_active}
use coactor.Cluster.Router.{ResolvedOwner, local, remote}

-- `open_local_session` up to its `await`: the result, or that the mailbox has the message.
pub data Opening : Type 0 where
  finished : Result SendError (Result SendError (Unit {0})) → Opening
  waiting : Opening

-- `complete` names the `oneshot` of an opening session; it is closed if the Actor drops it.
pub data Completion : Type 0 where
  completed : Result SendError (Unit {0}) → Completion
  dropped : Completion

module _ (sem : Semaphore) (mpsc : Mpsc MailboxMessage) where
  abbrev Inner : Type 0
  Inner = Server sem mpsc

  unfoldable pub unregister : ActorAddress → SessionId → Inner → Inner
  unregister a i s = record s { sessions = (unregister_actor s.sessions a i).1 }

  after_dispatch :
      ActorAddress
      → SessionId
      → Option (Result SendError (Unit {0}) × Inner)
      → Option (Opening × Inner)
  unfolding unregister
  after_dispatch a i none = none
  after_dispatch a i (some (ok _, s)) = some (waiting, s)
  after_dispatch a i (some (err e, s)) = some (finished (err e), unregister a i s)

  after_register : ℕ → ActorAddress → SessionId → ℕ → Bool → Inner → Bool → Option (Opening × Inner)
  unfolding after_dispatch
  after_register now a i complete reserved s true =
      after_dispatch a i (dispatch_message sem mpsc now a (session_opened i complete) reserved s)
  after_register now a i complete reserved s false =
      some (finished (ok (err SendError.actor_stopped)), drop_reservation sem mpsc reserved s)

  unfoldable pub open_local_session :
      ℕ → ActorAddress → SessionId → SenderId → ℕ → Bool → Inner → Option (Opening × Inner)
  unfolding after_register
  open_local_session now a i sender complete reserved s =
      let (added, sessions) = register_actor s.sessions a i sender in
      if is_some (get a.actor_type s.registrations)
      then after_register now a i complete reserved (record s { sessions = sessions }) added
      else some (
        finished (ok (err (SendError.actor_type_not_registered a.actor_type))),
        drop_reservation sem mpsc reserved s,
      )

  -- The rest of `open_local_session`, when the `oneshot` has answered.
  unfoldable pub finish_open :
      ActorAddress
      → SessionId
      → Completion
      → Inner
      → Result SendError (Result SendError (Unit {0})) × Inner
  unfolding unregister
  finish_open a i (completed (ok u)) s = (ok (ok u), s)
  finish_open a i (completed (err e)) s = (ok (err e), unregister a i s)
  finish_open a i dropped s = (err SendError.actor_stopped, unregister a i s)

  unfoldable pub close_local_session : ActorAddress → SessionId → Inner → Inner
  unfolding unregister
  close_local_session a i s =
      let s' = unregister a i s in
      if (unregister_actor s.sessions a i).0
      then (dispatch_message_if_active sem mpsc a (session_closed i) s').1
      else s'

  -- `close_sessions_for_sender`, on the sessions of its snapshot.
  close_each : List (ActorAddress × SessionId) → Inner → Inner
  close_each [] s = s
  close_each ((a, i) ∷ rest) s = close_each rest (close_local_session a i s)

  unfoldable pub close_sessions_for_sender : SenderId → Inner → Inner
  unfolding close_each
  close_sessions_for_sender sender s = close_each (by_sender_snapshot s.sessions sender) s

  -- `dispatch_remote_message`; without a payload it closes the session.
  unfoldable pub dispatch_remote_message :
      ℕ
      → ActorAddress
      → SessionId
      → Option Bytes
      → Inner
      → Option (Result SendError (Unit {0}) × Inner)
  dispatch_remote_message now a i (some payload) s =
      if is_some (sink s.sessions a i)
      then dispatch_message sem mpsc now a (action i payload) false s
      else some (err SendError.actor_stopped, s)
  dispatch_remote_message now a i none s = some (ok tt, close_local_session a i s)

-- The `SessionOpenedAck` of a result.
ack_outcome : Result SendError (Result SendError (Unit {0})) → AckOutcome
ack_outcome (ok (ok _)) = opened []
ack_outcome (ok (err e)) = failure (to_wire e)
ack_outcome (err e) = failure (to_wire e)

unfoldable pub send_ack :
    SenderId → SessionId → Result SendError (Result SendError (Unit {0})) → Sends
unfolding ack_outcome
send_ack sender i result =
    (sender, reply i (Kind.session_opened_ack (some (ack_outcome result)))) ∷ []

send_session_error : SenderId → SessionId → SendError → Sends
send_session_error sender i e = (sender, reply i (Kind.session_error (to_wire e))) ∷ []

module _ (sem : Semaphore) (mpsc : Mpsc MailboxMessage) where
  -- The envelopes to send and the new server; `pending` says that an ack follows when the `oneshot`
  -- of the opening session answers.
  pub record Inbound : Type 0 where
    pub server : Server sem mpsc
    pub sends : Sends
    pub pending : Bool

  quiet : Server sem mpsc → Inbound
  quiet s = record { server = s; sends = []; pending = false }

  -- The arm of an Action that is bound to the sender.
  answer_action :
      SenderId → SessionId → Option (Result SendError (Unit {0}) × Server sem mpsc) → Option Inbound
  unfolding quiet send_session_error
  answer_action sender i none = none
  answer_action sender i (some (ok _, s)) = some (quiet s)
  answer_action sender i (some (err e, s)) =
      some (record { server = s; sends = send_session_error sender i e; pending = false })

  answer_open : SenderId → SessionId → Option (Opening × Server sem mpsc) → Option Inbound
  unfolding send_ack
  answer_open sender i none = none
  answer_open sender i (some (waiting, s)) =
      some (record { server = s; sends = []; pending = true })
  answer_open sender i (some (finished result, s)) =
      some (record { server = s; sends = send_ack sender i result; pending = false })

  -- The owner that the cluster resolves, if the server is in a cluster. The server is the one that
  -- the resolution left.
  open_resolved :
      ℕ
      → ActorAddress
      → SessionId
      → SenderId
      → ℕ
      → Option (Result SendError ResolvedOwner)
      → Server sem mpsc
      → Option (Opening × Server sem mpsc)
  open_resolved now a i sender complete none s =
      open_local_session sem mpsc now a i sender complete false s
  open_resolved now a i sender complete (some (ok (local reserved))) s =
      open_local_session sem mpsc now a i sender complete reserved s
  open_resolved now a i sender complete (some (ok remote)) s =
      some (finished (ok (err SendError.not_owner)), s)
  open_resolved now a i sender complete (some (err e)) s = some (finished (ok (err e)), s)

  open_versioned :
      Bool
      → ℕ
      → ActorAddress
      → SessionId
      → SenderId
      → ℕ
      → Option (Result SendError ResolvedOwner)
      → Server sem mpsc
      → Option (Opening × Server sem mpsc)
  unfolding open_resolved
  open_versioned true now a i sender complete owner s =
      open_resolved now a i sender complete owner s
  open_versioned false now a i sender complete owner s =
      some (finished (ok (err (SendError.remote_protocol version_mismatch))), s)

  abbrev bound : Server sem mpsc → ActorAddress → SessionId → Option SenderId → Bool
  bound s a i none = false
  bound s a i (some sender) = is_bound_to s.sessions a i sender

  error_to : Option SenderId → SessionId → Sends
  unfolding send_session_error
  error_to none i = []
  error_to (some sender) i = send_session_error sender i SendError.actor_stopped

  on_action :
      Bool
      → ℕ
      → ActorAddress
      → SessionId
      → Bytes
      → Option SenderId
      → Server sem mpsc
      → Option Inbound
  unfolding quiet error_to answer_action
  on_action version_ok now a i payload none s =
      if version_ok
      then some (record { server = s; sends = error_to none i; pending = false })
      else some (quiet s)
  on_action version_ok now a i payload (some sender) s =
      if version_ok
      then (if is_bound_to s.sessions a i sender
          then answer_action sender i (dispatch_remote_message sem mpsc now a i (some payload) s)
          else some (record { server = s; sends = error_to (some sender) i; pending = false }))
      else some (quiet s)

  on_kind :
      Bool
      → ℕ
      → ActorAddress
      → SessionId
      → Option SenderId
      → ℕ
      → Option (Result SendError ResolvedOwner)
      → Server sem mpsc
      → Kind
      → Option Inbound
  unfolding on_action answer_open open_versioned quiet
  on_kind version_ok now a i sender complete owner s (Kind.action payload) =
      on_action version_ok now a i payload sender s
  on_kind version_ok now a i (some sender) complete owner s Kind.session_open =
      answer_open sender i (open_versioned version_ok now a i sender complete owner s)
  on_kind version_ok now a i none complete owner s Kind.session_open = some (quiet s)
  on_kind version_ok now a i sender complete owner s (Kind.session_close _) =
      some (quiet (if bound s a i sender then close_local_session sem mpsc a i s else s))
  on_kind version_ok now a i sender complete owner s _ = some (quiet s)

  on_address :
      Bool
      → ℕ
      → SessionId
      → Option SenderId
      → ℕ
      → Option (Result SendError ResolvedOwner)
      → Server sem mpsc
      → Option ActorAddress
      → Kind
      → Option Inbound
  unfolding on_kind quiet
  on_address version_ok now i sender complete owner s none kind = some (quiet s)
  on_address version_ok now i sender complete owner s (some a) kind =
      on_kind version_ok now a i sender complete owner s kind

  on_session :
      (Bytes → Bool)
      → ℕ
      → Envelope
      → Option SenderId
      → ℕ
      → Option (Result SendError ResolvedOwner)
      → Server sem mpsc
      → Option Kind
      → Option SessionId
      → Option Inbound
  unfolding on_address quiet
  on_session is_utf8 now e sender complete owner s (some kind) (some i) =
      on_address (e.protocol_version == s.transport_protocol_version) now i sender complete owner s
        (from_envelope is_utf8 e.actor_type e.actor_id) kind
  on_session is_utf8 now e sender complete owner s _ _ = some (quiet s)

  -- `dispatch_inbound`: one envelope of a client, up to the `await` on an opening session.
  unfoldable pub dispatch_inbound :
      (Bytes → Bool)
      → ℕ
      → Envelope
      → Option SenderId
      → ℕ
      → Option (Result SendError ResolvedOwner)
      → Server sem mpsc
      → Option Inbound
  unfolding on_session
  dispatch_inbound is_utf8 now e sender complete owner s =
      on_session is_utf8 now e sender complete owner s e.kind (session_id_of e.session_id)
