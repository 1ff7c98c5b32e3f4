-- ===== src/Sessions.antt =====
-- `SessionId` and `SessionRegistry` (coactor/src/runtime/session.rs): which sessions of an Actor are
-- live on this server, and the sender that leads back to each caller.
pub mod View
pub mod Validity
pub mod Termination
use coactor.Base.{
  ℕ, ◌==◌, Bool, true, false, Option, none, some, List, [], ◌∷◌, ◌++◌, Bytes, Map, get, insert,
  remove, Result, ok, err, length, if◌then◌else◌, map, bytes_eq,
}
use coactor.Failure.{SendError, to_wire}
use coactor.Address.{ActorAddress, address_eq}
use coactor.Transport.{SenderId, Sends, Accepts, Kind, reply}

abbrev pub SessionId : Type 0
SessionId = Bytes

-- `SessionId::from_bytes`: the 16 bytes of a UUID.
unfoldable pub session_id_of : Bytes → Option SessionId
session_id_of b = if length b == 16 then some b else none

-- `EventSink::Remote` holds the sender.
abbrev pub Sinks : Type 0
Sinks = Map SessionId SenderId

abbrev pub SessionRegistry : Type 0
SessionRegistry = Map ActorAddress Sinks

-- The sessions of an address, none if it has no entry.
abbrev pub sinks_or_none : Option Sinks → Sinks
sinks_or_none none = []
sinks_or_none (some m) = m

abbrev pub is_some {ℓ} : {A : Type ℓ} → Option A → Bool
is_some none = false
is_some (some _) = true

module _ (r : SessionRegistry) (address : ActorAddress) where
  abbrev pub sinks : Sinks
  sinks = sinks_or_none (get address r)

  unfoldable pub register_actor : SessionId → SenderId → Bool × SessionRegistry
  register_actor session_id sink =
      if is_some (get session_id sinks)
      then (false, r)
      else (true, insert address (insert session_id sink sinks) r)

  -- The map of an address is dropped with its last session.
  unfoldable pub put_back : Sinks → SessionRegistry
  put_back [] = remove address r
  put_back (e ∷ m) = insert address (e ∷ m) r

  unfoldable pub unregister_actor : SessionId → Bool × SessionRegistry
  unfolding put_back
  unregister_actor session_id =
      if is_some (get session_id sinks)
      then (true, put_back (remove session_id sinks))
      else (false, r)

  unfoldable pub session_count : ℕ
  session_count = length sinks

  unfoldable pub by_actor_snapshot : List SessionId
  by_actor_snapshot = map (λ e. e.0) sinks

  unfoldable pub sink : SessionId → Option SenderId
  sink session_id = get session_id sinks

  abbrev is_sender : SenderId → Option SenderId → Bool
  is_sender sender none = false
  is_sender sender (some bound) = bound == sender

  unfoldable pub is_bound_to : SessionId → SenderId → Bool
  unfolding sink
  is_bound_to session_id sender = is_sender sender (sink session_id)

-- The inner loop of `by_sender_snapshot`.
sessions_to : SenderId → ActorAddress → Sinks → List (ActorAddress × SessionId)
sessions_to sender address [] = []
sessions_to sender address ((session_id, k) ∷ m) =
    let rest = sessions_to sender address m in
    if k == sender then (address, session_id) ∷ rest else rest

unfoldable pub by_sender_snapshot : SessionRegistry → SenderId → List (ActorAddress × SessionId)
unfolding sessions_to
by_sender_snapshot [] sender = []
by_sender_snapshot ((address, m) ∷ r) sender =
    sessions_to sender address m ++ by_sender_snapshot r sender

unfoldable pub by_actor_addresses : SessionRegistry → List ActorAddress
by_actor_addresses r = map (λ e. e.0) r

-- `.map_err(|_| SendError::RemoteUnavailable)`.
abbrev pub or_unavailable : {E : Type 0} → Result E (Unit {0}) → Result SendError (Unit {0})
or_unavailable (ok u) = ok u
or_unavailable (err _) = err SendError.remote_unavailable

module _ (r : SessionRegistry) (address : ActorAddress) (session_id : SessionId) where
  unfoldable pub deliver_event : Accepts → Bytes → Result SendError (Unit {0}) × Sends
  unfolding sink
  deliver_event accepts payload =
      let e = reply session_id (Kind.event payload) in
      elim (sink r address session_id) [
        | some sender ↦ (or_unavailable (accepts sender e), (sender, e) ∷ [])
        | none ↦ (err SendError.actor_stopped, [])
      ]

  notify : Option SenderId → SendError → Sends
  notify none e = []
  notify (some sender) e = (sender, reply session_id (Kind.session_error (to_wire e))) ∷ []

  -- The answer of the sender is ignored.
  unfoldable pub terminate : SendError → SessionRegistry × Sends
  unfolding sink notify
  terminate e = ((unregister_actor r address session_id).1, notify (sink r address session_id) e)

-- `broadcast_event` (coactor/src/runtime/core.rs), on the sessions of a snapshot.
broadcast_to : Accepts → SessionRegistry → ActorAddress → Bytes → List SessionId → Sends
broadcast_to accepts r address payload [] = []
broadcast_to accepts r address payload (s ∷ ids) =
    (deliver_event r address s accepts payload).1 ++ broadcast_to accepts r address payload ids

unfoldable pub broadcast_event : Accepts → SessionRegistry → ActorAddress → Bytes → Sends
unfolding broadcast_to
broadcast_event accepts r address payload =
    broadcast_to accepts r address payload (by_actor_snapshot r address)

terminate_each :
    SessionRegistry → ActorAddress → SendError → List SessionId → SessionRegistry × Sends
terminate_each r address e [] = (r, [])
terminate_each r address e (s ∷ ids) =
    let (r', calls) = terminate r address s e in
    let (r'', more) = terminate_each r' address e ids in (r'', calls ++ more)

unfoldable pub terminate_all : SessionRegistry → ActorAddress → SendError → SessionRegistry × Sends
unfolding terminate_each
terminate_all r address e = terminate_each r address e (by_actor_snapshot r address)
