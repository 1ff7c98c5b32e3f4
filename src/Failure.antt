-- ===== src/Failure.antt =====
-- The errors of coactor/src/actor.rs and their numbers on the wire (coactor/proto/transport.proto).
pub mod Wire
use coactor.Base.{ℕ, Bytes, List, [], ◌∷◌, ◌==◌, if◌then◌else◌}

pub data RemoteProtocolError : Type 0 where
  version_mismatch actor_type_not_registered malformed_message : RemoteProtocolError

pub data SendError : Type 0 where
  actor_type_not_registered : Bytes → SendError
  not_owner mailbox_full activation_failed actor_deactivating runtime_at_capacity : SendError
  runtime_shutting_down actor_stopped runtime_stopped node_fenced remote_unavailable : SendError
  directory_unavailable ownership_unavailable : SendError
  remote_protocol : RemoteProtocolError → SendError

pub data OpenError : Type 0 where
  runtime_stopped directory_unavailable attempts_exhausted remote_unavailable : OpenError
  actor_type_not_registered runtime_at_capacity ownership_unavailable remote_protocol : OpenError

-- The errors of a server, without the sources that some carry.
pub data ServerError : Type 0 where
  invalid_listen_address missing_advertised_endpoint : ServerError
  invalid_actor_type duplicate_actor_type : Bytes → ServerError
  invalid_mailbox_capacity invalid_max_active_actors invalid_node_id : ServerError
  invalid_advertised_endpoint invalid_node_lease_ttl invalid_coordination_timeout : ServerError
  invalid_deactivation_timeout invalid_shutdown_timeout bind_failed : ServerError
  lease_conflict lease_unconfirmed coordination service_stopped fenced shutdown_timed_out :
      ServerError

-- `impl From<SendError> for OpenError`.
unfoldable pub open_error : SendError → OpenError
open_error SendError.runtime_stopped = OpenError.runtime_stopped
open_error SendError.runtime_shutting_down = OpenError.runtime_stopped
open_error SendError.directory_unavailable = OpenError.directory_unavailable
open_error (SendError.actor_type_not_registered _) = OpenError.actor_type_not_registered
open_error SendError.runtime_at_capacity = OpenError.runtime_at_capacity
open_error SendError.ownership_unavailable = OpenError.ownership_unavailable
open_error (SendError.remote_protocol _) = OpenError.remote_protocol
open_error _ = OpenError.remote_unavailable

-- The enum of the protocol file, in its order.
pub data RuntimeFailure : Type 0 where
  unspecified mailbox_full activation_failed actor_deactivating : RuntimeFailure
  runtime_at_capacity runtime_shutting_down actor_stopped runtime_stopped : RuntimeFailure
  protocol_mismatch actor_type_not_registered malformed_payload remote_unavailable : RuntimeFailure
  node_fenced ownership_unavailable not_owner : RuntimeFailure

-- An `i32`: `negsuc n` is -(n + 1).
pub data ℤ : Type 0 where
  pos : ℕ → ℤ
  negsuc : ℕ → ℤ

-- `failure as i32`.
pub number : RuntimeFailure → ℕ
number RuntimeFailure.unspecified = 0
number RuntimeFailure.mailbox_full = 1
number RuntimeFailure.activation_failed = 2
number RuntimeFailure.actor_deactivating = 3
number RuntimeFailure.runtime_at_capacity = 4
number RuntimeFailure.runtime_shutting_down = 5
number RuntimeFailure.actor_stopped = 6
number RuntimeFailure.runtime_stopped = 7
number RuntimeFailure.protocol_mismatch = 8
number RuntimeFailure.actor_type_not_registered = 9
number RuntimeFailure.malformed_payload = 10
number RuntimeFailure.remote_unavailable = 11
number RuntimeFailure.node_fenced = 12
number RuntimeFailure.ownership_unavailable = 13
number RuntimeFailure.not_owner = 14

-- The variants, by number.
abbrev variants : List RuntimeFailure
variants =
    RuntimeFailure.unspecified ∷ RuntimeFailure.mailbox_full ∷ RuntimeFailure.activation_failed
    ∷ RuntimeFailure.actor_deactivating ∷ RuntimeFailure.runtime_at_capacity
    ∷ RuntimeFailure.runtime_shutting_down ∷ RuntimeFailure.actor_stopped
    ∷ RuntimeFailure.runtime_stopped ∷ RuntimeFailure.protocol_mismatch
    ∷ RuntimeFailure.actor_type_not_registered ∷ RuntimeFailure.malformed_payload
    ∷ RuntimeFailure.remote_unavailable ∷ RuntimeFailure.node_fenced
    ∷ RuntimeFailure.ownership_unavailable ∷ RuntimeFailure.not_owner ∷ []

variant_at : ℕ → List RuntimeFailure → RuntimeFailure
unfolding number
variant_at n [] = RuntimeFailure.unspecified
variant_at n (f ∷ fs) = if number f == n then f else variant_at n fs

-- `RuntimeFailure::try_from(value).unwrap_or(RuntimeFailure::Unspecified)`.
pub failure_of : ℤ → RuntimeFailure
unfolding variant_at
failure_of (pos n) = variant_at n variants
failure_of (negsuc _) = RuntimeFailure.unspecified

-- The `match` of `SendError::to_wire`.
pub failure : SendError → RuntimeFailure
failure (SendError.actor_type_not_registered _) = RuntimeFailure.actor_type_not_registered
failure SendError.not_owner = RuntimeFailure.not_owner
failure SendError.mailbox_full = RuntimeFailure.mailbox_full
failure SendError.activation_failed = RuntimeFailure.activation_failed
failure SendError.actor_deactivating = RuntimeFailure.actor_deactivating
failure SendError.runtime_at_capacity = RuntimeFailure.runtime_at_capacity
failure SendError.runtime_shutting_down = RuntimeFailure.runtime_shutting_down
failure SendError.actor_stopped = RuntimeFailure.actor_stopped
failure SendError.runtime_stopped = RuntimeFailure.runtime_stopped
failure SendError.node_fenced = RuntimeFailure.node_fenced
failure SendError.remote_unavailable = RuntimeFailure.remote_unavailable
failure SendError.directory_unavailable = RuntimeFailure.remote_unavailable
failure SendError.ownership_unavailable = RuntimeFailure.ownership_unavailable
failure (SendError.remote_protocol _) = RuntimeFailure.protocol_mismatch

unfoldable pub to_wire : SendError → ℤ
unfolding failure number
to_wire e = pos (number (failure e))

-- The `match` of `SendError::from_wire`.
send_error : RuntimeFailure → SendError
send_error RuntimeFailure.actor_type_not_registered = SendError.actor_type_not_registered []
send_error RuntimeFailure.not_owner = SendError.not_owner
send_error RuntimeFailure.mailbox_full = SendError.mailbox_full
send_error RuntimeFailure.activation_failed = SendError.activation_failed
send_error RuntimeFailure.actor_deactivating = SendError.actor_deactivating
send_error RuntimeFailure.runtime_at_capacity = SendError.runtime_at_capacity
send_error RuntimeFailure.runtime_shutting_down = SendError.runtime_shutting_down
send_error RuntimeFailure.actor_stopped = SendError.actor_stopped
send_error RuntimeFailure.runtime_stopped = SendError.runtime_stopped
send_error RuntimeFailure.node_fenced = SendError.node_fenced
send_error RuntimeFailure.remote_unavailable = SendError.remote_unavailable
send_error RuntimeFailure.ownership_unavailable = SendError.ownership_unavailable
send_error _ = SendError.remote_protocol version_mismatch

unfoldable pub from_wire : ℤ → SendError
unfolding failure_of send_error
from_wire value = send_error (failure_of value)
