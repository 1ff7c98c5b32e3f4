-- ===== src/Transport.antt =====
-- The messages of coactor/proto/transport.proto, the sending half of a stream
-- (coactor/src/transport/mod.rs) and the messages that a caller sends (coactor/src/client/mod.rs).
use coactor.Base.{ℕ, List, [], Bytes, Option, some, Result}
use coactor.Failure.{ℤ}
use coactor.Address.{ActorAddress}

pub data CloseReason : Type 0 where
  unspecified caller_dropped runtime_shutdown actor_terminated : CloseReason

-- The outcome of a `SessionOpenedAck`.
pub data AckOutcome : Type 0 where
  opened : Bytes → AckOutcome
  failure : ℤ → AckOutcome

pub data Kind : Type 0 where
  action : Bytes → Kind
  session_open : Kind
  session_close : CloseReason → Kind
  event : Bytes → Kind
  session_error : ℤ → Kind
  session_opened_ack : Option AckOutcome → Kind

pub record Envelope : Type 0 where
  pub protocol_version : ℕ
  pub actor_type : Bytes
  pub actor_id : Bytes
  pub session_id : Bytes
  pub kind : Option Kind

pub data TransportError : Type 0 where
  connect_failed bind_failed : Bytes → TransportError
  closed full : TransportError

-- An `Arc<dyn TransportSender>` is named by a number, which `Arc::ptr_eq` compares.
abbrev pub SenderId : Type 0
SenderId = ℕ

-- The calls of `TransportSender::try_send` that an operation makes, in order.
abbrev pub Sends : Type 0
Sends = List (SenderId × Envelope)

-- What a sender answers to such a call.
abbrev pub Accepts : Type 0
Accepts = SenderId → Envelope → Result TransportError (Unit {0})

-- An envelope of the server: it names the session only.
unfoldable pub reply : Bytes → Kind → Envelope
reply session_id kind = record {
  protocol_version = 0;
  actor_type = [];
  actor_id = [];
  session_id = session_id;
  kind = some kind;
}

abbrev pub transport_protocol_version : ℕ
transport_protocol_version = 2

-- `envelope_session_open`, `envelope_action` and `envelope_session_close`, by their kinds.
unfoldable pub request : ActorAddress → Bytes → Kind → Envelope
request address session_id kind = record {
  protocol_version = transport_protocol_version;
  actor_type = address.actor_type;
  actor_id = address.actor_id;
  session_id = session_id;
  kind = some kind;
}
