-- ===== src/Failure/Wire.antt =====
-- What survives of an error that crosses the wire.
use coactor.Base.{◌≡◌, refl, ◌≢◌, []}
use coactor.Failure.{
  SendError, version_mismatch, RuntimeFailure, open_error, to_wire, from_wire, ℤ, send_error,
  failure_of,
}

-- The image of an error: three kinds of detail are lost, and every other error stays itself.
unfoldable pub received : SendError → SendError
received (SendError.actor_type_not_registered _) = SendError.actor_type_not_registered []
received SendError.directory_unavailable = SendError.remote_unavailable
received (SendError.remote_protocol _) = SendError.remote_protocol version_mismatch
received e = e

-- An error that is sent and read back is the same error, but that the name of an unregistered
-- Actor Type is emptied, an unavailable directory reads as an unavailable remote, and every protocol
-- error reads as a version mismatch.
pub from_wire-to_wire : (e : SendError) → from_wire (to_wire e) ≡ received e
unfolding from_wire to_wire received
from_wire-to_wire (SendError.actor_type_not_registered _) = refl
from_wire-to_wire _ = refl

-- A caller maps an error that crossed the wire to the same `OpenError` as the error itself, unless
-- it is an unavailable directory.
pub open_error-from_wire :
    (e : SendError)
    → e ≢ SendError.directory_unavailable
    → open_error (from_wire (to_wire e)) ≡ open_error e
unfolding from_wire to_wire open_error
open_error-from_wire SendError.directory_unavailable h = absurd (h refl)
open_error-from_wire _ h = refl

send_error-wire : (f : RuntimeFailure) → from_wire (to_wire (send_error f)) ≡ send_error f
unfolding from_wire to_wire
send_error-wire RuntimeFailure.mailbox_full = refl
send_error-wire _ = refl

-- An error read from the wire can be sent on and read again unchanged, whatever number was read.
pub from_wire-to_wire-from_wire : (n : ℤ) → from_wire (to_wire (from_wire n)) ≡ from_wire n
from_wire-to_wire-from_wire n = unfold from_wire in send_error-wire (failure_of n)
