-- ===== src/Tests/Texts.antt =====
-- Errors on the wire, addresses and keys, at concrete values.
use coactor.Base.{
  ◌≡◌, refl, ◌↔◌, ◌≤◌, true, false, some, none, bytes, Bytes-discrete, ℕ_discrete, length,
}
use coactor.Failure.{
  SendError, OpenError, version_mismatch, malformed_message, open_error, to_wire, from_wire,
}
use coactor.Failure.Wire.{received, from_wire-to_wire, open_error-from_wire}
use coactor.Address.{ActorAddress, is_dns_label}
use coactor.Address.Label.{IsLabel, is_dns_label_iff}
use coactor.Address.Keys.{actor_key, node_key, listed_node_id, is_empty, contains}
use coactor.Address.Keys.Laws.{actor_key_injective, listed_node_id_iff}

from_wire-to_wire_example :
    from_wire (to_wire (SendError.remote_protocol malformed_message))
    ≡ SendError.remote_protocol version_mismatch
unfolding received
from_wire-to_wire_example = from_wire-to_wire (SendError.remote_protocol malformed_message)

open_error-from_wire_example :
    open_error (from_wire (to_wire SendError.mailbox_full)) ≡ OpenError.remote_unavailable
unfolding open_error
open_error-from_wire_example = open_error-from_wire SendError.mailbox_full (λ h. cc)

is_dns_label_iff_example :
    (is_dns_label (bytes "room-7") ≡ true)
    ↔ ((length (bytes "room-7") ≤ 63) × IsLabel (bytes "room-7"))
is_dns_label_iff_example = is_dns_label_iff (bytes "room-7")

label_test : is_dns_label (bytes "room-7") ≡ true
unfolding is_dns_label
label_test = refl

upper_test : is_dns_label (bytes "Room") ≡ false
unfolding is_dns_label
upper_test = refl

dash_test : is_dns_label (bytes "room-") ≡ false
unfolding is_dns_label
dash_test = refl

abbrev room : ActorAddress
room = record { actor_type = bytes "chat"; actor_id = bytes "room-7" }

actor_key_test : actor_key (bytes "prod") room ≡ bytes "prod/actors/chat/room-7/ownership.json"
unfolding actor_key
actor_key_test = refl

actor_key_injective_example : room ≡ room
unfolding is_dns_label
actor_key_injective_example = actor_key_injective (bytes "prod") room room refl refl refl refl refl

listed_node_id_iff_example :
    (listed_node_id (bytes "prod") (bytes "prod/nodes/n1/lease.json") ≡ some (bytes "n1")) ↔ (
      (bytes "prod/nodes/n1/lease.json" ≡ node_key (bytes "prod") (bytes "n1"))
      × (is_empty (bytes "n1") ≡ false)
      × (contains b'/' (bytes "n1") ≡ false))
listed_node_id_iff_example =
    listed_node_id_iff (bytes "prod") (bytes "prod/nodes/n1/lease.json") (bytes "n1")

listed_test : listed_node_id (bytes "prod") (bytes "prod/nodes/n1/lease.json") ≡ some (bytes "n1")
unfolding listed_node_id Bytes-discrete ℕ_discrete
listed_test = refl

nested_test : listed_node_id (bytes "prod") (bytes "prod/nodes/a/b/lease.json") ≡ none
unfolding listed_node_id Bytes-discrete ℕ_discrete
nested_test = refl
