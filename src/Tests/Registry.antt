-- ===== src/Tests/Registry.antt =====
-- The session registry at concrete sessions.
use coactor.Base.{
  ◌≡◌, refl, ◌↔◌, ◌≢◌, true, some, none, [], ◌∷◌, bytes, ok, get, insert, remove, bytes_eq,
  Bytes-discrete, ℕ_discrete,
}
use coactor.Failure.{SendError, to_wire}
use coactor.Address.{ActorAddress, ActorAddress-discrete, address_eq}
use coactor.Transport.{Kind, Accepts}
use coactor.Sessions.{
  SessionRegistry, sinks, sink, register_actor, unregister_actor, broadcast_event, terminate_all,
}
use coactor.Sessions.View.{IsValid, sink-register_actor, sink-unregister_actor}
use coactor.Sessions.Validity.{unregister_actor-IsValid}
use coactor.Sessions.Termination.{to_each, terminate_all_lem, broadcast_event_lem}

abbrev room : ActorAddress
room = record { actor_type = bytes "chat"; actor_id = bytes "room-7" }

abbrev hall : ActorAddress
hall = record { actor_type = bytes "chat"; actor_id = bytes "hall" }

-- Two sessions of the room and one of the hall, over two senders.
abbrev registry : SessionRegistry
registry = (room, (bytes "s1", 1) ∷ (bytes "s2", 2) ∷ []) ∷ (hall, (bytes "s1", 2) ∷ []) ∷ []

registry-IsValid : IsValid registry
unfolding get ActorAddress-discrete Bytes-discrete ℕ_discrete
registry-IsValid = (refl, (λ h. cc), (refl, (refl, tt)), (refl, (λ h. cc), (refl, tt), tt))

sink-register_actor_example :
    (sink (register_actor registry room (bytes "s3") 2).1 room (bytes "s3") ≡ some 2)
    × (((register_actor registry room (bytes "s3") 2).0 ≡ true)
        ↔ (sink registry room (bytes "s3") ≡ none))
unfolding get insert remove sink register_actor unregister_actor ActorAddress-discrete
    Bytes-discrete ℕ_discrete
sink-register_actor_example = sink-register_actor registry room (bytes "s3") 2 room (bytes "s3")

sink-unregister_actor_example :
    (sink (unregister_actor registry room (bytes "s1")).1 hall (bytes "s1") ≡ some 2)
    × (((unregister_actor registry room (bytes "s1")).0 ≡ true)
        ↔ (sink registry room (bytes "s1") ≢ none))
unfolding get insert remove sink register_actor unregister_actor ActorAddress-discrete
    Bytes-discrete ℕ_discrete
sink-unregister_actor_example = sink-unregister_actor registry room (bytes "s1") hall (bytes "s1")

unregister_actor-IsValid_example : IsValid (unregister_actor registry hall (bytes "s1")).1
unregister_actor-IsValid_example =
    unregister_actor-IsValid registry hall (bytes "s1") registry-IsValid

terminate_all_lem_example : terminate_all registry room SendError.node_fenced ≡ (
  remove room registry,
  to_each (Kind.session_error (to_wire SendError.node_fenced)) (sinks registry room),
)
terminate_all_lem_example = terminate_all_lem registry room SendError.node_fenced registry-IsValid

abbrev accept : Accepts
accept sender envelope = ok tt

broadcast_event_lem_example :
    broadcast_event accept registry room (bytes "hi")
    ≡ to_each (Kind.event (bytes "hi")) (sinks registry room)
broadcast_event_lem_example = broadcast_event_lem accept registry room (bytes "hi") registry-IsValid
