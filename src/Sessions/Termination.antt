-- ===== src/Sessions/Termination.antt =====
-- Ending all sessions of an Actor, and sending an Event to all of them.
use coactor.Base.{
  ◌≡◌, refl, ap, ◌∙◌, none, some, [], ◌∷◌, Bytes, map, get, remove, arith, get-insert, get-remove,
  Distinct, remove_absent, remove-remove, remove-insert, bytes_eq, if_pos,
}
use coactor.Failure.{SendError, to_wire}
use coactor.Address.{ActorAddress, address_eq}
use coactor.Transport.{SenderId, Sends, Accepts, Kind, reply}
use coactor.Sessions.{
  SessionId, SessionRegistry, Sinks, sinks, put_back, unregister_actor, sink, deliver_event,
  terminate, broadcast_to, broadcast_event, terminate_each, terminate_all, by_actor_snapshot,
}
use coactor.Sessions.View.{IsValid}
use coactor.Sessions.Validity.{sinks-Distinct, put_back-IsValid}

-- One envelope for each session, to its own sender.
unfoldable pub to_each : (Kind) → Sinks → Sends
to_each kind [] = []
to_each kind ((s, k) ∷ m) = (k, reply s kind) ∷ to_each kind m

sinks-put_back : (r : SessionRegistry) (a : ActorAddress) (m : Sinks) → sinks (put_back r a m) a ≡ m
unfolding put_back
sinks-put_back r a [] = ground (arith, get-remove a a r)
sinks-put_back r a (e ∷ m) = ground (arith, get-insert a a (e ∷ m) r)

remove_head :
    (s : SessionId) (k : SenderId) (m : Sinks) → get s m ≡ none → remove s ((s, k) ∷ m) ≡ m
unfolding remove
remove_head s k m h = if_pos (bytes_eq.dec s s) refl _ _ ∙ remove_absent s m h

get_head : (s : SessionId) (k : SenderId) (m : Sinks) → get s ((s, k) ∷ m) ≡ some k
unfolding get
get_head s k m = if_pos (bytes_eq.dec s s) refl _ _

get_later :
    (s : SessionId) (k : SenderId) (t : SessionId) (j : SenderId) (m : Sinks)
    → get s m ≡ none
    → get t m ≡ some j
    → get t ((s, k) ∷ m) ≡ some j
unfolding get
get_later s k t j m h q = ground arith

-- What ending one session does, where it is the first one listed.
terminate_head :
    (r : SessionRegistry) (a : ActorAddress) (e : SendError) (s : SessionId) (k : SenderId)
    (m : Sinks)
    → sinks r a ≡ (s, k) ∷ m
    → get s m ≡ none
    → terminate r a s e ≡ (put_back r a m, (k, reply s (Kind.session_error (to_wire e))) ∷ [])
unfolding terminate unregister_actor
terminate_head r a e s k m h d = rw h (rw (get_head s k m) (rw (remove_head s k m d) refl))

remove-put_back :
    (r : SessionRegistry) (a : ActorAddress) (m : Sinks) → remove a (put_back r a m) ≡ remove a r
unfolding put_back
remove-put_back r a [] = remove-remove a r
remove-put_back r a (e ∷ m) = remove-insert a (e ∷ m) r

get_of_no_sinks :
    (r : SessionRegistry) (a : ActorAddress) → IsValid r → sinks r a ≡ [] → get a r ≡ none
unfolding get
get_of_no_sinks [] a v h = refl
get_of_no_sinks ((b, m) ∷ r) a v h = ground (arith, get_of_no_sinks r a)

terminate_each_lem :
    (e : SendError) (r : SessionRegistry) (a : ActorAddress) (m : Sinks)
    → IsValid r
    → sinks r a ≡ m
    → Distinct m
    → terminate_each r a e (map (λ x. x.0) m)
      ≡ (remove a r, to_each (Kind.session_error (to_wire e)) m)
unfolding terminate_each to_each
terminate_each_lem e r a [] v h d = ground (arith, remove_absent a r (get_of_no_sinks r a v h))
terminate_each_lem e r a ((s, k) ∷ m) v h d = rw (terminate_head r a e s k m h d.0) (
    ground (
      arith,
      terminate_each_lem e (put_back r a m) a m (put_back-IsValid r a m d.1 v)
          (sinks-put_back r a m) d.1,
      remove-put_back r a m,
    ))

-- On a valid registry, ending all sessions of an address removes its entry and nothing else, and
-- sends the error exactly once to each session that was live, to the sender of that session.
pub terminate_all_lem :
    (r : SessionRegistry) (a : ActorAddress) (e : SendError)
    → IsValid r
    → terminate_all r a e ≡ (remove a r, to_each (Kind.session_error (to_wire e)) (sinks r a))
unfolding terminate_all by_actor_snapshot
terminate_all_lem r a e v = terminate_each_lem e r a (sinks r a) v refl (sinks-Distinct r a v)

broadcast_to_lem :
    (accepts : Accepts) (r : SessionRegistry) (a : ActorAddress) (payload : Bytes) (m : Sinks)
    → ((s : SessionId) (k : SenderId) → get s m ≡ some k → sink r a s ≡ some k)
    → Distinct m
    → broadcast_to accepts r a payload (map (λ x. x.0) m) ≡ to_each (Kind.event payload) m
unfolding broadcast_to deliver_event to_each
broadcast_to_lem accepts r a payload [] h d = refl
broadcast_to_lem accepts r a payload ((s, k) ∷ m) h d =
    rw (h s k (get_head s k m), deliver_event)
      (ap (◌∷◌ (k, reply s (Kind.event payload)))
        (broadcast_to_lem accepts r a payload m (λ t j q. h t j (get_later s k t j m d.0 q)) d.1))

-- On a valid registry, a broadcast makes one delivery attempt for each live session of the
-- address, to its own sender and in no other place, whatever the senders answer.
pub broadcast_event_lem :
    (accepts : Accepts) (r : SessionRegistry) (a : ActorAddress) (payload : Bytes)
    → IsValid r
    → broadcast_event accepts r a payload ≡ to_each (Kind.event payload) (sinks r a)
unfolding broadcast_event by_actor_snapshot sink
broadcast_event_lem accepts r a payload v =
    broadcast_to_lem accepts r a payload (sinks r a) (λ s k h. h) (sinks-Distinct r a v)
