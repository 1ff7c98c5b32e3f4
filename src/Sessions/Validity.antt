-- ===== src/Sessions/Validity.antt =====
-- The shape that every operation of the registry keeps.
use coactor.Base.{
  refl, ◌≢◌, [], ◌∷◌, get, insert, remove, arith, get-insert, get-remove, Distinct, insert-Distinct,
  remove-Distinct, bytes_eq,
}
use coactor.Address.{ActorAddress, address_eq}
use coactor.Transport.{SenderId}
use coactor.Sessions.{
  SessionId, SessionRegistry, Sinks, sinks, register_actor, unregister_actor, put_back,
}
use coactor.Sessions.View.{IsValid}

insert_ne_nil : (s : SessionId) (k : SenderId) (m : Sinks) → insert s k m ≢ []
unfolding insert
insert_ne_nil s k [] h = cc
insert_ne_nil s k ((t, j) ∷ m) h = ground arith

insert-IsValid :
    (a : ActorAddress) (m : Sinks) (r : SessionRegistry)
    → m ≢ []
    → Distinct m
    → IsValid r
    → IsValid (insert a m r)
unfolding insert get
insert-IsValid a m [] n d v = (refl, n, d, tt)
insert-IsValid a m ((b, m') ∷ r) n d v =
    ground (arith, insert-IsValid a m r n d, get-insert b a m r)

remove-IsValid : (a : ActorAddress) (r : SessionRegistry) → IsValid r → IsValid (remove a r)
unfolding remove
remove-IsValid a [] v = tt
remove-IsValid a ((b, m) ∷ r) v = ground (arith, remove-IsValid a r, get-remove b a r)

pub sinks-Distinct : (r : SessionRegistry) (a : ActorAddress) → IsValid r → Distinct (sinks r a)
unfolding get
sinks-Distinct [] a v = tt
sinks-Distinct ((b, m) ∷ r) a v = ground (arith, sinks-Distinct r a)

pub put_back-IsValid :
    (r : SessionRegistry) (a : ActorAddress) (m : Sinks)
    → Distinct m
    → IsValid r
    → IsValid (put_back r a m)
unfolding put_back
put_back-IsValid r a [] d v = remove-IsValid a r v
put_back-IsValid r a (e ∷ m) d v = insert-IsValid a (e ∷ m) r (λ h. cc) d v

-- Registering keeps the registry valid.
pub register_actor-IsValid :
    (r : SessionRegistry) (a : ActorAddress) (s : SessionId) (k : SenderId)
    → IsValid r
    → IsValid (register_actor r a s k).1
unfolding register_actor
register_actor-IsValid r a s k v = ground (
  arith,
  insert-IsValid a (insert s k (sinks r a)) r (insert_ne_nil s k (sinks r a)),
  insert-Distinct s k (sinks r a) (sinks-Distinct r a v),
)

-- So does unregistering, which never leaves an address behind without sessions.
pub unregister_actor-IsValid :
    (r : SessionRegistry) (a : ActorAddress) (s : SessionId)
    → IsValid r
    → IsValid (unregister_actor r a s).1
unfolding unregister_actor
unregister_actor-IsValid r a s v = ground (
  arith,
  put_back-IsValid r a (remove s (sinks r a)) (remove-Distinct s (sinks r a) (sinks-Distinct r a v))
      v,
)
