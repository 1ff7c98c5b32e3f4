-- ===== src/Sessions/View.antt =====
-- The registry as a map from pairs of an address and a session to senders.
use coactor.Base.{
  ◌≡◌, ◌≢◌, ◌↔◌, true, Option, none, some, [], ◌∷◌, get, insert, remove, ite, arith, get-insert,
  get-remove, Distinct, bytes_eq,
}
use coactor.Address.{ActorAddress, address_eq}
use coactor.Transport.{SenderId}
use coactor.Sessions.{
  SessionId, SessionRegistry, Sinks, sinks, register_actor, unregister_actor, put_back, sink,
}

-- Each address has one entry, which holds at least one session, and each session once.
abbrev pub IsValid : SessionRegistry → Type 0
IsValid [] = Unit {0}
IsValid ((a, m) ∷ r) = (get a r ≡ none) × (m ≢ []) × Distinct m × IsValid r

-- The sender that is registered first stays.
abbrev pub first_of : Option SenderId → SenderId → Option SenderId
first_of none k = some k
first_of (some old) k = some old

module _ (r : SessionRegistry) (a : ActorAddress) (s : SessionId) where
  -- Registering adds the pair if it is not registered, answers whether it was added, and leaves the
  -- sender of a registered pair and every other pair alone.
  pub sink-register_actor :
      (k : SenderId) (b : ActorAddress) (t : SessionId)
      → (sink (register_actor r a s k).1 b t
          ≡ ite
              (address_eq.dec a b)
              (ite (bytes_eq.dec s t) (first_of (sink r a s) k) (sink r b t))
              (sink r b t))
        × (((register_actor r a s k).0 ≡ true) ↔ (sink r a s ≡ none))
  unfolding sink register_actor
  sink-register_actor k b t = (
    ground (arith, get-insert b a (insert s k (sinks r a)) r, get-insert t s k (sinks r a)),
    ground arith,
  )

  get-put_back :
      (m : Sinks) (b : ActorAddress) (t : SessionId)
      → sink (put_back r a m) b t ≡ ite (address_eq.dec a b) (get t m) (sink r b t)
  unfolding sink put_back get
  get-put_back [] b t = ground (arith, get-remove b a r)
  get-put_back (e ∷ m) b t = ground (arith, get-insert b a (e ∷ m) r)

  -- Unregistering removes the pair, answers whether it was there, and leaves every other pair alone.
  pub sink-unregister_actor :
      (b : ActorAddress) (t : SessionId)
      → (sink (unregister_actor r a s).1 b t
          ≡ ite (address_eq.dec a b) (ite (bytes_eq.dec s t) none (sink r b t)) (sink r b t))
        × (((unregister_actor r a s).0 ≡ true) ↔ (sink r a s ≢ none))
  unfolding sink unregister_actor
  sink-unregister_actor b t = (
    ground (arith, get-put_back (remove s (sinks r a)) b t, get-remove t s (sinks r a)),
    ground arith,
  )
