-- ===== src/Cluster/TestStore/Ledgers.antt =====
-- The store in memory keeps the promise of a store.
use coactor.Base.{◌≡◌, Option, none, some, arith, get-insert, get}
use coactor.Address.{ActorAddress, address_eq}
use coactor.Cluster.{Revision, ActorOwnerRecord, VersionedActorOwnerRecord, applied, answered}
use coactor.Cluster.Router.Owned.{Ledger}
use coactor.Cluster.TestStore.{
  TestCoordinationStore, next, read_actor_owner, compare_exchange_actor_owner, coordination,
}

unfoldable pub record_in : Option VersionedActorOwnerRecord → Option ActorOwnerRecord
record_in none = none
record_in (some v) = some v.record_of

pub shows :
    (a : ActorAddress) (s : TestCoordinationStore) (v : VersionedActorOwnerRecord)
    → answered (read_actor_owner s a) ≡ answered (some v)
    → record_in (get a s.owners) ≡ some v.record_of
unfolding read_actor_owner record_in
shows a s v h = ground arith

pub writes :
    (a : ActorAddress) (e : ActorOwnerRecord) (o : Option Revision) (s : TestCoordinationStore)
    (v : Revision)
    → answered (compare_exchange_actor_owner s a e o).0 ≡ answered (applied v)
    → record_in (get a (compare_exchange_actor_owner s a e o).1.owners) ≡ some e
unfolding compare_exchange_actor_owner record_in
writes a e o s v h =
    ground (arith, get-insert a a (record { record_of = e; revision = next s }) s.owners)

unfoldable pub ledger : Ledger coordination
ledger = record {
  record_at = λ a s. record_in (get a s.owners);
  read_shows = shows;
  applied_writes = writes;
}
