-- ===== src/Tests/Ownership.antt =====
-- The router over the store in memory, at a record whose owner has no lease any more.
use coactor.Base.{
  ◌+◌, ◌≡◌, ◌≢◌, refl, true, some, [], ◌∷◌, bytes, Bytes-discrete, ℕ_discrete, ok, err, get, insert,
  arith, decimal,
}
use coactor.Failure.{SendError}
use coactor.Address.{ActorAddress, ActorAddress-discrete, address_eq}
use coactor.Cluster.{
  answered, unowned, VersionedActorOwnerRecord, ActorOwner-discrete, ActorOwnerRecord-discrete,
}
use coactor.Cluster.Router.{
  ClusterRouter, local, resolve, local_owner, local_claim, is_local_owner, release_local_owner,
}
use coactor.Cluster.Router.Permits.{reserved, resolve-Balanced}
use coactor.Cluster.Router.Owned.{owner_of, resolve_local}
use coactor.Cluster.Router.Released.{release_local_owner_lem}
use coactor.Cluster.Router.Epochs.{Advances, resolve-Advances}
use coactor.Cluster.TestStore.{
  TestCoordinationStore, coordination, read_node, read_actor_owner, compare_exchange_actor_owner,
  next,
}
use coactor.Cluster.TestStore.Ledgers.{ledger, record_in}
use coactor.Tests.Channels.{permits}

abbrev room : ActorAddress
room = record { actor_type = bytes "chat"; actor_id = bytes "room-7" }

abbrev hall : ActorAddress
hall = record { actor_type = bytes "chat"; actor_id = bytes "hall" }

abbrev router : ClusterRouter
router = record { node_id = bytes "n1"; session_id = bytes "a" }

-- `n2` owns the room in epoch 4, and has no lease.
abbrev store : TestCoordinationStore
store = record {
  leases = [];
  owners =
      (
        room,
        record {
          record_of = record {
            owner = some (record { node_id = bytes "n2"; session_id = bytes "b" });
            ownership_epoch = 4;
          };
          revision = bytes "test-revision-1";
        },
      )
      ∷ [];
  next_revision = 1;
  now = 100;
}

room≢hall : room ≢ hall
room≢hall h = cc

taken_over : (resolve permits coordination router room 3 store).0 ≡ ok (local true)
unfolding resolve is_local_owner local_claim read_node read_actor_owner compare_exchange_actor_owner
    next get insert decimal local_owner ActorAddress-discrete Bytes-discrete ℕ_discrete
    ActorOwner-discrete ActorOwnerRecord-discrete
taken_over = refl

full_test : (resolve permits coordination router room 0 store).0 ≡ err SendError.runtime_at_capacity
unfolding resolve is_local_owner local_claim read_node read_actor_owner compare_exchange_actor_owner
    next get insert decimal local_owner ActorAddress-discrete Bytes-discrete ℕ_discrete
    ActorOwner-discrete ActorOwnerRecord-discrete
full_test = refl

resolve-Balanced_example :
    (resolve permits coordination router room 3 store).1
      + reserved (resolve permits coordination router room 3 store).0
    ≡ 3
resolve-Balanced_example = resolve-Balanced permits coordination router room 3 store

resolve_local_example :
    owner_of (record_in (get room (resolve permits coordination router room 3 store).2.owners))
    ≡ some (local_owner router)
unfolding resolve is_local_owner local_claim read_node read_actor_owner compare_exchange_actor_owner
    next get insert decimal local_owner ledger record_in ActorAddress-discrete Bytes-discrete
    ℕ_discrete ActorOwner-discrete ActorOwnerRecord-discrete
resolve_local_example =
    resolve_local permits coordination ledger router room 3
      (resolve permits coordination router room 3 store).1 store
      (resolve permits coordination router room 3 store).2 true refl

resolve-Advances_example :
    Advances room hall store (resolve permits coordination router room 3 store).2
unfolding get ActorAddress-discrete ℕ_discrete
resolve-Advances_example = resolve-Advances permits router room hall room≢hall 3 store (omega arith)

abbrev owned : TestCoordinationStore
owned = (resolve permits coordination router room 3 store).2

released_now :
    release_local_owner permits coordination router room owned
    ≡ (ok tt, (release_local_owner permits coordination router room owned).1)
unfolding resolve is_local_owner local_claim read_node read_actor_owner compare_exchange_actor_owner
    next get insert decimal local_owner release_local_owner ActorAddress-discrete Bytes-discrete
    ℕ_discrete ActorOwner-discrete ActorOwnerRecord-discrete
released_now = refl

release_local_owner_lem_example :
    (v : VersionedActorOwnerRecord) × (answered (read_actor_owner owned room) ≡ answered (some v))
    × (is_local_owner router v.record_of ≡ true)
    × (record_in (get room (release_local_owner permits coordination router room owned).1.owners)
        ≡ some (unowned v.record_of.ownership_epoch))
unfolding ledger
release_local_owner_lem_example =
    release_local_owner_lem permits coordination ledger room router owned
      (release_local_owner permits coordination router room owned).1 released_now
