-- ===== src/Cluster/TestStore.antt =====
-- `TestCoordinationStore` (coactor/src/test_support.rs): leases and ownership records in memory, with
-- a fresh revision for every write. The wall clock is a field, which only `tick` moves.
pub mod Ledgers
pub mod Leases
pub mod Revisions
use coactor.Base.{
  ℕ, ◌+◌, Bool, true, false, Option, none, some, List, ◌++◌, Bytes, bytes, decimal, Map, get,
  insert, remove, ite, if◌then◌else◌, ltb, bytes_eq, keep, map,
}
use coactor.Address.{ActorAddress, address_eq}
use coactor.Cluster.{
  NodeRecord, Revision, ActorOwnerRecord, VersionedActorOwnerRecord, MutationOutcome, applied,
  conflict, answered,
}
use coactor.Cluster.Router.{Coordination}

pub record TestNodeLease : Type 0 where
  pub node : NodeRecord
  pub revision : Revision
  pub expires_at_unix_ms : ℕ

pub record TestCoordinationStore : Type 0 where
  pub leases : Map Bytes TestNodeLease
  pub owners : Map ActorAddress VersionedActorOwnerRecord
  pub next_revision : ℕ
  pub now : ℕ

module _ (s : TestCoordinationStore) where
  open s use {leases, owners, next_revision, now}

  -- `next`, without the count that it leaves.
  unfoldable pub next : Revision
  next = bytes "test-revision-" ++ decimal (next_revision + 1)

  -- `.filter(|l| l.expires_at_unix_ms > now)`.
  unexpired : Option TestNodeLease → Option TestNodeLease
  unexpired none = none
  unexpired (some l) = if ltb now l.expires_at_unix_ms then some l else none

  abbrev node_of : Option TestNodeLease → Option NodeRecord
  node_of none = none
  node_of (some l) = some l.node

  -- `NodeDirectory::read_node`.
  unfoldable pub read_node : Bytes → Option NodeRecord
  unfolding unexpired
  read_node node_id = node_of (unexpired (get node_id leases))

  -- `NodeDirectory::list_nodes`.
  unfoldable pub list_nodes : List NodeRecord
  list_nodes = map (λ e. e.1.node) (keep (λ e. ltb now e.1.expires_at_unix_ms) leases)

  -- `NodeLeaseStore::read_node_lease`.
  abbrev lease_of : Option TestNodeLease → Option (NodeRecord × Revision)
  lease_of none = none
  lease_of (some l) = some (l.node, l.revision)

  unfoldable pub read_node_lease : Bytes → Option (NodeRecord × Revision)
  unfolding unexpired
  read_node_lease node_id = lease_of (unexpired (get node_id leases))

  -- The insertion that `acquire_node` and `renew_node` share.
  put_lease : NodeRecord → ℕ → MutationOutcome Revision × TestCoordinationStore
  unfolding next
  put_lease node ttl = (
    applied next,
    record s {
      leases =
          insert node.node_id
            (record { node = node; revision = next; expires_at_unix_ms = now + ttl }) leases;
      next_revision = next_revision + 1;
    },
  )

  is_live : Option TestNodeLease → Bool
  is_live none = false
  is_live (some l) = ltb now l.expires_at_unix_ms

  unfoldable pub acquire_node : NodeRecord → ℕ → MutationOutcome Revision × TestCoordinationStore
  unfolding put_lease is_live
  acquire_node node ttl =
      if is_live (get node.node_id leases) then (conflict, s) else put_lease node ttl

  has_revision : Option TestNodeLease → Revision → Bool
  has_revision none revision = false
  has_revision (some l) revision = ite (bytes_eq.dec l.revision revision) true false

  -- Without the failure that a test can inject.
  unfoldable pub renew_node :
      NodeRecord → ℕ → Revision → MutationOutcome Revision × TestCoordinationStore
  unfolding put_lease has_revision
  renew_node node ttl revision =
      if has_revision (get node.node_id leases) revision then put_lease node ttl else (conflict, s)

  unfoldable pub release_node :
      Bytes → Revision → MutationOutcome (Unit {0}) × TestCoordinationStore
  unfolding has_revision
  release_node node_id revision =
      if has_revision (get node_id leases) revision
      then (applied tt, record s { leases = remove node_id leases })
      else (conflict, s)

  -- `ActorOwnerReader::read_actor_owner`.
  unfoldable pub read_actor_owner : ActorAddress → Option VersionedActorOwnerRecord
  read_actor_owner address = get address owners

  matches : Option VersionedActorOwnerRecord → Option Revision → Bool
  matches none none = true
  matches (some current) (some revision) = ite (bytes_eq.dec current.revision revision) true false
  matches _ _ = false

  -- `ActorOwnerStore::compare_exchange_actor_owner`.
  unfoldable pub compare_exchange_actor_owner :
      ActorAddress
      → ActorOwnerRecord
      → Option Revision
      → MutationOutcome Revision × TestCoordinationStore
  unfolding matches next
  compare_exchange_actor_owner address entry revision =
      if matches (get address owners) revision
      then (
        applied next,
        record s {
          owners = insert address (record { record_of = entry; revision = next }) owners;
          next_revision = next_revision + 1;
        },
      )
      else (conflict, s)

-- The store as the router sees it: every call is answered in time, and no one else writes.
abbrev pub coordination : Coordination
coordination = record {
  World = TestCoordinationStore;
  read_actor_owner = λ address s. (answered (read_actor_owner s address), s);
  read_node = λ node_id s. (answered (read_node s node_id), s);
  compare_exchange = λ address entry revision s.
      let (outcome, s') = compare_exchange_actor_owner s address entry revision in
      (answered outcome, s');
}
