-- ===== src/Cluster/Router.antt =====
-- `ClusterRouter` (coactor/src/cluster/routing.rs): who owns an Actor Address, and the claims of
-- the local node. The resolution lock of an address is held throughout each operation; other nodes
-- may change the store between any two calls, which is part of what the next answer shows.
pub mod Permits
pub mod Owned
pub mod Released
pub mod Epochs
use coactor.Base.{
  ℕ, zero, suc, Bool, true, false, Option, none, some, Result, ok, err, Bytes, ite, if◌then◌else◌,
  bytes_eq,
}
use coactor.Failure.{SendError}
use coactor.Address.{ActorAddress}
use coactor.Tokio.{Semaphore}
use coactor.Cluster.{
  NodeRecord, Revision, ActorOwner, ActorOwner-discrete, ActorOwnerRecord,
  ActorOwnerRecord-discrete, VersionedActorOwnerRecord, MutationOutcome, applied, conflict,
  indeterminate, Timed, answered, unowned, saturating_suc,
}

-- The calls of `ActorOwnerStore` and `NodeDirectory`, each under its time limit. A call answers and
-- moves the world on.
pub record Coordination : Type 1 where
  pub World : Type 0
  pub read_actor_owner : ActorAddress → World → Timed (Option VersionedActorOwnerRecord) × World
  pub read_node : Bytes → World → Timed (Option NodeRecord) × World
  pub compare_exchange :
      ActorAddress
      → ActorOwnerRecord
      → Option Revision
      → World
      → Timed (MutationOutcome Revision) × World

pub record ClusterRouter : Type 0 where
  pub node_id : Bytes
  pub session_id : Bytes

-- `Local` says whether it carries a capacity reservation.
pub data ResolvedOwner : Type 0 where
  local : Bool → ResolvedOwner
  remote : ResolvedOwner

unfoldable pub local_owner : ClusterRouter → ActorOwner
local_owner r = record { node_id = r.node_id; session_id = r.session_id }

abbrev owner_is : Option ActorOwner → ActorOwner → Bool
owner_is none o = false
owner_is (some p) o = ite (ActorOwner-discrete p o) true false

unfoldable pub is_local_owner : ClusterRouter → ActorOwnerRecord → Bool
unfolding local_owner
is_local_owner r record_of = owner_is record_of.owner (local_owner r)

unfoldable pub local_claim : ClusterRouter → ℕ → ActorOwnerRecord
unfolding local_owner
local_claim r epoch = record { owner = some (local_owner r); ownership_epoch = epoch }

module _ (sem : Semaphore) (store : Coordination) where
  open sem use {Sem, try_acquire, release}
  open store use {World, read_actor_owner, read_node, compare_exchange}

  -- What an operation ends with: its result, the permits that are left and the world.
  abbrev pub Resolution : Type 0
  Resolution = Result SendError ResolvedOwner × Sem × World

  pub data Confirmation : Type 0 where
    ours others unconfirmed : Confirmation

  has_owner : Option ActorOwner → Bool
  has_owner none = false
  has_owner (some _) = true

  -- One read of the inner loop of `resolve`: `none` means that the loop goes on.
  judge : ActorOwnerRecord → Timed (Option VersionedActorOwnerRecord) → Option Confirmation
  unfolding has_owner
  judge expected (answered (some confirmed)) =
      ite (ActorOwnerRecord-discrete confirmed.record_of expected) (some ours)
        (if has_owner confirmed.record_of.owner then some others else none)
  judge expected _ = none

  -- The inner loop of `resolve`, after an indeterminate claim.
  confirm : ℕ → ActorAddress → ActorOwnerRecord → World → Confirmation × World
  unfolding judge
  confirm zero address expected w = (unconfirmed, w)
  confirm (suc n) address expected w =
      let (read, w') = read_actor_owner address w in
      elim (judge expected read) [ some c ↦ (c, w') | none ↦ confirm n address expected w' ]

  -- The arms of `resolve` on the outcome of its claim, with the permit taken; `again` is `continue`.
  settle :
      ActorAddress
      → ActorOwnerRecord
      → (Sem → World → Resolution)
      → Sem
      → Timed (MutationOutcome Revision) × World
      → Resolution
  unfolding confirm
  settle address expected again s (answered (applied _), w) = (ok (local true), s, w)
  settle address expected again s (answered conflict, w) = again (release s) w
  settle address expected again s (answered (indeterminate _), w) =
      let (c, w') = confirm 3 address expected w in
      elim c [
        | ours ↦ (ok (local true), s, w')
        | others ↦ again (release s) w'
        | unconfirmed ↦ (err SendError.ownership_unavailable, release s, w')
      ]
  settle address expected again s (_, w) = (err SendError.ownership_unavailable, release s, w)

  -- The second half of the loop body of `resolve`: take a permit, then claim.
  next_epoch : Option VersionedActorOwnerRecord → ℕ
  next_epoch none = 1
  next_epoch (some current) = saturating_suc current.record_of.ownership_epoch

  revision_of : Option VersionedActorOwnerRecord → Option Revision
  revision_of none = none
  revision_of (some current) = some current.revision

  take_over :
      ClusterRouter
      → ActorAddress
      → (Sem → World → Resolution)
      → Option VersionedActorOwnerRecord
      → Sem
      → World
      → Resolution
  unfolding settle next_epoch revision_of
  take_over r address again current s w =
      let expected = local_claim r (next_epoch current) in
      elim (try_acquire s) [
        | none ↦ (err SendError.runtime_at_capacity, s, w)
        | some s' ↦
            settle address expected again s'
              (compare_exchange address expected (revision_of current) w)
      ]

  -- The arms of `claim` on the outcome of its write, and on its one confirming read.
  confirm_claim :
      ActorOwnerRecord → Sem → Timed (Option VersionedActorOwnerRecord) × World → Resolution
  confirm_claim expected s (answered (some confirmed), w) =
      ite (ActorOwnerRecord-discrete confirmed.record_of expected) (ok (local true), s, w)
        (err SendError.ownership_unavailable, release s, w)
  confirm_claim expected s (_, w) = (err SendError.ownership_unavailable, release s, w)

  settle_claim :
      ActorAddress → ActorOwnerRecord → Sem → Timed (MutationOutcome Revision) × World → Resolution
  unfolding confirm_claim
  settle_claim address expected s (answered (applied _), w) = (ok (local true), s, w)
  settle_claim address expected s (answered conflict, w) = (ok remote, release s, w)
  settle_claim address expected s (answered (indeterminate _), w) =
      confirm_claim expected s (read_actor_owner address w)
  settle_claim address expected s (_, w) = (err SendError.ownership_unavailable, release s, w)

  -- `ClusterRouter::claim`.
  claim : ClusterRouter → ActorAddress → ℕ → Option Revision → Sem → World → Resolution
  unfolding settle_claim
  claim r address epoch revision s w =
      let expected = local_claim r epoch in
      elim (try_acquire s) [
        | none ↦ (err SendError.runtime_at_capacity, s, w)
        | some s' ↦ settle_claim address expected s' (compare_exchange address expected revision w)
      ]

  has_session : Option NodeRecord → Bytes → Bool
  has_session none session_id = false
  has_session (some node) session_id = ite (bytes_eq.dec node.session_id session_id) true false

  -- Another node is recorded as the owner: it stays the owner while its lease is live.
  check_lease :
      ClusterRouter
      → ActorAddress
      → (Sem → World → Resolution)
      → VersionedActorOwnerRecord
      → ActorOwner
      → Sem
      → Timed (Option NodeRecord) × World
      → Resolution
  unfolding take_over has_session
  check_lease r address again current owner s (answered node, w) =
      if has_session node owner.session_id
      then (ok remote, s, w)
      else take_over r address again (some current) s w
  check_lease r address again current owner s (_, w) = (err SendError.ownership_unavailable, s, w)

  -- An owner is recorded that is not the local session.
  foreign :
      ClusterRouter
      → ActorAddress
      → (Sem → World → Resolution)
      → VersionedActorOwnerRecord
      → Option ActorOwner
      → Sem
      → World
      → Resolution
  unfolding take_over check_lease claim
  foreign r address again current none s w = take_over r address again (some current) s w
  foreign r address again current (some owner) s w =
      ite (bytes_eq.dec owner.node_id r.node_id)
        (claim r address (saturating_suc current.record_of.ownership_epoch) (some current.revision)
          s w)
        (check_lease r address again current owner s (read_node owner.node_id w))

  -- The body of the outer loop of `resolve`, after its read.
  resolve_read :
      ClusterRouter
      → ActorAddress
      → (Sem → World → Resolution)
      → Sem
      → Timed (Option VersionedActorOwnerRecord) × World
      → Resolution
  unfolding take_over foreign
  resolve_read r address again s (answered none, w) = take_over r address again none s w
  resolve_read r address again s (answered (some current), w) =
      if is_local_owner r current.record_of
      then (ok (local false), s, w)
      else foreign r address again current current.record_of.owner s w
  resolve_read r address again s (_, w) = (err SendError.ownership_unavailable, s, w)

  resolve_loop : ℕ → ClusterRouter → ActorAddress → Sem → World → Resolution
  unfolding resolve_read
  resolve_loop zero r address s w = (ok remote, s, w)
  resolve_loop (suc n) r address s w =
      resolve_read r address (λ s' w'. resolve_loop n r address s' w') s
        (read_actor_owner address w)

  -- `ClusterRouter::resolve`: at most three rounds.
  unfoldable pub resolve : ClusterRouter → ActorAddress → Sem → World → Resolution
  unfolding resolve_loop
  resolve r address s w = resolve_loop 3 r address s w

  -- The confirming loop of `release_local_owner`.
  confirm_release : ℕ → ActorAddress → ActorOwnerRecord → ActorOwnerRecord → World → Bool × World
  confirm_release zero address expected before w = (false, w)
  confirm_release (suc n) address expected before w =
      let (read, w') = read_actor_owner address w in
      let again = confirm_release n address expected before w' in
      elim read [
        | answered (some read) ↦
            ite (ActorOwnerRecord-discrete read.record_of expected) (true, w')
              (ite (ActorOwnerRecord-discrete read.record_of before) again (false, w'))
        | _ ↦ again
      ]

  released :
      ActorAddress
      → ActorOwnerRecord
      → Timed (MutationOutcome Revision) × World
      → Result SendError (Unit {0}) × World
  unfolding confirm_release
  released address before (answered (applied _), w) = (ok tt, w)
  released address before (answered _, w) =
      let (confirmed, w') = confirm_release 3 address (unowned before.ownership_epoch) before w in
      (if confirmed then ok tt else err SendError.ownership_unavailable, w')
  released address before (_, w) = (err SendError.ownership_unavailable, w)

  release_read :
      ClusterRouter
      → ActorAddress
      → Timed (Option VersionedActorOwnerRecord) × World
      → Result SendError (Unit {0}) × World
  unfolding released
  release_read r address (answered (some current), w) =
      if is_local_owner r current.record_of
      then released address current.record_of (
          compare_exchange address (unowned current.record_of.ownership_epoch)
            (some current.revision) w)
      else (err SendError.ownership_unavailable, w)
  release_read r address (_, w) = (err SendError.ownership_unavailable, w)

  -- `ClusterRouter::release_local_owner`, with the default `release_actor_owner` of the store.
  unfoldable pub release_local_owner :
      ClusterRouter → ActorAddress → World → Result SendError (Unit {0}) × World
  unfolding release_read
  release_local_owner r address w = release_read r address (read_actor_owner address w)
