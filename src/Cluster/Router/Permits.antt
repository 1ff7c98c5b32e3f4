-- ===== src/Cluster/Router/Permits.antt =====
-- The capacity permits of a resolution.
use coactor.Base.{
  ℕ, zero, suc, ◌+◌, ◌≡◌, true, Option, none, some, Result, ok, arith, Bool-cases, Option-cases,
  inl, inr, bytes_eq,
}
use coactor.Failure.{SendError}
use coactor.Address.{ActorAddress}
use coactor.Tokio.{Semaphore}
use coactor.Cluster.{
  NodeRecord, Revision, ActorOwner, ActorOwnerRecord, VersionedActorOwnerRecord, MutationOutcome,
  applied, conflict, indeterminate, Timed, answered, failed, elapsed, saturating_suc,
}
use coactor.Cluster.Router.{
  Coordination, ClusterRouter, ResolvedOwner, local, local_claim, is_local_owner, Resolution,
  confirm, settle, take_over, next_epoch, revision_of, confirm_claim, settle_claim, claim,
  check_lease, foreign, resolve_read, resolve_loop, resolve,
}

-- The permits that a result carries.
abbrev pub reserved : Result SendError ResolvedOwner → ℕ
reserved (ok (local true)) = 1
reserved _ = 0

module _ (sem : Semaphore) (store : Coordination) where
  open sem use {
    Sem, available_permits, try_acquire, release, available_permits-release, try_acquire-some,
  }
  open store use {World, read_actor_owner, read_node, compare_exchange}

  -- `n` permits are left or reserved.
  abbrev pub Balanced : ℕ → Resolution sem store → Type 0
  Balanced n r = available_permits r.1 + reserved r.0 ≡ n

  module _ (r : ClusterRouter) (address : ActorAddress) (again : Sem → World → Resolution sem store)
      (again_Balanced : (s : Sem) (w : World) → Balanced (available_permits s) (again s w)) where
    settle-Balanced :
        (expected : ActorOwnerRecord) (s : Sem) (x : Timed (MutationOutcome Revision) × World)
        → Balanced (suc (available_permits s)) (settle sem store address expected again s x)
    unfolding settle
    settle-Balanced expected s (answered (applied _), w) = omega arith
    settle-Balanced expected s (answered conflict, w) =
        omega (arith, again_Balanced (release s) w, available_permits-release s)
    settle-Balanced expected s (answered (indeterminate _), w) = ground (
      arith,
      again_Balanced (release s) (confirm sem store 3 address expected w).1,
      available_permits-release s,
    )
    settle-Balanced expected s (failed _, w) = omega (arith, available_permits-release s)
    settle-Balanced expected s (elapsed, w) = omega (arith, available_permits-release s)

    take_over-Balanced :
        (current : Option VersionedActorOwnerRecord) (s : Sem) (w : World)
        → Balanced (available_permits s) (take_over sem store r address again current s w)
    unfolding take_over
    take_over-Balanced current s w = elim (Option-cases (try_acquire s)) [
      | inl e ↦ rw (e, take_over) (omega arith)
      | inr (s', e) ↦
          let expected = local_claim r (next_epoch sem store current) in
          let x = compare_exchange address expected (revision_of sem store current) w in
          rw (e, take_over) (rw (try_acquire-some s e) (settle-Balanced expected s' x))
    ]

    confirm_claim-Balanced :
        (expected : ActorOwnerRecord) (s : Sem)
        (x : Timed (Option VersionedActorOwnerRecord) × World)
        → Balanced (suc (available_permits s)) (confirm_claim sem store expected s x)
    unfolding confirm_claim
    confirm_claim-Balanced expected s (answered none, w) =
        omega (arith, available_permits-release s)
    confirm_claim-Balanced expected s (answered (some confirmed), w) =
        ground (arith, available_permits-release s)
    confirm_claim-Balanced expected s (failed _, w) = omega (arith, available_permits-release s)
    confirm_claim-Balanced expected s (elapsed, w) = omega (arith, available_permits-release s)

    settle_claim-Balanced :
        (expected : ActorOwnerRecord) (s : Sem) (x : Timed (MutationOutcome Revision) × World)
        → Balanced (suc (available_permits s)) (settle_claim sem store address expected s x)
    unfolding settle_claim
    settle_claim-Balanced expected s (answered (applied _), w) = omega arith
    settle_claim-Balanced expected s (answered conflict, w) =
        omega (arith, available_permits-release s)
    settle_claim-Balanced expected s (answered (indeterminate _), w) =
        confirm_claim-Balanced expected s (read_actor_owner address w)
    settle_claim-Balanced expected s (failed _, w) = omega (arith, available_permits-release s)
    settle_claim-Balanced expected s (elapsed, w) = omega (arith, available_permits-release s)

    claim-Balanced :
        (epoch : ℕ) (revision : Option Revision) (s : Sem) (w : World)
        → Balanced (available_permits s) (claim sem store r address epoch revision s w)
    unfolding claim
    claim-Balanced epoch revision s w = elim (Option-cases (try_acquire s)) [
      | inl e ↦ rw (e, claim) (omega arith)
      | inr (s', e) ↦
          let expected = local_claim r epoch in
          rw (e, claim)
            (rw (try_acquire-some s e)
              (settle_claim-Balanced expected s' (compare_exchange address expected revision w)))
    ]

    check_lease-Balanced :
        (current : VersionedActorOwnerRecord) (owner : ActorOwner) (s : Sem)
        (x : Timed (Option NodeRecord) × World)
        → Balanced (available_permits s) (check_lease sem store r address again current owner s x)
    unfolding check_lease
    check_lease-Balanced current owner s (answered found, w) =
        ground (arith, take_over-Balanced (some current) s w)
    check_lease-Balanced current owner s (failed _, w) = omega arith
    check_lease-Balanced current owner s (elapsed, w) = omega arith

    foreign-Balanced :
        (current : VersionedActorOwnerRecord) (owner : Option ActorOwner) (s : Sem) (w : World)
        → Balanced (available_permits s) (foreign sem store r address again current owner s w)
    unfolding foreign
    foreign-Balanced current none s w = take_over-Balanced (some current) s w
    foreign-Balanced current (some owner) s w = ground (
      arith,
      claim-Balanced (saturating_suc current.record_of.ownership_epoch) (some current.revision) s w,
      check_lease-Balanced current owner s (read_node owner.node_id w),
    )

    resolve_read-Balanced :
        (s : Sem) (x : Timed (Option VersionedActorOwnerRecord) × World)
        → Balanced (available_permits s) (resolve_read sem store r address again s x)
    unfolding resolve_read
    resolve_read-Balanced s (answered none, w) = take_over-Balanced none s w
    resolve_read-Balanced s (answered (some current), w) =
        elim (Bool-cases (is_local_owner r current.record_of)) [
          | inl e ↦ rw e (omega arith)
          | inr e ↦ rw e (foreign-Balanced current current.record_of.owner s w)
        ]
    resolve_read-Balanced s (failed _, w) = omega arith
    resolve_read-Balanced s (elapsed, w) = omega arith

  resolve_loop-Balanced :
      (n : ℕ) (r : ClusterRouter) (address : ActorAddress) (s : Sem) (w : World)
      → Balanced (available_permits s) (resolve_loop sem store n r address s w)
  unfolding resolve_loop
  resolve_loop-Balanced zero r address s w = omega arith
  resolve_loop-Balanced (suc n) r address s w =
      resolve_read-Balanced r address (λ s' w'. resolve_loop sem store n r address s' w')
        (resolve_loop-Balanced n r address) s (read_actor_owner address w)

  -- Whatever the store answers, a resolution neither leaks nor makes up a permit: those that are
  -- left, and the one that a local result may carry, are those that there were.
  pub resolve-Balanced :
      (r : ClusterRouter) (address : ActorAddress) (s : Sem) (w : World)
      → available_permits (resolve sem store r address s w).1
          + reserved (resolve sem store r address s w).0
        ≡ available_permits s
  unfolding resolve
  resolve-Balanced r address s w = resolve_loop-Balanced 3 r address s w
