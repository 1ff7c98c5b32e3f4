-- ===== src/Cluster/Router/Released.antt =====
-- A release that succeeds has left the address without an owner.
use coactor.Base.{
  ℕ, zero, suc, ◌≡◌, refl, ◌⊎◌, inl, inr, true, Option, none, some, Result, ok, err, if◌then◌else◌,
  arith, Bool-cases, subst,
}
use coactor.Failure.{SendError}
use coactor.Address.{ActorAddress}
use coactor.Tokio.{Semaphore}
use coactor.Cluster.{
  CoordinationErrorKind, Revision, ActorOwnerRecord, VersionedActorOwnerRecord, MutationOutcome,
  applied, conflict, indeterminate, Timed, answered, failed, elapsed, unowned,
}
use coactor.Cluster.Router.{
  Coordination, ClusterRouter, is_local_owner, confirm_release, released, release_read,
  release_local_owner,
}
use coactor.Cluster.Router.Owned.{Ledger}

read_cases :
    (x : Timed (Option VersionedActorOwnerRecord))
    → ((v : VersionedActorOwnerRecord) × (x ≡ answered (some v)))
      ⊎ ((x ≡ answered none) ⊎ (((k : CoordinationErrorKind) × (x ≡ failed k)) ⊎ (x ≡ elapsed)))
read_cases (answered (some v)) = inl (v, refl)
read_cases (answered none) = inr (inl refl)
read_cases (failed k) = inr (inr (inl (k, refl)))
read_cases elapsed = inr (inr (inr refl))

module _ (sem : Semaphore) (store : Coordination) (ledger : Ledger store)
    (address : ActorAddress) where
  open store use {World, read_actor_owner, compare_exchange}
  open ledger use {record_at, read_shows, applied_writes}

  confirmed_unowned :
      (n : ℕ) (expected before : ActorOwnerRecord) (w : World)
      → (confirm_release sem store n address expected before w).0 ≡ true
      → record_at address (confirm_release sem store n address expected before w).1 ≡ some expected
  unfolding confirm_release
  confirmed_unowned zero expected before w h = cc
  confirmed_unowned (suc n) expected before w h = elim (read_cases (read_actor_owner address w).0) [
    | inl (v, e) ↦ ground (
      arith,
      read_shows address w v e,
      confirmed_unowned n expected before (read_actor_owner address w).1,
    )
    | inr (inl e) ↦
        ground (arith, confirmed_unowned n expected before (read_actor_owner address w).1)
    | inr (inr (inl (k, e))) ↦
        ground (arith, confirmed_unowned n expected before (read_actor_owner address w).1)
    | inr (inr (inr e)) ↦
        ground (arith, confirmed_unowned n expected before (read_actor_owner address w).1)
  ]

  -- What a release that succeeds has left in the store.
  abbrev pub Unowned : ℕ → Result SendError (Unit {0}) × World → Type 0
  Unowned epoch (ok _, w) = record_at address w ≡ some (unowned epoch)
  Unowned epoch (err _, w) = Unit {0}

  -- The read-back of a release that was not applied.
  read_back_Unowned :
      (before : ActorOwnerRecord) (w : World)
      → Unowned before.ownership_epoch (
        if (confirm_release sem store 3 address (unowned before.ownership_epoch) before w).0
            then ok tt
            else err SendError.ownership_unavailable,
        (confirm_release sem store 3 address (unowned before.ownership_epoch) before w).1,
      )
  read_back_Unowned before w =
      let c = confirm_release sem store 3 address (unowned before.ownership_epoch) before w in
      elim (Bool-cases c.0) [
        | inl e ↦ rw e (confirmed_unowned 3 (unowned before.ownership_epoch) before w e)
        | inr e ↦ rw e tt
      ]

  released-Unowned :
      (before : ActorOwnerRecord) (x : Timed (MutationOutcome Revision)) (w' : World)
      → ((v : Revision)
          → x ≡ answered (applied v)
          → record_at address w' ≡ some (unowned before.ownership_epoch))
      → Unowned before.ownership_epoch (released sem store address before (x, w'))
  unfolding released
  released-Unowned before (answered (applied v)) w' h = h v refl
  released-Unowned before (answered conflict) w' h = read_back_Unowned before w'
  released-Unowned before (answered (indeterminate _)) w' h = read_back_Unowned before w'
  released-Unowned before (failed _) w' h = tt
  released-Unowned before elapsed w' h = tt

  abbrev ReleasedBy : ClusterRouter → Timed (Option VersionedActorOwnerRecord) → World → Type 0
  ReleasedBy r x w =
      (v : VersionedActorOwnerRecord) × (x ≡ answered (some v))
      × (is_local_owner r v.record_of ≡ true)
      × (record_at address w ≡ some (unowned v.record_of.ownership_epoch))

  read_released :
      (r : ClusterRouter) (x : Timed (Option VersionedActorOwnerRecord)) (w w' : World)
      → release_read sem store r address (x, w) ≡ (ok tt, w')
      → ReleasedBy r x w'
  unfolding release_read
  read_released r (answered (some v)) w w' h = elim (Bool-cases (is_local_owner r v.record_of)) [
    | inl e ↦
        let epoch = v.record_of.ownership_epoch in
        let y = compare_exchange address (unowned epoch) (some v.revision) w in
        let f : released sem store address v.record_of y ≡ (ok tt, w') = ground arith in
        let u =
          released-Unowned v.record_of y.0 y.1
            (λ x q. applied_writes address (unowned epoch) (some v.revision) w x q) in
        (v, refl, e, subst (Unowned epoch) f u)
    | inr e ↦ absurd (ground arith)
  ]
  read_released r (answered none) w w' h = absurd (ground arith)
  read_released r (failed _) w w' h = absurd (ground arith)
  read_released r elapsed w w' h = absurd (ground arith)

  -- Over a store that keeps its promise, a release that succeeds read a record whose owner is the
  -- local node and session, and leaves the address with no owner, in the epoch of that record.
  pub release_local_owner_lem :
      (r : ClusterRouter) (w w' : World)
      → release_local_owner sem store r address w ≡ (ok tt, w')
      → (v : VersionedActorOwnerRecord) × ((read_actor_owner address w).0 ≡ answered (some v))
        × (is_local_owner r v.record_of ≡ true)
        × (record_at address w' ≡ some (unowned v.record_of.ownership_epoch))
  unfolding release_local_owner
  release_local_owner_lem r w w' h =
      read_released r (read_actor_owner address w).0 (read_actor_owner address w).1 w' h
