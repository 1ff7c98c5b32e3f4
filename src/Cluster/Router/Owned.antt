-- ===== src/Cluster/Router/Owned.antt =====
-- A local resolution rests on the store: the last thing that the store showed is the local claim.
use coactor.Base.{
  ℕ, zero, suc, ◌≡◌, refl, Bool, Option, none, some, Result, ok, arith, Option-cases, inl, inr,
  subst,
}
use coactor.Failure.{SendError}
use coactor.Address.{ActorAddress}
use coactor.Tokio.{Semaphore}
use coactor.Cluster.{
  NodeRecord, Revision, ActorOwner, ActorOwnerRecord, VersionedActorOwnerRecord, MutationOutcome,
  applied, conflict, indeterminate, Timed, answered, failed, elapsed, saturating_suc,
}
use coactor.Cluster.Router.{
  Coordination, ClusterRouter, ResolvedOwner, local, local_owner, local_claim, is_local_owner,
  Resolution, ours, judge, confirm, settle, take_over, next_epoch, revision_of, confirm_claim,
  settle_claim, claim, check_lease, foreign, resolve_read, resolve_loop, resolve,
}

-- What the documentation of a store promises: each address has one record at a time, which a read
-- shows as it is when the read returns, and which an applied write has just replaced.
pub record Ledger (store : Coordination) : Type 0 where
  pub record_at : ActorAddress → store.World → Option ActorOwnerRecord
  pub read_shows :
      (a : ActorAddress) (w : store.World) (v : VersionedActorOwnerRecord)
      → (store.read_actor_owner a w).0 ≡ answered (some v)
      → record_at a (store.read_actor_owner a w).1 ≡ some v.record_of
  pub applied_writes :
      (a : ActorAddress) (e : ActorOwnerRecord) (o : Option Revision) (w : store.World)
      (v : Revision)
      → (store.compare_exchange a e o w).0 ≡ answered (applied v)
      → record_at a (store.compare_exchange a e o w).1 ≡ some e

abbrev pub owner_of : Option ActorOwnerRecord → Option ActorOwner
owner_of none = none
owner_of (some e) = e.owner

module _ (sem : Semaphore) (store : Coordination) (ledger : Ledger store) where
  open sem use {Sem, try_acquire, release}
  open store use {World, read_actor_owner, read_node, compare_exchange}
  open ledger use {record_at, read_shows, applied_writes}

  module _ (r : ClusterRouter) (address : ActorAddress) where
    -- The store has the local session as the owner.
    abbrev pub IsOwner : World → Type 0
    IsOwner w = owner_of (record_at address w) ≡ some (local_owner r)

    abbrev OwnedAt : Result SendError ResolvedOwner → World → Type 0
    OwnedAt (ok (local _)) w = IsOwner w
    OwnedAt _ w = Unit {0}

    abbrev Owned : Resolution sem store → Type 0
    Owned x = OwnedAt x.0 x.2

    judge_ours :
        (expected : ActorOwnerRecord) (x : Timed (Option VersionedActorOwnerRecord))
        → judge sem store expected x ≡ some ours
        → (v : VersionedActorOwnerRecord) × (x ≡ answered (some v)) × (v.record_of ≡ expected)
    unfolding judge
    judge_ours expected (answered (some v)) h = (v, refl, ground arith)
    judge_ours expected (answered none) h = cc
    judge_ours expected (failed _) h = cc
    judge_ours expected elapsed h = cc

    read_IsOwner :
        (epoch : ℕ) (w : World) (v : VersionedActorOwnerRecord)
        → (read_actor_owner address w).0 ≡ answered (some v)
        → v.record_of ≡ local_claim r epoch
        → IsOwner (read_actor_owner address w).1
    unfolding local_claim
    read_IsOwner epoch w v h e = ground (arith, read_shows address w v h)

    confirm-IsOwner :
        (n epoch : ℕ) (w : World)
        → (confirm sem store n address (local_claim r epoch) w).0 ≡ ours
        → IsOwner (confirm sem store n address (local_claim r epoch) w).1
    unfolding confirm
    confirm-IsOwner zero epoch w h = cc
    confirm-IsOwner (suc n) epoch w h =
        let e = local_claim r epoch in
        let w' = (read_actor_owner address w).1 in
        elim (Option-cases (judge sem store e (read_actor_owner address w).0)) [
          | inl more ↦ ground (arith, confirm-IsOwner n epoch w')
          | inr (c, found) ↦
              let hit : judge sem store e (read_actor_owner address w).0 ≡ some ours =
                ground arith in
              let (v, shown, same) = judge_ours e (read_actor_owner address w).0 hit in
              ground (arith, read_IsOwner epoch w v shown same)
        ]

    written_IsOwner :
        (epoch : ℕ) (o : Option Revision) (w : World) (v : Revision)
        → (compare_exchange address (local_claim r epoch) o w).0 ≡ answered (applied v)
        → IsOwner (compare_exchange address (local_claim r epoch) o w).1
    unfolding local_claim
    written_IsOwner epoch o w v h =
        ground (arith, applied_writes address (local_claim r epoch) o w v h)

    module _ (again : Sem → World → Resolution sem store)
        (again_Owned : (s : Sem) (w : World) → Owned (again s w)) where
      -- Stated over the answer of the write, which only matters if the write was applied.
      settle-Owned :
          (epoch : ℕ) (s : Sem) (x : Timed (MutationOutcome Revision) × World)
          → ((v : Revision) → x.0 ≡ answered (applied v) → IsOwner x.1)
          → Owned (settle sem store address (local_claim r epoch) again s x)
      unfolding settle
      settle-Owned epoch s (answered (applied v), w) h = h v refl
      settle-Owned epoch s (answered conflict, w) h = again_Owned (release s) w
      settle-Owned epoch s (answered (indeterminate _), w) h = ground (
        arith,
        confirm-IsOwner 3 epoch w,
        again_Owned (release s) (confirm sem store 3 address (local_claim r epoch) w).1,
      )
      settle-Owned epoch s (failed _, w) h = tt
      settle-Owned epoch s (elapsed, w) h = tt

      take_over-Owned :
          (current : Option VersionedActorOwnerRecord) (s : Sem) (w : World)
          → Owned (take_over sem store r address again current s w)
      unfolding take_over
      take_over-Owned current s w =
          let epoch = next_epoch sem store current in
          let o = revision_of sem store current in
          elim (Option-cases (try_acquire s)) [
            | inl e ↦ rw (e, take_over) tt
            | inr (s', e) ↦
                rw (e, take_over)
                  (settle-Owned epoch s' (compare_exchange address (local_claim r epoch) o w)
                    (written_IsOwner epoch o w))
          ]

      confirm_claim-Owned :
          (epoch : ℕ) (s : Sem) (x : Timed (Option VersionedActorOwnerRecord) × World)
          → ((v : VersionedActorOwnerRecord)
              → x.0 ≡ answered (some v)
              → v.record_of ≡ local_claim r epoch
              → IsOwner x.1)
          → Owned (confirm_claim sem store (local_claim r epoch) s x)
      unfolding confirm_claim
      confirm_claim-Owned epoch s (answered none, w) h = tt
      confirm_claim-Owned epoch s (answered (some v), w) h = ground (arith, h v refl)
      confirm_claim-Owned epoch s (failed _, w) h = tt
      confirm_claim-Owned epoch s (elapsed, w) h = tt

      settle_claim-Owned :
          (epoch : ℕ) (s : Sem) (x : Timed (MutationOutcome Revision) × World)
          → ((v : Revision) → x.0 ≡ answered (applied v) → IsOwner x.1)
          → Owned (settle_claim sem store address (local_claim r epoch) s x)
      unfolding settle_claim
      settle_claim-Owned epoch s (answered (applied v), w) h = h v refl
      settle_claim-Owned epoch s (answered conflict, w) h = tt
      settle_claim-Owned epoch s (answered (indeterminate _), w) h =
          confirm_claim-Owned epoch s (read_actor_owner address w) (read_IsOwner epoch w)
      settle_claim-Owned epoch s (failed _, w) h = tt
      settle_claim-Owned epoch s (elapsed, w) h = tt

      claim-Owned :
          (epoch : ℕ) (o : Option Revision) (s : Sem) (w : World)
          → Owned (claim sem store r address epoch o s w)
      unfolding claim
      claim-Owned epoch o s w = elim (Option-cases (try_acquire s)) [
        | inl e ↦ rw (e, claim) tt
        | inr (s', e) ↦
            rw (e, claim)
              (settle_claim-Owned epoch s' (compare_exchange address (local_claim r epoch) o w)
                (written_IsOwner epoch o w))
      ]

      check_lease-Owned :
          (current : VersionedActorOwnerRecord) (owner : ActorOwner) (s : Sem)
          (x : Timed (Option NodeRecord) × World)
          → Owned (check_lease sem store r address again current owner s x)
      unfolding check_lease
      check_lease-Owned current owner s (answered lease, w) =
          ground (arith, take_over-Owned (some current) s w)
      check_lease-Owned current owner s (failed _, w) = tt
      check_lease-Owned current owner s (elapsed, w) = tt

      foreign-Owned :
          (current : VersionedActorOwnerRecord) (owner : Option ActorOwner) (s : Sem) (w : World)
          → Owned (foreign sem store r address again current owner s w)
      unfolding foreign
      foreign-Owned current none s w = take_over-Owned (some current) s w
      foreign-Owned current (some owner) s w = ground (
        arith,
        claim-Owned (saturating_suc current.record_of.ownership_epoch) (some current.revision) s w,
        check_lease-Owned current owner s (read_node owner.node_id w),
      )

      resolve_read-Owned :
          (s : Sem) (x : Timed (Option VersionedActorOwnerRecord) × World)
          → ((v : VersionedActorOwnerRecord)
              → x.0 ≡ answered (some v)
              → record_at address x.1 ≡ some v.record_of)
          → Owned (resolve_read sem store r address again s x)
      unfolding resolve_read is_local_owner
      resolve_read-Owned s (answered none, w) h = take_over-Owned none s w
      resolve_read-Owned s (answered (some v), w) h =
          ground (arith, h v refl, foreign-Owned v v.record_of.owner s w)
      resolve_read-Owned s (failed _, w) h = tt
      resolve_read-Owned s (elapsed, w) h = tt

    resolve_loop-Owned :
        (n : ℕ) (s : Sem) (w : World) → Owned (resolve_loop sem store n r address s w)
    unfolding resolve_loop
    resolve_loop-Owned zero s w = tt
    resolve_loop-Owned (suc n) s w =
        resolve_read-Owned (λ s' w'. resolve_loop sem store n r address s' w')
          (resolve_loop-Owned n) s (read_actor_owner address w) (read_shows address w)

    -- Over a store that keeps its promise, a resolution that answers "local", with a reservation or
    -- without, leaves the store with the local node and session as the owner of the address: when
    -- the last call of the store returned, no other node owned it.
    pub resolve_local :
        (s s' : Sem) (w w' : World) (b : Bool)
        → resolve sem store r address s w ≡ (ok (local b), s', w')
        → owner_of (record_at address w') ≡ some (local_owner r)
    unfolding resolve
    resolve_local s s' w w' b h = subst Owned h (resolve_loop-Owned 3 s w)
