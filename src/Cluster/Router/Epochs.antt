-- ===== src/Cluster/Router/Epochs.antt =====
-- What resolving an address does to the ownership records of the store in memory.
use coactor.Base.{
  ℕ, zero, suc, ◌≤◌, ◌≡◌, refl, ◌≢◌, Option, none, some, arith, Bool-cases, Option-cases, inl, inr,
  ◌∙◌, get, get-insert,
}
use coactor.Address.{ActorAddress, address_eq}
use coactor.Tokio.{Semaphore}
use coactor.Cluster.{
  Revision, ActorOwner, ActorOwnerRecord, VersionedActorOwnerRecord, MutationOutcome,
  CoordinationErrorKind, applied, conflict, indeterminate, answered, saturating_suc, u64_max,
}
use coactor.Cluster.Router.{
  ClusterRouter, local_claim, is_local_owner, Resolution, settle, take_over, next_epoch,
  revision_of, settle_claim, claim, check_lease, foreign, resolve_read, resolve_loop, resolve,
}
use coactor.Cluster.TestStore.{
  TestCoordinationStore, next, read_actor_owner, compare_exchange_actor_owner, coordination,
}

-- The epoch of a record; 0 stands for no record.
abbrev pub epoch_of : Option VersionedActorOwnerRecord → ℕ
epoch_of none = 0
epoch_of (some v) = v.record_of.ownership_epoch

-- From one store to another the epoch of `a` does not fall and stays a `u64`, and the record of `b`
-- stays.
pub record Advances (a b : ActorAddress) (s t : TestCoordinationStore) : Type 0 where
  pub forward : epoch_of (get a s.owners) ≤ epoch_of (get a t.owners)
  pub in_range : epoch_of (get a t.owners) ≤ u64_max
  pub others : get b t.owners ≡ get b s.owners

module _ (sem : Semaphore) (r : ClusterRouter) (a b : ActorAddress) (a≢b : a ≢ b) where
  open sem use {Sem, try_acquire, release}

  abbrev InRange : TestCoordinationStore → Type 0
  InRange s = epoch_of (get a s.owners) ≤ u64_max

  stay : (s : TestCoordinationStore) → InRange s → Advances a b s s
  stay s h = record { forward = omega arith; in_range = h; others = refl }

  written : ℕ → TestCoordinationStore → VersionedActorOwnerRecord
  written epoch s = record { record_of = local_claim r epoch; revision = next s }

  write-Advances :
      (epoch : ℕ) (o : Option Revision) (s : TestCoordinationStore)
      → InRange s
      → epoch_of (get a s.owners) ≤ epoch
      → epoch ≤ u64_max
      → Advances a b s (compare_exchange_actor_owner s a (local_claim r epoch) o).1
  unfolding compare_exchange_actor_owner local_claim written
  write-Advances epoch o s h low high = record {
    forward = ground (arith, get-insert a a (written epoch s) s.owners);
    in_range = ground (arith, get-insert a a (written epoch s) s.owners);
    others = ground (arith, get-insert b a (written epoch s) s.owners);
  }

  determinate :
      (s : TestCoordinationStore) (e : ActorOwnerRecord) (o : Option Revision)
      (k : CoordinationErrorKind)
      → (compare_exchange_actor_owner s a e o).0 ≢ indeterminate k
  unfolding compare_exchange_actor_owner
  determinate s e o k h = ground arith

  next_epoch_low :
      (current : Option VersionedActorOwnerRecord) (s : TestCoordinationStore)
      → get a s.owners ≡ current
      → InRange s
      → epoch_of (get a s.owners) ≤ next_epoch sem coordination current
  unfolding next_epoch
  next_epoch_low none s e h = ground arith
  next_epoch_low (some v) s e h = ground arith

  next_epoch_high :
      (current : Option VersionedActorOwnerRecord) → next_epoch sem coordination current ≤ u64_max
  unfolding next_epoch
  next_epoch_high none = omega arith
  next_epoch_high (some v) = ground arith

  trans : {s t u : TestCoordinationStore} → Advances a b s t → Advances a b t u → Advances a b s u
  trans p q = record { forward = omega arith; in_range = q.in_range; others = q.others ∙ p.others }

  abbrev End : Resolution sem coordination → TestCoordinationStore
  End x = x.2

  module _ (again : Sem → TestCoordinationStore → Resolution sem coordination)
      (again_Advances : (s : Sem) (w : TestCoordinationStore)
        → InRange w
        → Advances a b w (End (again s w))) where
    -- The store in memory never answers "indeterminate".
    settle-Advances :
        (e : ActorOwnerRecord) (s : Sem) (x : MutationOutcome Revision) (w : TestCoordinationStore)
        → ((k : CoordinationErrorKind) → x ≢ indeterminate k)
        → InRange w
        → Advances a b w (End (settle sem coordination a e again s (answered x, w)))
    unfolding settle
    settle-Advances e s (applied v) w n h = stay w h
    settle-Advances e s conflict w n h = again_Advances (release s) w h
    settle-Advances e s (indeterminate k) w n h = absurd (n k refl)

    take_over-Advances :
        (current : Option VersionedActorOwnerRecord) (s : Sem) (w : TestCoordinationStore)
        → InRange w
        → get a w.owners ≡ current
        → Advances a b w (End (take_over sem coordination r a again current s w))
    unfolding take_over
    take_over-Advances current s w h e =
        let epoch = next_epoch sem coordination current in
        let o = revision_of sem coordination current in
        let claim = local_claim r epoch in
        elim (Option-cases (try_acquire s)) [
          | inl f ↦ rw (f, take_over) (stay w h)
          | inr (s', f) ↦
              let step =
                write-Advances epoch o w h (next_epoch_low current w e h)
                  (next_epoch_high current) in
              rw (f, take_over)
                (trans step (
                  settle-Advances claim s' (compare_exchange_actor_owner w a claim o).0
                    (compare_exchange_actor_owner w a claim o).1 (determinate w claim o)
                    step.in_range))
        ]

    settle_claim-Advances :
        (e : ActorOwnerRecord) (s : Sem) (x : MutationOutcome Revision) (w : TestCoordinationStore)
        → ((k : CoordinationErrorKind) → x ≢ indeterminate k)
        → InRange w
        → Advances a b w (End (settle_claim sem coordination a e s (answered x, w)))
    unfolding settle_claim
    settle_claim-Advances e s (applied v) w n h = stay w h
    settle_claim-Advances e s conflict w n h = stay w h
    settle_claim-Advances e s (indeterminate k) w n h = absurd (n k refl)

    claim-Advances :
        (current : VersionedActorOwnerRecord) (o : Option Revision) (s : Sem)
        (w : TestCoordinationStore)
        → InRange w
        → get a w.owners ≡ some current
        → Advances a b w (
            End
              (claim sem coordination r a (saturating_suc current.record_of.ownership_epoch) o s w))
    unfolding claim next_epoch
    claim-Advances current o s w h e =
        let epoch = saturating_suc current.record_of.ownership_epoch in
        let entry = local_claim r epoch in
        elim (Option-cases (try_acquire s)) [
          | inl f ↦ rw (f, claim) (stay w h)
          | inr (s', f) ↦
              let step =
                write-Advances epoch o w h (next_epoch_low (some current) w e h)
                  (next_epoch_high (some current)) in
              rw (f, claim)
                (trans step (
                  settle_claim-Advances entry s' (compare_exchange_actor_owner w a entry o).0
                    (compare_exchange_actor_owner w a entry o).1 (determinate w entry o)
                    step.in_range))
        ]

    foreign-Advances :
        (current : VersionedActorOwnerRecord) (owner : Option ActorOwner) (s : Sem)
        (w : TestCoordinationStore)
        → InRange w
        → get a w.owners ≡ some current
        → Advances a b w (End (foreign sem coordination r a again current owner s w))
    unfolding foreign check_lease
    foreign-Advances current none s w h e = take_over-Advances (some current) s w h e
    foreign-Advances current (some owner) s w h e = ground (
      arith,
      stay w h,
      take_over-Advances (some current) s w h e,
      claim-Advances current (some current.revision) s w h e,
    )

    resolve_read-Advances :
        (current : Option VersionedActorOwnerRecord) (s : Sem) (w : TestCoordinationStore)
        → InRange w
        → get a w.owners ≡ current
        → Advances a b w (End (resolve_read sem coordination r a again s (answered current, w)))
    unfolding resolve_read
    resolve_read-Advances none s w h e = take_over-Advances none s w h e
    resolve_read-Advances (some current) s w h e =
        elim (Bool-cases (is_local_owner r current.record_of)) [
          | inl f ↦ rw f (stay w h)
          | inr f ↦ rw f (foreign-Advances current current.record_of.owner s w h e)
        ]

  resolve_loop-Advances :
      (n : ℕ) (s : Sem) (w : TestCoordinationStore)
      → InRange w
      → Advances a b w (End (resolve_loop sem coordination n r a s w))
  unfolding resolve_loop read_actor_owner
  resolve_loop-Advances zero s w h = stay w h
  resolve_loop-Advances (suc n) s w h =
      resolve_read-Advances (λ s' w'. resolve_loop sem coordination n r a s' w')
        (resolve_loop-Advances n) (get a w.owners) s w h refl

  -- Resolving an address over the store in memory never lowers the epoch of its record, keeps it
  -- within a `u64`, and leaves the record of any other address alone.
  pub resolve-Advances :
      (s : Sem) (w : TestCoordinationStore)
      → epoch_of (get a w.owners) ≤ u64_max
      → Advances a b w (resolve sem coordination r a s w).2
  unfolding resolve
  resolve-Advances s w h = resolve_loop-Advances 3 s w h
