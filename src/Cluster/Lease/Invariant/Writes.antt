-- ===== src/Cluster/Lease/Invariant/Writes.antt =====
-- The writes of other sessions keep the invariant.
use coactor.Base.{
  ℕ, ◌≡◌, ◌≢◌, refl, inl, inr, Option, none, some, List, Bytes, get, bytes_eq, sym, ◌∙◌, subst,
  if_neg, if_pos, In,
}
use coactor.Address.{ActorAddress}
use coactor.Cluster.{NodeRecord, Revision, ActorOwnerRecord}
use coactor.Cluster.Lease.System.{System}
use coactor.Cluster.TestStore.{
  TestCoordinationStore, TestNodeLease, acquire_node, renew_node, release_node,
  compare_exchange_actor_owner,
}
use coactor.Cluster.TestStore.Leases.{
  Wrote, new_lease, IsExpired, Matched, renew_effect, acquire_effect, release_effect,
  release_elsewhere, owners_effect,
}
use coactor.Cluster.Lease.Invariant.{lease, Inv, Wrote-lease}
use coactor.Cluster.Lease.Invariant.Apart.{Apart}
use coactor.Cluster.Lease.Invariant.Late.{same-Inv}
use coactor.Cluster.Lease.Invariant.Foreign.{Lost, IsExpired-Lost, Foreign-Lost, overtaken-Inv}

module _ (ttl : ℕ) (id sid : Bytes) where
  abbrev I : System → Type 0
  I = Inv ttl id sid

  abbrev L : System → Option TestNodeLease
  L s = lease ttl id sid s

  elsewhere-lease :
      (c c' : TestCoordinationStore) (n : NodeRecord) (term : ℕ)
      → n.node_id ≢ id
      → Wrote c c' n term id
      → get id c'.leases ≡ get id c.leases
  elsewhere-lease c c' n term e w = w.lease ∙ if_neg (bytes_eq.dec n.node_id id) e _ _

  -- A write of another session, where the lease of this node upholds nothing if it is hit.
  overwritten-Inv :
      (s : System) (c : TestCoordinationStore) (other : NodeRecord) (term : ℕ)
      (theirs : List Revision)
      → other.session_id ≢ s.node.session_id
      → (other.node_id ≡ id → Lost ttl id sid (L s) s.store.now)
      → Wrote s.store c other term id
      → I s
      → I (record s { store = c; theirs = theirs })
  overwritten-Inv s c other term theirs h x w v = elim (bytes_eq.dec other.node_id id) [
    | yes e ↦
        overtaken-Inv ttl id sid s c (some (new_lease s.store other term)) theirs
          (Wrote-lease ttl id sid s.store c other term e w) w.now (λ k. h (k ∙ sym v.session_kept))
          (x e) v
    | no e ↦ same-Inv ttl id sid s c theirs (elsewhere-lease s.store c other term e w) w.now v
  ]

  pub rival-Inv :
      (s : System) (other : NodeRecord) (term : ℕ) (theirs : List Revision)
      → other.session_id ≢ s.node.session_id
      → I s
      → I (record s { store = (acquire_node s.store other term).1; theirs = theirs })
  rival-Inv s other term theirs h v = elim (acquire_effect s.store other term id) [
    | inl (x, c) ↦
        same-Inv ttl id sid s (acquire_node s.store other term).1 theirs (rw c refl) (rw c refl) v
    | inr (x, y, w) ↦
        overwritten-Inv s (acquire_node s.store other term).1 other term theirs h
          (λ e.
            IsExpired-Lost ttl id sid (L s) s.store.now
              (subst (λ j. IsExpired (get j s.store.leases) s.store.now) e y))
          w v
  ]

  -- The lease that another session's revision matches is not the session's.
  theirs-Lost :
      (s : System) (j : Bytes) (r : Revision)
      → Apart id sid s.store s.theirs
      → In r s.theirs
      → Matched (get j s.store.leases) r
      → j ≡ id
      → Lost ttl id sid (L s) s.store.now
  theirs-Lost s j r a i (l, g, q) e =
      let f = subst (λ k. get k s.store.leases ≡ some l) e g in
      subst (λ o. Lost ttl id sid o s.store.now) (sym f)
        (Foreign-Lost ttl id sid (some l) s.store.now (λ k. a.apart l (f, k) r i q))

  pub rival_renewed-Inv :
      (s : System) (other : NodeRecord) (term : ℕ) (r : Revision) (theirs : List Revision)
      → other.session_id ≢ s.node.session_id
      → In r s.theirs
      → Apart id sid s.store s.theirs
      → I s
      → I (record s { store = (renew_node s.store other term r).1; theirs = theirs })
  rival_renewed-Inv s other term r theirs h i a v = elim (renew_effect s.store other term r id) [
    | inl (x, c) ↦
        same-Inv ttl id sid s (renew_node s.store other term r).1 theirs (rw c refl) (rw c refl) v
    | inr (x, m, w) ↦
        overwritten-Inv s (renew_node s.store other term r).1 other term theirs h
          (theirs-Lost s other.node_id r a i m) w v
  ]

  pub rival_released-Inv :
      (s : System) (j : Bytes) (r : Revision)
      → In r s.theirs
      → Apart id sid s.store s.theirs
      → I s
      → I (record s { store = (release_node s.store j r).1 })
  rival_released-Inv s j r i a v = elim (release_effect s.store j r id) [
    | inl c ↦ rw c v
    | inr (m, n, k, g) ↦ elim (bytes_eq.dec j id) [
      | yes e ↦
          overtaken-Inv ttl id sid s (release_node s.store j r).1 none s.theirs
            (g ∙ if_pos (bytes_eq.dec j id) e _ _) n tt (theirs-Lost s j r a i m e) v
      | no e ↦
          same-Inv ttl id sid s (release_node s.store j r).1 s.theirs
            (g ∙ if_neg (bytes_eq.dec j id) e _ _) n v
    ]
  ]

  pub renewed-Inv :
      (s : System) (other : NodeRecord) (term : ℕ) (r : Revision)
      → other.node_id ≢ s.node.node_id
      → I s
      → I (record s { store = (renew_node s.store other term r).1 })
  renewed-Inv s other term r h v = elim (renew_effect s.store other term r id) [
    | inl (x, c) ↦ rw c v
    | inr (x, m, w) ↦
        let c = (renew_node s.store other term r).1 in
        same-Inv ttl id sid s c s.theirs
          (elsewhere-lease s.store c other term (λ k. h (k ∙ sym v.id_kept)) w) w.now v
  ]

  pub released-Inv :
      (s : System) (other : Bytes) (r : Revision)
      → other ≢ s.node.node_id
      → I s
      → I (record s { store = (release_node s.store other r).1 })
  released-Inv s other r h v =
      let (e, f) = release_elsewhere s.store other r id (λ k. h (k ∙ sym v.id_kept)) in
      same-Inv ttl id sid s (release_node s.store other r).1 s.theirs e f v

  pub owners-Inv :
      (s : System) (a : ActorAddress) (o : ActorOwnerRecord) (r : Option Revision)
      → I s
      → I (record s { store = (compare_exchange_actor_owner s.store a o r).1 })
  owners-Inv s a o r v =
      let (e, f, g) = owners_effect s.store a o r id in
      same-Inv ttl id sid s (compare_exchange_actor_owner s.store a o r).1 s.theirs e f v
