-- ===== src/Cluster/Lease/Invariant/Rivals.antt =====
-- Every step keeps the revisions of the other sessions apart from those of the node's session.
use coactor.Base.{
  ℕ, ◌≡◌, ◌≢◌, sym, true, false, ◌∙◌, subst, inl, inr, Option, none, some, List, ◌∷◌, Bytes, get,
  ite, bytes_eq, arith, Option-cases,
}
use coactor.Address.{ActorAddress}
use coactor.Cluster.{NodeRecord, ActorOwnerRecord, Revision, answered}
use coactor.Cluster.Lease.{After, renewed, confirming, stopped, unchanged, on_outcome}
use coactor.Cluster.Lease.System.{
  System, Step, tick, lose, shut_down, release, wake, serve, answer, lost_before, lost_after,
  confirm, give_up, late, rival, rival_renewed, rival_released, rival_confirmed, elsewhere_renewed,
  elsewhere_released, owners_change, learn, resume, next_node, release_on_exit,
}
use coactor.Cluster.TestStore.{
  TestCoordinationStore, TestNodeLease, renew_node, acquire_node, release_node, read_node_lease,
  compare_exchange_actor_owner,
}
use coactor.Cluster.TestStore.Leases.{renew_effect, acquire_effect, release_effect, owners_effect}
use coactor.Cluster.TestStore.Revisions.{IsIssued}
use coactor.Cluster.Lease.Invariant.Apart.{
  Apart, less-Apart, write-Apart, learn-Apart, rival_write-Apart,
}

module _ (id sid : Bytes) where
  -- The node keeps its id and its session.
  abbrev pub Separate : System → Type 0
  Separate s = (s.node.node_id ≡ id) × (s.node.session_id ≡ sid) × Apart id sid s.store s.theirs

  abbrev A : TestCoordinationStore → List Revision → Type 0
  A c theirs = Apart id sid c theirs

  renew-Apart :
      (c : TestCoordinationStore) (n : NodeRecord) (ttl : ℕ) (r : Revision) (theirs : List Revision)
      → A c theirs
      → A (renew_node c n ttl r).1 theirs
  renew-Apart c n ttl r theirs v = elim (renew_effect c n ttl r id) [
    | inl (x, e) ↦ rw e v
    | inr (x, m, w) ↦ write-Apart id sid c (renew_node c n ttl r).1 n ttl theirs w v
  ]

  rival_renew-Apart :
      (c : TestCoordinationStore) (n : NodeRecord) (ttl : ℕ) (r : Revision) (theirs : List Revision)
      → n.session_id ≢ sid
      → A c theirs
      → A (renew_node c n ttl r).1 (learn (renew_node c n ttl r).0 theirs)
  unfolding learn
  rival_renew-Apart c n ttl r theirs f v = elim (renew_effect c n ttl r id) [
    | inl (x, e) ↦ rw (x, e) v
    | inr (x, m, w) ↦ rw x (rival_write-Apart id sid c (renew_node c n ttl r).1 n ttl theirs f w v)
  ]

  acquire-Apart :
      (c : TestCoordinationStore) (n : NodeRecord) (ttl : ℕ) (theirs : List Revision)
      → n.session_id ≢ sid
      → A c theirs
      → A (acquire_node c n ttl).1 (learn (acquire_node c n ttl).0 theirs)
  unfolding learn
  acquire-Apart c n ttl theirs f v = elim (acquire_effect c n ttl id) [
    | inl (x, e) ↦ rw (x, e) v
    | inr (x, m, w) ↦ rw x (rival_write-Apart id sid c (acquire_node c n ttl).1 n ttl theirs f w v)
  ]

  kept :
      (i : Bytes) (o : Option TestNodeLease) (l : TestNodeLease)
      → ite (bytes_eq.dec i id) none o ≡ some l
      → o ≡ some l
  kept i o l h = ground (arith, h)

  release-Apart :
      (c : TestCoordinationStore) (i : Bytes) (r : Revision) (theirs : List Revision)
      → A c theirs
      → A (release_node c i r).1 theirs
  release-Apart c i r theirs v = elim (release_effect c i r id) [
    | inl e ↦ rw e v
    | inr (m, n, k, e) ↦
        less-Apart id sid c (release_node c i r).1 theirs (omega (arith, k))
          (λ l h. kept i (get id c.leases) l (sym e ∙ h)) v
  ]

  owners-Apart :
      (c : TestCoordinationStore) (a : ActorAddress) (o : ActorOwnerRecord) (r : Option Revision)
      (theirs : List Revision)
      → A c theirs
      → A (compare_exchange_actor_owner c a o r).1 theirs
  owners-Apart c a o r theirs v =
      let (e, f, g) = owners_effect c a o r id in
      less-Apart id sid c (compare_exchange_actor_owner c a o r).1 theirs g (λ l h. sym e ∙ h) v

  pub read_lease :
      (c : TestCoordinationStore) (n : NodeRecord) (r : Revision)
      → read_node_lease c id ≡ some (n, r)
      → (l : TestNodeLease) × (get id c.leases ≡ some l) × (l.node ≡ n) × (l.revision ≡ r)
  unfolding read_node_lease
  read_lease c n r h = elim (Option-cases (get id c.leases)) [
    | inl e ↦ absurd (ground (arith, h, e))
    | inr (l, e) ↦ (l, e, ground (arith, h, e), ground (arith, h, e))
  ]

  confirmed-Apart :
      (c : TestCoordinationStore) (n : NodeRecord) (r : Revision) (theirs : List Revision)
      → n.session_id ≢ sid
      → read_node_lease c id ≡ some (n, r)
      → A c theirs
      → A c (r ∷ theirs)
  confirmed-Apart c n r theirs f h v =
      let (l, e, m, q) = read_lease c n r h in
      learn-Apart id sid c theirs r (subst (IsIssued c) q (v.stored l e))
        (λ k i. absurd (f (ground (arith, e, i.0, i.1, m)))) v

  resume-Separate :
      (s : System) (started : ℕ) (x : After) → Separate s → Separate (resume s started x)
  unfolding resume
  resume-Separate s started (renewed r a) v = v
  resume-Separate s started confirming v = v
  resume-Separate s started (stopped a) v = v
  resume-Separate s started unchanged v = v

  -- Every step keeps the id and the session of the node, and the revisions apart.
  pub Step-Separate : (s t : System) → Step s t → Separate s → Separate t
  unfolding next_node release_on_exit
  Step-Separate s t (tick then h e) v = subst Separate (sym e) (
    v.0,
    v.1,
    less-Apart id sid s.store (record (s.store) { now = then }) s.theirs (omega arith) (λ l k. k)
        v.2,
  )
  Step-Separate s t (lose p h e) v = subst Separate (sym e) v
  Step-Separate s t (shut_down p e) v = subst Separate (sym e) v
  Step-Separate s t (release true p e) v =
      subst Separate (sym e)
        (v.0, v.1, release-Apart s.store s.node.node_id s.revision s.theirs v.2)
  Step-Separate s t (release false p e) v = subst Separate (sym e) v
  Step-Separate s t (wake available max running p h g e) v = subst Separate (sym e) v
  Step-Separate s t (serve started p e) v =
      subst Separate (sym e)
        (v.0, v.1, renew-Apart s.store s.node s.authority.ttl s.revision s.theirs v.2)
  Step-Separate s t (answer started x p e) v =
      subst Separate (sym e)
        (resume-Separate s started (on_outcome s.authority started s.store.now (answered x)) v)
  Step-Separate s t (lost_before started x p h e) v =
      subst Separate (sym e)
        (resume-Separate s started (on_outcome s.authority started s.store.now x) v)
  Step-Separate s t (lost_after started y x p h e) v =
      subst Separate (sym e)
        (resume-Separate s started (on_outcome s.authority started s.store.now x) v)
  Step-Separate s t (confirm started r p h e) v = subst Separate (sym e) v
  Step-Separate s t (give_up started p e) v = subst Separate (sym e) v
  Step-Separate s t (late old r e f g h) v =
      subst Separate (sym h) (v.0, v.1, renew-Apart s.store old s.authority.ttl r s.theirs v.2)
  Step-Separate s t (rival other term h e) v =
      subst Separate (sym e)
        (v.0, v.1, acquire-Apart s.store other term s.theirs (λ k. h (k ∙ sym v.1)) v.2)
  Step-Separate s t (rival_renewed other term r h i e) v =
      subst Separate (sym e)
        (v.0, v.1, rival_renew-Apart s.store other term r s.theirs (λ k. h (k ∙ sym v.1)) v.2)
  Step-Separate s t (rival_released j r i e) v =
      subst Separate (sym e) (v.0, v.1, release-Apart s.store j r s.theirs v.2)
  Step-Separate s t (rival_confirmed n r h g e) v = subst Separate (sym e) (
    v.0,
    v.1,
    confirmed-Apart s.store n r s.theirs (λ k. h (k ∙ sym v.1))
        (subst (λ j. read_node_lease s.store j ≡ some (n, r)) v.0 g) v.2,
  )
  Step-Separate s t (elsewhere_renewed other term r h e) v =
      subst Separate (sym e) (v.0, v.1, renew-Apart s.store other term r s.theirs v.2)
  Step-Separate s t (elsewhere_released j r h e) v =
      subst Separate (sym e) (v.0, v.1, release-Apart s.store j r s.theirs v.2)
  Step-Separate s t (owners_change a o r e) v =
      subst Separate (sym e) (v.0, v.1, owners-Apart s.store a o r s.theirs v.2)
