-- ===== src/Cluster/Lease/Invariant/Apart.antt =====
-- No other session has the revision of a lease of the node's session.
use coactor.Base.{
  ℕ, ◌≤◌, ◌≡◌, ◌≢◌, ◌⊎◌, sym, ap, ◌∙◌, subst, inl, inr, some, List, ◌∷◌, Bytes, get, if_pos, if_neg,
  bytes_eq, arith, In, In_cons,
}
use coactor.Cluster.{NodeRecord, Revision}
use coactor.Cluster.TestStore.{TestCoordinationStore, TestNodeLease, next}
use coactor.Cluster.TestStore.Leases.{Wrote, new_lease}
use coactor.Cluster.TestStore.Revisions.{IsIssued, next_fresh, next-IsIssued, IsIssued-mono}

module _ (id sid : Bytes) where
  abbrev IsOurs : TestCoordinationStore → TestNodeLease → Type 0
  IsOurs c l = (get id c.leases ≡ some l) × (l.node.session_id ≡ sid)

  pub record Apart (c : TestCoordinationStore) (theirs : List Revision) : Type 0 where
    pub issued : (r : Revision) → In r theirs → IsIssued c r
    pub stored : (l : TestNodeLease) → get id c.leases ≡ some l → IsIssued c l.revision
    pub apart : (l : TestNodeLease) → IsOurs c l → (r : Revision) → In r theirs → l.revision ≢ r

  -- The lease stays or goes.
  pub less-Apart :
      (c c' : TestCoordinationStore) (theirs : List Revision)
      → c.next_revision ≤ c'.next_revision
      → ((l : TestNodeLease) → get id c'.leases ≡ some l → get id c.leases ≡ some l)
      → Apart c theirs
      → Apart c' theirs
  less-Apart c c' theirs g e v = record {
    issued = λ r h. IsIssued-mono c c' r g (v.issued r h);
    stored = λ l h. IsIssued-mono c c' l.revision g (v.stored l (e l h));
    apart = λ l h r i. v.apart l (e l h.0, h.1) r i;
  }

  -- The lease after a write is the new one or the old one.
  after_write :
      (c c' : TestCoordinationStore) (n : NodeRecord) (ttl : ℕ) (l : TestNodeLease)
      → Wrote c c' n ttl id
      → get id c'.leases ≡ some l
      → (l ≡ new_lease c n ttl) ⊎ (get id c.leases ≡ some l)
  after_write c c' n ttl l w h = elim (bytes_eq.dec n.node_id id) [
    | yes e ↦ inl (
        ground (
          arith,
          w.lease,
          h,
          if_pos (bytes_eq.dec n.node_id id) e (some (new_lease c n ttl)) (get id c.leases),
        ))
    | no e ↦ inr (
        ground (
          arith,
          w.lease,
          h,
          if_neg (bytes_eq.dec n.node_id id) e (some (new_lease c n ttl)) (get id c.leases),
        ))
  ]

  -- A write that no other session learns of.
  pub write-Apart :
      (c c' : TestCoordinationStore) (n : NodeRecord) (ttl : ℕ) (theirs : List Revision)
      → Wrote c c' n ttl id
      → Apart c theirs
      → Apart c' theirs
  write-Apart c c' n ttl theirs w v = record {
    issued = λ r h. IsIssued-mono c c' r (omega (arith, w.count)) (v.issued r h);
    stored = λ l h. elim (after_write c c' n ttl l w h) [
      | inl e ↦ rw e (next-IsIssued c c' w.count)
      | inr e ↦ IsIssued-mono c c' l.revision (omega (arith, w.count)) (v.stored l e)
    ];
    apart = λ l h r i. elim (after_write c c' n ttl l w h.0) [
      | inl e ↦
          λ q. next_fresh c r (v.issued r i) (sym (ap (λ (m : TestNodeLease). m.revision) e) ∙ q)
      | inr e ↦ v.apart l (e, h.1) r i
    ];
  }

  -- Another session learns a revision that no lease of the node's session has.
  pub learn-Apart :
      (c : TestCoordinationStore) (theirs : List Revision) (r : Revision)
      → IsIssued c r
      → ((l : TestNodeLease) → IsOurs c l → l.revision ≢ r)
      → Apart c theirs
      → Apart c (r ∷ theirs)
  learn-Apart c theirs r g a v = record {
    issued = λ q h. elim (In_cons q r theirs h) [
      | inl e ↦ subst (IsIssued c) (sym e) g
      | inr i ↦ v.issued q i
    ];
    stored = v.stored;
    apart = λ l h q i. elim (In_cons q r theirs i) [
      | inl e ↦ λ k. a l h (k ∙ e)
      | inr j ↦ v.apart l h q j
    ];
  }

  -- A write of another session, which learns its revision.
  pub rival_write-Apart :
      (c c' : TestCoordinationStore) (n : NodeRecord) (ttl : ℕ) (theirs : List Revision)
      → n.session_id ≢ sid
      → Wrote c c' n ttl id
      → Apart c theirs
      → Apart c' (next c ∷ theirs)
  rival_write-Apart c c' n ttl theirs f w v =
      learn-Apart c' theirs (next c) (next-IsIssued c c' w.count)
        (λ l h. elim (after_write c c' n ttl l w h.0) [
          | inl e ↦ absurd (f (sym (ap (λ (m : TestNodeLease). m.node.session_id) e) ∙ h.1))
          | inr e ↦ λ q. next_fresh c l.revision (v.stored l e) (sym q)
        ])
        (write-Apart c c' n ttl theirs w v)
