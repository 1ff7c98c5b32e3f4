-- ===== src/Cluster/Lease/Invariant/Late.antt =====
-- A read-back, and the calls that reach the store late, keep the invariant.
use coactor.Base.{
  ℕ, ◌+◌, ◌≤◌, ◌≡◌, inl, inr, Option, some, List, Bytes, get, arith, bytes_eq, sym, ap, ◌∙◌, subst,
}
use coactor.Cluster.{NodeRecord, Revision, applied, conflict, indeterminate}
use coactor.Cluster.Lease.{renew}
use coactor.Cluster.Lease.System.{
  Phase, asleep, calling, answering, reading_back, ended, released, System, IsLate,
}
use coactor.Cluster.TestStore.{TestCoordinationStore, TestNodeLease, renew_node, read_node_lease}
use coactor.Cluster.TestStore.Leases.{new_lease, renew_effect}
use coactor.Cluster.Lease.Invariant.{
  lease, Held, Written, Pending, Inv, WrittenNow, written, Wrote-lease,
}
use coactor.Cluster.Lease.Invariant.Answers.{resume_renewed-Inv}
use coactor.Cluster.Lease.Invariant.Rivals.{read_lease}

module _ (ttl : ℕ) (id sid : Bytes) where
  abbrev I : System → Type 0
  I = Inv ttl id sid

  abbrev L : System → Option TestNodeLease
  L s = lease ttl id sid s

  -- The lease of the node and the clock stay.
  pub same-Inv :
      (s : System) (c : TestCoordinationStore) (theirs : List Revision)
      → get id c.leases ≡ L s
      → c.now ≡ s.store.now
      → I s
      → I (record s { store = c; theirs = theirs })
  same-Inv s c theirs e f v = record {
    ttl_kept = v.ttl_kept;
    id_kept = v.id_kept;
    session_kept = v.session_kept;
    held = rw (e, f) v.held;
    known = rw (e, f) v.known;
    pending = rw (e, f) v.pending;
  }

  pub Pending-at :
      (s : System) (p : Phase) → s.phase ≡ p → I s → Pending ttl id sid p (L s) s.store.now s.node
  Pending-at s p e v = subst (λ q. Pending ttl id sid q (L s) s.store.now s.node) e v.pending

  confirmed :
      (l : TestNodeLease) (now started : ℕ) (n : NodeRecord)
      → l.node ≡ n
      → n.session_id ≡ sid
      → Written ttl id sid (some l) started n
      → Held ttl id sid (some l) now (started + ttl)
  confirmed l now started n e f (inl h) = absurd (h e)
  confirmed l now started n e f (inr h) = inr (ap (λ (m : NodeRecord). m.session_id) e ∙ f, h)

  pub confirm-Inv :
      (s : System) (started : ℕ) (r : Revision)
      → s.phase ≡ reading_back started
      → read_node_lease s.store s.node.node_id ≡ some (s.node, r)
      → I s
      → I (record s { authority = renew s.authority started; revision = r; phase = asleep })
  confirm-Inv s started r p h v =
      let q = Pending-at s (reading_back started) p v in
      let (l, e, f, g) =
        read_lease id sid s.store s.node r
          (subst (λ j. read_node_lease s.store j ≡ some (s.node, r)) v.id_kept h) in
      resume_renewed-Inv ttl id sid s started r
        (subst (λ m. Held ttl id sid m s.store.now (started + ttl)) (sym e)
          (confirmed l s.store.now started s.node f v.session_kept
            (subst (λ m. Written ttl id sid m started s.node) e q.1)))
        v

  late-Pending :
      (s : System) (c : TestCoordinationStore) (old : NodeRecord) (p : Phase)
      → c.now ≡ s.store.now
      → get id c.leases ≡ some (new_lease s.store old s.authority.ttl)
      → IsLate p old.lease_generation s.node.lease_generation
      → WrittenNow ttl id sid s c
      → Pending ttl id sid p (L s) s.store.now s.node
      → Pending ttl id sid p (get id c.leases) c.now s.node
  late-Pending s c old asleep e l g f q = tt
  late-Pending s c old (ended _) e l g f q = tt
  late-Pending s c old released e l g f q = tt
  late-Pending s c old (calling started) e l g f q = (omega (arith, e, q.0), rw l (inr g))
  late-Pending s c old (answering started (applied r)) e l g f q =
      let k = f.renewed_until started q.0 in (omega (arith, e, q.0), k.1 s.node, k.0)
  late-Pending s c old (answering started conflict) e l g f q =
      let k = f.renewed_until started q.0 in (omega (arith, e, q.0), k.1 s.node, tt)
  late-Pending s c old (answering started (indeterminate _)) e l g f q =
      let k = f.renewed_until started q.0 in (omega (arith, e, q.0), k.1 s.node, tt)
  late-Pending s c old (reading_back started) e l g f q =
      let k = f.renewed_until started q.0 in (omega (arith, e, q.0), k.1 s.node)

  IsLate-le : (p : Phase) (a b : ℕ) → IsLate p a b → a ≤ b
  IsLate-le asleep a b h = h
  IsLate-le (ended _) a b h = h
  IsLate-le released a b h = h
  IsLate-le (calling started) a b h = omega (arith, h)
  IsLate-le (answering started x) a b h = h
  IsLate-le (reading_back started) a b h = h

  -- A write of the session's own record, at any moment at which it cannot be taken for a later one.
  pub late-Inv :
      (s : System) (old : NodeRecord) (r : Revision)
      → old.node_id ≡ s.node.node_id
      → old.session_id ≡ s.node.session_id
      → IsLate s.phase old.lease_generation s.node.lease_generation
      → I s
      → I (record s { store = (renew_node s.store old s.authority.ttl r).1 })
  late-Inv s old r e f g v = elim (renew_effect s.store old s.authority.ttl r id) [
    | inl (x, c) ↦ rw c v
    | inr (x, m, w) ↦
        let c = (renew_node s.store old s.authority.ttl r).1 in
        let k =
          written ttl id sid s c old (e ∙ v.id_kept) (f ∙ v.session_kept)
            (IsLate-le s.phase old.lease_generation s.node.lease_generation g) v w in
        record {
          ttl_kept = v.ttl_kept;
          id_kept = v.id_kept;
          session_kept = v.session_kept;
          held = k.held;
          known = k.known;
          pending =
              late-Pending s c old s.phase w.now
                (Wrote-lease ttl id sid s.store c old s.authority.ttl (e ∙ v.id_kept) w) g k
                v.pending;
        }
  ]
