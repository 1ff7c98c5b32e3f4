-- ===== src/Cluster/Lease/Invariant/Foreign.antt =====
-- The invariant when a lease of another session takes the place of the node's, or none.
use coactor.Base.{
  ℕ, ◌+◌, ◌≤◌, ◌≡◌, ◌≢◌, inl, inr, Option, none, some, List, Bytes, get, arith, bytes_eq, ap, ◌∙◌,
}
use coactor.Cluster.{NodeRecord, Revision, applied, conflict, indeterminate}
use coactor.Cluster.Lease.System.{
  Phase, asleep, calling, answering, reading_back, ended, released, System,
}
use coactor.Cluster.TestStore.{TestCoordinationStore, TestNodeLease}
use coactor.Cluster.TestStore.Leases.{IsExpired}
use coactor.Cluster.Lease.Invariant.{lease, Held, Written, Known, Older, Pending, Inv}

module _ (ttl : ℕ) (id sid : Bytes) where
  abbrev I : System → Type 0
  I = Inv ttl id sid

  abbrev L : System → Option TestNodeLease
  L s = lease ttl id sid s

  -- The deadlines that the lease upheld have passed.
  abbrev pub Lost : Option TestNodeLease → ℕ → Type 0
  Lost o now = (d : ℕ) → Held ttl id sid o now d → d ≤ now

  -- No lease of the session.
  abbrev pub Foreign : Option TestNodeLease → Type 0
  Foreign none = Unit {0}
  Foreign (some l) = l.node.session_id ≢ sid

  pub IsExpired-Lost : (o : Option TestNodeLease) (now : ℕ) → IsExpired o now → Lost o now
  IsExpired-Lost none now h d q = q
  IsExpired-Lost (some l) now h d q = ground arith

  pub Foreign-Lost : (o : Option TestNodeLease) (now : ℕ) → Foreign o → Lost o now
  Foreign-Lost none now h d q = q
  Foreign-Lost (some l) now h d (inl q) = q
  Foreign-Lost (some l) now h d (inr q) = absurd (h q.0)

  Foreign-Held :
      (o : Option TestNodeLease) (now d : ℕ) → Foreign o → d ≤ now → Held ttl id sid o now d
  Foreign-Held none now d h g = g
  Foreign-Held (some l) now d h g = inl g

  Foreign-Known : (o : Option TestNodeLease) (now gen : ℕ) → Foreign o → Known ttl id sid o now gen
  Foreign-Known none now gen h = tt
  Foreign-Known (some l) now gen h = inl h

  Foreign-Older : (o : Option TestNodeLease) (gen : ℕ) → Foreign o → Older ttl id sid o gen
  Foreign-Older none gen h = tt
  Foreign-Older (some l) gen h = inl h

  Foreign-Written :
      (o : Option TestNodeLease) (started : ℕ) (n : NodeRecord)
      → n.session_id ≡ sid
      → Foreign o
      → Written ttl id sid o started n
  Foreign-Written none started n e h = tt
  Foreign-Written (some l) started n e h =
      inl (λ k. h (ap (λ (m : NodeRecord). m.session_id) k ∙ e))

  Foreign-Pending :
      (p : Phase) (l o : Option TestNodeLease) (now : ℕ) (n : NodeRecord)
      → Foreign o
      → n.session_id ≡ sid
      → Lost l now
      → Pending ttl id sid p l now n
      → Pending ttl id sid p o now n
  Foreign-Pending asleep l o now n h e x q = tt
  Foreign-Pending (ended _) l o now n h e x q = tt
  Foreign-Pending released l o now n h e x q = tt
  Foreign-Pending (calling started) l o now n h e x q = (q.0, Foreign-Older o n.lease_generation h)
  Foreign-Pending (answering started (applied r)) l o now n h e x q = (
    q.0,
    Foreign-Written o started n e h,
    Foreign-Held o now (started + ttl) h (x (started + ttl) q.2),
  )
  Foreign-Pending (answering started conflict) l o now n h e x q =
      (q.0, Foreign-Written o started n e h, tt)
  Foreign-Pending (answering started (indeterminate _)) l o now n h e x q =
      (q.0, Foreign-Written o started n e h, tt)
  Foreign-Pending (reading_back started) l o now n h e x q = (q.0, Foreign-Written o started n e h)

  -- A lease that upholds no deadline in the future goes, or another session's takes its place.
  pub overtaken-Inv :
      (s : System) (c : TestCoordinationStore) (o : Option TestNodeLease) (theirs : List Revision)
      → get id c.leases ≡ o
      → c.now ≡ s.store.now
      → Foreign o
      → Lost (L s) s.store.now
      → I s
      → I (record s { store = c; theirs = theirs })
  overtaken-Inv s c o theirs e f h x v = record {
    ttl_kept = v.ttl_kept;
    id_kept = v.id_kept;
    session_kept = v.session_kept;
    held =
        rw (e, f)
          (Foreign-Held o s.store.now s.authority.deadline h (x s.authority.deadline v.held));
    known = rw (e, f) (Foreign-Known o s.store.now s.node.lease_generation h);
    pending =
        rw (e, f) (Foreign-Pending s.phase (L s) o s.store.now s.node h v.session_kept x v.pending);
  }
