-- ===== src/Cluster/Lease/Invariant.antt =====
-- What holds between the steps of the renewal task, and that the task's own steps keep it.
pub mod Apart
pub mod Rivals
pub mod Answers
pub mod Late
pub mod Foreign
pub mod Writes
pub mod Steps
pub mod Safety
use coactor.Base.{
  ℕ, ◌+◌, ◌≤◌, ◌<◌, ◌≡◌, ◌≢◌, ◌⊎◌, inl, inr, Bool, true, false, Option, none, some, Bytes, get,
  arith, bytes_eq, ap, ◌∙◌, if_pos,
}
use coactor.Cluster.{
  NodeRecord, Revision, MutationOutcome, applied, conflict, indeterminate, saturating_suc, u64_max,
}
use coactor.Cluster.Lease.{new, fence}
use coactor.Cluster.Lease.System.{
  Phase, asleep, calling, answering, reading_back, ended, released, System, next_node,
}
use coactor.Cluster.TestStore.Leases.{Wrote, new_lease}
use coactor.Cluster.TestStore.{TestCoordinationStore, TestNodeLease}

module _ (ttl : ℕ) (id sid : Bytes) where
  -- The lease of this node in the store.
  abbrev lease : System → Option TestNodeLease
  lease s = get id s.store.leases

  -- The instant `d` has passed, or the session holds the lease until `d` at least.
  abbrev Held : Option TestNodeLease → ℕ → ℕ → Type 0
  Held none now d = d ≤ now
  Held (some l) now d = (d ≤ now) ⊎ ((l.node.session_id ≡ sid) × (d ≤ l.expires_at_unix_ms))

  -- A lease of the session ends at most one term from now, and has no later generation.
  abbrev Known : Option TestNodeLease → ℕ → ℕ → Type 0
  Known none now gen = Unit {0}
  Known (some l) now gen =
      (l.node.session_id ≢ sid)
      ⊎ ((l.expires_at_unix_ms ≤ now + ttl) × (l.node.lease_generation ≤ gen))

  abbrev Older : Option TestNodeLease → ℕ → Type 0
  Older none gen = Unit {0}
  Older (some l) gen = (l.node.session_id ≢ sid) ⊎ (l.node.lease_generation < gen)

  -- If the lease holds the record of the renewal, it was written after the call began.
  abbrev Written : Option TestNodeLease → ℕ → NodeRecord → Type 0
  Written none started node = Unit {0}
  Written (some l) started node = (l.node ≢ node) ⊎ (started + ttl ≤ l.expires_at_unix_ms)

  abbrev Answered : MutationOutcome Revision → Option TestNodeLease → ℕ → ℕ → Type 0
  Answered (applied _) l now started = Held l now (started + ttl)
  Answered _ l now started = Unit {0}

  abbrev Pending : Phase → Option TestNodeLease → ℕ → NodeRecord → Type 0
  Pending asleep l now node = Unit {0}
  Pending (ended _) l now node = Unit {0}
  Pending released l now node = Unit {0}
  Pending (calling started) l now node = (started ≤ now) × Older l node.lease_generation
  Pending (answering started x) l now node =
      (started ≤ now) × Written l started node × Answered x l now started
  Pending (reading_back started) l now node = (started ≤ now) × Written l started node

  record Inv (s : System) : Type 0 where
    ttl_kept : s.authority.ttl ≡ ttl
    id_kept : s.node.node_id ≡ id
    session_kept : s.node.session_id ≡ sid
    held : Held (lease s) s.store.now s.authority.deadline
    known : Known (lease s) s.store.now s.node.lease_generation
    pending : Pending s.phase (lease s) s.store.now s.node

  Pending-mono :
      (p : Phase) (l : Option TestNodeLease) (now then : ℕ) (node : NodeRecord)
      → now ≤ then
      → Pending p l now node
      → Pending p l then node
  Pending-mono asleep l now then node h q = tt
  Pending-mono (ended _) l now then node h q = tt
  Pending-mono released l now then node h q = tt
  Pending-mono (calling started) l now then node h q = (omega arith, q.1)
  Pending-mono (answering started (applied r)) none now then node h q = ground arith
  Pending-mono (answering started (applied r)) (some l) now then node h q = ground arith
  Pending-mono (answering started conflict) l now then node h q = (omega arith, q.1, tt)
  Pending-mono (answering started (indeterminate _)) l now then node h q = (omega arith, q.1, tt)
  Pending-mono (reading_back started) l now then node h q = (omega arith, q.1)

  Held-mono :
      (l : Option TestNodeLease) (now then d : ℕ) → now ≤ then → Held l now d → Held l then d
  Held-mono none now then d h q = omega arith
  Held-mono (some l) now then d h q = ground arith

  Known-mono :
      (l : Option TestNodeLease) (now then gen gen' : ℕ)
      → now ≤ then
      → gen ≤ gen'
      → Known l now gen
      → Known l then gen'
  Known-mono none now then gen gen' h k q = tt
  Known-mono (some l) now then gen gen' h k q = ground arith

  tick-Inv :
      (s : System) (then : ℕ)
      → s.store.now ≤ then
      → Inv s
      → Inv (record s { store = record (s.store) { now = then } })
  tick-Inv s then h v = record {
    ttl_kept = v.ttl_kept;
    id_kept = v.id_kept;
    session_kept = v.session_kept;
    held = Held-mono (lease s) s.store.now then s.authority.deadline h v.held;
    known =
        Known-mono (lease s) s.store.now then s.node.lease_generation s.node.lease_generation h
          (omega arith) v.known;
    pending = Pending-mono s.phase (lease s) s.store.now then s.node h v.pending;
  }

  -- The task ends: only its authority changes, and its deadline stays.
  fence-Inv :
      (s : System) → Inv s → Inv (record s { authority = fence s.authority; phase = ended false })
  unfolding fence
  fence-Inv s v = record {
    ttl_kept = ground arith;
    id_kept = v.id_kept;
    session_kept = v.session_kept;
    held = ground arith;
    known = v.known;
    pending = tt;
  }

  sleep-Inv : (s : System) → Inv s → Inv (record s { phase = asleep })
  sleep-Inv s v = record {
    ttl_kept = v.ttl_kept;
    id_kept = v.id_kept;
    session_kept = v.session_kept;
    held = v.held;
    known = v.known;
    pending = tt;
  }

  end-Inv : (s : System) (release : Bool) → Inv s → Inv (record s { phase = ended release })
  end-Inv s release v = record {
    ttl_kept = v.ttl_kept;
    id_kept = v.id_kept;
    session_kept = v.session_kept;
    held = v.held;
    known = v.known;
    pending = tt;
  }

  Older-suc :
      (l : Option TestNodeLease) (now gen : ℕ)
      → Known l now gen
      → gen < u64_max
      → Older l (saturating_suc gen)
  Older-suc none now gen k h = tt
  Older-suc (some l) now gen k h = ground arith

  wake-Inv :
      (s : System) (available max : ℕ) (running : Bool)
      → s.node.lease_generation < u64_max
      → Inv s
      → Inv (record s {
        node = next_node available max running s.store.now s.node;
        phase = calling s.store.now;
      })
  unfolding next_node
  wake-Inv s available max running h v = record {
    ttl_kept = v.ttl_kept;
    id_kept = v.id_kept;
    session_kept = v.session_kept;
    held = v.held;
    known =
        Known-mono (lease s) s.store.now s.store.now s.node.lease_generation
          (saturating_suc s.node.lease_generation) (omega arith) (ground arith) v.known;
    pending = (omega arith, Older-suc (lease s) s.store.now s.node.lease_generation v.known h);
  }

  Held-write :
      (l : Option TestNodeLease) (now d gen : ℕ) (new : TestNodeLease)
      → new.node.session_id ≡ sid
      → new.expires_at_unix_ms ≡ now + ttl
      → Known l now gen
      → Held l now d
      → Held (some new) now d
  Held-write none now d gen new e f k h = inl h
  Held-write (some l) now d gen new e f k h = ground arith

  Written-of-Older :
      (l : Option TestNodeLease) (started : ℕ) (node : NodeRecord)
      → node.session_id ≡ sid
      → Older l node.lease_generation
      → Written l started node
  Written-of-Older none started node e h = tt
  Written-of-Older (some l) started node e (inl h) =
      inl (λ q. h (ap (λ (n : NodeRecord). n.session_id) q ∙ e))
  Written-of-Older (some l) started node e (inr h) =
      inl (λ q. omega (arith, ap (λ (n : NodeRecord). n.lease_generation) q))

  Wrote-lease :
      (c c' : TestCoordinationStore) (n : NodeRecord) (term : ℕ)
      → n.node_id ≡ id
      → Wrote c c' n term id
      → get id c'.leases ≡ some (new_lease c n term)
  Wrote-lease c c' n term e w = w.lease ∙ if_pos (bytes_eq.dec n.node_id id) e _ _

  -- The session writes a lease: what holds of the fields that speak of it.
  record WrittenNow (s : System) (c' : TestCoordinationStore) : Type 0 where
    held : Held (get id c'.leases) c'.now s.authority.deadline
    known : Known (get id c'.leases) c'.now s.node.lease_generation
    renewed_until :
        (started : ℕ)
        → started ≤ s.store.now
        → Held (get id c'.leases) c'.now (started + ttl)
          × ((m : NodeRecord) → Written (get id c'.leases) started m)

  written :
      (s : System) (c' : TestCoordinationStore) (n : NodeRecord)
      → n.node_id ≡ id
      → n.session_id ≡ sid
      → n.lease_generation ≤ s.node.lease_generation
      → Inv s
      → Wrote s.store c' n s.authority.ttl id
      → WrittenNow s c'
  written s c' n i e g v w =
      let l = Wrote-lease s.store c' n s.authority.ttl i w in
      record {
        held =
            rw (l, w.now)
              (Held-write (lease s) s.store.now s.authority.deadline s.node.lease_generation
                (new_lease s.store n s.authority.ttl) e (omega (arith, v.ttl_kept)) v.known v.held);
        known = rw (l, w.now) (inr (omega (arith, v.ttl_kept), g));
        renewed_until = λ started h.
            rw (l, w.now)
              (inr (e, omega (arith, v.ttl_kept)), λ m. inr (omega (arith, v.ttl_kept)));
      }
