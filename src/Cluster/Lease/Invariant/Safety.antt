-- ===== src/Cluster/Lease/Invariant/Safety.antt =====
-- While a node takes its authority to be valid, the store holds its lease (coactor/src/cluster/node.rs).
use coactor.Base.{
  ℕ, ◌≢◌, List, In, ◌≤◌, ◌<◌, ◌≡◌, refl, inl, inr, true, Option, none, some, Bytes, get, arith,
  subst, sym, bytes_eq,
}
use coactor.Cluster.{NodeRecord, Revision, applied, conflict}
use coactor.Cluster.Lease.{NodeAuthority, new, is_valid}
use coactor.Cluster.Lease.System.{System, released, start, Reach}
use coactor.Cluster.Lease.Invariant.{Held, Inv, Wrote-lease}
use coactor.Cluster.Lease.Invariant.Steps.{Reach-Kept}
use coactor.Cluster.Lease.Invariant.Rivals.{Separate}
use coactor.Cluster.TestStore.Revisions.{IsIssued, IsIssued-mono, next-IsIssued, next_fresh}
use coactor.Cluster.TestStore.{TestCoordinationStore, TestNodeLease, acquire_node, read_node}
use coactor.Cluster.TestStore.Leases.{acquire_effect, held_conflict, held_read}

-- The store holds an unexpired lease of the session under the id.
pub record HoldsLease (store : TestCoordinationStore) (node_id session_id : Bytes) : Type 0 where
  pub lease : TestNodeLease
  pub stored : get node_id store.leases ≡ some lease
  pub of_session : lease.node.session_id ≡ session_id
  pub live : store.now < lease.expires_at_unix_ms

start-Inv :
    (store : TestCoordinationStore) (node : NodeRecord) (ttl started : ℕ) (revision : Revision)
    (theirs : List Revision)
    → (acquire_node store node ttl).0 ≡ applied revision
    → started ≤ store.now
    → Inv ttl node.node_id node.session_id (start store node ttl started revision theirs)
unfolding start new
start-Inv store node ttl started revision theirs h g =
    elim (acquire_effect store node ttl node.node_id) [
      | inl (x, c) ↦ absurd (ground (arith, x, h))
      | inr (x, y, w) ↦
          let l =
            Wrote-lease ttl node.node_id node.session_id store (acquire_node store node ttl).1 node
              ttl refl w in
          record {
            ttl_kept = refl;
            id_kept = refl;
            session_kept = refl;
            held = rw (l, w.now) (inr (refl, omega (arith, g)));
            known = rw (l, w.now) (inr (omega arith, omega arith));
            pending = tt;
          }
    ]

start-Separate :
    (store : TestCoordinationStore) (node : NodeRecord) (ttl started : ℕ) (revision : Revision)
    (theirs : List Revision)
    → (acquire_node store node ttl).0 ≡ applied revision
    → ((r : Revision) → In r theirs → IsIssued store r)
    → Separate node.node_id node.session_id (start store node ttl started revision theirs)
unfolding start
start-Separate store node ttl started revision theirs h i =
    elim (acquire_effect store node ttl node.node_id) [
      | inl (x, c) ↦ absurd (ground (arith, x, h))
      | inr (x, y, w) ↦
          let c = (acquire_node store node ttl).1 in
          let l = Wrote-lease ttl node.node_id node.session_id store c node ttl refl w in
          (
            refl,
            refl,
            record {
              issued = λ r j. IsIssued-mono store c r (omega (arith, w.count)) (i r j);
              stored =
                  λ k e. subst (IsIssued c) (ground (arith, l, e)) (next-IsIssued store c w.count);
              apart = λ k e r j q. next_fresh store r (i r j) (ground (arith, l, e.0, q));
            },
          )
    ]

holds_of_Held :
    (store : TestCoordinationStore) (node_id session_id : Bytes) (ttl deadline : ℕ)
    (o : Option TestNodeLease)
    → get node_id store.leases ≡ o
    → Held ttl node_id session_id o store.now deadline
    → store.now < deadline
    → HoldsLease store node_id session_id
holds_of_Held store node_id session_id ttl deadline none e h g = absurd (omega (arith, h, g))
holds_of_Held store node_id session_id ttl deadline (some l) e (inl h) g =
    absurd (omega (arith, h, g))
holds_of_Held store node_id session_id ttl deadline (some l) e (inr (f, h)) g = record {
  lease = l;
  stored = e;
  of_session = f;
  live = omega (arith, h, g);
}

valid-before : (a : NodeAuthority) (now : ℕ) → is_valid a now ≡ true → now < a.deadline
unfolding is_valid
valid-before a now h = ground arith

-- A node has acquired its lease by a call that began at `started`, no later than the store's clock,
-- and other sessions have any revisions that the store had issued. Then come any steps: renewals
-- whose answers arrive, are lost, are late or are read back, a shutdown, other sessions, of the same
-- Node ID or not, that acquire, and that renew, release and read back with revisions they were given,
-- and time. Until the release of the shutdown has run: if the node's authority is valid at the clock,
-- then the store holds an unexpired lease of the node's session under its id.
pub Reach-HoldsLease :
    (store : TestCoordinationStore) (node : NodeRecord) (ttl started : ℕ) (revision : Revision)
    (theirs : List Revision) (s : System)
    → (acquire_node store node ttl).0 ≡ applied revision
    → started ≤ store.now
    → ((r : Revision) → In r theirs → IsIssued store r)
    → Reach (start store node ttl started revision theirs) s
    → s.phase ≢ released
    → is_valid s.authority s.store.now ≡ true
    → HoldsLease s.store node.node_id node.session_id
Reach-HoldsLease store node ttl started revision theirs s h g i r f v =
    elim ((Reach-Kept ttl node.node_id node.session_id
      (start store node ttl started revision theirs) s r
      (
        start-Separate store node ttl started revision theirs h i,
        inr (start-Inv store node ttl started revision theirs h g),
      )).1) [
        | inl p ↦ absurd (f p)
        | inr k ↦
            holds_of_Held s.store node.node_id node.session_id ttl s.authority.deadline
              (get node.node_id s.store.leases) refl k.held (valid-before s.authority s.store.now v)
      ]

-- After any steps of `Reach` from an acquisition by a node, until the release of its shutdown has run
-- and while its authority is valid at the clock: no record of its Node ID can be acquired. The answer
-- is `Conflict`, and the store does not change.
pub Reach-acquire_node_conflict :
    (store : TestCoordinationStore) (node other : NodeRecord) (ttl term started : ℕ)
    (revision : Revision) (theirs : List Revision) (s : System)
    → (acquire_node store node ttl).0 ≡ applied revision
    → started ≤ store.now
    → ((r : Revision) → In r theirs → IsIssued store r)
    → Reach (start store node ttl started revision theirs) s
    → s.phase ≢ released
    → is_valid s.authority s.store.now ≡ true
    → other.node_id ≡ node.node_id
    → acquire_node s.store other term ≡ (conflict, s.store)
Reach-acquire_node_conflict store node other ttl term started revision theirs s h g i r f v e =
    let l = Reach-HoldsLease store node ttl started revision theirs s h g i r f v in
    held_conflict s.store other term l.lease
      (subst (λ j. get j s.store.leases ≡ some l.lease) (sym e) l.stored) l.live

-- After any steps of `Reach` from an acquisition by a node, until the release of its shutdown has run
-- and while its authority is valid at the clock: every reader of the directory finds, under the Node
-- ID, a record of its session.
pub Reach-read_node :
    (store : TestCoordinationStore) (node : NodeRecord) (ttl started : ℕ) (revision : Revision)
    (theirs : List Revision) (s : System)
    → (acquire_node store node ttl).0 ≡ applied revision
    → started ≤ store.now
    → ((r : Revision) → In r theirs → IsIssued store r)
    → Reach (start store node ttl started revision theirs) s
    → s.phase ≢ released
    → is_valid s.authority s.store.now ≡ true
    → (n : NodeRecord) × (read_node s.store node.node_id ≡ some n)
      × (n.session_id ≡ node.session_id)
Reach-read_node store node ttl started revision theirs s h g i r f v =
    let l = Reach-HoldsLease store node ttl started revision theirs s h g i r f v in
    (l.lease.node, held_read s.store node.node_id l.lease l.stored l.live, l.of_session)
