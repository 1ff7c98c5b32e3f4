-- ===== src/Cluster/TestStore/Leases.antt =====
-- What the lease operations of the store in memory do to the lease of one node.
use coactor.Base.{
  ℕ, ◌+◌, ◌≤◌, ◌≡◌, ◌<◌, refl, ◌⊎◌, inl, inr, ite, false, Option, none, some, Bytes, get,
  get-insert, get-remove, arith, bytes_eq, Bool-cases, ◌≢◌, true,
}
use coactor.Address.{ActorAddress, address_eq}
use coactor.Cluster.{ActorOwnerRecord, NodeRecord, Revision, applied, conflict}
use coactor.Cluster.TestStore.{
  TestCoordinationStore, TestNodeLease, next, acquire_node, renew_node, release_node, read_node,
  unexpired, is_live, has_revision, matches, compare_exchange_actor_owner,
}

abbrev pub new_lease : TestCoordinationStore → NodeRecord → ℕ → TestNodeLease
new_lease s n ttl = record { node = n; revision = next s; expires_at_unix_ms = s.now + ttl }

-- The write is applied: the lease of `j` is the new one if the write is of `j`.
pub record Wrote (s t : TestCoordinationStore) (n : NodeRecord) (ttl : ℕ) (j : Bytes) : Type 0 where
  pub now : t.now ≡ s.now
  pub count : t.next_revision ≡ s.next_revision + 1
  pub lease :
      get j t.leases ≡ ite (bytes_eq.dec n.node_id j) (some (new_lease s n ttl)) (get j s.leases)

abbrev pub IsExpired : Option TestNodeLease → ℕ → Type 0
IsExpired none now = Unit {0}
IsExpired (some l) now = l.expires_at_unix_ms ≤ now

-- The lease has the revision.
abbrev pub Matched : Option TestNodeLease → Revision → Type 0
Matched o r = (l : TestNodeLease) × (o ≡ some l) × (l.revision ≡ r)

Matched-of :
    (s : TestCoordinationStore) (o : Option TestNodeLease) (r : Revision)
    → has_revision s o r ≡ true
    → Matched o r
unfolding has_revision
Matched-of s none r h = cc
Matched-of s (some l) r h = (l, refl, ground (arith, h))

pub renew_effect :
    (s : TestCoordinationStore) (n : NodeRecord) (ttl : ℕ) (r : Revision) (j : Bytes)
    → (((renew_node s n ttl r).0 ≡ conflict) × ((renew_node s n ttl r).1 ≡ s))
      ⊎ (((renew_node s n ttl r).0 ≡ applied (next s))
          × Matched (get n.node_id s.leases) r
          × Wrote s (renew_node s n ttl r).1 n ttl j)
unfolding renew_node
renew_effect s n ttl r j = elim (Bool-cases (has_revision s (get n.node_id s.leases) r)) [
  | inl e ↦ rw e (
      inr (
        refl,
        Matched-of s (get n.node_id s.leases) r e,
        record {
          now = refl;
          count = refl;
          lease = get-insert j n.node_id (new_lease s n ttl) s.leases;
        },
      ))
  | inr e ↦ rw e (inl (refl, refl))
]

IsExpired-of :
    (s : TestCoordinationStore) (l : Option TestNodeLease) → is_live s l ≡ false → IsExpired l s.now
unfolding is_live
IsExpired-of s none h = tt
IsExpired-of s (some l) h = ground arith

pub acquire_effect :
    (s : TestCoordinationStore) (n : NodeRecord) (ttl : ℕ) (j : Bytes)
    → (((acquire_node s n ttl).0 ≡ conflict) × ((acquire_node s n ttl).1 ≡ s))
      ⊎ (((acquire_node s n ttl).0 ≡ applied (next s))
          × IsExpired (get n.node_id s.leases) s.now
          × Wrote s (acquire_node s n ttl).1 n ttl j)
unfolding acquire_node
acquire_effect s n ttl j = elim (Bool-cases (is_live s (get n.node_id s.leases))) [
  | inl e ↦ rw e (inl (refl, refl))
  | inr e ↦ rw e (
      inr (
        refl,
        IsExpired-of s (get n.node_id s.leases) e,
        record {
          now = refl;
          count = refl;
          lease = get-insert j n.node_id (new_lease s n ttl) s.leases;
        },
      ))
]

pub release_effect :
    (s : TestCoordinationStore) (i : Bytes) (r : Revision) (j : Bytes)
    → ((release_node s i r).1 ≡ s)
      ⊎ (Matched (get i s.leases) r
          × ((release_node s i r).1.now ≡ s.now)
          × ((release_node s i r).1.next_revision ≡ s.next_revision)
          × (get j (release_node s i r).1.leases ≡ ite (bytes_eq.dec i j) none (get j s.leases)))
unfolding release_node
release_effect s i r j = elim (Bool-cases (has_revision s (get i s.leases) r)) [
  | inl e ↦ rw e (inr (Matched-of s (get i s.leases) r e, refl, refl, get-remove j i s.leases))
  | inr e ↦ rw e (inl refl)
]

pub release_elsewhere :
    (s : TestCoordinationStore) (i : Bytes) (r : Revision) (j : Bytes)
    → i ≢ j
    → (get j (release_node s i r).1.leases ≡ get j s.leases) × ((release_node s i r).1.now ≡ s.now)
unfolding release_node
release_elsewhere s i r j h = elim (Bool-cases (has_revision s (get i s.leases) r)) [
  | inl e ↦ rw e (ground (arith, get-remove j i s.leases), refl)
  | inr e ↦ rw e (refl, refl)
]

pub owners_effect :
    (s : TestCoordinationStore) (a : ActorAddress) (e : ActorOwnerRecord) (o : Option Revision)
    (j : Bytes)
    → (get j (compare_exchange_actor_owner s a e o).1.leases ≡ get j s.leases)
      × ((compare_exchange_actor_owner s a e o).1.now ≡ s.now)
      × (s.next_revision ≤ (compare_exchange_actor_owner s a e o).1.next_revision)
unfolding compare_exchange_actor_owner
owners_effect s a e o j = elim (Bool-cases (matches s (get a s.owners) o)) [
  | inl q ↦ rw q (refl, refl, omega arith)
  | inr q ↦ rw q (refl, refl, omega arith)
]

pub held_conflict :
    (s : TestCoordinationStore) (n : NodeRecord) (ttl : ℕ) (l : TestNodeLease)
    → get n.node_id s.leases ≡ some l
    → s.now < l.expires_at_unix_ms
    → acquire_node s n ttl ≡ (conflict, s)
unfolding acquire_node is_live
held_conflict s n ttl l e h = ground arith

pub held_read :
    (s : TestCoordinationStore) (j : Bytes) (l : TestNodeLease)
    → get j s.leases ≡ some l
    → s.now < l.expires_at_unix_ms
    → read_node s j ≡ some l.node
unfolding read_node unexpired
held_read s j l e h = ground arith
