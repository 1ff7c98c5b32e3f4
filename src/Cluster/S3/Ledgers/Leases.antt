-- ===== src/Cluster/S3/Ledgers/Leases.antt =====
-- What is read of a lease that was written.
use coactor.Base.{
  ℕ, ◌≡◌, refl, ◌∙◌, leb, true, false, Option, none, some, [], Bytes, Result, ok, err,
  if◌then◌else◌, arith,
}
use coactor.Address.Keys.{node_key}
use coactor.Cluster.{NodeRecord, Revision, CoordinationErrorKind, applied}
use coactor.Cluster.S3.{
  SdkError, GetObjectOutput, Objects, StoredNodeLease, Json, object_read, collected, unexpired,
  lease_read, node_object, node_of, expiry, read_node_key, put_node, read_node,
}
use coactor.Cluster.S3.Ledgers.{Consistent, RoundTrips, object_shown, put_shown}

module _ (objects : Objects) (json : Json) (prefix : Bytes) (consistent : Consistent objects)
    (round_trips : RoundTrips json) where
  open objects use {World, get_object, wall_time_millis}
  open json use {lease_to_vec, lease_from_slice}
  open consistent use {body_at}

  clash : {x : Option Bytes} {b : Bytes} → x ≡ none → x ≡ some b → ⊥
  clash p q = cc

  same : {x : Option Bytes} {a b : Bytes} → x ≡ some a → x ≡ some b → a ≡ b
  same p q = cc

  collected_missing : (tag body : Option Bytes) → collected tag body ≡ ok none → ⊥
  unfolding collected
  collected_missing none body h = cc
  collected_missing (some tag) none h = cc
  collected_missing (some tag) (some b) h = cc

  missing_shown :
      (x : Result SdkError GetObjectOutput)
      → object_read x ≡ ok none
      → (e : SdkError) × (x ≡ err e) × (e.is_no_such_key ≡ true)
  unfolding object_read
  missing_shown (ok output) h = absurd (collected_missing output.e_tag output.body h)
  missing_shown (err e) h = (e, refl, ground (arith, h))

  -- A read that does not fail shows the record until it expires.
  abbrev pub Shown : NodeRecord → ℕ → ℕ → Result CoordinationErrorKind (Option NodeRecord) → Type 0
  Shown n expires now (err _) = Unit {0}
  Shown n expires now (ok x) = x ≡ (if leb expires now then none else some n)

  erased : StoredNodeLease → StoredNodeLease
  erased l = record l { node = record l.node { node_id = [] } }

  unexpired-Shown :
      (n : NodeRecord) (expires : ℕ) (r : Revision) (x : ℕ × World)
      → Shown n expires x.0 (
          node_of objects json prefix
            (unexpired objects json prefix
              (erased (record { node = n; expires_at_unix_ms = expires }))
              n.node_id
              r
              x).0)
  unfolding unexpired erased
  unexpired-Shown n expires r (now, w) = ground arith

  node_object-Shown :
      (n : NodeRecord) (expires : ℕ) (y : Result CoordinationErrorKind (Option (Bytes × Revision)))
      (w : World)
      → (y ≡ ok none → ⊥)
      → ((b : Bytes) (r : Revision)
          → y ≡ ok (some (b, r))
          → lease_from_slice b ≡ some (erased (record { node = n; expires_at_unix_ms = expires })))
      → Shown n expires
          (wall_time_millis w).0
          (node_of objects json prefix (node_object objects json prefix n.node_id false y w).0)
  unfolding node_object lease_read
  node_object-Shown n expires (err e) w f g = tt
  node_object-Shown n expires (ok none) w f g = absurd (f refl)
  node_object-Shown n expires (ok (some (b, r))) w f g =
      rw (g b r refl) (unexpired-Shown n expires r (wall_time_millis w))

  -- When a lease is written and no one else writes its object before the read, a read of the node
  -- that does not fail shows the very record that was written, its Node ID included, until the clock
  -- reaches its expiry, and nothing from then on.
  pub read_node-put_node :
      (n : NodeRecord) (ttl : ℕ) (o : Option Revision) (w : World) (v : Revision)
      → (put_node objects json prefix n ttl o w).0 ≡ ok (applied v)
      → body_at
          (node_key prefix n.node_id)
          (get_object (node_key prefix n.node_id) (put_node objects json prefix n ttl o w).1).1
        ≡ body_at (node_key prefix n.node_id) (put_node objects json prefix n ttl o w).1
      → Shown n
          (expiry (wall_time_millis w).0 ttl)
          (wall_time_millis
            (get_object (node_key prefix n.node_id) (put_node objects json prefix n ttl o w).1).1).0
          (read_node objects json prefix n.node_id (put_node objects json prefix n ttl o w).1).0
  unfolding put_node read_node read_node_key erased
  read_node-put_node n ttl o w v h q =
      let k = node_key prefix n.node_id in
      let (now, w') = wall_time_millis w in
      let l : StoredNodeLease = record { node = n; expires_at_unix_ms = expiry now ttl } in
      let (body, f, g) =
        put_shown objects json prefix consistent round_trips k (lease_to_vec l) o w' v h in
      let w1 = (put_node objects json prefix n ttl o w).1 in
      let x = get_object k w1 in
      node_object-Shown n (expiry now ttl) (object_read x.0) x.1
        (λ e.
          let (e', p, p') = missing_shown x.0 e in clash (consistent.missing k w1 e' p p') (q ∙ g))
        (λ b r e.
          let (output, p, p') = object_shown objects json prefix consistent round_trips x.0 b r e in
          rw (same (consistent.got k w1 output b p p') (q ∙ g)) (round_trips.lease l body f))
