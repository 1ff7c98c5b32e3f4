-- ===== src/Cluster/S3/Ledgers.antt =====
-- What S3 and serde_json promise, and the promise that the store then keeps.
pub mod Leases
use coactor.Base.{◌≡◌, refl, Bool, true, Option, none, some, [], Bytes, Result, ok, err, arith}
use coactor.Address.{ActorAddress}
use coactor.Address.Keys.{actor_key}
use coactor.Tokio.{Semaphore}
use coactor.Cluster.{
  Revision, ActorOwnerRecord, VersionedActorOwnerRecord, CoordinationErrorKind, applied, answered,
}
use coactor.Cluster.Router.{ClusterRouter, resolve, local, local_owner}
use coactor.Cluster.Router.Owned.{Ledger, owner_of, resolve_local}
use coactor.Cluster.S3.{
  SdkError, GetObjectOutput, Condition, Objects, StoredNodeLease, Json, written, object_read,
  collected, owner_read, owner_object, condition, put_body, timed, classify_write_error,
  is_failed_precondition, read_actor_key, compare_exchange_actor_owner, coordination,
}

-- The documented consistency of a bucket, where `body_at` is the body of the object of a key: a read
-- shows the object as it is when it returns, and a write that is confirmed has replaced it. A key
-- without an object, and no other, is reported as missing.
pub record Consistent (objects : Objects) : Type 0 where
  pub body_at : Bytes → objects.World → Option Bytes
  pub got :
      (k : Bytes) (w : objects.World) (output : GetObjectOutput) (body : Bytes)
      → (objects.get_object k w).0 ≡ ok output
      → output.body ≡ some body
      → body_at k (objects.get_object k w).1 ≡ some body
  pub missing :
      (k : Bytes) (w : objects.World) (e : SdkError)
      → (objects.get_object k w).0 ≡ err e
      → e.is_no_such_key ≡ true
      → body_at k (objects.get_object k w).1 ≡ none
  pub put :
      (k body : Bytes) (c : Condition) (w : objects.World) (etag : Option Bytes)
      → (objects.put_object k body c w).0 ≡ ok etag
      → body_at k (objects.put_object k body c w).1 ≡ some body

-- What was written is read back, the skipped Node ID as the empty text.
pub record RoundTrips (json : Json) : Type 0 where
  pub lease :
      (l : StoredNodeLease) (body : Bytes)
      → json.lease_to_vec l ≡ some body
      → json.lease_from_slice body ≡ some (record l { node = record l.node { node_id = [] } })
  pub owner :
      (e : ActorOwnerRecord) (body : Bytes)
      → json.owner_to_vec e ≡ some body
      → json.owner_from_slice body ≡ some e

module _ (objects : Objects) (json : Json) (prefix : Bytes) (consistent : Consistent objects)
    (round_trips : RoundTrips json) where
  open objects use {World, get_object, put_object}
  open json use {owner_to_vec, owner_from_slice}
  open consistent use {body_at, got, put}

  abbrev decoded : Option Bytes → Option ActorOwnerRecord
  decoded none = none
  decoded (some body) = owner_from_slice body

  -- The ownership record in the bucket.
  unfoldable pub record_in : ActorAddress → World → Option ActorOwnerRecord
  record_in address w = decoded (body_at (actor_key prefix address) w)

  collected_shown :
      (tag body : Option Bytes) (b : Bytes) (r : Revision)
      → collected tag body ≡ ok (some (b, r))
      → body ≡ some b
  unfolding collected
  collected_shown none body b r h = cc
  collected_shown (some tag) none b r h = cc
  collected_shown (some tag) (some body) b r h = cc

  object_shown :
      (x : Result SdkError GetObjectOutput) (b : Bytes) (r : Revision)
      → object_read x ≡ ok (some (b, r))
      → (output : GetObjectOutput) × (x ≡ ok output) × (output.body ≡ some b)
  unfolding object_read
  object_shown (ok output) b r h = (output, refl, collected_shown output.e_tag output.body b r h)
  object_shown (err e) b r h = ground (arith, h)

  entry_shown :
      (r : Revision) (x : Option ActorOwnerRecord) (v : VersionedActorOwnerRecord)
      → owner_read objects json prefix r x ≡ ok (some v)
      → x ≡ some v.record_of
  unfolding owner_read
  entry_shown r none v h = cc
  entry_shown r (some e) v h = ground (arith, h)

  owner_shown :
      (x : Result CoordinationErrorKind (Option (Bytes × Revision))) (v : VersionedActorOwnerRecord)
      → owner_object objects json prefix x ≡ ok (some v)
      → (b : Bytes) × (r : Revision) × (x ≡ ok (some (b, r)))
        × (owner_from_slice b ≡ some v.record_of)
  unfolding owner_object
  owner_shown (err e) v h = cc
  owner_shown (ok none) v h = cc
  owner_shown (ok (some (b, r))) v h = (b, r, refl, entry_shown r (owner_from_slice b) v h)

  pub shows :
      (a : ActorAddress) (w : World) (v : VersionedActorOwnerRecord)
      → (read_actor_key objects json prefix a w).0 ≡ ok (some v)
      → record_in a (read_actor_key objects json prefix a w).1 ≡ some v.record_of
  unfolding read_actor_key record_in
  shows a w v h =
      let k = actor_key prefix a in
      let (b, r, e, f) = owner_shown (object_read (get_object k w).0) v h in
      let (output, g, q) = object_shown (get_object k w).0 b r e in rw (got k w output b g q) f

  unapplied : (e : SdkError) (v : Revision) → written (err e) ≡ ok (applied v) → ⊥
  unfolding written classify_write_error is_failed_precondition
  unapplied e v h = ground (arith, h)

  written_shown :
      (x : Result SdkError (Option Bytes)) (v : Revision)
      → written x ≡ ok (applied v)
      → (etag : Option Bytes) × (x ≡ ok etag)
  unfolding written
  written_shown (ok etag) v h = (etag, refl)
  written_shown (err e) v h = absurd (unapplied e v h)

  put_shown :
      (k : Bytes) (x : Option Bytes) (o : Option Revision) (w : World) (v : Revision)
      → (put_body objects json prefix k x o w).0 ≡ ok (applied v)
      → (body : Bytes) × (x ≡ some body)
        × (body_at k (put_body objects json prefix k x o w).1 ≡ some body)
  unfolding put_body
  put_shown k none o w v h = cc
  put_shown k (some body) o w v h =
      let (etag, e) = written_shown (put_object k body (condition o) w).0 v h in
      (body, refl, put k body (condition o) w etag e)

  pub writes :
      (a : ActorAddress) (e : ActorOwnerRecord) (o : Option Revision) (w : World) (v : Revision)
      → (compare_exchange_actor_owner objects json prefix a e o w).0 ≡ ok (applied v)
      → record_in a (compare_exchange_actor_owner objects json prefix a e o w).1 ≡ some e
  unfolding compare_exchange_actor_owner record_in
  writes a e o w v h =
      let (body, f, g) = put_shown (actor_key prefix a) (owner_to_vec e) o w v h in
      rw g (round_trips.owner e body f)

  module _ (elapses : World → Bool) where
    pub in_time :
        {A : Type 0} (x : Result CoordinationErrorKind A × World) (a : A)
        → (timed objects json prefix elapses x).0 ≡ answered a
        → (x.0 ≡ ok a) × ((timed objects json prefix elapses x).1 ≡ x.1)
    unfolding timed
    in_time (ok b, w) a h = ground (arith, h)
    in_time (err e, w) a h = ground (arith, h)

    abbrev pub ledger : Ledger (coordination objects json prefix elapses)
    ledger = record {
      record_at = record_in;
      read_shows = λ a w v h.
          let (p, q) = in_time (read_actor_key objects json prefix a w) (some v) h in
          rw q (shows a w v p);
      applied_writes = λ a e o w v h.
          let (p, q) =
            in_time (compare_exchange_actor_owner objects json prefix a e o w) (applied v) h in
          rw q (writes a e o w v p);
    }

    -- Over a consistent bucket and a faithful encoding, whatever the calls fail with and whichever of
    -- them miss their time limit: if resolve ends with the local node as the owner, then the object of
    -- the address is an ownership record of the local node and session.
    pub resolve_local-record_in :
        (sem : Semaphore) (r : ClusterRouter) (address : ActorAddress) (s s' : sem.Sem)
        (w w' : World) (b : Bool)
        → resolve sem (coordination objects json prefix elapses) r address s w
          ≡ (ok (local b), s', w')
        → owner_of (record_in address w') ≡ some (local_owner r)
    resolve_local-record_in sem r address s s' w w' b h =
        resolve_local sem (coordination objects json prefix elapses) ledger r address s s' w w' b h
