-- ===== src/Cluster/S3.antt =====
-- `S3CoordinationStore` (coactor/src/cluster/s3.rs), over the S3 client and serde_json. A call of S3
-- answers and moves the world on; other clients may change the bucket between any two calls.
pub mod Ledgers
pub mod Directory
use coactor.Base.{
  ℕ, ◌+◌, ◌==◌, leb, Bool, true, false, ◌||◌, Option, none, some, List, Bytes, Result, ok, err,
  if◌then◌else◌,
}
use coactor.Address.{ActorAddress}
use coactor.Address.Keys.{node_key, actor_key}
use coactor.Cluster.{
  NodeRecord, Revision, ActorOwnerRecord, VersionedActorOwnerRecord, CoordinationErrorKind,
  MutationOutcome, applied, conflict, indeterminate, u64_max, Timed, answered, failed, elapsed,
}
use coactor.Cluster.Router.{Coordination}

-- What the code reads of `SdkError`: whether it is a service error, whether that is `NoSuchKey`, and
-- the HTTP status of the raw response.
pub record SdkError : Type 0 where
  pub is_service_error : Bool
  pub is_no_such_key : Bool
  pub status : Option ℕ

-- The body is none if collecting it fails.
pub record GetObjectOutput : Type 0 where
  pub e_tag : Option Bytes
  pub body : Option Bytes

pub record ListObjectsOutput : Type 0 where
  pub contents : List (Option Bytes)
  pub is_truncated : Option Bool
  pub next_continuation_token : Option Bytes

-- `if_none_match("*")` or `if_match`.
pub data Condition : Type 0 where
  if_none_match : Condition
  if_match : Revision → Condition

-- The requests of `aws_sdk_s3`, of one bucket, and `wall_time_millis`.
pub record Objects : Type 1 where
  pub World : Type 0
  pub get_object : Bytes → World → Result SdkError GetObjectOutput × World
  pub put_object : Bytes → Bytes → Condition → World → Result SdkError (Option Bytes) × World
  pub delete_object : Bytes → Revision → World → Result SdkError (Unit {0}) × World
  pub list_objects : Bytes → Option Bytes → World → Result SdkError ListObjectsOutput × World
  pub wall_time_millis : World → ℕ × World

pub record StoredNodeLease : Type 0 where
  pub node : NodeRecord
  pub expires_at_unix_ms : ℕ

-- `serde_json::to_vec` and `from_slice` on the two stored types.
pub record Json : Type 0 where
  pub lease_to_vec : StoredNodeLease → Option Bytes
  pub lease_from_slice : Bytes → Option StoredNodeLease
  pub owner_to_vec : ActorOwnerRecord → Option Bytes
  pub owner_from_slice : Bytes → Option ActorOwnerRecord

is_denied : Option ℕ → Bool
is_denied none = false
is_denied (some n) = n == 401 || n == 403

unfoldable pub classify_read_error : SdkError → CoordinationErrorKind
unfolding is_denied
classify_read_error e =
    if is_denied e.status
    then CoordinationErrorKind.permission_denied
    else CoordinationErrorKind.unavailable

is_failed_precondition : Option ℕ → Bool
is_failed_precondition none = false
is_failed_precondition (some n) = n == 412

unfoldable pub classify_write_error :
    {T : Type 0} → SdkError → Result CoordinationErrorKind (MutationOutcome T)
unfolding is_failed_precondition
classify_write_error e =
    if is_failed_precondition e.status
    then ok conflict
    else (if e.is_service_error
        then err (classify_read_error e)
        else ok (indeterminate (classify_read_error e)))

-- The tag of an applied write.
unfoldable pub written :
    Result SdkError (Option Bytes) → Result CoordinationErrorKind (MutationOutcome Revision)
written (ok (some etag)) = ok (applied etag)
written (ok none) = err CoordinationErrorKind.invalid_data
written (err e) = classify_write_error e

collected : Option Bytes → Option Bytes → Result CoordinationErrorKind (Option (Bytes × Revision))
collected none body = err CoordinationErrorKind.invalid_data
collected (some etag) none = err CoordinationErrorKind.unavailable
collected (some etag) (some bytes) = ok (some (bytes, etag))

-- The answer to `get_object`, with its body and its tag.
unfoldable pub object_read :
    Result SdkError GetObjectOutput → Result CoordinationErrorKind (Option (Bytes × Revision))
unfolding collected
object_read (ok output) = collected output.e_tag output.body
object_read (err e) = if e.is_no_such_key then ok none else err (classify_read_error e)

-- `ttl.as_millis().try_into().unwrap_or(u64::MAX)`, and the saturating sum with the clock.
unfoldable pub expiry : ℕ → ℕ → ℕ
expiry now ttl =
    let millis = if leb ttl u64_max then ttl else u64_max in
    if leb u64_max (now + millis) then u64_max else now + millis

abbrev condition : Option Revision → Condition
condition none = Condition.if_none_match
condition (some revision) = Condition.if_match revision

module _ (objects : Objects) (json : Json) (prefix : Bytes) where
  open objects use {World, get_object, put_object, delete_object, list_objects, wall_time_millis}
  open json use {lease_to_vec, lease_from_slice, owner_to_vec, owner_from_slice}

  abbrev pub Lease : Type 0
  Lease = NodeRecord × Revision × ℕ

  -- The Node ID is not stored: it is that of the key.
  abbrev named : Bytes → NodeRecord → NodeRecord
  named node_id n = record n { node_id = node_id }

  unexpired :
      StoredNodeLease
      → Bytes
      → Revision
      → ℕ × World
      → Result CoordinationErrorKind (Option Lease) × World
  unexpired l node_id revision (now, w) = (
    ok (
        if leb l.expires_at_unix_ms now
        then none
        else some (named node_id l.node, revision, l.expires_at_unix_ms)),
    w,
  )

  lease_read :
      Bytes
      → Bool
      → Revision
      → Option StoredNodeLease
      → World
      → Result CoordinationErrorKind (Option Lease) × World
  unfolding unexpired
  lease_read node_id include_expired revision none w = (err CoordinationErrorKind.invalid_data, w)
  lease_read node_id true revision (some l) w =
      (ok (some (named node_id l.node, revision, l.expires_at_unix_ms)), w)
  lease_read node_id false revision (some l) w = unexpired l node_id revision (wall_time_millis w)

  node_object :
      Bytes
      → Bool
      → Result CoordinationErrorKind (Option (Bytes × Revision))
      → World
      → Result CoordinationErrorKind (Option Lease) × World
  unfolding lease_read
  node_object node_id include_expired (err e) w = (err e, w)
  node_object node_id include_expired (ok none) w = (ok none, w)
  node_object node_id include_expired (ok (some (bytes, revision))) w =
      lease_read node_id include_expired revision (lease_from_slice bytes) w

  unfoldable pub read_node_key :
      Bytes → Bool → World → Result CoordinationErrorKind (Option Lease) × World
  unfolding node_object
  read_node_key node_id include_expired w =
      let (output, w') = get_object (node_key prefix node_id) w in
      node_object node_id include_expired (object_read output) w'

  put_body :
      Bytes
      → Option Bytes
      → Option Revision
      → World
      → Result CoordinationErrorKind (MutationOutcome Revision) × World
  put_body k none revision w = (err CoordinationErrorKind.invalid_data, w)
  put_body k (some body) revision w =
      let (output, w') = put_object k body (condition revision) w in (written output, w')

  unfoldable pub put_node :
      NodeRecord
      → ℕ
      → Option Revision
      → World
      → Result CoordinationErrorKind (MutationOutcome Revision) × World
  unfolding put_body
  put_node node ttl revision w =
      let (now, w') = wall_time_millis w in
      put_body (node_key prefix node.node_id)
        (lease_to_vec (record { node = node; expires_at_unix_ms = expiry now ttl })) revision w'

  owner_read :
      Revision
      → Option ActorOwnerRecord
      → Result CoordinationErrorKind (Option VersionedActorOwnerRecord)
  owner_read revision none = err CoordinationErrorKind.invalid_data
  owner_read revision (some entry) = ok (some (record { record_of = entry; revision = revision }))

  owner_object :
      Result CoordinationErrorKind (Option (Bytes × Revision))
      → Result CoordinationErrorKind (Option VersionedActorOwnerRecord)
  unfolding owner_read
  owner_object (err e) = err e
  owner_object (ok none) = ok none
  owner_object (ok (some (bytes, revision))) = owner_read revision (owner_from_slice bytes)

  -- `read_actor_key`, which `read_actor_owner` calls.
  unfoldable pub read_actor_key :
      ActorAddress → World → Result CoordinationErrorKind (Option VersionedActorOwnerRecord) × World
  unfolding owner_object
  read_actor_key address w =
      let (output, w') = get_object (actor_key prefix address) w in
      (owner_object (object_read output), w')

  unfoldable pub compare_exchange_actor_owner :
      ActorAddress
      → ActorOwnerRecord
      → Option Revision
      → World
      → Result CoordinationErrorKind (MutationOutcome Revision) × World
  unfolding put_body
  compare_exchange_actor_owner address entry revision w =
      put_body (actor_key prefix address) (owner_to_vec entry) revision w

  abbrev node_of :
      Result CoordinationErrorKind (Option Lease) → Result CoordinationErrorKind (Option NodeRecord)
  node_of (err e) = err e
  node_of (ok none) = ok none
  node_of (ok (some (node, _, _))) = ok (some node)

  unfoldable pub read_node :
      Bytes → World → Result CoordinationErrorKind (Option NodeRecord) × World
  read_node node_id w = let (lease, w') = read_node_key node_id false w in (node_of lease, w')

  abbrev with_revision :
      Result CoordinationErrorKind (Option Lease)
      → Result CoordinationErrorKind (Option (NodeRecord × Revision))
  with_revision (err e) = err e
  with_revision (ok none) = ok none
  with_revision (ok (some (node, revision, _))) = ok (some (node, revision))

  unfoldable pub read_node_lease :
      Bytes → World → Result CoordinationErrorKind (Option (NodeRecord × Revision)) × World
  read_node_lease node_id w =
      let (lease, w') = read_node_key node_id false w in (with_revision lease, w')

  take_expired :
      NodeRecord
      → ℕ
      → Revision
      → ℕ
      → ℕ × World
      → Result CoordinationErrorKind (MutationOutcome Revision) × World
  take_expired node ttl revision expires_at (now, w) =
      if leb expires_at now then put_node node ttl (some revision) w else (ok conflict, w)

  acquire_read :
      NodeRecord
      → ℕ
      → Result CoordinationErrorKind (Option Lease) × World
      → Result CoordinationErrorKind (MutationOutcome Revision) × World
  unfolding take_expired
  acquire_read node ttl (err e, w) = (err e, w)
  acquire_read node ttl (ok none, w) = put_node node ttl none w
  acquire_read node ttl (ok (some (_, revision, expires_at)), w) =
      take_expired node ttl revision expires_at (wall_time_millis w)

  unfoldable pub acquire_node :
      NodeRecord → ℕ → World → Result CoordinationErrorKind (MutationOutcome Revision) × World
  unfolding acquire_read
  acquire_node node ttl w = acquire_read node ttl (read_node_key node.node_id true w)

  unfoldable pub renew_node :
      NodeRecord
      → ℕ
      → Revision
      → World
      → Result CoordinationErrorKind (MutationOutcome Revision) × World
  renew_node node ttl revision w = put_node node ttl (some revision) w

  deleted : Result SdkError (Unit {0}) → Result CoordinationErrorKind (MutationOutcome (Unit {0}))
  deleted (ok _) = ok (applied tt)
  deleted (err e) = classify_write_error e

  unfoldable pub release_node :
      Bytes → Revision → World → Result CoordinationErrorKind (MutationOutcome (Unit {0})) × World
  unfolding deleted
  release_node node_id revision w =
      let (output, w') = delete_object (node_key prefix node_id) revision w in (deleted output, w')

  -- The calls under the time limits of the router: `elapses` says whether the limit of a call has
  -- passed in the world that the call leaves.
  module _ (elapses : World → Bool) where
    unfoldable pub timed : {A : Type 0} → Result CoordinationErrorKind A × World → Timed A × World
    timed (ok a, w) = (if elapses w then elapsed else answered a, w)
    timed (err e, w) = (if elapses w then elapsed else failed e, w)

    abbrev pub coordination : Coordination
    coordination = record {
      World = World;
      read_actor_owner = λ address w. timed (read_actor_key address w);
      read_node = λ node_id w. timed (read_node node_id w);
      compare_exchange =
          λ address entry revision w. timed (compare_exchange_actor_owner address entry revision w);
    }
