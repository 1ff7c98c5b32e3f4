-- ===== src/Cluster.antt =====
-- Cluster coordination: the records that a coordination store keeps and the answers of its
-- operations (coactor/src/cluster/authority.rs).
pub mod Router
pub mod TestStore
pub mod Lease
pub mod Placement
pub mod S3
use coactor.Base.{ℕ, ◌+◌, ◌^◌, ◌-◌, Bytes, Option, none, ℕ_discrete, Bool, leb, if◌then◌else◌}

pub record NodeRecord : Type 0 where
  pub node_id : Bytes
  pub session_id : Bytes
  pub advertised_endpoint : Bytes
  pub protocol_version : ℕ
  pub lease_generation : ℕ
  pub sampled_at_unix_ms : ℕ
  pub active_actor_count : ℕ
  pub max_actor_count : ℕ
  pub pressured : Bool
  pub draining : Bool

unfoldable pub NodeRecord-discrete : Discrete NodeRecord
NodeRecord-discrete = hlevel ℕ_discrete

-- A revision is an opaque text.
abbrev pub Revision : Type 0
Revision = Bytes

pub record ActorOwner : Type 0 where
  pub node_id : Bytes
  pub session_id : Bytes

unfoldable pub ActorOwner-discrete : Discrete ActorOwner
ActorOwner-discrete = hlevel ℕ_discrete

pub record ActorOwnerRecord : Type 0 where
  pub owner : Option ActorOwner
  pub ownership_epoch : ℕ

unfoldable pub ActorOwnerRecord-discrete : Discrete ActorOwnerRecord
ActorOwnerRecord-discrete = hlevel ℕ_discrete

-- `ActorOwnerRecord::unowned`.
unfoldable pub unowned : ℕ → ActorOwnerRecord
unowned ownership_epoch = record { owner = none; ownership_epoch = ownership_epoch }

pub record VersionedActorOwnerRecord : Type 0 where
  pub record_of : ActorOwnerRecord
  pub revision : Revision

pub data CoordinationErrorKind : Type 0 where
  unavailable permission_denied invalid_data : CoordinationErrorKind

pub data MutationOutcome (T : Type 0) : Type 0 where
  applied : T → MutationOutcome T
  conflict : MutationOutcome T
  indeterminate : CoordinationErrorKind → MutationOutcome T

-- `u64::MAX`.
abbrev pub u64_max : ℕ
u64_max = 2 ^ 64 - 1

-- `n.saturating_add(1)` on `u64`.
abbrev pub saturating_suc : ℕ → ℕ
saturating_suc n = if leb u64_max n then u64_max else n + 1

-- `tokio::time::timeout` around a call of the store: its answer, its error, or neither in time.
pub data Timed (A : Type 0) : Type 0 where
  answered : A → Timed A
  failed : CoordinationErrorKind → Timed A
  elapsed : Timed A
