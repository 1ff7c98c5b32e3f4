-- ===== src/Cluster/Lease.antt =====
-- The lease of this node (coactor/src/cluster/node.rs and authority.rs). Instants and durations are
-- in milliseconds; the clock of an operation is an argument.
pub mod System
pub mod Invariant
use coactor.Base.{
  ℕ, ◌+◌, ◌-◌, ◌==◌, ltb, leb, Bool, true, false, not, ◌&&◌, Option, none, some, ite, if◌then◌else◌,
  List, [], ◌∷◌,
}
use coactor.Cluster.{
  NodeRecord, NodeRecord-discrete, Revision, MutationOutcome, applied, conflict, indeterminate,
  Timed, answered,
}

-- `deadline` and `ttl` are instants and durations; `fenced` is the watch that tells the server.
pub record NodeAuthority : Type 0 where
  pub valid : Bool
  pub deadline : ℕ
  pub ttl : ℕ
  pub fenced : Bool

-- `NodeAuthority::new`.
unfoldable pub new : ℕ → ℕ → NodeAuthority
new operation_started ttl = record {
  valid = true;
  deadline = operation_started + ttl;
  ttl = ttl;
  fenced = false;
}

unfoldable pub is_valid : NodeAuthority → ℕ → Bool
is_valid a now = a.valid && ltb now a.deadline

unfoldable pub renew : NodeAuthority → ℕ → NodeAuthority
renew a operation_started = record a { deadline = operation_started + a.ttl }

-- `checked_duration_since`: none if the deadline has passed.
unfoldable pub remaining : NodeAuthority → ℕ → Option ℕ
remaining a now = if leb now a.deadline then some (a.deadline - now) else none

unfoldable pub fence : NodeAuthority → NodeAuthority
fence a = if a.valid then record a { valid = false; fenced = true } else a

-- `ServerInner::update_capacity_sample` (coactor/src/runtime/shutdown.rs).
unfoldable pub update_capacity_sample : ℕ → ℕ → Bool → ℕ → NodeRecord → NodeRecord
update_capacity_sample available max_active_actors running now node = record node {
  sampled_at_unix_ms = now;
  active_actor_count = max_active_actors - available;
  max_actor_count = max_active_actors;
  pressured = available == 0;
  draining = not running;
}

-- What the renewal task does after an outcome.
pub data After : Type 0 where
  renewed : Revision → NodeAuthority → After
  confirming : After
  stopped : NodeAuthority → After
  unchanged : After

-- The `match outcome` of `spawn_lease_renewal`, at the instant at which the outcome is known.
unfoldable pub on_outcome : NodeAuthority → ℕ → ℕ → Timed (MutationOutcome Revision) → After
on_outcome a operation_started now (answered (applied next)) =
    renewed next (renew a operation_started)
on_outcome a operation_started now (answered (indeterminate _)) = confirming
on_outcome a operation_started now (answered conflict) = stopped (fence a)
on_outcome a operation_started now _ = if is_valid a now then unchanged else stopped (fence a)

-- A read-back of `confirm_node_lease` that is the expected record.
confirms : NodeRecord → Timed (Option (NodeRecord × Revision)) → Option Revision
confirms expected (answered (some (node, revision))) =
    ite (NodeRecord-discrete node expected) (some revision) none
confirms expected _ = none

-- `confirm_node_lease`, over the instants of its at most three rounds and what each reads back.
unfoldable pub confirm_node_lease :
    NodeRecord → ℕ → List (ℕ × Timed (Option (NodeRecord × Revision))) → Option Revision
unfolding confirms
confirm_node_lease expected deadline [] = none
confirm_node_lease expected deadline ((now, read_back) ∷ rounds) =
    let rest = confirm_node_lease expected deadline rounds in
    if leb now deadline
    then elim (confirms expected read_back) [ some revision ↦ some revision | none ↦ rest ]
    else none
