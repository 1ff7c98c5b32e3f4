-- ===== src/Client/Open.antt =====
-- `Client::open` and what it calls (coactor/src/client/mod.rs). A round of its loop takes the answers
-- that its waits end with; what the other tasks do to the client in a wait is part of them.
pub mod Rounds
use coactor.Base.{
  ℕ, ◌-◌, ◌==◌, ltb, Bool, true, false, not, ◌&&◌, Option, none, some, List, [], ◌∷◌, Bytes, get,
  Result, ok, err, keep, map, ite, if◌then◌else◌, bytes_eq, nat_eq, any,
}
use coactor.Failure.{SendError}
use coactor.Address.{ActorAddress}
use coactor.Transport.{transport_protocol_version}
use coactor.Sessions.{is_some}
use coactor.Cluster.{NodeRecord, ActorOwner, VersionedActorOwnerRecord, Timed, answered}
use coactor.Cluster.Placement.{PlacementCandidate}
use coactor.Client.{HashSet, PlacementStrategy, ClientInner}

pub data OwnerResolution : Type 0 where
  live : (endpoint node_id session_id : Bytes) → OwnerResolution
  unowned : OwnerResolution

-- `PLACEMENT_CACHE_TTL`, in milliseconds.
abbrev pub placement_cache_ttl : ℕ
placement_cache_ttl = 3000

-- `ClientInner::timeout_at`.
unfoldable pub timeout_at : {A : Type 0} → Timed A → SendError → Result SendError A
timeout_at (answered a) e = ok a
timeout_at _ e = err e

-- `is_blank` tells whether a text is empty when trimmed.
module _ (is_blank : Bytes → Bool) where
  reachable : NodeRecord → Bool
  reachable n =
      n.protocol_version == transport_protocol_version && not (is_blank n.advertised_endpoint)

  live_owner : ActorOwner → Option NodeRecord → Result SendError OwnerResolution
  unfolding reachable
  live_owner owner none = ok unowned
  live_owner owner (some n) =
      if ite (bytes_eq.dec n.session_id owner.session_id) true false
      then (if reachable n
          then ok (live n.advertised_endpoint owner.node_id owner.session_id)
          else err SendError.remote_unavailable)
      else ok unowned

  owner_read : Timed (Option NodeRecord) → Option ActorOwner → Result SendError OwnerResolution
  unfolding live_owner timeout_at
  owner_read node none = ok unowned
  owner_read node (some owner) = elim (timeout_at node SendError.directory_unavailable) [
    | ok n ↦ live_owner owner n
    | err e ↦ err e
  ]

  abbrev owner_of : Option VersionedActorOwnerRecord → Option ActorOwner
  owner_of none = none
  owner_of (some v) = v.record_of.owner

  -- `ClientInner::resolve_owner`, on what its reads return.
  unfoldable pub resolve_owner :
      Timed (Option VersionedActorOwnerRecord)
      → Timed (Option NodeRecord)
      → Result SendError OwnerResolution
  unfolding owner_read timeout_at
  resolve_owner owner node = elim (timeout_at owner SendError.ownership_unavailable) [
    | ok current ↦ owner_read node (owner_of current)
    | err e ↦ err e
  ]

  -- The filter of `placement_candidates`.
  unfoldable pub is_candidate : NodeRecord → Bool
  unfolding reachable
  is_candidate n =
      reachable n && not n.pressured && not n.draining && ltb n.active_actor_count n.max_actor_count

  candidate_of : NodeRecord → PlacementCandidate
  candidate_of n = record {
    endpoint = n.advertised_endpoint;
    active_actor_count = n.active_actor_count;
    max_actor_count = n.max_actor_count;
  }

  unfoldable pub candidates_of : List NodeRecord → List PlacementCandidate
  unfolding is_candidate candidate_of
  candidates_of nodes = map candidate_of (keep is_candidate nodes)

module _ (strategy : PlacementStrategy) (is_blank : Bytes → Bool) where
  open strategy use {Placement, candidates, on_placement_failed}

  abbrev Inner : Type 0
  Inner = ClientInner strategy

  fresh_cache : ℕ → Option (List PlacementCandidate × ℕ) → Option (List PlacementCandidate)
  fresh_cache now none = none
  fresh_cache now (some (cs, fetched_at)) =
      if ltb (now - fetched_at) placement_cache_ttl then some cs else none

  from_cache :
      ℕ
      → Timed (List NodeRecord)
      → Inner
      → Option (List PlacementCandidate)
      → Result SendError (List PlacementCandidate) × Inner
  from_cache now nodes s (some cs) = (ok cs, s)
  from_cache now (answered ns) s none =
      let cs = candidates_of is_blank ns in (ok cs, record s { placement_cache = some (cs, now) })
  from_cache now _ s none = (err SendError.directory_unavailable, s)

  -- `ClientInner::placement_candidates`.
  unfoldable pub placement_candidates :
      ℕ → Timed (List NodeRecord) → Inner → Result SendError (List PlacementCandidate) × Inner
  unfolding fresh_cache from_cache
  placement_candidates now nodes s = from_cache now nodes s (fresh_cache now s.placement_cache)

  is_endpoint : Bytes → PlacementCandidate → Bool
  is_endpoint endpoint c = ite (bytes_eq.dec c.endpoint endpoint) true false

  -- `ordered.into_iter().find(|endpoint| valid.contains(endpoint))`.
  first_valid : List PlacementCandidate → List Bytes → Result SendError Bytes
  unfolding is_endpoint
  first_valid cs [] = err SendError.runtime_at_capacity
  first_valid cs (e ∷ es) =
      let rest = first_valid cs es in if any (is_endpoint e) cs then ok e else rest

  place : ActorAddress → Inner → List PlacementCandidate → Result SendError Bytes × Inner
  unfolding first_valid
  place a s [] = (err SendError.runtime_at_capacity, s)
  place a s (c ∷ cs) =
      let (ordered, placement) = candidates a (c ∷ cs) s.placement in
      (first_valid (c ∷ cs) ordered, record s { placement = placement })

  select_from :
      ActorAddress
      → HashSet Bytes
      → Result SendError (List PlacementCandidate) × Inner
      → Result SendError Bytes × Inner
  unfolding place
  select_from a excluded (err e, s) = (err e, s)
  select_from a excluded (ok cs, s) =
      place a s (keep (λ c. not (is_some (get c.endpoint excluded))) cs)

  -- `ClientInner::select_placement_candidate`.
  unfoldable pub select_placement_candidate :
      ActorAddress
      → HashSet Bytes
      → ℕ
      → Timed (List NodeRecord)
      → Inner
      → Result SendError Bytes × Inner
  unfolding select_from
  select_placement_candidate a excluded now nodes s =
      select_from a excluded (placement_candidates now nodes s)
