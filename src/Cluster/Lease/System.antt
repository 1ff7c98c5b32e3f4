-- ===== src/Cluster/Lease/System.antt =====
-- The renewal task of one node (`spawn_lease_renewal`, coactor/src/cluster/node.rs) beside a store
-- and the other sessions that use it, as steps in any order. One clock serves the instants of the
-- node and the wall clock of the store.
use coactor.Base.{
  ℕ, ◌≤◌, ◌<◌, ◌≡◌, ◌≢◌, Bool, true, false, Option, some, List, ◌∷◌, Bytes, bytes_eq, In,
}
use coactor.Address.{ActorAddress}
use coactor.Cluster.{
  NodeRecord, Revision, ActorOwnerRecord, MutationOutcome, applied, conflict, indeterminate, Timed,
  answered, saturating_suc, u64_max,
}
use coactor.Cluster.Lease.{
  NodeAuthority, new, is_valid, renew, fence, update_capacity_sample, After, renewed, confirming,
  stopped, unchanged, on_outcome,
}
use coactor.Cluster.TestStore.{
  TestCoordinationStore, acquire_node, renew_node, release_node, read_node_lease,
  compare_exchange_actor_owner,
}

-- Where the task stands: asleep; with a renewal in flight, before or after the store has run it; in
-- `confirm_node_lease`; or ended with the `release` of its `RenewalExit`. In the last phase
-- `ClusterTasks::shutdown` has released the lease.
pub data Phase : Type 0 where
  asleep : Phase
  calling : (started : ℕ) → Phase
  answering : (started : ℕ) → MutationOutcome Revision → Phase
  reading_back : (started : ℕ) → Phase
  ended : (release : Bool) → Phase
  released : Phase

-- `node` and `revision` are the variables of the task. `theirs` are the revisions that other sessions
-- were given, by an applied write or by a read-back of a lease of theirs.
pub record System : Type 0 where
  pub store : TestCoordinationStore
  pub authority : NodeAuthority
  pub node : NodeRecord
  pub revision : Revision
  pub phase : Phase
  pub theirs : List Revision

-- The record that a renewal writes: the next generation, with a fresh sample.
unfoldable pub next_node : ℕ → ℕ → Bool → ℕ → NodeRecord → NodeRecord
unfolding update_capacity_sample
next_node available max_active_actors running now node =
    update_capacity_sample available max_active_actors running now
      (record node { lease_generation = saturating_suc node.lease_generation })

-- What the task makes of an outcome that is known now.
unfoldable pub resume : System → ℕ → After → System
resume s started (renewed revision authority) = record s {
  authority = authority;
  revision = revision;
  phase = asleep;
}
resume s started confirming = record s { phase = reading_back started }
resume s started (stopped authority) = record s { authority = authority; phase = ended false }
resume s started unchanged = record s { phase = asleep }

-- What `ClusterTasks::shutdown` does with the `RenewalExit` of the task.
unfoldable pub release_on_exit : System → Bool → System
release_on_exit s true = record s {
  store = (release_node s.store s.node.node_id s.revision).1;
  phase = released;
}
release_on_exit s false = s

-- The revisions of the other sessions after an answer to one of them.
unfoldable pub learn : MutationOutcome Revision → List Revision → List Revision
learn (applied revision) theirs = revision ∷ theirs
learn conflict theirs = theirs
learn (indeterminate _) theirs = theirs

-- The generation of a call that may still reach the store.
abbrev pub IsLate : Phase → ℕ → ℕ → Type 0
IsLate (calling _) old current = old < current
IsLate _ old current = old ≤ current

-- The id of the node and its session stay those of the section.
pub data Step (s t : System) : Type 0 where
  tick :
      (later : ℕ)
      → s.store.now ≤ later
      → t ≡ record s { store = record (s.store) { now = later } }
      → Step s t
  -- The task wakes without authority and fences.
  lose :
      s.phase ≡ asleep
      → is_valid s.authority s.store.now ≡ false
      → t ≡ record s { authority = fence s.authority; phase = ended false }
      → Step s t
  -- The task sleeps, is told to shut down, and ends without fencing.
  shut_down : s.phase ≡ asleep → t ≡ record s { phase = ended true } → Step s t
  -- The store runs the release, if the task wants one.
  release : (wanted : Bool) → s.phase ≡ ended wanted → t ≡ release_on_exit s wanted → Step s t
  -- It wakes with authority and calls `renew_node`. Of the 2^64 generations some are left.
  wake :
      (available max_active_actors : ℕ) (running : Bool)
      → s.phase ≡ asleep
      → is_valid s.authority s.store.now ≡ true
      → s.node.lease_generation < u64_max
      → t ≡ record s {
        node = next_node available max_active_actors running s.store.now s.node;
        phase = calling s.store.now;
      }
      → Step s t
  -- The store runs the call.
  serve :
      (started : ℕ)
      → s.phase ≡ calling started
      → t ≡ record s {
        store = (renew_node s.store s.node s.authority.ttl s.revision).1;
        phase = answering started (renew_node s.store s.node s.authority.ttl s.revision).0;
      }
      → Step s t
  -- The answer of the store arrives.
  answer :
      (started : ℕ) (outcome : MutationOutcome Revision)
      → s.phase ≡ answering started outcome
      → t ≡ resume s started (on_outcome s.authority started s.store.now (answered outcome))
      → Step s t
  -- The answer is lost: an indeterminate outcome, an error, or no answer in time. The store may have
  -- run the call or not.
  lost_before :
      (started : ℕ) (x : Timed (MutationOutcome Revision))
      → s.phase ≡ calling started
      → ((r : Revision) → x ≢ answered (applied r))
      → t ≡ resume s started (on_outcome s.authority started s.store.now x)
      → Step s t
  lost_after :
      (started : ℕ) (outcome : MutationOutcome Revision) (x : Timed (MutationOutcome Revision))
      → s.phase ≡ answering started outcome
      → ((r : Revision) → x ≢ answered (applied r))
      → t ≡ resume s started (on_outcome s.authority started s.store.now x)
      → Step s t
  -- A read-back shows the record that was to be written.
  confirm :
      (started : ℕ) (revision : Revision)
      → s.phase ≡ reading_back started
      → read_node_lease s.store s.node.node_id ≡ some (s.node, revision)
      → t ≡ record s { authority = renew s.authority started; revision = revision; phase = asleep }
      → Step s t
  -- No read-back confirms it.
  give_up :
      (started : ℕ)
      → s.phase ≡ reading_back started
      → t ≡ record s { authority = fence s.authority; phase = ended false }
      → Step s t
  -- The store runs a call whose answer the task no longer waits for: an earlier renewal, or the last
  -- one if the task is not calling.
  late :
      (old : NodeRecord) (revision : Revision)
      → old.node_id ≡ s.node.node_id
      → old.session_id ≡ s.node.session_id
      → IsLate s.phase old.lease_generation s.node.lease_generation
      → t ≡ record s { store = (renew_node s.store old s.authority.ttl revision).1 }
      → Step s t
  -- Another session acquires a lease, of this node or of another.
  rival :
      (other : NodeRecord) (ttl : ℕ)
      → other.session_id ≢ s.node.session_id
      → t ≡ record s {
        store = (acquire_node s.store other ttl).1;
        theirs = learn (acquire_node s.store other ttl).0 s.theirs;
      }
      → Step s t
  -- Another session renews or releases a lease, of this node or of another, with a revision of
  -- theirs.
  rival_renewed :
      (other : NodeRecord) (ttl : ℕ) (revision : Revision)
      → other.session_id ≢ s.node.session_id
      → In revision s.theirs
      → t ≡ record s {
        store = (renew_node s.store other ttl revision).1;
        theirs = learn (renew_node s.store other ttl revision).0 s.theirs;
      }
      → Step s t
  rival_released :
      (node_id : Bytes) (revision : Revision)
      → In revision s.theirs
      → t ≡ record s { store = (release_node s.store node_id revision).1 }
      → Step s t
  -- Another session of the node's id reads a lease of its own back.
  rival_confirmed :
      (read_back : NodeRecord) (revision : Revision)
      → read_back.session_id ≢ s.node.session_id
      → read_node_lease s.store s.node.node_id ≡ some (read_back, revision)
      → t ≡ record s { theirs = revision ∷ s.theirs }
      → Step s t
  -- A lease of another node is renewed or released, with any revision.
  elsewhere_renewed :
      (other : NodeRecord) (ttl : ℕ) (revision : Revision)
      → other.node_id ≢ s.node.node_id
      → t ≡ record s { store = (renew_node s.store other ttl revision).1 }
      → Step s t
  elsewhere_released :
      (node_id : Bytes) (revision : Revision)
      → node_id ≢ s.node.node_id
      → t ≡ record s { store = (release_node s.store node_id revision).1 }
      → Step s t
  -- Ownership records change.
  owners_change :
      (a : ActorAddress) (e : ActorOwnerRecord) (o : Option Revision)
      → t ≡ record s { store = (compare_exchange_actor_owner s.store a e o).1 }
      → Step s t

-- `ServerStarter::start` has acquired the lease: the call began at `started`, and the answer is there.
-- Other sessions, earlier ones of the node among them, have the revisions `theirs`.
unfoldable pub start :
    TestCoordinationStore → NodeRecord → ℕ → ℕ → Revision → List Revision → System
start store node ttl started revision theirs = record {
  store = (acquire_node store node ttl).1;
  authority = new started ttl;
  node = node;
  revision = revision;
  phase = asleep;
  theirs = theirs;
}

pub data Reach (s : System) : System → Type 0 where
  here : Reach s s
  later : {t u : System} → Reach s t → Step t u → Reach s u
