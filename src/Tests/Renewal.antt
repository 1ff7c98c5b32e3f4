-- ===== src/Tests/Renewal.antt =====
-- A node that acquires its lease, renews it and is asked for it by another.
use coactor.Base.{
  ℕ, ◌≡◌, refl, true, false, some, [], bytes, Bytes-discrete, ℕ_discrete, get, insert, arith,
  decimal, ◌∷◌, ◌≢◌, In, In_cons, In-nil, inl, inr,
}
use coactor.Cluster.TestStore.Revisions.{IsIssued}
use coactor.Cluster.{NodeRecord, Revision, applied, conflict, answered}
use coactor.Cluster.Lease.{is_valid, new, renew, on_outcome}
use coactor.Cluster.Lease.System.{
  System, start, Reach, later, tick, wake, serve, answer, calling, answering, next_node, ended,
  released, shut_down, rival_renewed, learn, resume,
}
use coactor.Cluster.Lease.Invariant.Safety.{
  HoldsLease, Reach-HoldsLease, Reach-acquire_node_conflict, Reach-read_node,
}
use coactor.Cluster.TestStore.{TestCoordinationStore, acquire_node, renew_node, read_node, next}

abbrev store : TestCoordinationStore
store = record { leases = []; owners = []; next_revision = 5; now = 102 }

abbrev node : NodeRecord
node = record {
  node_id = bytes "n1";
  session_id = bytes "a";
  advertised_endpoint = bytes "http://n1:7000";
  protocol_version = 2;
  lease_generation = 1;
  sampled_at_unix_ms = 100;
  active_actor_count = 0;
  max_actor_count = 10;
  pressured = false;
  draining = false;
}

abbrev other : NodeRecord
other = record node { session_id = bytes "b" }

-- An earlier session of the node had revision 5.
abbrev earlier : Revision
earlier = bytes "test-revision-5"

-- The call of `acquire_node` began at 100; the lease is renewed at 600.
abbrev acquired : System
acquired = start store node 1000 100 (bytes "test-revision-6") (earlier ∷ [])

abbrev at : ℕ → System → System
at now s = record s { store = record (s.store) { now = now } }

abbrev awake : System → System
awake s = record s { node = next_node 6 10 true 600 s.node; phase = calling 600 }

abbrev served : System → System
served s = record s {
  store = (renew_node s.store s.node s.authority.ttl s.revision).1;
  phase = answering 600 (renew_node s.store s.node s.authority.ttl s.revision).0;
}

abbrev answered_with : System → System → System
answered_with s t = resume t 600 (
    on_outcome t.authority 600 t.store.now
      (answered (renew_node s.store s.node s.authority.ttl s.revision).0))

abbrev calling_now : System
calling_now = awake (at 600 acquired)

abbrev renewed_lease : System
renewed_lease = answered_with calling_now (served calling_now)

-- The earlier session tries to renew with its revision, the task is told to shut down and ends, and
-- the lease is not yet released.
abbrev last : System
last = record (at 1500 renewed_lease) { phase = ended true }

others_session : bytes "b" ≢ bytes "a"
others_session h = ground (arith, h)

path : Reach acquired last
unfolding start new is_valid acquire_node renew_node next_node get insert Bytes-discrete ℕ_discrete
    resume on_outcome renew next decimal learn
path =
    later
      (later
        (later
          (later
            (later
              (later (later Reach.here (tick 600 (omega arith) refl))
                (wake 6 10 true refl refl (omega arith) refl))
              (serve 600 refl refl))
            (answer 600 (renew_node calling_now.store calling_now.node 1000 calling_now.revision).0
              refl refl))
          (tick 1500 (omega arith) refl))
        (rival_renewed other 1000 earlier others_session In.here refl))
      (shut_down refl refl)

theirs-IsIssued : (r : Revision) → In r (earlier ∷ []) → IsIssued store r
unfolding decimal
theirs-IsIssued r h = elim (In_cons r earlier [] h) [
  | inl e ↦ (5, omega arith, e)
  | inr i ↦ absurd (In-nil r i)
]

not_released : ended true ≢ released
not_released h = cc

acquired_now : (acquire_node store node 1000).0 ≡ applied (bytes "test-revision-6")
unfolding acquire_node get next decimal
acquired_now = refl

valid_now : is_valid last.authority 1500 ≡ true
unfolding start new is_valid acquire_node renew_node next_node get insert Bytes-discrete ℕ_discrete
    resume on_outcome renew next decimal
valid_now = refl

Reach-HoldsLease_example : HoldsLease last.store (bytes "n1") (bytes "a")
unfolding start next_node resume on_outcome renew renew_node get insert acquire_node next decimal
    new is_valid Bytes-discrete ℕ_discrete
Reach-HoldsLease_example =
    Reach-HoldsLease store node 1000 100 (bytes "test-revision-6") (earlier ∷ []) last acquired_now
      (omega arith) theirs-IsIssued path not_released valid_now

Reach-acquire_node_conflict_example : acquire_node last.store other 1000 ≡ (conflict, last.store)
unfolding start next_node resume on_outcome renew renew_node get insert acquire_node next decimal
    new is_valid Bytes-discrete ℕ_discrete
Reach-acquire_node_conflict_example =
    Reach-acquire_node_conflict store node other 1000 1000 100 (bytes "test-revision-6")
      (earlier ∷ []) last acquired_now (omega arith) theirs-IsIssued path not_released valid_now
      refl

Reach-read_node_example :
    (n : NodeRecord) × (read_node last.store (bytes "n1") ≡ some n) × (n.session_id ≡ bytes "a")
unfolding start next_node resume on_outcome renew renew_node get insert acquire_node next decimal
    new is_valid Bytes-discrete ℕ_discrete
Reach-read_node_example =
    Reach-read_node store node 1000 100 (bytes "test-revision-6") (earlier ∷ []) last acquired_now
      (omega arith) theirs-IsIssued path not_released valid_now
