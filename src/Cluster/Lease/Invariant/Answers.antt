-- ===== src/Cluster/Lease/Invariant/Answers.antt =====
-- The task's own steps from a call to its answer keep the invariant.
use coactor.Base.{
  ℕ, ◌+◌, ◌≤◌, ◌≡◌, refl, ◌≢◌, inl, inr, Bytes, arith, bytes_eq, Bool-cases, sym, subst,
}
use coactor.Cluster.{
  Revision, MutationOutcome, applied, conflict, indeterminate, Timed, answered, failed, elapsed,
}
use coactor.Cluster.Lease.{is_valid, renew, on_outcome}
use coactor.Cluster.Lease.System.{asleep, calling, answering, System, resume}
use coactor.Cluster.TestStore.Leases.{renew_effect}
use coactor.Cluster.TestStore.{renew_node}
use coactor.Cluster.Lease.Invariant.{
  lease, Held, Written, Pending, Inv, fence-Inv, sleep-Inv, Written-of-Older, written,
}

module _ (ttl : ℕ) (id sid : Bytes) where
  pub serve-Inv :
      (s : System) (started : ℕ)
      → s.phase ≡ calling started
      → Inv ttl id sid s
      → Inv ttl id sid (record s {
        store = (renew_node s.store s.node s.authority.ttl s.revision).1;
        phase = answering started (renew_node s.store s.node s.authority.ttl s.revision).0;
      })
  serve-Inv s started p v =
      let q : Pending ttl id sid (calling started) (lease ttl id sid s) s.store.now s.node =
        subst (λ p. Pending ttl id sid p (lease ttl id sid s) s.store.now s.node) p v.pending in
      elim (renew_effect s.store s.node s.authority.ttl s.revision id) [
        | inl (x, c) ↦
            rw (x, c)
              (record {
                ttl_kept = v.ttl_kept;
                id_kept = v.id_kept;
                session_kept = v.session_kept;
                held = v.held;
                known = v.known;
                pending = (
                  q.0,
                  Written-of-Older ttl id sid (lease ttl id sid s) started s.node v.session_kept
                      q.1,
                  tt,
                );
              })
        | inr (x, m, w) ↦
            let c' = (renew_node s.store s.node s.authority.ttl s.revision).1 in
            let f = written ttl id sid s c' s.node v.id_kept v.session_kept (omega arith) v w in
            let r = f.renewed_until started q.0 in
            rw x (record {
              ttl_kept = v.ttl_kept;
              id_kept = v.id_kept;
              session_kept = v.session_kept;
              held = f.held;
              known = f.known;
              pending = (omega (arith, w.now, q.0), r.1 s.node, r.0);
            })
      ]

  pub resume_renewed-Inv :
      (s : System) (started : ℕ) (revision : Revision)
      → Held ttl id sid (lease ttl id sid s) s.store.now (started + ttl)
      → Inv ttl id sid s
      → Inv ttl id sid
          (record s { authority = renew s.authority started; revision = revision; phase = asleep })
  unfolding renew
  resume_renewed-Inv s started revision h v = record {
    ttl_kept = v.ttl_kept;
    id_kept = v.id_kept;
    session_kept = v.session_kept;
    held =
        subst (λ d. Held ttl id sid (lease ttl id sid s) s.store.now (started + d)) (sym v.ttl_kept)
          h;
    known = v.known;
    pending = tt;
  }

  -- An outcome that is not an applied write: what the task goes on with.
  pub resume_lost-Inv :
      (s : System) (started : ℕ) (x : Timed (MutationOutcome Revision))
      → ((r : Revision) → x ≢ answered (applied r))
      → started ≤ s.store.now
      → Written ttl id sid (lease ttl id sid s) started s.node
      → Inv ttl id sid s
      → Inv ttl id sid (resume s started (on_outcome s.authority started s.store.now x))
  unfolding resume on_outcome
  resume_lost-Inv s started (answered (applied r)) n h w v = absurd (n r refl)
  resume_lost-Inv s started (answered conflict) n h w v = fence-Inv ttl id sid s v
  resume_lost-Inv s started (answered (indeterminate _)) n h w v = record {
    ttl_kept = v.ttl_kept;
    id_kept = v.id_kept;
    session_kept = v.session_kept;
    held = v.held;
    known = v.known;
    pending = (h, w);
  }
  resume_lost-Inv s started (failed _) n h w v =
      elim (Bool-cases (is_valid s.authority s.store.now)) [
        | inl e ↦ rw e (sleep-Inv ttl id sid s v)
        | inr e ↦ rw e (fence-Inv ttl id sid s v)
      ]
  resume_lost-Inv s started elapsed n h w v = elim (Bool-cases (is_valid s.authority s.store.now)) [
    | inl e ↦ rw e (sleep-Inv ttl id sid s v)
    | inr e ↦ rw e (fence-Inv ttl id sid s v)
  ]

  pub resume_answered-Inv :
      (s : System) (started : ℕ) (x : MutationOutcome Revision)
      → Pending ttl id sid (answering started x) (lease ttl id sid s) s.store.now s.node
      → Inv ttl id sid s
      → Inv ttl id sid (resume s started (on_outcome s.authority started s.store.now (answered x)))
  unfolding resume on_outcome
  resume_answered-Inv s started (applied r) q v = resume_renewed-Inv s started r q.2 v
  resume_answered-Inv s started conflict q v =
      resume_lost-Inv s started (answered conflict) (λ r h. cc) q.0 q.1 v
  resume_answered-Inv s started (indeterminate k) q v =
      resume_lost-Inv s started (answered (indeterminate k)) (λ r h. cc) q.0 q.1 v
