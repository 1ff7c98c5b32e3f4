-- ===== src/Cluster/Lease/Invariant/Steps.antt =====
-- Every step keeps what holds between the steps.
use coactor.Base.{
  ℕ, ◌≡◌, ◌⊎◌, refl, inl, inr, true, false, Option, ◌∷◌, Bytes, bytes_eq, sym, ap, ◌∙◌, subst,
}
use coactor.Cluster.Lease.System.{
  release_on_exit, calling, answering, released, System, Step, tick, lose, shut_down, release, wake,
  serve, answer, lost_before, lost_after, confirm, give_up, late, rival, rival_renewed,
  rival_released, rival_confirmed, elsewhere_renewed, elsewhere_released, owners_change, Reach,
  here, later, learn,
}
use coactor.Cluster.TestStore.{TestNodeLease, acquire_node, renew_node}
use coactor.Cluster.Lease.Invariant.{
  lease, Inv, tick-Inv, fence-Inv, end-Inv, wake-Inv, Written-of-Older,
}
use coactor.Cluster.Lease.Invariant.Answers.{serve-Inv, resume_lost-Inv, resume_answered-Inv}
use coactor.Cluster.Lease.Invariant.Rivals.{Separate, Step-Separate}
use coactor.Cluster.Lease.Invariant.Late.{same-Inv, Pending-at, confirm-Inv, late-Inv}
use coactor.Cluster.Lease.Invariant.Writes.{
  rival-Inv, rival_renewed-Inv, rival_released-Inv, renewed-Inv, released-Inv, owners-Inv,
}

module _ (ttl : ℕ) (id sid : Bytes) where
  abbrev I : System → Type 0
  I = Inv ttl id sid

  abbrev L : System → Option TestNodeLease
  L s = lease ttl id sid s

  -- Every step keeps the invariant, until the lease is released.
  Step-Inv : (s t : System) → Step s t → Separate id sid s → I s → (t.phase ≡ released) ⊎ I t
  unfolding release_on_exit
  Step-Inv s t (tick then h e) a v = inr (subst I (sym e) (tick-Inv ttl id sid s then h v))
  Step-Inv s t (lose p h e) a v = inr (subst I (sym e) (fence-Inv ttl id sid s v))
  Step-Inv s t (shut_down p e) a v = inr (subst I (sym e) (end-Inv ttl id sid s true v))
  Step-Inv s t (release true p e) a v = inl (ap (λ (u : System). u.phase) e)
  Step-Inv s t (release false p e) a v = inr (subst I (sym e) v)
  Step-Inv s t (wake available max running p h g e) a v =
      inr (subst I (sym e) (wake-Inv ttl id sid s available max running g v))
  Step-Inv s t (serve started p e) a v = inr (subst I (sym e) (serve-Inv ttl id sid s started p v))
  Step-Inv s t (answer started x p e) a v = inr (
      subst I (sym e) (
        resume_answered-Inv ttl id sid s started x
          (Pending-at ttl id sid s (answering started x) p v) v))
  Step-Inv s t (lost_before started x p h e) a v =
      let q = Pending-at ttl id sid s (calling started) p v in
      inr (
        subst I (sym e) (
          resume_lost-Inv ttl id sid s started x h q.0
            (Written-of-Older ttl id sid (L s) started s.node v.session_kept q.1) v))
  Step-Inv s t (lost_after started y x p h e) a v =
      let q = Pending-at ttl id sid s (answering started y) p v in
      inr (subst I (sym e) (resume_lost-Inv ttl id sid s started x h q.0 q.1 v))
  Step-Inv s t (confirm started r p h e) a v =
      inr (subst I (sym e) (confirm-Inv ttl id sid s started r p h v))
  Step-Inv s t (give_up started p e) a v = inr (subst I (sym e) (fence-Inv ttl id sid s v))
  Step-Inv s t (late old r e f g h) a v =
      inr (subst I (sym h) (late-Inv ttl id sid s old r e f g v))
  Step-Inv s t (rival other term h e) a v = inr (
      subst I (sym e) (
        rival-Inv ttl id sid s other term (learn (acquire_node s.store other term).0 s.theirs) h v))
  Step-Inv s t (rival_renewed other term r h i e) a v = inr (
      subst I (sym e) (
        rival_renewed-Inv ttl id sid s other term r
          (learn (renew_node s.store other term r).0 s.theirs) h i a.2 v))
  Step-Inv s t (rival_released j r i e) a v =
      inr (subst I (sym e) (rival_released-Inv ttl id sid s j r i a.2 v))
  Step-Inv s t (rival_confirmed n r h g e) a v =
      inr (subst I (sym e) (same-Inv ttl id sid s s.store (r ∷ s.theirs) refl refl v))
  Step-Inv s t (elsewhere_renewed other term r h e) a v =
      inr (subst I (sym e) (renewed-Inv ttl id sid s other term r h v))
  Step-Inv s t (elsewhere_released other r h e) a v =
      inr (subst I (sym e) (released-Inv ttl id sid s other r h v))
  Step-Inv s t (owners_change k o r e) a v = inr (subst I (sym e) (owners-Inv ttl id sid s k o r v))

  -- A released lease stays released.
  Step-released : (s t : System) → Step s t → s.phase ≡ released → t.phase ≡ released
  Step-released s t (tick then h e) p = ap (λ (u : System). u.phase) e ∙ p
  Step-released s t (lose q h e) p = cc
  Step-released s t (shut_down q e) p = cc
  Step-released s t (release wanted q e) p = cc
  Step-released s t (wake available max running q h g e) p = cc
  Step-released s t (serve started q e) p = cc
  Step-released s t (answer started x q e) p = cc
  Step-released s t (lost_before started x q h e) p = cc
  Step-released s t (lost_after started y x q h e) p = cc
  Step-released s t (confirm started r q h e) p = cc
  Step-released s t (give_up started q e) p = cc
  Step-released s t (late old r d f g e) p = ap (λ (u : System). u.phase) e ∙ p
  Step-released s t (rival other term h e) p = ap (λ (u : System). u.phase) e ∙ p
  Step-released s t (rival_renewed other term r h i e) p = ap (λ (u : System). u.phase) e ∙ p
  Step-released s t (rival_released j r i e) p = ap (λ (u : System). u.phase) e ∙ p
  Step-released s t (rival_confirmed n r h g e) p = ap (λ (u : System). u.phase) e ∙ p
  Step-released s t (elsewhere_renewed other term r h e) p = ap (λ (u : System). u.phase) e ∙ p
  Step-released s t (elsewhere_released j r h e) p = ap (λ (u : System). u.phase) e ∙ p
  Step-released s t (owners_change k o r e) p = ap (λ (u : System). u.phase) e ∙ p

  abbrev Kept : System → Type 0
  Kept s = Separate id sid s × ((s.phase ≡ released) ⊎ I s)

  Step-Kept : (s t : System) → Step s t → Kept s → Kept t
  Step-Kept s t h (a, inl p) = (Step-Separate id sid s t h a, inl (Step-released s t h p))
  Step-Kept s t h (a, inr v) = (Step-Separate id sid s t h a, Step-Inv s t h a v)

  pub Reach-Kept : (s t : System) → Reach s t → Kept s → Kept t
  Reach-Kept s t here v = v
  Reach-Kept s t (later r q) v = Step-Kept _ t q (Reach-Kept s _ r v)
