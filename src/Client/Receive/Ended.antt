-- ===== src/Client/Receive/Ended.antt =====
-- What the end of a connection means to its sessions.
use coactor.Base.{
  ℕ, ◌≡◌, ◌≢◌, inl, inr, refl, sym, subst, ◌∙◌, true, false, Option, none, some, List, [], ◌∷◌,
  Bytes, get, get-remove, Result, err, In, there, In_head, arith, bytes_eq, nat_eq, Bool-cases,
}
use coactor.Failure.{SendError}
use coactor.Sessions.{SessionId}
use coactor.Client.{
  PlacementStrategy, HashSet, PendingOpen, TransportConnection, terminate, ended, changed,
  on_connection,
}
use coactor.Client.Receive.{
  Inner, is_of, complete_open, end_session, end_sessions, without, leave_pool, drained,
  finish_receive_loop,
}

module _ (strategy : PlacementStrategy) where
  -- From `s` to `t`: an open of session `i` that awaits its ack on connection `id` has the error for
  -- it; in any other case the session has no receiver any more, and the one it had got the error.
  pub record Told (id : ℕ) (i : SessionId) (s t : Inner strategy) : Type 0 where
    pub acked :
        (p : PendingOpen)
        → get i s.pending_opens ≡ some p
        → p.connection_id ≡ id
        → (get i t.pending_opens ≡ none)
          × In (p.complete, err SendError.remote_unavailable) t.completions
    pub silent : is_of strategy id (get i s.pending_opens) ≡ false → get i t.receivers ≡ none
    pub told :
        is_of strategy id (get i s.pending_opens) ≡ false
        → (channel : ℕ) → get i s.receivers ≡ some channel
        → In (channel, err SendError.remote_unavailable) t.delivered

  -- What is over stays over.
  record Grown (i : SessionId) (s t : Inner strategy) : Type 0 where
    pending : get i s.pending_opens ≡ none → get i t.pending_opens ≡ none
    receivers : get i s.receivers ≡ none → get i t.receivers ≡ none
    completions : (x : ℕ × Result SendError (Unit {0})) → In x s.completions → In x t.completions
    delivered : (x : ℕ × Result SendError Bytes) → In x s.delivered → In x t.delivered

  record Kept (i : SessionId) (s t : Inner strategy) : Type 0 where
    pending : get i t.pending_opens ≡ get i s.pending_opens
    receivers : get i t.receivers ≡ get i s.receivers

  Told-Grown :
      (id : ℕ) (i : SessionId) (s t u : Inner strategy)
      → Told id i s t
      → Grown i t u
      → Told id i s u
  Told-Grown id i s t u h g = record {
    acked = λ p e f. (g.pending (h.acked p e f).0, g.completions _ (h.acked p e f).1);
    silent = λ e. g.receivers (h.silent e);
    told = λ e channel f. g.delivered _ (h.told e channel f);
  }

  Told-Kept :
      (id : ℕ) (i : SessionId) (s t u : Inner strategy) → Kept i s t → Told id i t u → Told id i s u
  Told-Kept id i s t u k h = record {
    acked = λ p e f. h.acked p (k.pending ∙ e) f;
    silent = λ e. h.silent (rw k.pending e);
    told = λ e channel f. h.told (rw k.pending e) channel (k.receivers ∙ f);
  }

  Grown-trans : (i : SessionId) (s t u : Inner strategy) → Grown i s t → Grown i t u → Grown i s u
  Grown-trans i s t u p q = record {
    pending = λ h. q.pending (p.pending h);
    receivers = λ h. q.receivers (p.receivers h);
    completions = λ x h. q.completions x (p.completions x h);
    delivered = λ x h. q.delivered x (p.delivered x h);
  }

  completed-Grown :
      (i j : SessionId) (x : Result SendError (Unit {0})) (s : Inner strategy)
      (p : Option PendingOpen)
      → Grown i s (complete_open strategy j x s p)
  unfolding complete_open
  completed-Grown i j x s none = record {
    pending = λ h. h;
    receivers = λ h. h;
    completions = λ y h. h;
    delivered = λ y h. h;
  }
  completed-Grown i j x s (some p) = record {
    pending = λ h. ground (arith, h, get-remove i j s.pending_opens);
    receivers = λ h. h;
    completions = λ y h. there h;
    delivered = λ y h. h;
  }

  ended-Grown :
      (i j : SessionId) (e : SendError) (s : Inner strategy) (c : Option ℕ)
      → Grown i s (ended strategy j e s c)
  ended-Grown i j e s none = record {
    pending = λ h. h;
    receivers = λ h. h;
    completions = λ y h. h;
    delivered = λ y h. h;
  }
  ended-Grown i j e s (some c) = record {
    pending = λ h. h;
    receivers = λ h. ground (arith, h, get-remove i j s.receivers);
    completions = λ y h. h;
    delivered = λ y h. there h;
  }

  step-Grown :
      (id : ℕ) (i j : SessionId) (s : Inner strategy) → Grown i s (end_session strategy id j s)
  unfolding end_session terminate
  step-Grown id i j s = elim (Bool-cases (is_of strategy id (get j s.pending_opens))) [
    | inl e ↦
        rw e (completed-Grown i j (err SendError.remote_unavailable) s (get j s.pending_opens))
    | inr e ↦ rw e (ended-Grown i j SendError.remote_unavailable s (get j s.receivers))
  ]

  completed-Kept :
      (i j : SessionId) (x : Result SendError (Unit {0})) (s : Inner strategy)
      (p : Option PendingOpen)
      → j ≢ i
      → Kept i s (complete_open strategy j x s p)
  unfolding complete_open
  completed-Kept i j x s none n = record { pending = refl; receivers = refl }
  completed-Kept i j x s (some p) n = record {
    pending = ground (arith, n, get-remove i j s.pending_opens);
    receivers = refl;
  }

  ended-Kept :
      (i j : SessionId) (e : SendError) (s : Inner strategy) (c : Option ℕ)
      → j ≢ i
      → Kept i s (ended strategy j e s c)
  ended-Kept i j e s none n = record { pending = refl; receivers = refl }
  ended-Kept i j e s (some c) n = record {
    pending = refl;
    receivers = ground (arith, n, get-remove i j s.receivers);
  }

  step-Kept :
      (id : ℕ) (i j : SessionId) (s : Inner strategy)
      → j ≢ i
      → Kept i s (end_session strategy id j s)
  unfolding end_session terminate
  step-Kept id i j s n = elim (Bool-cases (is_of strategy id (get j s.pending_opens))) [
    | inl e ↦
        rw e (completed-Kept i j (err SendError.remote_unavailable) s (get j s.pending_opens) n)
    | inr e ↦ rw e (ended-Kept i j SendError.remote_unavailable s (get j s.receivers) n)
  ]

  clash :
      (id : ℕ) (o : Option PendingOpen) (p : PendingOpen)
      → o ≡ some p
      → is_of strategy id (some p) ≡ true
      → is_of strategy id o ≡ false
      → ⊥
  clash id o p e f g = ground (arith, e, f, g)

  is_of_own : (id : ℕ) (p : PendingOpen) → p.connection_id ≡ id → is_of strategy id (some p) ≡ true
  is_of_own id p h = ground (arith, h)

  completed-Told :
      (id : ℕ) (i : SessionId) (s : Inner strategy) (p : PendingOpen)
      → get i s.pending_opens ≡ some p
      → is_of strategy id (some p) ≡ true
      → Told id i s (complete_open strategy i (err SendError.remote_unavailable) s (some p))
  unfolding complete_open
  completed-Told id i s p e f = record {
    acked = λ q g h. (ground (arith, get-remove i i s.pending_opens), In_head _ _ _ (cc));
    silent = λ g. absurd (clash id _ p e f g);
    told = λ g channel h. absurd (clash id _ p e f g);
  }

  ended-Told :
      (id : ℕ) (i : SessionId) (s : Inner strategy) (c : Option ℕ)
      → is_of strategy id (get i s.pending_opens) ≡ false
      → get i s.receivers ≡ c
      → Told id i s (ended strategy i SendError.remote_unavailable s c)
  ended-Told id i s none e f = record {
    acked = λ q g h. absurd (clash id _ q g (is_of_own id q h) e);
    silent = λ g. f;
    told = λ g channel h. absurd (cc);
  }
  ended-Told id i s (some c) e f = record {
    acked = λ q g h. absurd (clash id _ q g (is_of_own id q h) e);
    silent = λ g. ground (arith, get-remove i i s.receivers);
    told = λ g channel h. In_head _ _ _ (cc);
  }

  split_Told :
      (id : ℕ) (i : SessionId) (s : Inner strategy) (p : Option PendingOpen)
      → get i s.pending_opens ≡ p
      → is_of strategy id p ≡ true
      → Told id i s (complete_open strategy i (err SendError.remote_unavailable) s p)
  split_Told id i s none e f = cc
  split_Told id i s (some p) e f = completed-Told id i s p e f

  step-Told :
      (id : ℕ) (i : SessionId) (s : Inner strategy) → Told id i s (end_session strategy id i s)
  unfolding end_session terminate
  step-Told id i s = elim (Bool-cases (is_of strategy id (get i s.pending_opens))) [
    | inl e ↦ rw e (split_Told id i s (get i s.pending_opens) refl e)
    | inr e ↦ rw e (ended-Told id i s (get i s.receivers) e refl)
  ]

  each-Grown :
      (id : ℕ) (i : SessionId) (js : HashSet SessionId) (s : Inner strategy)
      → Grown i s (end_sessions strategy id js s)
  unfolding end_sessions
  each-Grown id i [] s = record {
    pending = λ h. h;
    receivers = λ h. h;
    completions = λ y h. h;
    delivered = λ y h. h;
  }
  each-Grown id i ((j, _) ∷ js) s =
      Grown-trans i s (end_session strategy id j s) _ (step-Grown id i j s)
        (each-Grown id i js (end_session strategy id j s))

  each-Told :
      (id : ℕ) (i : SessionId) (js : HashSet SessionId) (s : Inner strategy)
      → get i js ≡ some tt
      → Told id i s (end_sessions strategy id js s)
  unfolding end_sessions get
  each-Told id i [] s h = cc
  each-Told id i ((j, _) ∷ js) s h =
      let s' = end_session strategy id j s in
      elim (bytes_eq.dec j i) [
        | yes e ↦
            subst (λ k. Told id i s (end_sessions strategy id js (end_session strategy id k s)))
              (sym e)
              (Told-Grown id i s (end_session strategy id i s) _ (step-Told id i s)
                (each-Grown id i js _))
        | no n ↦
            Told-Kept id i s s' _ (step-Kept id i j s n)
              (each-Told id i js s' (ground (arith, n, h)))
      ]

  without-Kept :
      (id : ℕ) (endpoint : Bytes) (i : SessionId) (s : Inner strategy) (ids : Option (List ℕ))
      → Kept i s (without strategy id endpoint s ids)
        × ((without strategy id endpoint s ids).connections ≡ s.connections)
  unfolding without
  without-Kept id endpoint i s none = (record { pending = refl; receivers = refl }, refl)
  without-Kept id endpoint i s (some ids) = (record { pending = refl; receivers = refl }, refl)

  changed-Kept :
      (f : TransportConnection → TransportConnection) (id : ℕ) (i : SessionId) (s : Inner strategy)
      (c : Option TransportConnection)
      → Kept i s (changed strategy f id s c)
  changed-Kept f id i s none = record { pending = refl; receivers = refl }
  changed-Kept f id i s (some c) = record { pending = refl; receivers = refl }

  Kept-trans : (i : SessionId) (s t u : Inner strategy) → Kept i s t → Kept i t u → Kept i s u
  Kept-trans i s t u p q = record {
    pending = q.pending ∙ p.pending;
    receivers = q.receivers ∙ p.receivers;
  }

  pub finish_receive_loop-Told :
      (id : ℕ) (i : SessionId) (s : Inner strategy) (c : TransportConnection)
      → get id s.connections ≡ some c
      → get i c.sessions ≡ some tt
      → Told id i s (finish_receive_loop strategy id s)
  unfolding finish_receive_loop leave_pool on_connection
  finish_receive_loop-Told id i s c e h =
      let p = without-Kept id c.endpoint i s (get c.endpoint s.pools) in
      let s' = without strategy id c.endpoint s (get c.endpoint s.pools) in
      let s'' = changed strategy (drained strategy) id s' (some c) in
      rw (e, p.1, e)
        (Told-Kept id i s s'' _
          (Kept-trans i s s' s'' p.0 (changed-Kept (drained strategy) id i s' (some c)))
          (each-Told id i c.sessions s'' h))
