-- ===== src/Client/Open/Rounds/Cleanup.antt =====
-- What an open leaves behind.
use coactor.Base.{
  ℕ, ◌≡◌, refl, Bool, true, false, Option, none, some, List, [], ◌∷◌, Bytes, get, get-remove,
  Result, ok, err, arith, bytes_eq, nat_eq, Bool-cases, inl, inr, All, leb, ◌∙◌,
}
use coactor.Failure.{SendError}
use coactor.Address.{ActorAddress}
use coactor.Sessions.{SessionId}
use coactor.Cluster.{NodeRecord, Timed, answered, failed, elapsed}
use coactor.Cluster.Placement.{PlacementCandidate}
use coactor.Client.{
  HashSet, PlacementStrategy, unbind, on_connection, register_local, unregister_local,
}
use coactor.Client.Bindings.{Unbound, UnboundBut, unbind-Unbound}
use coactor.Client.Open.{
  OwnerResolution, live, unowned, resolve_owner, placement_candidates, select_placement_candidate,
  place, fresh_cache, from_cache, select_from,
}
use coactor.Client.Open.Rounds.{
  Locals, RoundEnd, done, continue, Inner, Answers, acquire_connection, send_session_open, on_error,
  withdraw, after_send, with_connection, toward, placed_at, is_failed, resolved, round, proceed,
  rounds, closing, begun, open_session, meanwhile,
}
use coactor.Client.Open.Rounds.Acquired.{
  IsQuiet, Acquired, Cleaned, locked-Acquired, sent-UnboundBut, withdraw-Unbound, failed-Unbound,
}

module _ (strategy : PlacementStrategy) (is_blank : Bytes → Bool) (a : ActorAddress)
    (i : SessionId) where
  abbrev Client : Type 0
  Client = Inner strategy is_blank

  -- The result of an error is an error.
  abbrev Failed : RoundEnd → Type 0
  Failed (done (ok _)) = ⊥
  Failed _ = Unit {0}

  Failed-Cleaned :
      (r : RoundEnd) (s : Client)
      → Failed r
      → Unbound strategy i s
      → Cleaned strategy is_blank a i (r, s)
  Failed-Cleaned (done (ok _)) s f h = absurd f
  Failed-Cleaned (done (err _)) s f h = h
  Failed-Cleaned (continue _) s f h = h

  on_error-Failed :
      (max : ℕ) (b : Bool) (endpoint : Bytes) (owner : Option (Bytes × Bytes)) (v : Locals)
      (e : SendError)
      → Failed (on_error strategy is_blank a i max b endpoint owner v e)
  unfolding on_error
  on_error-Failed max true endpoint owner v SendError.not_owner = ground arith
  on_error-Failed max false endpoint owner v SendError.not_owner = ground arith
  on_error-Failed max true endpoint owner v SendError.runtime_at_capacity = ground arith
  on_error-Failed max true endpoint owner v SendError.remote_unavailable = ground arith
  on_error-Failed max false endpoint owner v SendError.remote_unavailable = ground arith
  on_error-Failed max true endpoint owner v _ = tt
  on_error-Failed max false endpoint owner v _ = tt

  after_send-Cleaned :
      (x : Answers strategy is_blank) (b : Bool) (endpoint : Bytes) (owner : Option (Bytes × Bytes))
      (id : ℕ) (v : Locals) (r : (Bool × Result SendError (Unit {0})) × Client)
      → UnboundBut strategy i id r.1
      → Cleaned strategy is_blank a i (after_send strategy is_blank a i x b endpoint owner id v r)
  unfolding after_send
  after_send-Cleaned x b endpoint owner id v ((sent, ok _), s) h = h
  after_send-Cleaned x b endpoint owner id v ((sent, err e), s) h =
      Failed-Cleaned _ _ (on_error-Failed _ b endpoint owner _ e) (
        failed-Unbound strategy is_blank a i b endpoint (withdraw strategy is_blank a i x id s)
          (withdraw-Unbound strategy is_blank a i x id s h))

  with_connection-Cleaned :
      (x : Answers strategy is_blank) (b : Bool) (endpoint : Bytes) (owner : Option (Bytes × Bytes))
      (v : Locals) (r : Result SendError ℕ × Client)
      → (IsQuiet strategy is_blank a i) x
      → (Acquired strategy is_blank a i) r
      → Cleaned strategy is_blank a i (with_connection strategy is_blank a i x b endpoint owner v r)
  unfolding with_connection
  with_connection-Cleaned x true endpoint owner v (err _, s) q h =
      failed-Unbound strategy is_blank a i true endpoint s h
  with_connection-Cleaned x false endpoint owner v (err _, s) q h = h
  with_connection-Cleaned x b endpoint owner v (ok id, s) q h =
      elim (Bool-cases (leb s.max_open_attempts v.attempts)) [
        | inl e ↦ rw e (
            failed-Unbound strategy is_blank a i b endpoint (on_connection strategy (unbind i) id s)
              (unbind-Unbound strategy i id s h))
        | inr e ↦ rw e (
            after_send-Cleaned x b endpoint owner id v
              (send_session_open strategy is_blank x a i id s)
              (sent-UnboundBut strategy is_blank a i x id s q h))
      ]

  meanwhile-Acquired :
      (x : Answers strategy is_blank) (r : Result SendError ℕ × Client)
      → (IsQuiet strategy is_blank a i) x
      → (Acquired strategy is_blank a i) r
      → (Acquired strategy is_blank a i) (meanwhile strategy is_blank x r)
  meanwhile-Acquired x (err _, s) q h = h
  meanwhile-Acquired x (ok id, s) q h = λ j n. q.acquired.unbound s j (h j n)

  toward-Cleaned :
      (x : Answers strategy is_blank) (b : Bool) (endpoint : Bytes) (owner : Option (Bytes × Bytes))
      (v : Locals) (s : Client)
      → (IsQuiet strategy is_blank a i) x
      → Unbound strategy i s
      → Cleaned strategy is_blank a i (toward strategy is_blank a i x b endpoint owner v s)
  unfolding toward acquire_connection
  toward-Cleaned x b endpoint owner v s q h =
      let r = acquire_connection strategy is_blank x endpoint i s in
      with_connection-Cleaned x b endpoint owner v (meanwhile strategy is_blank x r) q (
        meanwhile-Acquired x r q
          (locked-Acquired strategy is_blank a i x endpoint _ s x.locked_in_time q h))

  from_cache-connections :
      (now : ℕ) (nodes : Timed (List NodeRecord)) (s : Client)
      (cached : Option (List PlacementCandidate))
      → (from_cache strategy is_blank now nodes s cached).1.connections ≡ s.connections
  unfolding from_cache
  from_cache-connections now nodes s (some cs) = refl
  from_cache-connections now (answered ns) s none = refl
  from_cache-connections now (failed _) s none = refl
  from_cache-connections now elapsed s none = refl

  place-connections :
      (s : Client) (cs : List PlacementCandidate)
      → (place strategy is_blank a s cs).1.connections ≡ s.connections
  unfolding place
  place-connections s [] = refl
  place-connections s (c ∷ cs) = refl

  select_from-connections :
      (excluded : HashSet Bytes) (r : Result SendError (List PlacementCandidate) × Client)
      → (select_from strategy is_blank a excluded r).1.connections ≡ r.1.connections
  unfolding select_from
  select_from-connections excluded (err e, s) = refl
  select_from-connections excluded (ok cs, s) = place-connections s _

  select-connections :
      (excluded : HashSet Bytes) (now : ℕ) (nodes : Timed (List NodeRecord)) (s : Client)
      → (select_placement_candidate strategy is_blank a excluded now nodes s).1.connections
        ≡ s.connections
  unfolding select_placement_candidate placement_candidates
  select-connections excluded now nodes s =
      select_from-connections excluded (placement_candidates strategy is_blank now nodes s)
      ∙ from_cache-connections now nodes s (fresh_cache strategy is_blank now s.placement_cache)

  placed_at-Cleaned :
      (x : Answers strategy is_blank) (v : Locals) (r : Result SendError Bytes × Client)
      → (IsQuiet strategy is_blank a i) x
      → Unbound strategy i r.1
      → Cleaned strategy is_blank a i (placed_at strategy is_blank a i x v r)
  unfolding placed_at
  placed_at-Cleaned x v (err e, s) q h = h
  placed_at-Cleaned x v (ok endpoint, s) q h = toward-Cleaned x true endpoint none v s q h

  resolved-Cleaned :
      (x : Answers strategy is_blank) (v : Locals) (s : Client)
      (r : Result SendError OwnerResolution)
      → (IsQuiet strategy is_blank a i) x
      → Unbound strategy i s
      → Cleaned strategy is_blank a i (resolved strategy is_blank a i x v s r)
  unfolding resolved
  resolved-Cleaned x v s (err e) q h = h
  resolved-Cleaned x v s (ok (live endpoint node_id owner_session)) q h =
      elim (Bool-cases
        (is_failed strategy is_blank a i v.failed_live_owner node_id owner_session)) [
          | inl e ↦ rw e h
          | inr e ↦ rw e (toward-Cleaned x false endpoint (some (node_id, owner_session)) v s q h)
        ]
  resolved-Cleaned x v s (ok unowned) q h =
      placed_at-Cleaned x v
        (select_placement_candidate strategy is_blank a v.excluded x.now x.nodes s) q
        (λ j. rw (select-connections v.excluded x.now x.nodes s) (h j))

  proceed-Cleaned :
      (next : Locals → Client → RoundEnd × Client) (r : RoundEnd × Client)
      → ((v : Locals) (s : Client)
          → Unbound strategy i s
          → Cleaned strategy is_blank a i (next v s))
      → Cleaned strategy is_blank a i r
      → Cleaned strategy is_blank a i (proceed strategy is_blank a i next r)
  unfolding proceed
  proceed-Cleaned next (done (ok id), s) k h = h
  proceed-Cleaned next (done (err e), s) k h = h
  proceed-Cleaned next (continue v, s) k h = k v s h

  rounds-Cleaned :
      (xs : List (Answers strategy is_blank)) (v : Locals) (s : Client)
      → All (IsQuiet strategy is_blank a i) xs
      → Unbound strategy i s
      → Cleaned strategy is_blank a i (rounds strategy is_blank a i xs v s)
  unfolding rounds round
  rounds-Cleaned [] v s q h = h
  rounds-Cleaned (x ∷ xs) v s q h =
      proceed-Cleaned (rounds strategy is_blank a i xs) (round strategy is_blank a i x v s)
        (λ w t k. rounds-Cleaned xs w t q.1 k)
        (resolved-Cleaned x v s (resolve_owner is_blank x.owner x.node) q.0 h)

  -- What is known of the session id once an open is over or waits.
  abbrev pub Settled : RoundEnd × Client → Type 0
  Settled (done (ok id), s) = UnboundBut strategy i id s
  Settled (done (err _), s) =
      Unbound strategy i s × (get i s.pending_opens ≡ none) × (get i s.receivers ≡ none)
  Settled (continue _, s) = Unbound strategy i s

  closing-Settled :
      (r : RoundEnd × Client)
      → Cleaned strategy is_blank a i r
      → Settled (closing strategy is_blank a i r)
  unfolding closing unregister_local
  closing-Settled (done (ok id), s) h = h
  closing-Settled (done (err e), s) h = (
    λ j. h j,
    ground (arith, get-remove i i s.pending_opens),
    ground (arith, get-remove i i s.receivers),
  )
  closing-Settled (continue v, s) h = h

  begun-Settled :
      (xs : List (Answers strategy is_blank)) (channel : ℕ) (s : Client) (running : Bool)
      → All (IsQuiet strategy is_blank a i) xs
      → Unbound strategy i s
      → get i s.pending_opens ≡ none
      → get i s.receivers ≡ none
      → Settled (begun strategy is_blank a i xs channel s running)
  unfolding begun register_local
  begun-Settled xs channel s false q h p r = (h, p, r)
  begun-Settled xs channel s true q h p r =
      closing-Settled (rounds strategy is_blank a i xs _ (register_local strategy i channel s))
        (rounds-Cleaned xs _ (register_local strategy i channel s) q h)

  -- For a session that is new to the client, whatever the answers of its rounds, and whatever the
  -- other tasks do in between as long as they bind no connection to it: an open that fails leaves its
  -- session bound to no connection, awaiting no ack and with no receiver; one that succeeds is bound
  -- to its own connection at most.
  pub open_session-Settled :
      (xs : List (Answers strategy is_blank)) (channel : ℕ) (s : Client)
      → All (IsQuiet strategy is_blank a i) xs
      → Unbound strategy i s
      → get i s.pending_opens ≡ none
      → get i s.receivers ≡ none
      → Settled (open_session strategy is_blank a i xs channel s)
  unfolding open_session
  open_session-Settled xs channel s q h p r = begun-Settled xs channel s s.running q h p r
