-- ===== src/Client/Open/Rounds/Sent.antt =====
-- What each step of an open adds to the `SessionOpen` messages of its session.
use coactor.Base.{
  ℕ, ◌+◌, ◌≡◌, refl, Bool, true, false, Option, none, some, List, [], ◌∷◌, Bytes, Result, ok, err,
  if◌then◌else◌, arith, bytes_eq, nat_eq, ite, get,
}
use coactor.Failure.{SendError}
use coactor.Address.{ActorAddress}
use coactor.Transport.{SenderId, Sends, Accepts, Kind, CloseReason, request}
use coactor.Sessions.{SessionId}
use coactor.Cluster.{NodeRecord, Timed, answered, failed, elapsed}
use coactor.Cluster.Placement.{PlacementCandidate}
use coactor.Client.{
  HashSet, PlacementStrategy, TransportConnection, bind, unbind, on_connection, send_over,
  sent_over, admitted, changed, try_send,
}
use coactor.Client.Open.{
  placement_candidates, select_placement_candidate, place, fresh_cache, from_cache, select_from,
}
use coactor.Client.Open.Rounds.{
  Inner, Answers, connect, reuse, least, with_room, locked, withdraw, failed_placement, meanwhile,
}

abbrev is_open_kind : Option Kind → Bool
is_open_kind (some Kind.session_open) = true
is_open_kind _ = false

-- The number of `SessionOpen` envelopes of the session that were admitted.
abbrev pub opens : SessionId → Sends → ℕ
opens i [] = 0
opens i ((_, e) ∷ sent) =
    if is_open_kind e.kind
    then ite (bytes_eq.dec e.session_id i) (opens i sent + 1) (opens i sent)
    else opens i sent

module _ (strategy : PlacementStrategy) (is_blank : Bytes → Bool) (a : ActorAddress)
    (i : SessionId) where
  abbrev pub Client : Type 0
  Client = Inner strategy is_blank

  pub record Same (s t : Client) : Type 0 where
    pub opened : opens i t.sent ≡ opens i s.sent
    pub limit : t.max_open_attempts ≡ s.max_open_attempts

  -- The other tasks send no `SessionOpen` of this id, and the configuration stays.
  pub record IsAlone (x : Answers strategy is_blank) : Type 0 where
    pub connecting : (s : Client) → Same s (x.connecting s)
    pub acquired : (s : Client) → Same s (x.acquired s)
    pub acking : (s : Client) → Same s (x.acking s)

  pub trans : {s t u : Client} → Same s t → Same t u → Same s u
  trans p q = record {
    opened = omega (arith, p.opened, q.opened);
    limit = omega (arith, p.limit, q.limit);
  }

  stored-Same :
      (f : TransportConnection → TransportConnection) (id : ℕ) (s : Client)
      (c : Option TransportConnection)
      → Same s (changed strategy f id s c)
  stored-Same f id s none = record { opened = refl; limit = refl }
  stored-Same f id s (some c) = record { opened = refl; limit = refl }

  pub changed-Same :
      (f : TransportConnection → TransportConnection) (id : ℕ) (s : Client)
      → Same s (on_connection strategy f id s)
  unfolding on_connection
  changed-Same f id s = stored-Same f id s (get id s.connections)

  connect-Same :
      (endpoint : Bytes) (ids : List ℕ) (sender : Option SenderId) (s : Client)
      → Same s (connect strategy is_blank endpoint i ids sender s).1
  unfolding connect
  connect-Same endpoint ids none s = record { opened = refl; limit = refl }
  connect-Same endpoint ids (some sender) s = record { opened = refl; limit = refl }

  reuse-Same : (s : Client) (ids : List ℕ) → Same s (reuse strategy is_blank i s ids).1
  unfolding reuse
  reuse-Same s [] = record { opened = refl; limit = refl }
  reuse-Same s (id ∷ ids) = changed-Same (bind i) (least strategy is_blank s id ids) s

  with_room-Same :
      (x : Answers strategy is_blank) (endpoint : Bytes) (ids : List ℕ) (s : Client) (room : Bool)
      → IsAlone x
      → Same s (with_room strategy is_blank x endpoint i ids s room).1
  unfolding with_room
  with_room-Same x endpoint ids s true q =
      trans (q.connecting s) (connect-Same endpoint ids x.connected (x.connecting s))
  with_room-Same x endpoint ids s false q = reuse-Same s ids

  pub locked-Same :
      (x : Answers strategy is_blank) (endpoint : Bytes) (ids : List ℕ) (s : Client)
      (in_time : Bool)
      → IsAlone x
      → Same s (locked strategy is_blank x endpoint i ids s in_time).1
  unfolding locked
  locked-Same x endpoint ids s false q = record { opened = refl; limit = refl }
  locked-Same x endpoint ids s true q =
      let r = with_room-Same x endpoint _ _ _ q in record { opened = r.opened; limit = r.limit }

  pub meanwhile-Same :
      (x : Answers strategy is_blank) (r : Result SendError ℕ × Client)
      → IsAlone x
      → Same r.1 (meanwhile strategy is_blank x r).1
  meanwhile-Same x (err _, s) q = record { opened = refl; limit = refl }
  meanwhile-Same x (ok id, s) q = q.acquired s

  -- A send counts if it is a `SessionOpen` that is admitted.
  abbrev pub Counted : Client → Result SendError (Unit {0}) × Client → Type 0
  Counted s (ok _, t) =
      (opens i t.sent ≡ opens i s.sent + 1) × (t.max_open_attempts ≡ s.max_open_attempts)
  Counted s (err _, t) = Same s t

  admitted-Counted :
      (r : Result SendError (Unit {0})) (sender : SenderId) (s : Client)
      → Counted s (r, admitted strategy r sender (request a i Kind.session_open) s)
  unfolding admitted request
  admitted-Counted (ok _) sender s = ground arith
  admitted-Counted (err _) sender s = record { opened = refl; limit = refl }

  pub open-Counted :
      (accepts : Accepts) (s : Client) (c : Option TransportConnection)
      → Counted s (sent_over strategy accepts (request a i Kind.session_open) s c)
  unfolding sent_over
  open-Counted accepts s none = record { opened = refl; limit = refl }
  open-Counted accepts s (some c) =
      admitted-Counted (try_send accepts c (request a i Kind.session_open)) c.sender s

  admitted-Same :
      (k : CloseReason) (r : Result SendError (Unit {0})) (sender : SenderId) (s : Client)
      → Same s (admitted strategy r sender (request a i (Kind.session_close k)) s)
  unfolding admitted request
  admitted-Same k (ok _) sender s = record { opened = refl; limit = refl }
  admitted-Same k (err _) sender s = record { opened = refl; limit = refl }

  close-Same :
      (accepts : Accepts) (k : CloseReason) (s : Client) (c : Option TransportConnection)
      → Same s (sent_over strategy accepts (request a i (Kind.session_close k)) s c).1
  unfolding sent_over
  close-Same accepts k s none = record { opened = refl; limit = refl }
  close-Same accepts k s (some c) =
      admitted-Same k (try_send accepts c (request a i (Kind.session_close k))) c.sender s

  pub withdraw-Same :
      (x : Answers strategy is_blank) (id : ℕ) (s : Client)
      → Same s (withdraw strategy is_blank a i x id s)
  unfolding withdraw send_over
  withdraw-Same x id s =
      let p = close-Same x.accepts CloseReason.caller_dropped s (get id s.connections) in
      let r = trans p (changed-Same (unbind i) id _) in
      record { opened = r.opened; limit = r.limit }

  pub failed-Same :
      (b : Bool) (endpoint : Bytes) (s : Client)
      → Same s (failed_placement strategy is_blank b endpoint s)
  failed-Same true endpoint s = record { opened = refl; limit = refl }
  failed-Same false endpoint s = record { opened = refl; limit = refl }

  from_cache-Same :
      (now : ℕ) (nodes : Timed (List NodeRecord)) (s : Client)
      (cached : Option (List PlacementCandidate))
      → Same s (from_cache strategy is_blank now nodes s cached).1
  unfolding from_cache
  from_cache-Same now nodes s (some cs) = record { opened = refl; limit = refl }
  from_cache-Same now (answered ns) s none = record { opened = refl; limit = refl }
  from_cache-Same now (failed _) s none = record { opened = refl; limit = refl }
  from_cache-Same now elapsed s none = record { opened = refl; limit = refl }

  place-Same :
      (s : Client) (cs : List PlacementCandidate) → Same s (place strategy is_blank a s cs).1
  unfolding place
  place-Same s [] = record { opened = refl; limit = refl }
  place-Same s (c ∷ cs) = record { opened = refl; limit = refl }

  select_from-Same :
      (excluded : HashSet Bytes) (r : Result SendError (List PlacementCandidate) × Client)
      → Same r.1 (select_from strategy is_blank a excluded r).1
  unfolding select_from
  select_from-Same excluded (err e, s) = record { opened = refl; limit = refl }
  select_from-Same excluded (ok cs, s) = place-Same s _

  pub select-Same :
      (excluded : HashSet Bytes) (now : ℕ) (nodes : Timed (List NodeRecord)) (s : Client)
      → Same s (select_placement_candidate strategy is_blank a excluded now nodes s).1
  unfolding select_placement_candidate placement_candidates
  select-Same excluded now nodes s =
      trans (from_cache-Same now nodes s (fresh_cache strategy is_blank now s.placement_cache))
        (select_from-Same excluded (placement_candidates strategy is_blank now nodes s))
