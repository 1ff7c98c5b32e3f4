-- ===== src/Client/Bindings.antt =====
-- Which sessions are bound to which connections, and their count.
use coactor.Base.{
  ℕ, ◌%◌, ◌^◌, ◌≡◌, ◌≢◌, false, get, Distinct, get-insert, get-remove, insert-Distinct,
  remove-Distinct, length-insert_new, length-remove, length, arith, bytes_eq, nat_eq, Option-cases,
  inl, inr, subst, sym,
}
use coactor.Transport.{Accepts, Envelope}
use coactor.Sessions.{SessionId, is_some}
use coactor.Client.{
  PlacementStrategy, TransportConnection, bind, unbind, ClientInner, on_connection, send_over,
  sent_over, admitted,
}
use coactor.Client.Receive.{is_bound, bound_in}

-- The number of bound sessions is the size of the set, up to the range of a `usize`.
pub record IsCounted (c : TransportConnection) : Type 0 where
  pub distinct : Distinct c.sessions
  pub count : c.bound_sessions ≡ length c.sessions % 2 ^ 64

pub bind-IsCounted : (i : SessionId) (c : TransportConnection) → IsCounted c → IsCounted (bind i c)
unfolding bind
bind-IsCounted i c v = elim (Option-cases (get i c.sessions)) [
  | inl e ↦ rw e (record {
    distinct = insert-Distinct i tt c.sessions v.distinct;
    count = omega (arith, v.count, length-insert_new i tt c.sessions e);
  })
  | inr (_, e) ↦ rw e v
]

-- The count does not wrap around below 0: it is the size of a set that holds the session.
pub unbind-IsCounted :
    (i : SessionId) (c : TransportConnection) → IsCounted c → IsCounted (unbind i c)
unfolding unbind
unbind-IsCounted i c v = elim (Option-cases (get i c.sessions)) [
  | inl e ↦ rw e v
  | inr (u, e) ↦ rw e (record {
    distinct = remove-Distinct i c.sessions v.distinct;
    count = omega (arith, v.count, length-remove i u c.sessions v.distinct e);
  })
]

module _ (strategy : PlacementStrategy) (i : SessionId) where
  abbrev Inner : Type 0
  Inner = ClientInner strategy

  -- The session is bound to no connection, or to the one at most.
  abbrev pub Unbound : Inner → Type 0
  Unbound s = (id : ℕ) → is_bound strategy s id i ≡ false

  abbrev pub UnboundBut : ℕ → Inner → Type 0
  UnboundBut id s = (j : ℕ) → j ≢ id → is_bound strategy s j i ≡ false

  pub bind-UnboundBut :
      (id : ℕ) (s : Inner) → Unbound s → UnboundBut id (on_connection strategy (bind i) id s)
  unfolding bound_in on_connection
  bind-UnboundBut id s h j n = elim (Option-cases (get id s.connections)) [
    | inl e ↦ rw e (h j)
    | inr (c, e) ↦ ground (arith, h j, get-insert j id (bind i c) s.connections)
  ]

  gone : (c : TransportConnection) → is_some (get i (unbind i c).sessions) ≡ false
  unfolding unbind
  gone c = elim (Option-cases (get i c.sessions)) [
    | inl e ↦ ground arith
    | inr (u, e) ↦ ground (arith, get-remove i i c.sessions)
  ]

  unbound_here :
      (id : ℕ) (s : Inner) → is_bound strategy (on_connection strategy (unbind i) id s) id i ≡ false
  unfolding bound_in on_connection
  unbound_here id s = elim (Option-cases (get id s.connections)) [
    | inl e ↦ rw e (ground arith)
    | inr (c, e) ↦ ground (arith, gone c, get-insert id id (unbind i c) s.connections)
  ]

  pub unbind-Unbound :
      (id : ℕ) (s : Inner) → UnboundBut id s → Unbound (on_connection strategy (unbind i) id s)
  unfolding bound_in on_connection unbind
  unbind-Unbound id s h j = elim (nat_eq.dec j id) [
    | yes e ↦
        subst (λ k. is_bound strategy (on_connection strategy (unbind i) id s) k i ≡ false) (sym e)
          (unbound_here id s)
    | no n ↦ elim (Option-cases (get id s.connections)) [
      | inl e ↦ rw e (h j n)
      | inr (c, e) ↦ ground (arith, h j n, get-insert j id (unbind i c) s.connections)
    ]
  ]

  -- A send leaves the connections as they are.
  pub send_over-connections :
      (accepts : Accepts) (x : Envelope) (id : ℕ) (s : Inner)
      → (send_over strategy accepts x id s).1.connections ≡ s.connections
  unfolding send_over sent_over admitted
  send_over-connections accepts x id s = ground arith

  pub send_over-UnboundBut :
      (accepts : Accepts) (x : Envelope) (id k : ℕ) (s : Inner)
      → UnboundBut k s
      → UnboundBut k (send_over strategy accepts x id s).1
  send_over-UnboundBut accepts x id k s h j n = rw (send_over-connections accepts x id s) (h j n)
