-- ===== src/Server/Sessions/Isolation.antt =====
-- A connection acts on the sessions that are bound to it, and on no other.
use coactor.Base.{
  ℕ, ◌==◌, ◌≡◌, refl, Bool, true, false, Option, none, some, Bytes, Result, Option-cases, inl, inr,
}
use coactor.Failure.{SendError}
use coactor.Address.{ActorAddress, from_envelope}
use coactor.Tokio.{Semaphore, Mpsc}
use coactor.Transport.{SenderId, Envelope, Kind}
use coactor.Sessions.{SessionId, session_id_of, is_bound_to}
use coactor.Cluster.Router.{ResolvedOwner}
use coactor.Server.{MailboxMessage}
use coactor.Server.Dispatch.{Server}
use coactor.Server.Sessions.{Inbound, on_action, on_kind, on_address, on_session, dispatch_inbound}

-- Every kind of envelope but the opening of a session.
abbrev pub IsOpen : Option Kind → Type 0
IsOpen (some Kind.session_open) = Unit {0}
IsOpen _ = ⊥

module _ (sem : Semaphore) (mpsc : Mpsc MailboxMessage) where
  -- The sender is bound to no session of the address that the envelope could name.
  abbrev pub IsStranger : Server sem mpsc → SenderId → Type 0
  IsStranger s sender =
      (a : ActorAddress) (i : SessionId) → is_bound_to s.sessions a i sender ≡ false

  module _ (s : Server sem mpsc) (sender : SenderId) (h : IsStranger s sender) where
    abbrev Keeps : Option (Inbound sem mpsc) → Type 0
    Keeps none = ⊥
    Keeps (some x) = (x.server ≡ s) × (x.pending ≡ false)

    on_action-Keeps :
        (v : Bool) (now : ℕ) (a : ActorAddress) (i : SessionId) (payload : Bytes)
        → Keeps (on_action sem mpsc v now a i payload (some sender) s)
    unfolding on_action
    on_action-Keeps true now a i payload = rw (h a i) (refl, refl)
    on_action-Keeps false now a i payload = (refl, refl)

    on_kind-Keeps :
        (v : Bool) (now : ℕ) (a : ActorAddress) (i : SessionId) (c : ℕ)
        (owner : Option (Result SendError ResolvedOwner)) (k : Kind)
        → ¬ IsOpen (some k)
        → Keeps (on_kind sem mpsc v now a i (some sender) c owner s k)
    unfolding on_kind
    on_kind-Keeps v now a i c owner (Kind.action payload) n = on_action-Keeps v now a i payload
    on_kind-Keeps v now a i c owner Kind.session_open n = absurd (n tt)
    on_kind-Keeps v now a i c owner (Kind.session_close r) n = rw (h a i) (refl, refl)
    on_kind-Keeps v now a i c owner (Kind.event _) n = (refl, refl)
    on_kind-Keeps v now a i c owner (Kind.session_error _) n = (refl, refl)
    on_kind-Keeps v now a i c owner (Kind.session_opened_ack _) n = (refl, refl)

    on_session-Keeps :
        (is_utf8 : Bytes → Bool) (now : ℕ) (e : Envelope) (c : ℕ)
        (owner : Option (Result SendError ResolvedOwner)) (k : Option Kind) (i : Option SessionId)
        → ¬ IsOpen k
        → Keeps (on_session sem mpsc is_utf8 now e (some sender) c owner s k i)
    unfolding on_session on_address
    on_session-Keeps u now e c owner none i n = (refl, refl)
    on_session-Keeps u now e c owner (some k) none n = (refl, refl)
    on_session-Keeps u now e c owner (some k) (some i) n =
        elim (Option-cases (from_envelope u e.actor_type e.actor_id)) [
          | inl f ↦ rw (f, on_address) (refl, refl)
          | inr (a, f) ↦
              rw (f, on_address)
                (on_kind-Keeps (e.protocol_version == s.transport_protocol_version) now a i c owner
                  k n)
        ]

    -- An envelope from a connection that no session is bound to, whatever session and Actor it
    -- names, changes nothing on the server unless it opens a session; and it never panics.
    pub dispatch_inbound_stranger :
        (is_utf8 : Bytes → Bool) (now : ℕ) (e : Envelope) (c : ℕ)
        (owner : Option (Result SendError ResolvedOwner))
        → ¬ IsOpen e.kind
        → (x : Inbound sem mpsc) × (dispatch_inbound sem mpsc is_utf8 now e (some sender) c owner s
            ≡ some x)
          × (x.server ≡ s)
          × (x.pending ≡ false)
    unfolding dispatch_inbound
    dispatch_inbound_stranger u now e c owner n =
        kept (dispatch_inbound sem mpsc u now e (some sender) c owner s)
          (on_session-Keeps u now e c owner e.kind (session_id_of e.session_id) n)
      where
        kept :
            (r : Option (Inbound sem mpsc))
            → Keeps r
            → (x : Inbound sem mpsc) × (r ≡ some x) × (x.server ≡ s) × (x.pending ≡ false)
        kept none f = absurd f
        kept (some x) f = (x, refl, f.0, f.1)
