-- ===== src/Server/Builder/Serving.antt =====
-- What a server that was built does with the messages that come to it
-- (coactor/src/runtime.rs and coactor/src/runtime/core.rs).
use coactor.Base.{
  ℕ, ◌≡◌, ◌≢◌, refl, sym, ap, subst, false, Option, none, some, List, [], ◌∷◌, Result, ok, All, Map,
  Bytes, get, bytes_eq, arith, length, Option-cases, inl, inr,
}
use coactor.Address.{ActorAddress}
use coactor.Failure.{SendError}
use coactor.Tokio.{Semaphore, Mpsc}
use coactor.Server.{MailboxMessage, Registration}
use coactor.Server.Dispatch.{Server, Reply, mailbox_size, dispatch_message}
use coactor.Server.Dispatch.Accounting.{Accounted, dispatch_message-Accounted}
use coactor.Server.Dispatch.Frames.{dispatch_message-Framed}
use coactor.Server.Dispatch.Total.{dispatch_message-ne-none}
use coactor.Server.Builder.{ServerBuilderCore, build_with_authority}
use coactor.Server.Builder.Ready.{build_with_authority-IsReady}
use coactor.Cluster.Lease.{NodeAuthority}

-- A message without a reservation, and the instant at which it comes.
pub record Call : Type 0 where
  pub now : ℕ
  pub address : ActorAddress
  pub message : MailboxMessage

module _ (sem : Semaphore) (mpsc : Mpsc MailboxMessage) where
  after_call :
      (Server sem mpsc → Option (Server sem mpsc)) → Reply sem mpsc → Option (Server sem mpsc)
  after_call next none = none
  after_call next (some (_, s)) = next s

  -- One dispatch after the other, whatever they answer; none if one of them panics.
  unfoldable pub dispatch_all : List Call → Server sem mpsc → Option (Server sem mpsc)
  unfolding after_call
  dispatch_all [] s = some s
  dispatch_all (c ∷ cs) s =
      after_call (dispatch_all cs) (dispatch_message sem mpsc c.now c.address c.message false s)

  abbrev pub IsRegistered : Map Bytes Registration → Call → Type 0
  IsRegistered registrations c = get c.address.actor_type registrations ≢ none

  -- Every Actor Type that the server has can have its mailbox.
  abbrev AllConfigured : Map Bytes Registration → Type 0
  AllConfigured registrations =
      (k : Bytes) → get k registrations ≢ none → mailbox_size (get k registrations) ≢ none

  other : ActorAddress → ActorAddress
  other a = record a { actor_id = 0 ∷ a.actor_id }

  other-ne : (a : ActorAddress) → a ≢ other a
  unfolding other
  other-ne a h = omega (arith, ap (λ (b : ActorAddress). length b.actor_id) h)

  registrations_kept :
      (c : Call) (s s' : Server sem mpsc) (x : Result SendError (Unit {0}))
      → dispatch_message sem mpsc c.now c.address c.message false s ≡ some (x, s')
      → s'.registrations ≡ s.registrations
  registrations_kept c s s' x h =
      (dispatch_message-Framed sem mpsc c.address (other c.address) c.now c.message false s s' x
        (other-ne c.address) h).registrations

  dispatch_all-Accounted :
      (total : ℕ) (cs : List Call) (s : Server sem mpsc)
      → Accounted sem mpsc 0 total s
      → AllConfigured s.registrations
      → All (IsRegistered s.registrations) cs
      → (s' : Server sem mpsc) × (dispatch_all cs s ≡ some s') × Accounted sem mpsc 0 total s'
  unfolding dispatch_all after_call
  dispatch_all-Accounted total [] s v f r = (s, refl, v)
  dispatch_all-Accounted total (c ∷ cs) s v f r =
      elim (Option-cases (dispatch_message sem mpsc c.now c.address c.message false s)) [
        | inl e ↦ absurd (
            dispatch_message-ne-none sem mpsc c.address c.message false c.now s
              (f c.address.actor_type r.0) e)
        | inr ((x, t), e) ↦
            let k = sym (registrations_kept c s t x e) in
            rw e (
              dispatch_all-Accounted total cs t
                (dispatch_message-Accounted sem mpsc total c.now false c.address c.message s t x v
                  e)
                (subst AllConfigured k f) (subst (λ m. All (IsRegistered m) cs) k r.1))
      ]

  pub build_with_authority-dispatch_all :
      (authority : Option NodeAuthority) (b : ServerBuilderCore) (s : Server sem mpsc)
      (cs : List Call)
      → build_with_authority sem mpsc authority b ≡ some (ok s)
      → All (IsRegistered s.registrations) cs
      → (s' : Server sem mpsc) × (dispatch_all cs s ≡ some s')
        × Accounted sem mpsc 0 b.max_active_actors s'
  build_with_authority-dispatch_all authority b s cs h r =
      let ready = build_with_authority-IsReady sem mpsc authority b s h in
      dispatch_all-Accounted b.max_active_actors cs s ready.accounted
        (λ k n. elim (Option-cases (get k s.registrations)) [
          | inl e ↦ absurd (n e)
          | inr (g, e) ↦ (ready.ready (record { actor_type = k; actor_id = [] }) g e).0
        ])
        r
