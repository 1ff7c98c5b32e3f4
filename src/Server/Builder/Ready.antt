-- ===== src/Server/Builder/Ready.antt =====
-- A server that is built can dispatch to every Actor Type that it has.
use coactor.Base.{
  ℕ, zero, suc, subst, ◌≡◌, ◌≢◌, ◌<◌, refl, Bool, true, false, not, Option, none, some, List, [],
  ◌∷◌, Bytes, Map, get, insert, get-insert, Result, ok, err, All, if◌then◌else◌, arith, bytes_eq,
}
use coactor.Address.{ActorAddress, address_eq, is_dns_label}
use coactor.Tokio.{Semaphore, Mpsc}
use coactor.Cluster.Lease.{NodeAuthority}
use coactor.Server.{MailboxMessage, Registration}
use coactor.Server.Dispatch.{Server, mailbox_size, configured}
use coactor.Server.Dispatch.Accounting.{Accounted}
use coactor.Server.Dispatch.Total.{IsConfigured}
use coactor.Failure.{ServerError}
use coactor.Server.Builder.{
  ServerBuilderCore, is_zero_capacity, validate_each, validate, filled, or_default, fill, built,
  after_validate, build_with_authority,
}

-- A registration that a mailbox can be made for, of a type that addresses can have.
pub record Fits (k : Bytes) (r : Registration) : Type 0 where
  pub label : is_dns_label k ≡ true
  pub size : mailbox_size (some r) ≢ none

abbrev AllFit : Map Bytes Registration → Type 0
AllFit m = (k : Bytes) (r : Registration) → get k m ≡ some r → Fits k r

abbrev Valid : Registration → Type 0
Valid r = (is_dns_label r.name ≡ true) × (is_zero_capacity r.mailbox_capacity ≡ false)

passed :
    (l c d : Bool) (e e' e'' : ServerError) (rest : Result ServerError (Unit {0}))
    → (if not l then err e else (if c then err e' else (if d then err e'' else rest))) ≡ ok tt
    → (l ≡ true) × (c ≡ false) × (rest ≡ ok tt)
passed true false false e e' e'' rest h = (refl, refl, h)
passed true false true e e' e'' rest h = cc
passed true true d e e' e'' rest h = cc
passed false c d e e' e'' rest h = cc

each-Valid :
    (rs : List Registration) (names : Map Bytes (Unit {0}))
    → validate_each rs names ≡ ok tt
    → All Valid rs
unfolding validate_each
each-Valid [] names h = tt
each-Valid (r ∷ rs) names h =
    let (l, c, q) =
      passed (is_dns_label r.name) (is_zero_capacity r.mailbox_capacity) _ _ _ _ _ h in
    ((l, c), each-Valid rs (insert r.name tt names) q)

validate_lem :
    (b : ServerBuilderCore)
    → validate b ≡ ok tt
    → (0 < b.mailbox_capacity) × All Valid b.registrations
unfolding validate
validate_lem b h = (ground (arith, h), each-Valid b.registrations [] (ground (arith, h)))

positive : (n i : ℕ) → 0 < n → configured (some n) (some i) ≢ none
unfolding configured
positive zero i p h = omega (arith, p)
positive (suc n) i p h = cc

filled_size :
    (b : ServerBuilderCore) (c i : Option ℕ)
    → 0 < b.mailbox_capacity
    → is_zero_capacity c ≡ false
    → configured (or_default c b.mailbox_capacity) (or_default i b.idle_timeout) ≢ none
filled_size b none none p z = positive b.mailbox_capacity b.idle_timeout p
filled_size b none (some i) p z = positive b.mailbox_capacity i p
filled_size b (some n) none p z = positive n b.idle_timeout (ground (arith, z))
filled_size b (some n) (some i) p z = positive n i (ground (arith, z))

filled-Fits :
    (b : ServerBuilderCore) (r : Registration)
    → 0 < b.mailbox_capacity
    → Valid r
    → Fits r.name (filled b r)
unfolding mailbox_size
filled-Fits b r p v = record {
  label = v.0;
  size = filled_size b r.mailbox_capacity r.idle_timeout p v.1;
}

insert-AllFit :
    (k : Bytes) (r : Registration) (m : Map Bytes Registration)
    → Fits k r
    → AllFit m
    → AllFit (insert k r m)
insert-AllFit k r m f v j q e = elim (bytes_eq.dec k j) [
  | yes p ↦
      let h : r ≡ q = ground (arith, e, p, get-insert j k r m) in
      subst (λ x. Fits j x) h (subst (λ x. Fits x r) p f)
  | no n ↦ v j q (ground (arith, e, n, get-insert j k r m))
]

fill-AllFit :
    (b : ServerBuilderCore) (rs : List Registration) (m : Map Bytes Registration)
    → 0 < b.mailbox_capacity
    → All Valid rs
    → AllFit m
    → AllFit (fill b rs m)
unfolding fill
fill-AllFit b [] m p v w = w
fill-AllFit b (r ∷ rs) m p v w =
    fill-AllFit b rs (insert r.name (filled b r) m) p v.1
      (insert-AllFit r.name (filled b r) m (filled-Fits b r p v.0) w)

module _ (sem : Semaphore) (mpsc : Mpsc MailboxMessage) where
  open sem use {available_permits-semaphore}

  -- A new server: every permit is available, and every Actor Type that it has is a label with a
  -- mailbox that can be made.
  pub record IsReady (b : ServerBuilderCore) (s : Server sem mpsc) : Type 0 where
    pub accounted : Accounted sem mpsc 0 b.max_active_actors s
    pub ready :
        (a : ActorAddress) (r : Registration)
        → get a.actor_type s.registrations ≡ some r
        → IsConfigured sem mpsc a s × (is_dns_label a.actor_type ≡ true)

  built-IsReady :
      (authority : Option NodeAuthority) (b : ServerBuilderCore)
      → validate b ≡ ok tt
      → IsReady b (built sem mpsc authority b)
  unfolding get
  built-IsReady authority b h =
      let (p, v) = validate_lem b h in
      let fit = fill-AllFit b b.registrations [] p v (λ k r e. cc) in
      record {
        accounted = record {
          distinct = tt;
          permits = omega (arith, available_permits-semaphore b.max_active_actors);
        };
        ready = λ a r e. (rw e ((fit a.actor_type r e).size), (fit a.actor_type r e).label);
      }

  same :
      (x : Bool) (t s : Server sem mpsc) (o : Option (Result ServerError (Server sem mpsc)))
      → (if x then some (ok t) else none) ≡ o
      → o ≡ some (ok s)
      → t ≡ s
  same true t s o e h = ground (arith, e, h)
  same false t s o e h = cc

  after-IsReady :
      (authority : Option NodeAuthority) (b : ServerBuilderCore) (x : Result ServerError (Unit {0}))
      (s : Server sem mpsc)
      → validate b ≡ x
      → after_validate sem mpsc authority b x ≡ some (ok s)
      → IsReady b s
  unfolding after_validate
  after-IsReady authority b (err e) s v h = cc
  after-IsReady authority b (ok _) s v h =
      subst (λ t. IsReady b t) (same b.has_state (built sem mpsc authority b) s _ refl h)
        (built-IsReady authority b v)

  pub build_with_authority-IsReady :
      (authority : Option NodeAuthority) (b : ServerBuilderCore) (s : Server sem mpsc)
      → build_with_authority sem mpsc authority b ≡ some (ok s)
      → IsReady b s
  unfolding build_with_authority
  build_with_authority-IsReady authority b s h = after-IsReady authority b (validate b) s refl h
