-- ===== src/Server/Builder.antt =====
-- `ServerBuilderCore` (coactor/src/runtime.rs): the configuration of a server, its check, and the
-- server that is built from it. Durations are numbers of one unit; the App State is only there or not.
pub mod Ready
pub mod Serving
use coactor.Base.{
  ℕ, ◌==◌, Bool, false, not, Option, none, some, List, [], ◌∷◌, ◌++◌, Bytes, Map, get, insert,
  Result, ok, err, if◌then◌else◌, bytes_eq,
}
use coactor.Address.{is_dns_label}
use coactor.Tokio.{Semaphore, Mpsc}
use coactor.Sessions.{is_some}
use coactor.Cluster.Lease.{NodeAuthority}
use coactor.Server.{MailboxMessage, Registration, running}
use coactor.Server.Dispatch.{Server}
use coactor.Failure.{
  ServerError, invalid_actor_type, duplicate_actor_type, invalid_mailbox_capacity,
  invalid_max_active_actors, invalid_deactivation_timeout, invalid_shutdown_timeout,
}

pub record ServerBuilderCore : Type 0 where
  pub has_state : Bool
  pub registrations : List Registration
  pub mailbox_capacity : ℕ
  pub max_active_actors : ℕ
  pub idle_timeout : ℕ
  pub deactivation_timeout : ℕ
  pub shutdown_timeout : ℕ
  pub transport_protocol_version : ℕ

-- `base`, with durations in seconds.
abbrev pub base : Bool → ServerBuilderCore
base has_state = record {
  has_state = has_state;
  registrations = [];
  mailbox_capacity = 32;
  max_active_actors = 10000;
  idle_timeout = 60;
  deactivation_timeout = 5;
  shutdown_timeout = 30;
  transport_protocol_version = 2;
}

-- `add_actor`, on the registration of the Actor Type.
unfoldable pub add_actor : Registration → ServerBuilderCore → ServerBuilderCore
add_actor r b = record b { registrations = b.registrations ++ r ∷ [] }

abbrev is_zero_capacity : Option ℕ → Bool
is_zero_capacity none = false
is_zero_capacity (some n) = n == 0

-- The loop of `validate`, with the names that it has seen.
unfoldable pub validate_each :
    List Registration → Map Bytes (Unit {0}) → Result ServerError (Unit {0})
validate_each [] names = ok tt
validate_each (r ∷ rs) names =
    let rest = validate_each rs (insert r.name tt names) in
    if not (is_dns_label r.name)
    then err (invalid_actor_type r.name)
    else (if is_zero_capacity r.mailbox_capacity
        then err invalid_mailbox_capacity
        else (if is_some (get r.name names) then err (duplicate_actor_type r.name) else rest))

unfoldable pub validate : ServerBuilderCore → Result ServerError (Unit {0})
validate b =
    if b.mailbox_capacity == 0
    then err invalid_mailbox_capacity
    else (if b.max_active_actors == 0
        then err invalid_max_active_actors
        else (if b.deactivation_timeout == 0
            then err invalid_deactivation_timeout
            else (if b.shutdown_timeout == 0
                then err invalid_shutdown_timeout
                else validate_each b.registrations [])))

abbrev or_default : Option ℕ → ℕ → Option ℕ
or_default none d = some d
or_default (some n) d = some n

abbrev filled : ServerBuilderCore → Registration → Registration
filled b r = record r {
  mailbox_capacity = or_default r.mailbox_capacity b.mailbox_capacity;
  idle_timeout = or_default r.idle_timeout b.idle_timeout;
}

unfoldable pub fill :
    ServerBuilderCore → List Registration → Map Bytes Registration → Map Bytes Registration
fill b [] m = m
fill b (r ∷ rs) m = fill b rs (insert r.name (filled b r) m)

module _ (sem : Semaphore) (mpsc : Mpsc MailboxMessage) where
  open sem use {semaphore}

  abbrev pub built : Option NodeAuthority → ServerBuilderCore → Server sem mpsc
  built authority b = record {
    registrations = fill b b.registrations [];
    actors = [];
    sessions = [];
    capacity = semaphore b.max_active_actors;
    max_active_actors = b.max_active_actors;
    next_generation = 1;
    status = running;
    transport_protocol_version = b.transport_protocol_version;
    authority = authority;
    completions = [];
  }

  after_validate :
      Option NodeAuthority
      → ServerBuilderCore
      → Result ServerError (Unit {0})
      → Option (Result ServerError (Server sem mpsc))
  after_validate authority b (err e) = some (err e)
  after_validate authority b (ok _) = if b.has_state then some (ok (built authority b)) else none

  -- `build_with_authority`; it panics without the App State.
  unfoldable pub build_with_authority :
      Option NodeAuthority → ServerBuilderCore → Option (Result ServerError (Server sem mpsc))
  unfolding after_validate
  build_with_authority authority b = after_validate authority b (validate b)
