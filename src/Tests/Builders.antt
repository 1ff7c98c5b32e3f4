-- ===== src/Tests/Builders.antt =====
-- A server of two Actor Types, of which one takes the defaults.
use coactor.Base.{
  ◌≡◌, refl, List, true, some, none, [], ◌∷◌, bytes, Bytes-discrete, ℕ_discrete, get, insert, err,
}
use coactor.Address.{is_dns_label}
use coactor.Failure.{duplicate_actor_type, invalid_mailbox_capacity}
use coactor.Server.{MailboxMessage, action, session_opened, Registration}
use coactor.Server.Dispatch.{Server}
use coactor.Server.Builder.{
  ServerBuilderCore, base, add_actor, validate, validate_each, fill, built, build_with_authority,
}
use coactor.Server.Builder.Ready.{IsReady, build_with_authority-IsReady}
use coactor.Server.Builder.Serving.{Call, dispatch_all, build_with_authority-dispatch_all}
use coactor.Server.Dispatch.Accounting.{Accounted}
use coactor.Tests.Channels.{permits, queues}

abbrev chat : Registration
chat = record { name = bytes "chat"; mailbox_capacity = some 4; idle_timeout = none }

abbrev user : Registration
user = record { name = bytes "user"; mailbox_capacity = none; idle_timeout = some 5 }

abbrev two : ServerBuilderCore
two = record (base true) { registrations = chat ∷ user ∷ [] }

abbrev server : Server permits (queues MailboxMessage)
server = built permits (queues MailboxMessage) none two

filled_test :
    server.registrations
    ≡ (bytes "chat", record chat { idle_timeout = some 60 })
      ∷ (bytes "user", record user { mailbox_capacity = some 32 })
      ∷ []
unfolding fill insert Bytes-discrete ℕ_discrete
filled_test = refl

duplicate_test : validate (add_actor chat two) ≡ err (duplicate_actor_type (bytes "chat"))
unfolding validate validate_each add_actor is_dns_label get insert Bytes-discrete ℕ_discrete
duplicate_test = refl

empty_mailbox_test :
    validate (add_actor (record chat { name = bytes "a"; mailbox_capacity = some 0 }) two)
    ≡ err invalid_mailbox_capacity
unfolding validate validate_each add_actor is_dns_label get insert Bytes-discrete ℕ_discrete
empty_mailbox_test = refl

build_with_authority-IsReady_example : IsReady permits (queues MailboxMessage) two server
unfolding build_with_authority validate validate_each is_dns_label get insert Bytes-discrete
    ℕ_discrete
build_with_authority-IsReady_example =
    build_with_authority-IsReady permits (queues MailboxMessage) none two server refl

-- Two messages to one Actor and one to an Actor of the other type.
abbrev calls : List Call
calls =
    record {
      now = 0;
      address = record { actor_type = bytes "chat"; actor_id = bytes "1" };
      message = session_opened (bytes "s1") 1;
    }
    ∷ record {
      now = 1;
      address = record { actor_type = bytes "chat"; actor_id = bytes "1" };
      message = action (bytes "s1") (bytes "hello");
    }
    ∷ record {
      now = 2;
      address = record { actor_type = bytes "user"; actor_id = bytes "1" };
      message = session_opened (bytes "s2") 2;
    }
    ∷ []

build_with_authority-dispatch_all_example :
    (s' : Server permits (queues MailboxMessage)) × (dispatch_all permits
        (queues MailboxMessage)
        calls
        server
      ≡ some s')
    × Accounted permits (queues MailboxMessage) 0 two.max_active_actors s'
unfolding build_with_authority validate validate_each is_dns_label get insert fill Bytes-discrete
    ℕ_discrete
build_with_authority-dispatch_all_example =
    build_with_authority-dispatch_all permits (queues MailboxMessage) none two server calls refl
      (λ h. cc, (λ h. cc, (λ h. cc, tt)))
