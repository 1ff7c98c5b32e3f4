-- ===== src/Tests/Mailboxes.antt =====
-- A server with one chat room, at concrete messages.
use coactor.Base.{
  ◌≡◌, ◌≢◌, refl, true, false, some, none, [], ◌∷◌, bytes, Bytes-discrete, ℕ_discrete, bytes_eq, ok,
  err, get, insert, remove, ite, arith,
}
use coactor.Failure.{SendError}
use coactor.Address.{ActorAddress, ActorAddress-discrete, address_eq}
use coactor.Transport.{Envelope, Kind, request}
use coactor.Sessions.{SessionId, sink, is_bound_to, register_actor, unregister_actor}
use coactor.Server.{
  MailboxMessage, action, session_opened, Registration, running, active, refusal, send_result,
  Route,
}
use coactor.Server.Dispatch.{mailbox_size, Server, Reply, drop_reservation, dispatch_message}
use coactor.Server.Dispatch.Accounting.{Accounted, dispatch_message-Accounted}
use coactor.Server.Dispatch.Frames.{Framed, dispatch_message-Framed}
use coactor.Server.Sessions.{finished, waiting, open_local_session, Inbound, dispatch_inbound}
use coactor.Server.Sessions.Opened.{open_finished, open_waiting}
use coactor.Server.Sessions.Isolation.{IsStranger, dispatch_inbound_stranger}
use coactor.Tests.Channels.{permits, queues}

abbrev pub room : ActorAddress
room = record { actor_type = bytes "chat"; actor_id = bytes "room-7" }

abbrev hall : ActorAddress
hall = record { actor_type = bytes "chat"; actor_id = bytes "hall" }

abbrev second : SessionId
second = bytes "session-00000002"

abbrev pub chat : Registration
chat = record { name = bytes "chat"; mailbox_capacity = some 1; idle_timeout = some 60000 }

-- No route yet, and two permits.
abbrev pub empty : Server permits (queues MailboxMessage)
empty = record {
  registrations = (bytes "chat", chat) ∷ [];
  actors = [];
  sessions = [];
  capacity = 2;
  max_active_actors = 2;
  next_generation = 0;
  status = running;
  transport_protocol_version = 2;
  authority = none;
  completions = [];
}

abbrev pub hello : MailboxMessage
hello = action (bytes "s1") (bytes "hello")

abbrev pub room_route : Route permits (queues MailboxMessage)
room_route = record {
  generation = 0;
  state = active;
  task = record {
    sender = record { size = 1; queue = hello ∷ []; is_open = true };
    shutdown = false;
    aborted = false;
    completed = false;
  };
}

-- The room is active, and its mailbox is full.
abbrev pub busy : Server permits (queues MailboxMessage)
busy = record empty { actors = (room, room_route) ∷ []; capacity = 1; next_generation = 1 }

-- The server after a dispatch, for one that answers.
abbrev server_of : Reply permits (queues MailboxMessage) → Server permits (queues MailboxMessage)
server_of none = empty
server_of (some (_, s)) = s

activated :
    dispatch_message permits (queues MailboxMessage) 0 room hello false empty ≡ some (ok tt, busy)
unfolding dispatch_message refusal mailbox_size get insert send_result ActorAddress-discrete
    Bytes-discrete ℕ_discrete
activated = refl

busy_test :
    dispatch_message permits (queues MailboxMessage) 0 room hello false busy
    ≡ some (err SendError.mailbox_full, busy)
unfolding dispatch_message refusal mailbox_size get insert send_result drop_reservation
    ActorAddress-discrete Bytes-discrete ℕ_discrete
busy_test = refl

empty-Accounted : Accounted permits (queues MailboxMessage) 0 2 empty
empty-Accounted = record { distinct = tt; permits = refl }

dispatch_message-Accounted_example : Accounted permits (queues MailboxMessage) 0 2 busy
dispatch_message-Accounted_example =
    dispatch_message-Accounted permits (queues MailboxMessage) 2 0 false room hello empty busy
      (ok tt) empty-Accounted activated

pub busy-Accounted : Accounted permits (queues MailboxMessage) 0 2 busy
unfolding get
busy-Accounted = record { distinct = (refl, tt); permits = refl }

room≢hall : room ≢ hall
room≢hall h = cc

dispatch_message-Framed_example : Framed permits (queues MailboxMessage) room hall empty busy
dispatch_message-Framed_example =
    dispatch_message-Framed permits (queues MailboxMessage) room hall 0 hello false empty busy
      (ok tt) room≢hall activated

-- An opening at the busy room fails: its session is gone, and its `oneshot` 9 has the error.
refused_opening :
    open_local_session permits (queues MailboxMessage) 0 room second 3 9 false busy
    ≡ some (
      finished (err SendError.mailbox_full),
      record busy { completions = (9, err SendError.mailbox_full) ∷ [] },
    )
unfolding open_local_session dispatch_message refusal mailbox_size get insert remove send_result
    drop_reservation register_actor unregister_actor ActorAddress-discrete Bytes-discrete ℕ_discrete
refused_opening = refl

open_finished_example :
    sink (record busy { completions = (9, err SendError.mailbox_full) ∷ [] }).sessions room second
    ≡ sink busy.sessions room second
open_finished_example =
    open_finished permits (queues MailboxMessage) 0 room second 3 9 false busy
      (record busy { completions = (9, err SendError.mailbox_full) ∷ [] })
      (err SendError.mailbox_full) refused_opening room second

abbrev pub opening_room : Server permits (queues MailboxMessage)
opening_room = record empty {
  actors =
      (
        room,
        record room_route {
          task = record (room_route.task) {
            sender = record { size = 1; queue = session_opened second 9 ∷ []; is_open = true };
          };
        },
      )
      ∷ [];
  sessions = (room, (second, 3) ∷ []) ∷ [];
  capacity = 1;
  next_generation = 1;
}

accepted_opening :
    open_local_session permits (queues MailboxMessage) 0 room second 3 9 false empty
    ≡ some (waiting, opening_room)
unfolding open_local_session dispatch_message refusal mailbox_size get insert remove send_result
    drop_reservation register_actor unregister_actor ActorAddress-discrete Bytes-discrete ℕ_discrete
accepted_opening = refl

open_waiting_example :
    sink opening_room.sessions room second
    ≡ ite
        (address_eq.dec room room)
        (ite (bytes_eq.dec second second) (some 3) (sink empty.sessions room second))
        (sink empty.sessions room second)
open_waiting_example =
    open_waiting permits (queues MailboxMessage) 0 room second 3 9 false empty opening_room
      accepted_opening room second

-- The connection 5 is bound to no session.
stranger : IsStranger permits (queues MailboxMessage) opening_room 5
unfolding is_bound_to get
stranger a i = ground arith

abbrev forged : Envelope
forged = request room second (Kind.action (bytes "hello"))

dispatch_inbound_stranger_example :
    (x : Inbound permits (queues MailboxMessage)) × (dispatch_inbound permits
        (queues MailboxMessage)
        (λ b. true)
        0
        forged
        (some 5)
        9
        none
        opening_room
      ≡ some x)
    × (x.server ≡ opening_room)
    × (x.pending ≡ false)
unfolding request
dispatch_inbound_stranger_example =
    dispatch_inbound_stranger permits (queues MailboxMessage) opening_room 5 stranger (λ b. true) 0
      forged 9 none (λ h. h)
