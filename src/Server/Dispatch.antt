-- ===== src/Server/Dispatch.antt =====
-- Delivery of a message to an Actor (coactor/src/runtime/core.rs), which activates it if need be.
pub mod Accounting
pub mod Frames
pub mod Total
use coactor.Base.{
  ℕ, suc, ◌+◌, ◌%◌, ◌^◌, ◌==◌, Bool, true, false, not, ◌||◌, Option, none, some, ◌∷◌, get, insert,
  remove, Result, ok, err, if◌then◌else◌, bytes_eq,
}
use coactor.Failure.{SendError}
use coactor.Address.{ActorAddress, address_eq}
use coactor.Tokio.{Semaphore, Mpsc, TrySendError}
use coactor.Cluster.Lease.{NodeAuthority, is_valid}
use coactor.Server.{
  MailboxMessage, session_opened, Registration, RouteState, active, deactivating, refusal,
  send_result, Spawned, Route, ServerInner,
}

abbrev pub authority_lost : ℕ → Option NodeAuthority → Bool
authority_lost now none = false
authority_lost now (some a) = not (is_valid a now)

-- The mailbox size that `spawn_actor` reads; it panics without a registration, without a configured
-- capacity or idle timeout, and tokio panics on a channel of size 0.
unfoldable pub configured : Option ℕ → Option ℕ → Option ℕ
configured (some (suc n)) (some _) = some (suc n)
configured _ _ = none

unfoldable pub mailbox_size : Option Registration → Option ℕ
unfolding configured
mailbox_size none = none
mailbox_size (some r) = configured r.mailbox_capacity r.idle_timeout

module _ (sem : Semaphore) (mpsc : Mpsc MailboxMessage) where
  open sem use {Sem, available_permits, try_acquire, release}
  open mpsc use {Chan, channel, try_send, capacity, max_capacity}

  abbrev pub Server : Type 0
  Server = ServerInner sem mpsc

  abbrev pub Reply : Type 0
  Reply = Option (Result SendError (Unit {0}) × Server)

  -- A reservation that is not used up goes back.
  unfoldable pub drop_reservation : Bool → Server → Server
  drop_reservation reserved s = if reserved then record s { capacity = release s.capacity } else s

  -- `fail_message`, and the reply to a session whose mailbox is full.
  fail_message : MailboxMessage → SendError → Server → Server
  fail_message (session_opened _ complete) e s = record s {
    completions = (complete, err e) ∷ s.completions;
  }
  fail_message _ e s = s

  -- `spawn_actor`: the handles of the new task.
  spawn_actor : ℕ → Spawned sem mpsc
  spawn_actor size = record {
    sender = channel size;
    shutdown = false;
    aborted = false;
    completed = false;
  }

  -- The end of `dispatch_message`, with a permit: spawn, send and insert the route.
  spawn_route : ActorAddress → MailboxMessage → Server → Option ℕ → Reply
  unfolding spawn_actor send_result
  spawn_route address message s none = none
  spawn_route address message s (some size) =
      let spawned = spawn_actor size in
      let (result, sender) = try_send message spawned.sender in
      some (
        send_result result,
        record s {
          actors =
              insert address
                (record {
                  generation = s.next_generation;
                  state = active;
                  task = record spawned { sender = sender };
                })
                s.actors;
          next_generation = (s.next_generation + 1) % 2 ^ 64;
        },
      )

  -- The permit: the reservation, or one that is acquired now.
  with_permit : Bool → ActorAddress → MailboxMessage → Server → Option Sem → Reply
  unfolding spawn_route mailbox_size fail_message
  with_permit true address message s _ =
      spawn_route address message s (mailbox_size (get address.actor_type s.registrations))
  with_permit false address message s (some left) =
      spawn_route address message (record s { capacity = left })
        (mailbox_size (get address.actor_type s.registrations))
  with_permit false address message s none =
      some (err SendError.runtime_at_capacity, fail_message message SendError.runtime_at_capacity s)

  activate : Bool → ActorAddress → MailboxMessage → Server → Reply
  unfolding with_permit
  activate reserved address message s =
      with_permit reserved address message s (try_acquire s.capacity)

  -- `actors.remove(address)`, which drops the route with its permit.
  unfoldable pub drop_route : ActorAddress → Server → Server
  drop_route address s = record s {
    actors = remove address s.actors;
    capacity = release s.capacity;
  }

  -- The arms on an active route, by what its mailbox answers.
  offer :
      Bool
      → ActorAddress
      → MailboxMessage
      → Route sem mpsc
      → Server
      → Result TrySendError (Unit {0}) × Chan
      → Reply
  unfolding drop_reservation fail_message activate drop_route
  offer reserved address message route s (ok _, sender) =
      let task = record (route.task) { sender = sender } in
      let s' = record s { actors = insert address (record route { task = task }) s.actors } in
      some (ok tt, drop_reservation reserved s')
  offer reserved address message route s (err TrySendError.full, _) = some (
    err SendError.mailbox_full,
    drop_reservation reserved (fail_message message SendError.mailbox_full s),
  )
  offer reserved address message route s (err TrySendError.closed, _) =
      activate reserved address message (drop_route address s)

  by_state : Bool → ActorAddress → MailboxMessage → Server → Route sem mpsc → RouteState → Reply
  unfolding offer
  by_state reserved address message s route active =
      offer reserved address message route s (try_send message route.task.sender)
  by_state reserved address message s route deactivating =
      some (err SendError.actor_deactivating, drop_reservation reserved s)

  by_route : Bool → ActorAddress → MailboxMessage → Server → Option (Route sem mpsc) → Reply
  unfolding by_state activate
  by_route reserved address message s none = activate reserved address message s
  by_route reserved address message s (some route) =
      by_state reserved address message s route route.state

  by_status : Bool → ActorAddress → MailboxMessage → Server → Option SendError → Reply
  unfolding by_route drop_reservation
  by_status reserved address message s (some e) = some (err e, drop_reservation reserved s)
  by_status reserved address message s none =
      by_route reserved address message s (get address s.actors)

  -- `ServerInner::dispatch_message`; `reserved` says whether it is handed a reservation.
  unfoldable pub dispatch_message : ℕ → ActorAddress → MailboxMessage → Bool → Server → Reply
  unfolding by_status
  dispatch_message now address message reserved s =
      if authority_lost now s.authority
      then some (err SendError.node_fenced, drop_reservation reserved s)
      else by_status reserved address message s (refusal s.status)

  -- The arm of `dispatch_message_if_active` on an active route.
  unfoldable pub offer_if_active :
      ActorAddress
      → MailboxMessage
      → Server
      → Option (Route sem mpsc)
      → Result SendError (Unit {0}) × Server
  unfolding send_result
  offer_if_active address message s none = (ok tt, s)
  offer_if_active address message s (some route) = elim (route.state) [
    | deactivating ↦ (ok tt, s)
    | active ↦
        let (result, sender) = try_send message route.task.sender in
        let task = record (route.task) { sender = sender } in
        (
          send_result result,
          record s { actors = insert address (record route { task = task }) s.actors },
        )
  ]

  -- `ServerInner::dispatch_message_if_active`.
  unfoldable pub dispatch_message_if_active :
      ActorAddress → MailboxMessage → Server → Result SendError (Unit {0}) × Server
  unfolding offer_if_active
  dispatch_message_if_active address message s =
      offer_if_active address message s (get address s.actors)

  unfoldable pub is_generation : ℕ → Option (Route sem mpsc) → Bool
  is_generation generation none = false
  is_generation generation (some route) = route.generation == generation

  -- `remove_route` (coactor/src/runtime/route.rs).
  unfoldable pub remove_route : ActorAddress → ℕ → Server → Server
  unfolding is_generation drop_route
  remove_route address generation s =
      if is_generation generation (get address s.actors) then drop_route address s else s

  begin_route : ActorAddress → ℕ → Chan → Server → Option (Route sem mpsc) → Bool × Server
  begin_route address generation sender s none = (false, s)
  begin_route address generation sender s (some route) =
      if not (route.generation == generation) || not (capacity sender == max_capacity sender)
      then (false, s)
      else (
        true,
        record s { actors = insert address (record route { state = deactivating }) s.actors },
      )

  -- `begin_deactivation`; `sender` is the mailbox of the actor task.
  unfoldable pub begin_deactivation : ActorAddress → ℕ → Chan → Server → Bool × Server
  unfolding begin_route
  begin_deactivation address generation sender s =
      begin_route address generation sender s (get address s.actors)
