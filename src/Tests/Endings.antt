-- ===== src/Tests/Endings.antt =====
-- A fence and a shutdown of a server with one room and one session.
use coactor.Base.{◌≡◌, refl, [], get}
use coactor.Failure.{SendError}
use coactor.Sessions.View.{IsValid}
use coactor.Server.{MailboxMessage}
use coactor.Server.Dispatch.Accounting.{Accounted}
use coactor.Server.Shutdown.{terminate_all_sessions, finish_fence}
use coactor.Server.Shutdown.Emptied.{to_all, terminate_all_sessions_lem, finish_fence_lem}
use coactor.Tests.Channels.{permits, queues}
use coactor.Tests.Mailboxes.{opening_room}

room-IsValid : IsValid opening_room.sessions
unfolding get
room-IsValid = (refl, (λ h. cc), (refl, tt), tt)

room-Accounted : Accounted permits (queues MailboxMessage) 0 2 opening_room
unfolding get
room-Accounted = record { distinct = (refl, tt); permits = refl }

terminate_all_sessions_lem_example :
    terminate_all_sessions opening_room.sessions SendError.node_fenced
    ≡ ([], to_all SendError.node_fenced opening_room.sessions)
terminate_all_sessions_lem_example =
    terminate_all_sessions_lem opening_room.sessions SendError.node_fenced room-IsValid

finish_fence_lem_example :
    ((finish_fence permits (queues MailboxMessage) opening_room).0.actors ≡ [])
    × ((finish_fence permits (queues MailboxMessage) opening_room).0.sessions ≡ [])
    × ((finish_fence permits (queues MailboxMessage) opening_room).0.capacity ≡ 2)
    × ((finish_fence permits (queues MailboxMessage) opening_room).1
        ≡ to_all SendError.node_fenced opening_room.sessions)
finish_fence_lem_example =
    finish_fence_lem permits (queues MailboxMessage) 2 opening_room room-Accounted room-IsValid
