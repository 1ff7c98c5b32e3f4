-- ===== src/Tests/Tasks.antt =====
-- The task of one chat room, whose Actor counts its messages.
use coactor.Base.{
  ℕ, ◌+◌, ◌≡◌, refl, false, List, [], ◌∷◌, Bytes, bytes, Bytes-discrete, ℕ_discrete, Result, ok,
  get, remove,
}
use coactor.Failure.{SendError}
use coactor.Address.{ActorAddress-discrete, address_eq}
use coactor.Sessions.{terminate_all}
use coactor.Server.{MailboxMessage, action, session_opened}
use coactor.Server.Dispatch.{remove_route, is_generation}
use coactor.Server.Task.{
  Ending, completed, panicked, Phase, activating, over, Hooks, Event, arrive, activated, received,
  shutdown_signal, ActorTask, execute_message, opens_of, finish, terminated, drain, step, run,
}
use coactor.Server.Task.Openings.{run_answered, answered_times, times, arrivals}
use coactor.Server.Task.Permits.{IsKeeping, IsSettled, run-IsSettled}
use coactor.Tests.Channels.{permits, queues}
use coactor.Tests.Mailboxes.{room, busy, busy-Accounted, hello}

-- It panics at an empty message.
abbrev ending_of : Bytes → Ending
ending_of [] = panicked
ending_of _ = completed

abbrev counter : Hooks permits (queues MailboxMessage)
counter = record {
  Actor = ℕ;
  activate = λ n s. (completed, n, s);
  handle = λ i payload n s. (ending_of payload, n + 1, s);
  session_opened_hook = λ i n s. (completed, n, s);
  session_closed_hook = λ i n s. (completed, n, s);
  deactivate = λ r n s. (n, s);
}

abbrev new_task : ActorTask permits (queues MailboxMessage) counter room 0 false
new_task = record {
  phase = activating;
  actor = 0;
  mailbox = hello ∷ [];
  server = busy;
  answers = [];
  dropped = [];
  sends = [];
  deactivations = [];
  released = false;
}

-- Two openings arrive, 40 and 41. The empty message between them stops the Actor.
abbrev events : List (Event permits (queues MailboxMessage))
events =
    arrive (session_opened (bytes "s1") 40)
    ∷ activated
    ∷ received
    ∷ arrive (action (bytes "s1") [])
    ∷ arrive (session_opened (bytes "s2") 41)
    ∷ shutdown_signal
    ∷ arrive hello
    ∷ []

abbrev ended : ActorTask permits (queues MailboxMessage) counter room 0 false
ended = run permits (queues MailboxMessage) counter room 0 false events new_task

abbrev outcome :
    ActorTask permits (queues MailboxMessage) counter room 0 false
    → Phase × ℕ × List (ℕ × Result SendError (Unit {0})) × List ℕ
outcome t = (t.phase, t.actor, t.answers, t.dropped)

panicked_test : outcome ended ≡ (over, 2, (40, ok tt) ∷ [], 41 ∷ [])
unfolding run step execute_message opens_of drain finish terminated remove_route is_generation get
    remove terminate_all ActorAddress-discrete Bytes-discrete ℕ_discrete
panicked_test = refl

run_answered_example : answered_times 41 ended.answers + times 41 ended.dropped ≡ 1
unfolding run step execute_message opens_of drain finish terminated remove_route is_generation get
    remove terminate_all arrivals ActorAddress-discrete Bytes-discrete ℕ_discrete
run_answered_example =
    run_answered permits (queues MailboxMessage) counter room 0 false 41 events new_task tt refl

counter-IsKeeping : IsKeeping permits (queues MailboxMessage) counter room 0 false 2
counter-IsKeeping = record {
  activate = λ n s v. v;
  handle = λ i payload n s v. v;
  opened = λ i n s v. v;
  closed = λ i n s v. v;
  deactivate = λ r n s v. v;
}

run-IsSettled_example : IsSettled permits (queues MailboxMessage) counter room 0 false 2 ended
run-IsSettled_example =
    run-IsSettled permits (queues MailboxMessage) counter room 0 false 2 counter-IsKeeping events
      new_task busy-Accounted
