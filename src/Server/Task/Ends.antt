-- ===== src/Server/Task/Ends.antt =====
-- A task that is over holds no message.
use coactor.Base.{ℕ, ◌≡◌, refl, ◌∙◌, Bool, true, false, List, [], ◌∷◌}
use coactor.Address.{ActorAddress}
use coactor.Tokio.{Semaphore, Mpsc}
use coactor.Server.{MailboxMessage, action, session_opened, session_closed}
use coactor.Server.Dispatch.{begin_deactivation}
use coactor.Server.Task.{
  Ending, completed, failed, panicked, Phase, activating, looping, over, Running, Hooks, Event,
  arrive, activated, received, senders_gone, shutdown_signal, aborted, idle_timeout, ActorTask,
  after_hook, after_opened, execute_message, finish, on_activation, carry_on, receive, stop,
  drain_next, drain, deactivated, on_idle, has_live_sessions, in_loop, in_activation, in_phase,
  step, run,
}

module _ (sem : Semaphore) (mpsc : Mpsc MailboxMessage) (hooks : Hooks sem mpsc)
    (address : ActorAddress) (generation : ℕ) (is_clustered : Bool) where
  abbrev Task : Type 0
  Task = ActorTask sem mpsc hooks address generation is_clustered

  -- Nothing waits in the mailbox of a task that is over.
  abbrev Shut : Phase → List MailboxMessage → Type 0
  Shut over ms = ms ≡ []
  Shut _ ms = Unit {0}

  abbrev pub IsShut : Task → Type 0
  IsShut t = Shut t.phase t.mailbox

  hook-phase :
      (x : Ending × hooks.Actor × Running sem mpsc) (t : Task)
      → (after_hook sem mpsc hooks address generation is_clustered x t).1.phase ≡ t.phase
  unfolding after_hook
  hook-phase (e, actor, server) t = refl

  opened-phase :
      (d : ℕ) (x : Ending × hooks.Actor × Running sem mpsc) (t : Task)
      → (after_opened sem mpsc hooks address generation is_clustered d x t).1.phase ≡ t.phase
  unfolding after_opened
  opened-phase d (completed, actor, server) t = refl
  opened-phase d (failed, actor, server) t = refl
  opened-phase d (panicked, actor, server) t = refl

  execute-phase :
      (m : MailboxMessage) (t : Task)
      → (execute_message sem mpsc hooks address generation is_clustered m t).1.phase ≡ t.phase
  unfolding execute_message
  execute-phase (action i payload) t = hook-phase (hooks.handle i payload t.actor t.server) t
  execute-phase (session_opened i d) t =
      opened-phase d (hooks.session_opened_hook i t.actor t.server) t
  execute-phase (session_closed i) t = hook-phase (hooks.session_closed_hook i t.actor t.server) t

  finish-IsShut : (t : Task) → IsShut (finish sem mpsc hooks address generation is_clustered t)
  unfolding finish
  finish-IsShut t = refl

  carry_on-IsShut :
      (x : Bool × Task)
      → x.1.phase ≡ looping
      → IsShut (carry_on sem mpsc hooks address generation is_clustered x)
  unfolding carry_on
  carry_on-IsShut (true, t) h = rw h tt
  carry_on-IsShut (false, t) h = finish-IsShut _

  receive-IsShut :
      (ms : List MailboxMessage) (t : Task)
      → t.phase ≡ looping
      → IsShut (receive sem mpsc hooks address generation is_clustered ms t)
  unfolding receive
  receive-IsShut [] t h = rw h tt
  receive-IsShut (m ∷ ms) t h =
      carry_on-IsShut
        (execute_message sem mpsc hooks address generation is_clustered m
          (record t { mailbox = ms }))
        (execute-phase m (record t { mailbox = ms }) ∙ h)

  drain_next-IsShut :
      (ms : List MailboxMessage) (x : Bool × Task)
      → ((t : Task) → IsShut (drain sem mpsc hooks address generation is_clustered ms t))
      → IsShut (
          drain_next sem mpsc hooks address generation is_clustered
            (drain sem mpsc hooks address generation is_clustered ms)
            x)
  unfolding drain_next
  drain_next-IsShut ms (true, t) k = k t
  drain_next-IsShut ms (false, t) k = finish-IsShut _

  drain-IsShut :
      (ms : List MailboxMessage) (t : Task)
      → IsShut (drain sem mpsc hooks address generation is_clustered ms t)
  unfolding drain stop
  drain-IsShut [] t = finish-IsShut _
  drain-IsShut (m ∷ ms) t =
      drain_next-IsShut ms (execute_message sem mpsc hooks address generation is_clustered m _)
        (λ u. drain-IsShut ms u)

  deactivated-IsShut :
      (x : Bool × Running sem mpsc) (t : Task)
      → t.phase ≡ looping
      → IsShut (deactivated sem mpsc hooks address generation is_clustered x t)
  unfolding deactivated
  deactivated-IsShut (false, server) t h = rw h tt
  deactivated-IsShut (true, server) t h = finish-IsShut _

  idle-IsShut :
      (k : mpsc.Chan) (b : Bool) (t : Task)
      → t.phase ≡ looping
      → IsShut (on_idle sem mpsc hooks address generation is_clustered k b t)
  unfolding on_idle
  idle-IsShut k true t h = rw h tt
  idle-IsShut k false t h =
      deactivated-IsShut (begin_deactivation sem mpsc address generation k t.server) t h

  activation-IsShut :
      (x : Ending × hooks.Actor × Running sem mpsc) (t : Task)
      → IsShut (on_activation sem mpsc hooks address generation is_clustered x t)
  unfolding on_activation
  activation-IsShut (completed, actor, server) t = tt
  activation-IsShut (failed, actor, server) t = finish-IsShut _
  activation-IsShut (panicked, actor, server) t = finish-IsShut _

  loop-IsShut :
      (e : Event sem mpsc) (t : Task)
      → t.phase ≡ looping
      → IsShut (in_loop sem mpsc hooks address generation is_clustered e t)
  unfolding in_loop
  loop-IsShut (arrive m) t h = rw h tt
  loop-IsShut activated t h = rw h tt
  loop-IsShut received t h = receive-IsShut t.mailbox t h
  loop-IsShut senders_gone t h = finish-IsShut _
  loop-IsShut shutdown_signal t h = drain-IsShut t.mailbox t
  loop-IsShut aborted t h = finish-IsShut t
  loop-IsShut (idle_timeout k) t h =
      idle-IsShut k (has_live_sessions sem mpsc hooks address generation is_clustered t) t h

  activating-IsShut :
      (e : Event sem mpsc) (t : Task)
      → t.phase ≡ activating
      → IsShut (in_activation sem mpsc hooks address generation is_clustered e t)
  unfolding in_activation
  activating-IsShut (arrive m) t h = rw h tt
  activating-IsShut activated t h = activation-IsShut (hooks.activate t.actor t.server) t
  activating-IsShut aborted t h = finish-IsShut t
  activating-IsShut _ t h = rw h tt

  phase-IsShut :
      (p : Phase) (e : Event sem mpsc) (t : Task)
      → t.phase ≡ p
      → IsShut t
      → IsShut (in_phase sem mpsc hooks address generation is_clustered p e t)
  unfolding in_phase
  phase-IsShut activating e t h v = activating-IsShut e t h
  phase-IsShut looping e t h v = loop-IsShut e t h
  phase-IsShut over e t h v = v

  pub run-IsShut :
      (es : List (Event sem mpsc)) (t : Task)
      → IsShut t
      → IsShut (run sem mpsc hooks address generation is_clustered es t)
  unfolding run step
  run-IsShut [] t v = v
  run-IsShut (e ∷ es) t v =
      run-IsShut es (step sem mpsc hooks address generation is_clustered e t)
        (phase-IsShut t.phase e t refl v)

  emptied : (p : Phase) (ms : List MailboxMessage) → p ≡ over → Shut p ms → ms ≡ []
  emptied activating ms e v = cc
  emptied looping ms e v = cc
  emptied over ms e v = v

  pub over_empty : (t : Task) → t.phase ≡ over → IsShut t → t.mailbox ≡ []
  over_empty t e v = emptied t.phase t.mailbox e v
