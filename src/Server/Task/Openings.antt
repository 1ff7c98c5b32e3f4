-- ===== src/Server/Task/Openings.antt =====
-- The openings that a mailbox accepts, their answers and the drops of their senders.
use coactor.Base.{
  ℕ, ◌+◌, ◌==◌, ◌≡◌, refl, sym, ◌∙◌, Bool, true, false, List, [], ◌∷◌, ◌++◌, Result, err, arith,
  if◌then◌else◌,
}
use coactor.Failure.{SendError}
use coactor.Address.{ActorAddress}
use coactor.Tokio.{Semaphore, Mpsc}
use coactor.Sessions.{SessionId}
use coactor.Server.{MailboxMessage, action, session_opened, session_closed}
use coactor.Server.Dispatch.{begin_deactivation}
use coactor.Server.Task.{
  Ending, completed, failed, panicked, Phase, activating, looping, over, Running, Hooks, Event,
  arrive, activated, received, senders_gone, shutdown_signal, aborted, idle_timeout, ActorTask,
  after_hook, after_opened, execute_message, opens_of, finish, fail_each, fail_pending, terminated,
  removed, on_activation, carry_on, receive, after_deactivate, stop, drain_next, drain, deactivated,
  on_idle, has_live_sessions, in_loop, in_activation, in_phase, step, run,
}
use coactor.Server.Task.Ends.{IsShut, run-IsShut, over_empty}

-- How often a number is in a list.
abbrev pub times : ℕ → List ℕ → ℕ
times c [] = 0
times c (d ∷ ds) = if d == c then times c ds + 1 else times c ds

times-append : (c : ℕ) (xs ys : List ℕ) → times c (xs ++ ys) ≡ times c xs + times c ys
times-append c [] ys = omega arith
times-append c (x ∷ xs) ys = ground (arith, times-append c xs ys)

abbrev pub answered_times : ℕ → List (ℕ × Result SendError (Unit {0})) → ℕ
answered_times c [] = 0
answered_times c ((d, _) ∷ ds) = if d == c then answered_times c ds + 1 else answered_times c ds

module _ (sem : Semaphore) (mpsc : Mpsc MailboxMessage) (hooks : Hooks sem mpsc)
    (address : ActorAddress) (generation : ℕ) (is_clustered : Bool) (c : ℕ) where
  abbrev pub Task : Type 0
  Task = ActorTask sem mpsc hooks address generation is_clustered

  abbrev waiting_times : List MailboxMessage → ℕ
  waiting_times ms = times c (opens_of sem mpsc hooks address generation is_clustered ms)

  -- The answers to `c`, its drops and its messages that wait.
  abbrev pub tally : Task → ℕ
  tally t = answered_times c t.answers + times c t.dropped + waiting_times t.mailbox

  opens-append :
      (xs ys : List MailboxMessage) → waiting_times (xs ++ ys) ≡ waiting_times xs + waiting_times ys
  unfolding opens_of
  opens-append [] ys = omega arith
  opens-append (action _ _ ∷ xs) ys = opens-append xs ys
  opens-append (session_opened _ d ∷ xs) ys = ground (arith, opens-append xs ys)
  opens-append (session_closed _ ∷ xs) ys = opens-append xs ys

  finish-tally :
      (t : Task) → tally (finish sem mpsc hooks address generation is_clustered t) ≡ tally t
  unfolding finish opens_of
  finish-tally t = omega (
    arith,
    times-append c (opens_of sem mpsc hooks address generation is_clustered t.mailbox) t.dropped,
  )

  fail_each-times :
      (e : SendError) (ds : List ℕ) (answers : List (ℕ × Result SendError (Unit {0})))
      → answered_times c (fail_each sem mpsc hooks address generation is_clustered e ds answers)
        ≡ times c ds + answered_times c answers
  unfolding fail_each
  fail_each-times e [] answers = omega arith
  fail_each-times e (d ∷ ds) answers = ground (arith, fail_each-times e ds ((d, err e) ∷ answers))

  fail_pending-tally :
      (e : SendError) (t : Task)
      → tally (fail_pending sem mpsc hooks address generation is_clustered e t) ≡ tally t
  unfolding fail_pending opens_of
  fail_pending-tally e t = omega (
    arith,
    fail_each-times e (opens_of sem mpsc hooks address generation is_clustered t.mailbox) t.answers,
  )

  hook-tally :
      (x : Ending × hooks.Actor × Running sem mpsc) (t : Task)
      → tally (after_hook sem mpsc hooks address generation is_clustered x t).1 ≡ tally t
  unfolding after_hook
  hook-tally (e, actor, server) t = refl

  opened-tally :
      (i : SessionId) (d : ℕ) (ms : List MailboxMessage)
      (x : Ending × hooks.Actor × Running sem mpsc) (t : Task)
      → tally
          (after_opened sem mpsc hooks address generation is_clustered d x
            (record t { mailbox = ms })).1
        ≡ tally (record t { mailbox = session_opened i d ∷ ms })
  unfolding after_opened opens_of
  opened-tally i d ms (completed, actor, server) t = ground arith
  opened-tally i d ms (failed, actor, server) t = ground arith
  opened-tally i d ms (panicked, actor, server) t = ground arith

  execute-tally :
      (m : MailboxMessage) (ms : List MailboxMessage) (t : Task)
      → tally
          (execute_message sem mpsc hooks address generation is_clustered m
            (record t { mailbox = ms })).1
        ≡ tally (record t { mailbox = m ∷ ms })
  unfolding execute_message opens_of
  execute-tally (action i payload) ms t =
      hook-tally (hooks.handle i payload t.actor t.server) (record t { mailbox = ms })
  execute-tally (session_opened i d) ms t =
      opened-tally i d ms (hooks.session_opened_hook i t.actor t.server) t
  execute-tally (session_closed i) ms t =
      hook-tally (hooks.session_closed_hook i t.actor t.server) (record t { mailbox = ms })

  hook-mailbox :
      (x : Ending × hooks.Actor × Running sem mpsc) (t : Task)
      → (after_hook sem mpsc hooks address generation is_clustered x t).1.mailbox ≡ t.mailbox
  unfolding after_hook
  hook-mailbox (e, actor, server) t = refl

  opened-mailbox :
      (d : ℕ) (x : Ending × hooks.Actor × Running sem mpsc) (t : Task)
      → (after_opened sem mpsc hooks address generation is_clustered d x t).1.mailbox ≡ t.mailbox
  unfolding after_opened
  opened-mailbox d (completed, actor, server) t = refl
  opened-mailbox d (failed, actor, server) t = refl
  opened-mailbox d (panicked, actor, server) t = refl

  execute-mailbox :
      (m : MailboxMessage) (t : Task)
      → (execute_message sem mpsc hooks address generation is_clustered m t).1.mailbox ≡ t.mailbox
  unfolding execute_message
  execute-mailbox (action i payload) t = hook-mailbox (hooks.handle i payload t.actor t.server) t
  execute-mailbox (session_opened i d) t =
      opened-mailbox d (hooks.session_opened_hook i t.actor t.server) t
  execute-mailbox (session_closed i) t =
      hook-mailbox (hooks.session_closed_hook i t.actor t.server) t

  ended-tally :
      (e : SendError) (t : Task)
      → tally (
          finish sem mpsc hooks address generation is_clustered
            (terminated sem mpsc hooks address generation is_clustered e t))
        ≡ tally t
  unfolding terminated
  ended-tally e t = finish-tally _

  carry_on-tally :
      (x : Bool × Task)
      → tally (carry_on sem mpsc hooks address generation is_clustered x) ≡ tally x.1
  unfolding carry_on
  carry_on-tally (true, t) = refl
  carry_on-tally (false, t) = ended-tally SendError.actor_stopped t

  receive-tally :
      (ms : List MailboxMessage) (t : Task)
      → tally
          (receive sem mpsc hooks address generation is_clustered ms (record t { mailbox = ms }))
        ≡ tally (record t { mailbox = ms })
  unfolding receive
  receive-tally [] t = refl
  receive-tally (m ∷ ms) t =
      carry_on-tally (
        execute_message sem mpsc hooks address generation is_clustered m
          (record t { mailbox = ms }))
      ∙ execute-tally m ms t

  stop-tally : (t : Task) → tally (stop sem mpsc hooks address generation is_clustered t) ≡ tally t
  unfolding stop terminated removed after_deactivate
  stop-tally t = finish-tally _

  drain_next-tally :
      (ms : List MailboxMessage) (x : Bool × Task)
      → ((t : Task)
          → tally (drain sem mpsc hooks address generation is_clustered ms t)
            ≡ tally (record t { mailbox = ms }))
      → x.1.mailbox ≡ ms
      → tally (
          drain_next sem mpsc hooks address generation is_clustered
            (drain sem mpsc hooks address generation is_clustered ms)
            x)
        ≡ tally x.1
  unfolding drain_next
  drain_next-tally ms (true, t) k h = rw (k t, sym h) refl
  drain_next-tally ms (false, t) k h = ended-tally SendError.actor_stopped t

  drain-tally :
      (ms : List MailboxMessage) (t : Task)
      → tally (drain sem mpsc hooks address generation is_clustered ms t)
        ≡ tally (record t { mailbox = ms })
  unfolding drain
  drain-tally [] t = stop-tally (record t { mailbox = [] })
  drain-tally (m ∷ ms) t =
      let x =
        execute_message sem mpsc hooks address generation is_clustered m
          (record t { mailbox = ms }) in
      drain_next-tally ms x (λ u. drain-tally ms u) (execute-mailbox m (record t { mailbox = ms }))
      ∙ execute-tally m ms t

  deactivated-tally :
      (x : Bool × Running sem mpsc) (t : Task)
      → tally (deactivated sem mpsc hooks address generation is_clustered x t) ≡ tally t
  unfolding deactivated removed after_deactivate
  deactivated-tally (false, server) t = refl
  deactivated-tally (true, server) t = finish-tally _

  idle-tally :
      (k : mpsc.Chan) (b : Bool) (t : Task)
      → tally (on_idle sem mpsc hooks address generation is_clustered k b t) ≡ tally t
  unfolding on_idle
  idle-tally k true t = refl
  idle-tally k false t =
      deactivated-tally (begin_deactivation sem mpsc address generation k t.server) t

  activation-tally :
      (x : Ending × hooks.Actor × Running sem mpsc) (t : Task)
      → tally (on_activation sem mpsc hooks address generation is_clustered x t) ≡ tally t
  unfolding on_activation removed
  activation-tally (completed, actor, server) t = refl
  activation-tally (failed, actor, server) t =
      ended-tally SendError.activation_failed _ ∙ fail_pending-tally SendError.activation_failed _
  activation-tally (panicked, actor, server) t =
      ended-tally SendError.actor_stopped _ ∙ fail_pending-tally SendError.actor_stopped _

  -- What an event adds to the mailbox of a task that is not over.
  abbrev pub arrived : Event sem mpsc → List MailboxMessage
  arrived (arrive m) = m ∷ []
  arrived _ = []

  abbrev pub accepted : Event sem mpsc → Phase → ℕ
  accepted e over = 0
  accepted e _ = waiting_times (arrived e)

  arrive-tally :
      (m : MailboxMessage) (t : Task)
      → tally (record t { mailbox = t.mailbox ++ m ∷ [] }) ≡ tally t + waiting_times (m ∷ [])
  arrive-tally m t = omega (arith, opens-append t.mailbox (m ∷ []))

  loop-tally :
      (e : Event sem mpsc) (t : Task)
      → tally (in_loop sem mpsc hooks address generation is_clustered e t)
        ≡ tally t + waiting_times (arrived e)
  unfolding in_loop removed opens_of
  loop-tally (arrive m) t = arrive-tally m t
  loop-tally activated t = omega arith
  loop-tally received t = omega (arith, receive-tally t.mailbox t)
  loop-tally senders_gone t =
      omega (arith, finish-tally (removed sem mpsc hooks address generation is_clustered t))
  loop-tally shutdown_signal t = omega (arith, drain-tally t.mailbox t)
  loop-tally aborted t = omega (arith, finish-tally t)
  loop-tally (idle_timeout k) t =
      omega
        (arith, idle-tally k (has_live_sessions sem mpsc hooks address generation is_clustered t) t)

  activating-tally :
      (e : Event sem mpsc) (t : Task)
      → tally (in_activation sem mpsc hooks address generation is_clustered e t)
        ≡ tally t + waiting_times (arrived e)
  unfolding in_activation opens_of
  activating-tally (arrive m) t = arrive-tally m t
  activating-tally activated t = omega (arith, activation-tally (hooks.activate t.actor t.server) t)
  activating-tally received t = omega arith
  activating-tally senders_gone t = omega arith
  activating-tally shutdown_signal t = omega arith
  activating-tally aborted t = omega (arith, finish-tally t)
  activating-tally (idle_timeout k) t = omega arith

  phase-tally :
      (p : Phase) (e : Event sem mpsc) (t : Task)
      → tally (in_phase sem mpsc hooks address generation is_clustered p e t)
        ≡ tally t + accepted e p
  unfolding in_phase
  phase-tally activating e t = activating-tally e t
  phase-tally looping e t = loop-tally e t
  phase-tally over e t = omega arith

  -- What the events add to the mailbox.
  unfoldable pub arrivals : List (Event sem mpsc) → Task → ℕ
  arrivals [] t = 0
  arrivals (e ∷ es) t =
      accepted e t.phase + arrivals es (step sem mpsc hooks address generation is_clustered e t)

  run-tally :
      (es : List (Event sem mpsc)) (t : Task)
      → tally (run sem mpsc hooks address generation is_clustered es t) ≡ tally t + arrivals es t
  unfolding run step arrivals
  run-tally [] t = omega arith
  run-tally (e ∷ es) t = omega (
    arith,
    run-tally es (step sem mpsc hooks address generation is_clustered e t),
    phase-tally t.phase e t,
  )

  empty_tally :
      (t : Task) → t.mailbox ≡ [] → answered_times c t.answers + times c t.dropped ≡ tally t
  unfolding opens_of
  empty_tally t e = rw e (omega arith)

  -- Whatever the hooks do and in whatever order the events come: once the task of an Actor is over,
  -- the answers to an opening and the drops of its sender are together as many as its messages that
  -- the mailbox accepted, with those that the task started with; none is left waiting.
  pub run_answered :
      (es : List (Event sem mpsc)) (t : Task)
      → IsShut sem mpsc hooks address generation is_clustered t
      → (run sem mpsc hooks address generation is_clustered es t).phase ≡ over
      → answered_times c (run sem mpsc hooks address generation is_clustered es t).answers
          + times c (run sem mpsc hooks address generation is_clustered es t).dropped
        ≡ tally t + arrivals es t
  run_answered es t v h =
      let u = run sem mpsc hooks address generation is_clustered es t in
      let e =
        over_empty sem mpsc hooks address generation is_clustered u h
          (run-IsShut sem mpsc hooks address generation is_clustered es t v) in
      omega (arith, run-tally es t, empty_tally u e)
