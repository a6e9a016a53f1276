-- ===== src/Calls/Reach.antt =====
-- Whole runs of the call service: handlers and timers in any order, each on the world it finds.
use time_flow_be.Prelude.{ℕ, ◌≡◌, some, Bool, false}
use time_flow_be.Calls.Types.{Call, Signal, is_active}
use time_flow_be.Calls.Machine.{Env, World, State, RingTimer, GraceTimer}
use time_flow_be.Calls.Finish.{load}
use time_flow_be.Calls.Service.{
  InitiateCallInput, initiate, accept, reject, end, mark_connected, relay, resume,
  on_socket_disconnect, ring_fired, grace_fired,
}
use time_flow_be.Calls.Lifecycle.{Trace, here, append}
use time_flow_be.Calls.Refines.{rows}
use time_flow_be.Calls.Handlers.{
  initiate-Follows, accept-Follows, reject-Follows, end-Follows, ring_fired-Follows,
  grace_fired-Follows, mark_connected-Follows, relay-Follows, resume-Follows,
  on_socket_disconnect-Follows,
}
use time_flow_be.Calls.OneCall.{OneCall, Trace-OneCall}
use time_flow_be.Calls.Final.{Trace-IsOver}

-- One request of a client, or one timer.
pub data Action : Type 0 where
  initiates : (id actor socket : ℕ) → InitiateCallInput → Action
  accepts : (actor socket call : ℕ) → Action
  rejects : (actor call : ℕ) → Action
  ends : (actor call : ℕ) → Bool → Action
  connects : (actor socket call : ℕ) → Action
  relays : (actor socket : ℕ) → Signal → (call payload : ℕ) → Action
  resumes : (actor socket call : ℕ) → Action
  disconnects : (user socket : ℕ) → Action
  rings_out : RingTimer → Action
  waited : GraceTimer → Action

module _ (env : Env) where
  -- The state after an action, whether it answered or threw.
  abbrev pub happen : World → Action → State env → State env
  happen w (initiates id actor socket input) s = (initiate env w id actor socket input s).1
  happen w (accepts actor socket call) s = (accept env w actor socket call s).1
  happen w (rejects actor call) s = (reject env w actor call s).1
  happen w (ends actor call broken) s = (end env w actor call broken s).1
  happen w (connects actor socket call) s = (mark_connected env w actor socket call s).1
  happen w (relays actor socket event call payload) s =
      (relay env actor socket event call payload s).1
  happen w (resumes actor socket call) s = (resume env w actor socket call s).1
  happen w (disconnects user socket) s = (on_socket_disconnect env w user socket s).1
  happen w (rings_out t) s = (ring_fired env w t s).1
  happen w (waited t) s = (grace_fired env w t s).1

  happen-Trace :
      (w : World) (a : Action) (s : State env) → Trace (rows env s) (rows env (happen w a s))
  happen-Trace w (initiates id actor socket input) s =
      initiate-Follows env w id actor socket input s
  happen-Trace w (accepts actor socket call) s = accept-Follows env w actor socket call s
  happen-Trace w (rejects actor call) s = reject-Follows env w actor call s
  happen-Trace w (ends actor call broken) s = end-Follows env w actor call broken s
  happen-Trace w (connects actor socket call) s = mark_connected-Follows env w actor socket call s
  happen-Trace w (relays actor socket event call payload) s =
      relay-Follows env actor socket event call payload s
  happen-Trace w (resumes actor socket call) s = resume-Follows env w actor socket call s
  happen-Trace w (disconnects user socket) s = on_socket_disconnect-Follows env w user socket s
  happen-Trace w (rings_out t) s = ring_fired-Follows env w t s
  happen-Trace w (waited t) s = grace_fired-Follows env w t s

  -- The states that a server passes through. Each action runs without interruption.
  pub data Run (s : State env) : State env → Type 0 where
    begin : Run s s
    then_happens : {s' : State env} (w : World) (a : Action) → Run s s' → Run s (happen w a s')

  -- However handlers and timers follow on each other, as long as each runs without interruption, what they do to the table of calls is a sequence of
  -- steps of the abstract life of a call.
  pub Run-refines : {s s' : State env} → Run s s' → Trace (rows env s) (rows env s')
  Run-refines begin = here
  Run-refines (then_happens {s'} w a run) = append (Run-refines run) (happen-Trace w a s')

  -- A run of handlers and timers, each of which runs without interruption, leads from a state in which ids of calls
  -- are distinct and nobody is on two calls to a state of which the same holds.
  pub Run-OneCall : {s s' : State env} → Run s s' → OneCall (rows env s) → OneCall (rows env s')
  Run-OneCall run h = Trace-OneCall (Run-refines run) h

  -- In a run of handlers and timers, each of which runs without interruption, a call that is over is never
  -- changed again: it is not answered, connected, resumed or finished a second time.
  pub Run-over_stays :
      {s s' : State env} (id : ℕ) (c : Call)
      → Run s s'
      → load env s id ≡ some c
      → is_active c.status ≡ false
      → load env s' id ≡ some c
  Run-over_stays id c run found over =
      (Trace-IsOver (Run-refines run) (record { found = found; over = over })).found
